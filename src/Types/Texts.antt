-- ===== src/Types/Texts.antt =====
-- The strings that the unions of types.ts consist of.
use push_and_pray.Prelude.Text.{Text, codes}
use push_and_pray.Prelude.{ℕ}
use push_and_pray.Js.Number.{number_text}
use push_and_pray.Types.{
  TableLimit, rows_25, rows_50, rows_100, rows_250, RangeValue, days_1, days_7, days_30, days_90,
  days_180, days_365, all, Metric, price, change, Layout, separate, compare, ChartStyle, line, area,
  points, TableOrder, asc, desc, Scale, linear, log, MovingAverage, off, over_3, over_7,
}

unfoldable pub range_text : RangeValue → Text
range_text days_1 = codes "1"
range_text days_7 = codes "7"
range_text days_30 = codes "30"
range_text days_90 = codes "90"
range_text days_180 = codes "180"
range_text days_365 = codes "365"
range_text all = codes "all"

unfoldable pub metric_text : Metric → Text
metric_text price = codes "price"
metric_text change = codes "change"

unfoldable pub layout_text : Layout → Text
layout_text separate = codes "separate"
layout_text compare = codes "compare"

unfoldable pub style_text : ChartStyle → Text
style_text line = codes "line"
style_text area = codes "area"
style_text points = codes "points"

unfoldable pub scale_text : Scale → Text
scale_text linear = codes "linear"
scale_text log = codes "log"

unfoldable pub average_text : MovingAverage → Text
average_text off = codes "off"
average_text over_3 = codes "3"
average_text over_7 = codes "7"

unfoldable pub order_text : TableOrder → Text
order_text desc = codes "desc"
order_text asc = codes "asc"

unfoldable pub limit_rows : TableLimit → ℕ
limit_rows rows_25 = 25
limit_rows rows_50 = 50
limit_rows rows_100 = 100
limit_rows rows_250 = 250

unfoldable pub limit_text : TableLimit → Text
unfolding number_text limit_rows
limit_text limit = number_text (limit_rows limit)

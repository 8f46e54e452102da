-- ===== src/Chart/Props.antt =====
-- What the page gives to a chart panel.
use push_and_pray.Prelude.{Bool}
use push_and_pray.Types.{ChartGroup, Metric, ChartStyle, Scale, MovingAverage}

-- `ChartPanelProps`
pub record PanelProps (W : Type 0) : Type 0 where
  pub group : ChartGroup W
  pub metric : Metric
  pub style : ChartStyle
  pub scale : Scale
  pub smooth : Bool
  pub moving_average : MovingAverage

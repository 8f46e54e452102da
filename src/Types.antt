-- ===== src/Types.antt =====
-- services/ui/frontend/src/types.ts: the rows that the server sends, the stored preferences, and
-- what a chart is drawn from. `W` is the type of JavaScript's numbers.
pub mod Texts
pub mod Body
use push_and_pray.Prelude.{Bool, Option, List}
use push_and_pray.Prelude.Text.{Text}
use push_and_pray.Js.Eq.{Instant}

pub data Category : Type 0 where
  crude_oil gasoline : Category

-- The constructors are named for the strings: "1", "7", "30", "90", "180", "365", "all".
pub data RangeValue : Type 0 where
  days_1 days_7 days_30 days_90 days_180 days_365 all : RangeValue

pub data Metric : Type 0 where
  price change : Metric

pub data Layout : Type 0 where
  separate compare : Layout

pub data ChartStyle : Type 0 where
  line area points : ChartStyle

pub data TableOrder : Type 0 where
  asc desc : TableOrder

pub data Scale : Type 0 where
  linear log : Scale

pub data MovingAverage : Type 0 where
  off over_3 over_7 : MovingAverage

pub data TableLimit : Type 0 where
  rows_25 rows_50 rows_100 rows_250 : TableLimit

-- `Record<string, unknown>`: what JSON can hold.
mutual
  pub data Json : Type 0 where
    null : Json
    flag : Bool → Json
    number : Text → Json
    text : Text → Json
    array : Items → Json
    object : Fields → Json

  pub data Items : Type 0 where
    nil : Items
    cons : Json → Items → Items

  pub data Fields : Type 0 where
    end : Fields
    field : Text → Json → Fields → Fields

pub record Observation : Type 0 where
  pub id : Text
  pub instrument_code : Text
  pub instrument_name : Text
  pub category : Category
  pub price : Text
  pub currency : Text
  pub unit : Text
  pub source : Text
  pub source_series_id : Text
  pub source_period : Text
  pub source_observed_at : Text
  pub scheduled_for : Text
  pub fetched_at : Text
  pub source_url : Text
  pub raw_data : Fields
  pub created_at : Text

pub record Instrument : Type 0 where
  pub code : Text
  pub name : Text
  pub category : Category
  pub currency : Text
  pub unit : Text

pub record Preferences : Type 0 where
  pub selected : Option (List Text)
  pub range : RangeValue
  pub metric : Metric
  pub layout : Layout
  pub style : ChartStyle
  pub table_order : TableOrder
  pub table_limit : TableLimit
  pub scale : Scale
  pub moving_average : MovingAverage
  pub smooth : Bool

module _ (W : Type 0) where
  pub record SeriesPoint : Type 0 where
    pub time : Instant
    pub value : W
    pub raw : W
    pub observation : Observation

  pub record Series : Type 0 where
    pub code : Text
    pub name : Text
    -- `none` stands for a value that is no text.
    pub color : Option Text
    pub points : List SeriesPoint

  pub record ChartGroup : Type 0 where
    pub key : Text
    pub title : Text
    pub unit : Text
    pub series : List Series

pub data LoadState : Type 0 where
  loading ready error : LoadState

-- ===== src/App/Session.antt =====
-- The state of the `App` component and the events that change it: the bootstrap, the debounced save
-- of the preferences, refreshing, and the controls. React renders once for the state updates of one
-- event, and then runs the save effect again if `preferences` or `ready` changed.
pub mod Invariant
pub mod Saving
pub mod Data
pub mod Kept
pub mod Drain
pub mod Saver
pub mod Refinement
pub mod Bootstrap
pub mod Refresh
use push_and_pray.Prelude.{
  ℕ, zero, suc, ◌-◌, Bool, true, false, Option, none, some, List, [], ◌∷◌, map, ◌++◌, if◌then◌else◌,
  ltb,
}
use push_and_pray.Prelude.Int.{ℤ}
use push_and_pray.Prelude.Text.{Text, codes}
use push_and_pray.Types.{
  Observation, Instrument, Preferences, RangeValue, Metric, Layout, ChartStyle, TableOrder,
  TableLimit, Scale, MovingAverage, LoadState, loading, ready, error,
}
use push_and_pray.Types
use push_and_pray.Api.{Failure, an_error, other, Settled, fulfilled, failed, MarketData}

unfoldable pub default_preferences : Preferences
default_preferences = record {
  selected = none;
  range = RangeValue.days_30;
  metric = Metric.price;
  layout = Layout.compare;
  style = ChartStyle.line;
  table_order = TableOrder.desc;
  table_limit = TableLimit.rows_50;
  scale = Scale.linear;
  moving_average = MovingAverage.off;
  smooth = true;
}

pub data SessionState : Type 0 where
  saved saving local : SessionState

-- The component's state, with what its effects have started: the bootstrap that has not ended, the
-- timer with the preferences that it will save, and the requests that have not settled.
pub record Session : Type 0 where
  pub preferences : Preferences
  pub observations : List Observation
  pub latest : List Observation
  pub instruments : List Instrument
  pub load_state : LoadState
  pub error_message : Text
  pub is_ready : Bool
  pub refreshing : Bool
  pub session_state : SessionState
  pub last_read : Option ℤ
  pub mounted : Bool
  pub bootstrapping : Bool
  pub timer : Option Preferences
  pub saves : List Preferences
  pub refreshes : ℕ

-- The first render, and the effects after it: the bootstrap starts, and nothing is saved yet.
unfoldable pub initial : Session
unfolding default_preferences
initial = record {
  preferences = default_preferences;
  observations = [];
  latest = [];
  instruments = [];
  load_state = loading;
  error_message = [];
  is_ready = false;
  refreshing = false;
  session_state = saving;
  last_read = none;
  mounted = true;
  bootstrapping = true;
  timer = none;
  saves = [];
  refreshes = 0;
}

-- `updatePreference(key, value)`
pub data Update : Type 0 where
  set_selected : List Text → Update
  set_range : RangeValue → Update
  set_metric : Metric → Update
  set_layout : Layout → Update
  set_style : ChartStyle → Update
  set_table_order : TableOrder → Update
  set_table_limit : TableLimit → Update
  set_scale : Scale → Update
  set_moving_average : MovingAverage → Update
  set_smooth : Bool → Update

unfoldable pub update_preference : Update → Preferences → Preferences
update_preference (set_selected v) p = record p { selected = some v }
update_preference (set_range v) p = record p { range = v }
update_preference (set_metric v) p = record p { metric = v }
update_preference (set_layout v) p = record p { layout = v }
update_preference (set_style v) p = record p { style = v }
update_preference (set_table_order v) p = record p { table_order = v }
update_preference (set_table_limit v) p = record p { table_limit = v }
update_preference (set_scale v) p = record p { scale = v }
update_preference (set_moving_average v) p = record p { moving_average = v }
update_preference (set_smooth v) p = record p { smooth = v }

pub data Event : Type 0 where
  -- The bootstrap has come to its end, at a time: both promises have settled, or the market data
  -- failed, and then the other result is not looked at.
  bootstrapped : Settled Preferences → Settled MarketData → ℤ → Event
  -- A control was used.
  updated : Update → Event
  -- 350 ms have passed since the save effect ran.
  timer_fired : Event
  -- The save at this place of `saves` has settled.
  save_settled : ℕ → Settled Preferences → Event
  -- The refresh button, which is disabled during a refresh.
  refresh_clicked : Event
  -- The button of the error banner, which is shown in the state "error".
  try_again_clicked : Event
  refresh_settled : Settled MarketData → ℤ → Event
  unmounted : Event

abbrev pub message_of : Failure → Text
message_of (an_error message) = message
message_of other = codes "Unknown error"

-- `applyMarketData`
unfoldable pub apply_market_data : MarketData → ℤ → Session → Session
apply_market_data market now s = record s {
  latest = market.latest;
  observations = market.observations;
  instruments = market.instruments;
  last_read = some now;
}

abbrev not_local : SessionState → SessionState
not_local local = local
not_local _ = saving

-- The save effect: its cleanup clears the old timer, and a new one starts once `ready` holds.
unfoldable pub save_effect : Session → Session
save_effect s =
    if s.is_ready
    then record s { session_state = not_local s.session_state; timer = some s.preferences }
    else record s { timer = none }

abbrev stored_or_default : Settled Preferences → Preferences
stored_or_default (fulfilled stored) = stored
stored_or_default (failed f) = default_preferences

abbrev availability : Settled Preferences → SessionState
availability (fulfilled stored) = saved
availability (failed f) = local

-- `preferenceResult.stored.selected ?? marketData.instruments.map((instrument) => instrument.code)`
abbrev selection : Preferences → MarketData → List Text
selection stored market = elim stored.selected [
  | some codes ↦ codes
  | none ↦ map (λ instrument. instrument.code) market.instruments
]

unfoldable pub finish_bootstrap : Settled Preferences → Settled MarketData → ℤ → Session → Session
unfolding apply_market_data save_effect default_preferences
finish_bootstrap preference (fulfilled market) now s =
    let stored = stored_or_default preference in
    let s' = apply_market_data market now s in
    save_effect (record s' {
      preferences = record stored { selected = some (selection stored market) };
      session_state = availability preference;
      load_state = ready;
      is_ready = true;
      bootstrapping = false;
    })
finish_bootstrap preference (failed f) now s = record s {
  load_state = error;
  error_message = message_of f;
  bootstrapping = false;
}

unfoldable pub start_refresh : Session → Session
start_refresh s = record s { refreshing = true; refreshes = suc s.refreshes }

unfoldable pub finish_refresh : Settled MarketData → ℤ → Session → Session
unfolding apply_market_data
finish_refresh (fulfilled market) now s =
    let s' = apply_market_data market now s in
    record s' {
      load_state = ready;
      error_message = [];
      refreshing = false;
      refreshes = s.refreshes - 1;
    }
finish_refresh (failed f) now s = record s {
  error_message = message_of f;
  refreshing = false;
  refreshes = s.refreshes - 1;
}

-- The list without the entry at a place.
unfoldable pub remove_at : ℕ → List Preferences → List Preferences
remove_at i [] = []
remove_at zero (p ∷ ps) = ps
remove_at (suc i) (p ∷ ps) = p ∷ remove_at i ps

abbrev after_save : Settled Preferences → SessionState
after_save (fulfilled p) = saved
after_save (failed f) = local

abbrev pub save_count : List Preferences → ℕ
save_count [] = 0
save_count (p ∷ ps) = suc (save_count ps)

send : Option Preferences → Session → Session
send none s = s
send (some p) s = record s { timer = none; saves = p ∷ s.saves }

when_error : LoadState → Session → Session
unfolding start_refresh
when_error error s = start_refresh s
when_error _ s = s

-- One event. What can not occur in a state, such as the click of a disabled button, changes nothing.
react : Event → Session → Session
unfolding finish_bootstrap start_refresh finish_refresh update_preference save_effect send
    when_error remove_at
react (bootstrapped preference market now) s =
    if s.bootstrapping then finish_bootstrap preference market now s else s
react (updated u) s = save_effect (record s { preferences = update_preference u s.preferences })
react timer_fired s = send s.timer s
react (save_settled i result) s =
    if ltb i (save_count s.saves)
    then record s { session_state = after_save result; saves = remove_at i s.saves }
    else s
react refresh_clicked s = if s.refreshing then s else start_refresh s
react try_again_clicked s = when_error s.load_state s
react (refresh_settled market now) s = if ltb 0 s.refreshes then finish_refresh market now s else s
react unmounted s = record s { mounted = false; bootstrapping = false; timer = none }

-- After the unmount nothing is rendered and no effect runs.
unfoldable pub step : Event → Session → Session
unfolding react
step e s = if s.mounted then react e s else s

unfoldable pub run : Session → List Event → Session
unfolding step
run s [] = s
run s (e ∷ es) = run (step e s) es

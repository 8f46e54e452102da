-- ===== src/Checks/Samples.antt =====
-- States and runs of the client for the tests.
use push_and_pray.Prelude.{true, false, some, List, [], ◌∷◌}
use push_and_pray.Prelude.Int.{pos}
use push_and_pray.Prelude.Text.{codes}
use push_and_pray.Js.Eq.{text_key}
use push_and_pray.Types.{Preferences, days_7, days_90, LoadState}
use push_and_pray.Platform.Samples.{decimal_dates, whole_numbers, rows, instruments}
use push_and_pray.Api.{other, fulfilled, failed, MarketData}
use push_and_pray.App.Session.{
  Session, initial, default_preferences, set_range, set_smooth, Event, bootstrapped, updated,
  timer_fired, save_settled, refresh_clicked, refresh_settled, unmounted,
}

abbrev pub market : MarketData
market = record { latest = rows; observations = rows; instruments = instruments }

unfoldable pub stored : Preferences
unfolding default_preferences
stored = record default_preferences { selected = some (codes "WTI_USD_BBL" ∷ []) }

-- A component that shows data, with an earlier save under way.
unfoldable pub live : Session
unfolding initial
live = record initial {
  preferences = stored;
  observations = rows;
  instruments = instruments;
  load_state = LoadState.ready;
  is_ready = true;
  last_read = some (pos 5);
  bootstrapping = false;
  saves = stored ∷ [];
  refreshing = true;
  refreshes = 1;
}

-- A component whose bootstrap has failed, during "Try again".
unfoldable pub stranded : Session
unfolding initial
stranded = record initial {
  load_state = LoadState.error;
  bootstrapping = false;
  refreshing = true;
  refreshes = 1;
}

abbrev pub some_events : List Event
some_events =
    updated (set_range days_7)
    ∷ bootstrapped (failed other) (fulfilled market) (pos 5)
    ∷ updated (set_smooth false)
    ∷ timer_fired
    ∷ updated (set_range days_90)
    ∷ save_settled 0 (fulfilled stored)
    ∷ refresh_clicked
    ∷ refresh_settled (failed other) (pos 6)
    ∷ unmounted
    ∷ []

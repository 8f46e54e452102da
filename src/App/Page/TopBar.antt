-- ===== src/App/Page/TopBar.antt =====
-- The header of the page.
use push_and_pray.Prelude.{Bool, Option, none, some, [], ◌∷◌, ◌++◌, if◌then◌else◌}
use push_and_pray.Prelude.Int.{ℤ}
use push_and_pray.Prelude.Text.{Text, codes}
use push_and_pray.Js.Outcome.{Outcome, returns, ◌>>=◌}
use push_and_pray.Types.{LoadState, ready}
use push_and_pray.Platform.{Dates}
use push_and_pray.Format.{date_number, format_date_time}
use push_and_pray.Markup.{
  Node, text, on_click, sized, flag, named, el, words, named_by, class, icon,
}
use push_and_pray.App.Session.{Session, SessionState, saved, saving, local, Event, refresh_clicked}

-- `loadState === "ready" ? "online" : "pending"`
unfoldable pub load_class : LoadState → Text
load_class ready = codes "online"
load_class _ = codes "pending"

unfoldable pub session_label : SessionState → Text
session_label saved = codes "PostgreSQL session saved"
session_label local = codes "Local defaults"
session_label saving = codes "Saving session"

module _ ⦃d : Dates⦄ where
  -- `lastRead ? ... : "Waiting for data"`
  unfoldable pub last_read_text : Option ℤ → Outcome Text
  unfolding format_date_time
  last_read_text none = returns (codes "Waiting for data")
  last_read_text (some now) = do
    time ← format_date_time (date_number (some now))
    returns (time ++ codes " UTC")

module _ {C : Type 0} where
  unfoldable pub session_icon : SessionState → Node Event C
  session_icon saved = icon "Check" 13
  session_icon local = icon "CloudOff" 13
  session_icon saving = icon "Activity" 13

  unfoldable pub brand : Node Event C
  brand = el "a" (class "brand" ∷ named_by "href" "/" ∷ named_by "aria-label" "PetroScope" ∷ []) (
      el "span" (class "brand-symbol" ∷ []) (icon "Waves" 22 ∷ [])
      ∷ el "span" [] (
          el "strong" [] (words "PetroScope" ∷ [])
          ∷ el "small" [] (words "Energy market research" ∷ [])
          ∷ [])
      ∷ [])

  unfoldable pub refresh_button : Bool → Node Event C
  refresh_button refreshing =
      el "button"
        (class "refresh-button"
          ∷ named_by "type" "button"
          ∷ on_click refresh_clicked
          ∷ flag (codes "disabled") refreshing
          ∷ [])
        (el "RefreshCw"
            (sized (codes "size") 16
              ∷ named (codes "className") (if refreshing then codes "spinning" else codes "")
              ∷ [])
            []
          ∷ el "span" [] (text (if refreshing then codes "Syncing" else codes "Refresh") ∷ [])
          ∷ [])

  module _ ⦃d : Dates⦄ where
    unfoldable pub top_bar : Session → Outcome (Node Event C)
    unfolding last_read_text load_class session_icon session_label brand refresh_button
    top_bar s = do
      time ← last_read_text s.last_read
      returns (
          el "header" (class "topbar" ∷ []) (
            brand
            ∷ el "div" (class "system-strip" ∷ []) (
                el "span" [] (
                  el "i" (named (codes "className") (load_class s.load_state) ∷ []) []
                  ∷ words "History / PostgreSQL"
                  ∷ [])
                ∷ el "span" []
                    (session_icon s.session_state ∷ text (session_label s.session_state) ∷ [])
                ∷ el "time" [] (text time ∷ [])
                ∷ [])
            ∷ refresh_button s.refreshing
            ∷ []))

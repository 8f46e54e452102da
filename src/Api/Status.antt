-- ===== src/Api/Status.antt =====
-- The message of a response that is not ok.
use push_and_pray.Prelude.{ℕ, ◌≡◌, refl, false, ◌++◌}
use push_and_pray.Prelude.Text.{Text, codes}
use push_and_pray.Js.Number.{number_text}
use push_and_pray.Js.Number.Laws.{spelled, spelled-number_text}
use push_and_pray.Api.{Settled, failed, an_error, responded, request_json}

-- A response that is not ok fails, whatever its body is, with its status in decimal, a blank and the
-- text of its status.
pub request_json-decimal :
    {A : Type 0} (status : ℕ) (status_text : Text) (body : Settled A)
    → (digits : Text) × (request_json (responded false status status_text body)
        ≡ failed (an_error (digits ++ (codes " " ++ status_text))))
      × (spelled 0 digits ≡ status)
unfolding request_json
request_json-decimal status status_text body =
    (number_text status, refl, spelled-number_text status)

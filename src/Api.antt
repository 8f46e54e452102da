-- ===== src/Api.antt =====
-- services/ui/frontend/src/api.ts: the requests, what a response becomes, and the three requests
-- that `Promise.all` joins. The network is an argument: how each `fetch` ends, and in which order.
pub mod Server
pub mod Join
pub mod Status
use push_and_pray.Prelude.{
  ℕ, zero, suc, ◌+◌, ◌/◌, ◌%◌, Bool, Option, none, some, List, [], ◌∷◌, ◌++◌, if◌then◌else◌, ltb,
}
use push_and_pray.Prelude.Text.{Text, codes}
use push_and_pray.Js.Number.{number_text}
use push_and_pray.Types.{Observation, Instrument, Preferences, Json}
use push_and_pray.Types.Body.{preferences_json}

-- What a promise is rejected with: an `Error` with its message, or any other value.
pub data Failure : Type 0 where
  an_error : Text → Failure
  other : Failure

pub data Settled {ℓ} (A : Type ℓ) : Type ℓ where
  fulfilled : A → Settled A
  failed : Failure → Settled A

-- How a `fetch` ends: without a response, or with one whose body is JSON or is not.
pub data Fetched (A : Type 0) : Type 0 where
  unreachable : Failure → Fetched A
  responded : (is_ok : Bool) (status : ℕ) (status_text : Text) → Settled A → Fetched A

-- `requestJson`
unfoldable pub request_json : {A : Type 0} → Fetched A → Settled A
request_json (unreachable f) = failed f
request_json (responded is_ok status status_text body) =
    if is_ok then body else failed (an_error (number_text status ++ (codes " " ++ status_text)))

pub data Method : Type 0 where
  get put : Method

-- The arguments of `fetch`. The body is the JSON value whose text is sent.
pub record Request : Type 0 where
  pub url : Text
  pub method : Method
  pub headers : List (Text × Text)
  pub body : Option Json

abbrev accept_json : Text × Text
accept_json = (codes "Accept", codes "application/json")

abbrev content_json : Text × Text
content_json = (codes "Content-Type", codes "application/json")

-- `{ Accept: "application/json", ...init?.headers }`
abbrev with_accept : List (Text × Text) → List (Text × Text)
with_accept headers = accept_json ∷ headers

unfoldable pub get_request : Text → Request
get_request url = record { url = url; method = get; headers = with_accept []; body = none }

unfoldable pub load_preferences_request : Request
unfolding get_request
load_preferences_request = get_request (codes "/api/session/preferences")

unfoldable pub save_preferences_request : Preferences → Request
unfolding preferences_json
save_preferences_request preferences = record {
  url = codes "/api/session/preferences";
  method = put;
  headers = with_accept (content_json ∷ []);
  body = some (preferences_json preferences);
}

unfoldable pub market_requests : List Request
unfolding get_request
market_requests =
    get_request (codes "/api/latest")
    ∷ get_request (codes "/api/observations?limit=5000")
    ∷ get_request (codes "/api/instruments")
    ∷ []

pub record MarketData : Type 0 where
  pub latest : List Observation
  pub observations : List Observation
  pub instruments : List Instrument

-- ===== src/Api/Join.antt =====
-- `loadMarketData`: `Promise.all` over the three requests, as their settlements arrive.
use push_and_pray.Prelude.{◌≡◌, Option, none, some, List, [], ◌∷◌, arith}
use push_and_pray.Types.{Observation, Instrument}
use push_and_pray.Api.{Failure, Settled, fulfilled, failed, MarketData}

pub data Settlement : Type 0 where
  latest_settled : Settled (List Observation) → Settlement
  observations_settled : Settled (List Observation) → Settlement
  instruments_settled : Settled (List Instrument) → Settlement

-- The results so far.
pub record Slots : Type 0 where
  pub latest : Option (List Observation)
  pub observations : Option (List Observation)
  pub instruments : Option (List Instrument)

pub data Join : Type 0 where
  pending : Slots → Join
  resolved : MarketData → Join
  rejected : Failure → Join

-- The promise is resolved when the last result is there.
complete : Option (List Observation) → Option (List Observation) → Option (List Instrument) → Join
complete (some l) (some o) (some i) =
    resolved (record { latest = l; observations = o; instruments = i })
complete l o i = pending (record { latest = l; observations = o; instruments = i })

-- The first failure rejects it; whatever settles after that changes nothing.
unfoldable pub settle : Join → Settlement → Join
unfolding complete
settle (resolved market) e = resolved market
settle (rejected f) e = rejected f
settle (pending s) (latest_settled (fulfilled l)) = complete (some l) s.observations s.instruments
settle (pending s) (latest_settled (failed f)) = rejected f
settle (pending s) (observations_settled (fulfilled o)) = complete s.latest (some o) s.instruments
settle (pending s) (observations_settled (failed f)) = rejected f
settle (pending s) (instruments_settled (fulfilled i)) = complete s.latest s.observations (some i)
settle (pending s) (instruments_settled (failed f)) = rejected f

unfoldable pub settle_all : Join → List Settlement → Join
unfolding settle
settle_all j [] = j
settle_all j (e ∷ es) = settle_all (settle j e) es

unfoldable pub load_market_data : List Settlement → Join
unfolding settle_all
load_market_data =
    settle_all (pending (record { latest = none; observations = none; instruments = none }))

-- The orders in which the three requests can settle.
pub data Arrival : Type 0 where
  loi lio oli oil ilo iol : Arrival

unfoldable pub arrange :
    Arrival
    → Settled (List Observation)
    → Settled (List Observation)
    → Settled (List Instrument)
    → List Settlement
arrange loi l o i = latest_settled l ∷ observations_settled o ∷ instruments_settled i ∷ []
arrange lio l o i = latest_settled l ∷ instruments_settled i ∷ observations_settled o ∷ []
arrange oli l o i = observations_settled o ∷ latest_settled l ∷ instruments_settled i ∷ []
arrange oil l o i = observations_settled o ∷ instruments_settled i ∷ latest_settled l ∷ []
arrange ilo l o i = instruments_settled i ∷ latest_settled l ∷ observations_settled o ∷ []
arrange iol l o i = instruments_settled i ∷ observations_settled o ∷ latest_settled l ∷ []

failure_of : Settlement → Option Failure
failure_of (latest_settled (failed f)) = some f
failure_of (observations_settled (failed f)) = some f
failure_of (instruments_settled (failed f)) = some f
failure_of _ = none

unfoldable pub first_failure : List Settlement → Option Failure
unfolding failure_of
first_failure [] = none
first_failure (e ∷ es) = elim (failure_of e) [ some f ↦ some f | none ↦ first_failure es ]

-- How `Promise.all` is to end, by the first failure if there is one.
unfoldable pub expected :
    Option Failure
    → Settled (List Observation)
    → Settled (List Observation)
    → Settled (List Instrument)
    → Option Join
expected (some f) l o i = some (rejected f)
expected none (fulfilled l) (fulfilled o) (fulfilled i) =
    some (resolved (record { latest = l; observations = o; instruments = i }))
expected none l o i = none

-- In whatever order the three requests settle, `loadMarketData` comes to an end: it is rejected with the
-- failure that came first if one of them fails, and else resolved with each one's own value.
pub load_market_data-expected :
    (order : Arrival) (l o : Settled (List Observation)) (i : Settled (List Instrument))
    → expected (first_failure (arrange order l o i)) l o i
      ≡ some (load_market_data (arrange order l o i))
unfolding load_market_data arrange first_failure expected
load_market_data-expected loi l o i = ground arith
load_market_data-expected lio l o i = ground arith
load_market_data-expected oli l o i = ground arith
load_market_data-expected oil l o i = ground arith
load_market_data-expected ilo l o i = ground arith
load_market_data-expected iol l o i = ground arith

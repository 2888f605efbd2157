-- ===== src/Evaluation/Polling.antt =====
-- Waiting for a scenario's diagnosis (src/dag_doctor/evaluation/runner.py). The API's answers are a
-- parameter, by the moment at which they are asked for; a moment is a number.
pub mod Deadline
use dag_doctor.Base.{
  ℕ, zero, suc, ◌+◌, ◌-◌, leb, ltb, min, Text, Bool, true, false, Option, none, some, List, [], ◌∷◌,
  if◌then◌else◌,
}
use dag_doctor.Evaluation.Scorer.{Observed, nothing_observed}

-- An incident of a listing.
pub record Item : Type 0 where
  pub id : Text
  pub received_at : ℕ

-- What a request comes to: an `httpx.HTTPError`, or an answer.
pub data Response {ℓ} (A : Type ℓ) : Type ℓ where
  http_error : Response A
  answer : A → Response A

-- The agent's API at a moment: the listing of the scenario's incidents, and an incident's diagnosis
-- as `_observe` reads it.
pub record Agent : Type 0 where
  pub listing : ℕ → Response (List Item)
  pub detail : ℕ → Text → Response (Option Observed)

-- What follows an incident's diagnosis: without one, the loop goes on.
unfoldable pub on_detail :
    Response (Option Observed) → Response (Option Observed) → Response (Option Observed)
on_detail http_error rest = http_error
on_detail (answer none) rest = rest
on_detail (answer (some observed)) rest = answer (some observed)

module _ (agent : Agent) (started : ℕ) where
  -- The loop of `_latest_diagnosis`.
  unfoldable pub first_diagnosis : ℕ → List Item → Response (Option Observed)
  unfolding on_detail
  first_diagnosis now [] = answer none
  first_diagnosis now (item ∷ items) =
      let rest = first_diagnosis now items in
      if ltb item.received_at started then rest else on_detail (agent.detail now item.id) rest

  unfoldable pub on_listing : ℕ → Response (List Item) → Response (Option Observed)
  unfolding first_diagnosis
  on_listing now http_error = http_error
  on_listing now (answer items) = first_diagnosis now items

  -- `_latest_diagnosis`
  unfoldable pub latest_diagnosis : ℕ → Response (Option Observed)
  unfolding on_listing
  latest_diagnosis now = on_listing now (agent.listing now)

  -- `except httpx.HTTPError: observed = None`
  unfoldable pub or_none : Response (Option Observed) → Option Observed
  or_none http_error = none
  or_none (answer observed) = observed

  unfoldable pub poll : ℕ → Option Observed
  unfolding latest_diagnosis or_none
  poll now = or_none (latest_diagnosis now)

  -- What one poll leads to: `wait` is the rest of the loop, from the moment at which it polls again.
  unfoldable pub after_poll : ℕ → ℕ → ℕ → Option Observed → (ℕ → Option Observed) → Option Observed
  after_poll interval deadline now (some observed) wait = some observed
  after_poll interval deadline now none wait =
      if leb deadline now then some nothing_observed else wait (now + min interval (deadline - now))

  -- The loop of `await_diagnosis`: `spent` is what a poll takes. `none` means that the fuel ran out.
  unfoldable pub await_from : (ℕ → ℕ) → ℕ → ℕ → ℕ → ℕ → Option Observed
  unfolding after_poll poll
  await_from spent interval deadline zero now = none
  await_from spent interval deadline (suc fuel) now =
      after_poll interval deadline (now + spent now) (poll now)
        (λ next. await_from spent interval deadline fuel next)

  -- `await_diagnosis`, from a moment on.
  unfoldable pub await_diagnosis : (ℕ → ℕ) → ℕ → ℕ → ℕ → ℕ → Option Observed
  unfolding await_from
  await_diagnosis spent interval timeout fuel now =
      await_from spent interval (now + timeout) fuel now

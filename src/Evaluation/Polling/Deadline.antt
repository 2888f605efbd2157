-- ===== src/Evaluation/Polling/Deadline.antt =====
-- About the end of the wait and the age of what it finds (src/dag_doctor/evaluation/runner.py,
-- await_diagnosis).
use dag_doctor.Base.{
  ℕ, zero, suc, ◌+◌, ◌-◌, ◌≤◌, ◌<◌, leb, ltb, min, max, Bool, true, false, Option, none, some, List,
  [], ◌∷◌, ◌≡◌, refl, ap, ◌∙◌, arith, Bool-cases, Option-cases, inl, inr, Among, if◌then◌else◌,
}
use dag_doctor.Evaluation.Scorer.{Observed, nothing_observed}
use dag_doctor.Evaluation.Polling.{
  Item, Response, http_error, answer, Agent, on_detail, first_diagnosis, on_listing,
  latest_diagnosis, or_none, poll, after_poll, await_from, await_diagnosis,
}

module _ (agent : Agent) (started : ℕ) where
  -- A diagnosis that the API gives, at a moment, for a listed incident received since the start.
  pub record IsFresh (now : ℕ) (observed : Observed) : Type 0 where
    pub items : List Item
    pub item : Item
    pub listed : agent.listing now ≡ answer items
    pub one_of : Among item items
    pub recent : started ≤ item.received_at
    pub detailed : agent.detail now item.id ≡ answer (some observed)

  -- How the wait ended: with a diagnosis by the deadline, or with none at a last poll that the
  -- deadline had passed behind.
  pub data Awaited (spent : ℕ → ℕ) (now deadline : ℕ) : Observed → Type 0 where
    found :
        (t : ℕ) (observed : Observed)
        → now ≤ t
        → t ≤ max now deadline
        → IsFresh t observed
        → Awaited spent now deadline observed
    timed_out :
        (t : ℕ)
        → now ≤ t
        → t ≤ max now deadline
        → deadline ≤ t + spent t
        → poll agent started t ≡ none
        → Awaited spent now deadline nothing_observed

  from_earlier :
      (spent : ℕ → ℕ) (now next deadline : ℕ) (o : Observed)
      → now ≤ next
      → next ≤ deadline
      → Awaited spent next deadline o
      → Awaited spent now deadline o
  from_earlier spent now next deadline _ h k (found t o a b f) =
      found t o (omega arith) (omega arith) f
  from_earlier spent now next deadline _ h k (timed_out t a b c d) =
      timed_out t (omega arith) (omega arith) c d

  record IsFirst (now : ℕ) (items : List Item) (observed : Observed) : Type 0 where
    item : Item
    one_of : Among item items
    recent : started ≤ item.received_at
    detailed : agent.detail now item.id ≡ answer (some observed)

  later-IsFirst :
      (now : ℕ) (i : Item) (items : List Item) (o : Observed)
      → IsFirst now items o
      → IsFirst now (i ∷ items) o
  later-IsFirst now i items o h = record {
    item = h.item;
    one_of = inr h.one_of;
    recent = h.recent;
    detailed = h.detailed;
  }

  on_detail-IsFirst :
      (now : ℕ) (i : Item) (items : List Item) (o : Observed)
      (response rest : Response (Option Observed))
      → started ≤ i.received_at
      → agent.detail now i.id ≡ response
      → (or_none agent started rest ≡ some o → IsFirst now items o)
      → or_none agent started (on_detail response rest) ≡ some o
      → IsFirst now (i ∷ items) o
  unfolding on_detail or_none
  on_detail-IsFirst now i items o http_error rest s d ih h = absurd (ground arith)
  on_detail-IsFirst now i items o (answer none) rest s d ih h = later-IsFirst now i items o (ih h)
  on_detail-IsFirst now i items o (answer (some p)) rest s d ih h = record {
    item = i;
    one_of = inl refl;
    recent = s;
    detailed = d ∙ ap answer h;
  }

  item-IsFirst :
      (now : ℕ) (i : Item) (items : List Item) (o : Observed) (rest : Response (Option Observed))
      (old : Bool)
      → ltb i.received_at started ≡ old
      → (or_none agent started rest ≡ some o → IsFirst now items o)
      → or_none agent started (if old then rest else on_detail (agent.detail now i.id) rest)
        ≡ some o
      → IsFirst now (i ∷ items) o
  item-IsFirst now i items o rest true e ih h = later-IsFirst now i items o (ih h)
  item-IsFirst now i items o rest false e ih h =
      on_detail-IsFirst now i items o (agent.detail now i.id) rest (ground arith) refl ih h

  first_diagnosis-IsFirst :
      (now : ℕ) (items : List Item) (o : Observed)
      → or_none agent started (first_diagnosis agent started now items) ≡ some o
      → IsFirst now items o
  unfolding first_diagnosis or_none
  first_diagnosis-IsFirst now [] o h = absurd (ground arith)
  first_diagnosis-IsFirst now (i ∷ items) o h =
      item-IsFirst now i items o (first_diagnosis agent started now items)
        (ltb i.received_at started) refl (first_diagnosis-IsFirst now items o) h

  on_listing-IsFresh :
      (now : ℕ) (listing : Response (List Item)) (o : Observed)
      → agent.listing now ≡ listing
      → or_none agent started (on_listing agent started now listing) ≡ some o
      → IsFresh now o
  unfolding on_listing or_none
  on_listing-IsFresh now http_error o e h = absurd (ground arith)
  on_listing-IsFresh now (answer items) o e h =
      let f = first_diagnosis-IsFirst now items o h in
      record {
        items = items;
        item = f.item;
        listed = e;
        one_of = f.one_of;
        recent = f.recent;
        detailed = f.detailed;
      }

  poll-IsFresh : (now : ℕ) (o : Observed) → poll agent started now ≡ some o → IsFresh now o
  unfolding poll latest_diagnosis
  poll-IsFresh now o h = on_listing-IsFresh now (agent.listing now) o refl h

  await_from-Awaited :
      (spent : ℕ → ℕ) (interval deadline fuel now : ℕ)
      → 1 ≤ interval
      → deadline - now < fuel
      → (o : Observed) × (await_from agent started spent interval deadline fuel now ≡ some o)
        × Awaited spent now deadline o
  unfolding await_from after_poll
  await_from-Awaited spent interval deadline zero now h k = absurd (omega arith)
  await_from-Awaited spent interval deadline (suc fuel) now h k =
      elim (Option-cases (poll agent started now)) [
        | inr q ↦
            rw q.1 (q.0, refl, found now q.0 (omega arith) (omega arith) (poll-IsFresh now q.0 q.1))
        | inl q ↦ elim (Bool-cases (leb deadline (now + spent now))) [
          | inl over ↦
              rw (q, over)
                (nothing_observed, refl, timed_out now (omega arith) (omega arith) (ground arith) q)
          | inr early ↦
              let before : now + spent now < deadline = ground arith in
              let next = (now + spent now) + min interval (deadline - (now + spent now)) in
              let rest = await_from-Awaited spent interval deadline fuel next h (omega arith) in
              rw (q, early)
                (
                  rest.0,
                  rest.1,
                  from_earlier spent now next deadline rest.0 (omega arith) (omega arith) rest.2,
                )
        ]
      ]

-- Where the polls are at least a moment apart, the wait ends after at most one poll for each moment
-- of its timeout, and one, however long a poll takes. It ends with a diagnosis that the API gave, by
-- the deadline, for a listed incident received since the start, or with nothing, and then the last
-- poll, which ended at the deadline or later, gave none.
pub await_diagnosis-Awaited :
    (agent : Agent) (started : ℕ) (spent : ℕ → ℕ) (interval timeout now : ℕ)
    → 1 ≤ interval
    → (o : Observed) × (await_diagnosis agent started spent interval timeout (suc timeout) now
        ≡ some o)
      × Awaited agent started spent now (now + timeout) o
unfolding await_diagnosis
await_diagnosis-Awaited agent started spent interval timeout now h =
    await_from-Awaited agent started spent interval (now + timeout) (suc timeout) now h
      (omega arith)

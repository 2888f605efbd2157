-- ===== src/Messaging/Consumer/Delivery.antt =====
-- About one record of the failure topic (src/dag_doctor/messaging/consumer.py, process).
use dag_doctor.Base.{
  ℕ, zero, suc, ◌+◌, ◌-◌, ◌==◌, ◌≤◌, ◌≡◌, arith, refl, sym, subst, codes, Bool-cases, inl, inr,
  Bool, true, false, not, ◌&&◌, ◌||◌, List, [], ◌∷◌, ◌++◌, String, Text, if◌then◌else◌,
}
use dag_doctor.Core.Models.{FailureEvent}
use dag_doctor.Messaging.Schemas.{
  Parsed, message, unparseable, from_bytes, to_event, dead_letter, original_payload,
  original_payload-dead_letter,
}
use dag_doctor.Messaging.Base64.{Bytes}
use dag_doctor.Messaging.Consumer.{
  ConsumerRecord, World, HandlerOutcome, handled, invalid_event, dag_doctor_error, unexpected,
  Effect, called, slept, parked, park_failed, committed, commit_failed, raised, Done, after, park,
  commit, on_outcome, on_parsed, try_from, handle_with_retries, commit_if, process,
}

-- The handler succeeded, or the dead-letter topic has the message.
abbrev pub settles : Effect → Bool
settles (called attempt success) = success
settles (parked letter) = true
settles _ = false

abbrev pub is_refused : Effect → Bool
is_refused (park_failed letter) = true
is_refused _ = false

abbrev pub is_commit : Effect → Bool
is_commit (committed topic partition next) = true
is_commit _ = false

abbrev pub some_effect : (Effect → Bool) → List Effect → Bool
some_effect p [] = false
some_effect p (x ∷ xs) = p x || some_effect p xs

-- How often the handler was called.
abbrev pub calls : List Effect → ℕ
calls [] = 0
calls (called attempt success ∷ fx) = suc (calls fx)
calls (_ ∷ fx) = calls fx

-- What an effect says of the record: a commit is of the next offset on its partition, and a dead
-- letter carries its payload and coordinates.
abbrev pub Fits : ConsumerRecord → Effect → Type 0
Fits r (committed topic partition next) =
    (topic ≡ r.topic) × (partition ≡ r.partition) × (next ≡ suc r.offset)
Fits r (commit_failed topic partition next) =
    (topic ≡ r.topic) × (partition ≡ r.partition) × (next ≡ suc r.offset)
Fits r (parked letter) =
    (original_payload letter ≡ r.value)
    × (letter.source_topic ≡ r.topic)
    × (letter.source_partition ≡ r.partition)
    × (letter.source_offset ≡ r.offset)
Fits r _ = Unit {0}

abbrev pub AllFit : ConsumerRecord → List Effect → Type 0
AllFit r [] = Unit {0}
AllFit r (x ∷ xs) = Fits r x × AllFit r xs

pub record IsFaithful (w : World) (r : ConsumerRecord) (fx : List Effect) : Type 0 where
  pub commits_settled : some_effect is_commit fx ≡ some_effect settles fx && w.takes_commit r
  pub commits_unless_refused :
      some_effect is_commit fx ≡ not (some_effect is_refused fx) && w.takes_commit r
  pub raises : raised fx ≡ some_effect settles fx && not (w.takes_commit r)
  pub bounded : calls fx ≤ w.attempts
  pub all_fit : AllFit r fx

-- The same of a method that has not committed yet, with `n` calls at most.
record IsReady (r : ConsumerRecord) (n : ℕ) (done : Done) : Type 0 where
  settled : some_effect settles done.effects ≡ done.may_commit
  refused : not (some_effect is_refused done.effects) ≡ done.may_commit
  uncommitted : some_effect is_commit done.effects ≡ false
  calm : raised done.effects ≡ false
  few : calls done.effects ≤ n
  fits : AllFit r done.effects

module _ (w : World) (r : ConsumerRecord) (bytes : Bytes r.value) where
  park-IsReady :
      (reason : String) (error : Text) (attempts : ℕ) → IsReady r 0 (park w r reason error attempts)
  unfolding park dead_letter
  park-IsReady reason error attempts = ground (
    arith,
    original_payload-dead_letter r.value reason error r.topic r.partition r.offset attempts bytes,
  )

  failed-IsReady :
      (n attempt : ℕ) (done : Done)
      → IsReady r n done
      → IsReady r (suc n) (after (called attempt false ∷ []) done)
  failed-IsReady n attempt done h = ground arith

  paused-IsReady :
      (n attempt : ℕ) (done : Done)
      → IsReady r n done
      → IsReady r (suc n) (after (called attempt false ∷ slept attempt ∷ []) done)
  paused-IsReady n attempt done h = ground arith

  weaken-IsReady : (n : ℕ) (done : Done) → IsReady r 0 done → IsReady r n done
  weaken-IsReady n done h = ground arith

  -- A failed call is the last, and the record is parked, or the loop goes on.
  retry-IsReady :
      (attempt left : ℕ) (reason : String) (error : Text) (retry : Done)
      → ((attempt == w.attempts) ≡ false → IsReady r left retry)
      → IsReady r (suc left) (
          if attempt == w.attempts
          then after (called attempt false ∷ []) (park w r reason error attempt)
          else after (called attempt false ∷ slept attempt ∷ []) retry)
  retry-IsReady attempt left reason error retry h = elim (Bool-cases (attempt == w.attempts)) [
    | inl e ↦
        rw e (
          failed-IsReady left attempt _ (weaken-IsReady left _ (park-IsReady reason error attempt)))
    | inr e ↦ rw e (paused-IsReady left attempt retry (h e))
  ]

  on_outcome-IsReady :
      (attempt left : ℕ) (outcome : HandlerOutcome) (retry : Done)
      → ((attempt == w.attempts) ≡ false → IsReady r left retry)
      → IsReady r (suc left) (on_outcome w r attempt outcome retry)
  unfolding on_outcome
  on_outcome-IsReady attempt left handled retry h = ground arith
  on_outcome-IsReady attempt left (invalid_event error) retry h =
      failed-IsReady left attempt _ (weaken-IsReady left _ (park-IsReady "rejected" error attempt))
  on_outcome-IsReady attempt left (dag_doctor_error error) retry h =
      retry-IsReady attempt left "handler_failed" error retry h
  on_outcome-IsReady attempt left (unexpected type_name error) retry h =
      retry-IsReady attempt left "unexpected_error" (type_name ++ (codes ": " ++ error)) retry h

  try_from-IsReady :
      (event : FailureEvent) (attempt left : ℕ)
      → attempt + suc left ≡ suc w.attempts
      → IsReady r (suc left) (try_from w r event attempt (suc left))
  unfolding try_from
  try_from-IsReady event attempt zero e =
      on_outcome-IsReady attempt zero (w.handler event attempt) _ (λ q. absurd (ground arith))
  try_from-IsReady event attempt (suc left) e =
      on_outcome-IsReady attempt (suc left) (w.handler event attempt) _
        (λ q. try_from-IsReady event (suc attempt) left (omega arith))

  handle-IsReady :
      (event : FailureEvent) → 1 ≤ w.attempts → IsReady r w.attempts (handle_with_retries w r event)
  unfolding handle_with_retries
  handle-IsReady event h =
      let e : w.attempts ≡ suc (w.attempts - 1) = omega arith in
      subst (λ n. IsReady r n (try_from w r event 1 n)) (sym e)
        (try_from-IsReady event 1 (w.attempts - 1) (omega arith))

  on_parsed-IsReady :
      (parsed : Parsed) → 1 ≤ w.attempts → IsReady r w.attempts (on_parsed w r parsed)
  unfolding on_parsed
  on_parsed-IsReady (unparseable error) h =
      weaken-IsReady w.attempts _ (park-IsReady "unparseable" error 1)
  on_parsed-IsReady (message m) h = handle-IsReady (to_event m) h

some_effect-append :
    (p : Effect → Bool) (xs ys : List Effect)
    → some_effect p (xs ++ ys) ≡ some_effect p xs || some_effect p ys
some_effect-append p [] ys = refl
some_effect-append p (x ∷ xs) ys = ground (arith, some_effect-append p xs ys)

pub raised-append : (xs ys : List Effect) → raised (xs ++ ys) ≡ raised xs || raised ys
raised-append [] ys = refl
raised-append (commit_failed t p n ∷ xs) ys = refl
raised-append (_ ∷ xs) ys = raised-append xs ys

calls-append : (xs ys : List Effect) → calls (xs ++ ys) ≡ calls xs + calls ys
calls-append [] ys = omega arith
calls-append (called a s ∷ xs) ys = omega (arith, calls-append xs ys)
calls-append (_ ∷ xs) ys = calls-append xs ys

AllFit-append :
    (r : ConsumerRecord) (xs ys : List Effect) → AllFit r xs → AllFit r ys → AllFit r (xs ++ ys)
AllFit-append r [] ys h k = k
AllFit-append r (x ∷ xs) ys h k = (h.0, AllFit-append r xs ys h.1 k)

commit-Fits : (w : World) (r : ConsumerRecord) → Fits r (commit w r)
unfolding commit
commit-Fits w r = elim (Bool-cases (w.takes_commit r)) [
  | inl e ↦ rw e (refl, refl, refl)
  | inr e ↦ rw e (refl, refl, refl)
]

module _ (w : World) (r : ConsumerRecord) (done : Done) (h : IsReady r w.attempts done) where
  committed-IsFaithful : done.may_commit ≡ true → IsFaithful w r (done.effects ++ commit w r ∷ [])
  unfolding commit
  committed-IsFaithful e = record {
    commits_settled = ground (
      arith,
      some_effect-append is_commit done.effects (commit w r ∷ []),
      some_effect-append settles done.effects (commit w r ∷ []),
    );
    commits_unless_refused = ground (
      arith,
      some_effect-append is_commit done.effects (commit w r ∷ []),
      some_effect-append is_refused done.effects (commit w r ∷ []),
    );
    raises = ground (
      arith,
      raised-append done.effects (commit w r ∷ []),
      some_effect-append settles done.effects (commit w r ∷ []),
    );
    bounded = ground (arith, calls-append done.effects (commit w r ∷ []), h.few);
    all_fit = AllFit-append r done.effects (commit w r ∷ []) h.fits (commit-Fits w r, tt);
  }

  kept-IsFaithful : done.may_commit ≡ false → IsFaithful w r done.effects
  kept-IsFaithful e = record {
    commits_settled = ground arith;
    commits_unless_refused = ground arith;
    raises = ground arith;
    bounded = h.few;
    all_fit = h.fits;
  }

  commit_if-IsFaithful : IsFaithful w r (commit_if w r done)
  unfolding commit_if
  commit_if-IsFaithful = elim (Bool-cases done.may_commit) [
    | inl e ↦ rw e (committed-IsFaithful e)
    | inr e ↦ rw e (kept-IsFaithful e)
  ]

-- Where at least one attempt is allowed, processing a record asks for a commit exactly if the handler
-- succeeded or the dead-letter topic took the message, and leaves the offset alone exactly if that
-- topic refused it; the commit is made if the broker takes it, and else raises, and nothing else does;
-- the handler is called at most `max_delivery_attempts` times; and what is committed is the next offset
-- of the record's partition, and what is parked carries the record's bytes and coordinates.
pub process-IsFaithful :
    (w : World) (r : ConsumerRecord) → 1 ≤ w.attempts → Bytes r.value → IsFaithful w r (process w r)
unfolding process
process-IsFaithful w r h bytes =
    commit_if-IsFaithful w r (on_parsed w r (from_bytes w.validate r.value))
      (on_parsed-IsReady w r bytes (from_bytes w.validate r.value) h)

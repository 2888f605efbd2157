-- ===== src/Messaging/Consumer/Progress.antt =====
-- About the run loop while the dead-letter topic takes every message
-- (src/dag_doctor/messaging/consumer.py, run).
use dag_doctor.Base.{
  codes, sym, ℕ, zero, suc, ◌≤◌, ◌≡◌, ap, ◌∙◌, refl, arith, true, false, not, all, if◌then◌else◌,
  String, Text, List, [], ◌∷◌, ◌++◌, map, length, Bool-cases, inl, inr,
}
use dag_doctor.Core.Models.{FailureEvent}
use dag_doctor.Messaging.Base64.{Bytes}
use dag_doctor.Messaging.Schemas.{
  DeadLetterMessage, Parsed, message, unparseable, to_event, from_bytes,
}
use dag_doctor.Messaging.Consumer.{
  ConsumerRecord, World, HandlerOutcome, handled, invalid_event, dag_doctor_error, unexpected,
  Effect, called, slept, parked, park_failed, committed, commit_failed, raised, Done, park, commit,
  on_outcome, try_from, handle_with_retries, on_parsed, commit_if, process, Delivered, run,
}
use dag_doctor.Messaging.Consumer.Delivery.{
  settles, is_commit, some_effect, raised-append, IsFaithful, process-IsFaithful,
}

pub record Commit : Type 0 where
  pub topic : String
  pub partition : ℕ
  pub next_offset : ℕ

-- What a consumer's effects commit, in order.
unfoldable pub commits : List Effect → List Commit
commits [] = []
commits (committed topic partition next ∷ fx) =
    record { topic = topic; partition = partition; next_offset = next } ∷ commits fx
commits (called attempt success ∷ fx) = commits fx
commits (slept seconds ∷ fx) = commits fx
commits (parked letter ∷ fx) = commits fx
commits (park_failed letter ∷ fx) = commits fx
commits (commit_failed topic partition next ∷ fx) = commits fx

commits-append : (xs ys : List Effect) → commits (xs ++ ys) ≡ commits xs ++ commits ys
unfolding commits
commits-append [] ys = refl
commits-append (committed topic partition next ∷ xs) ys =
    ap (λ t. record { topic = topic; partition = partition; next_offset = next } ∷ t)
      (commits-append xs ys)
commits-append (called attempt success ∷ xs) ys = commits-append xs ys
commits-append (slept seconds ∷ xs) ys = commits-append xs ys
commits-append (parked letter ∷ xs) ys = commits-append xs ys
commits-append (park_failed letter ∷ xs) ys = commits-append xs ys
commits-append (commit_failed topic partition next ∷ xs) ys = commits-append xs ys

abbrev pub commit_of : ConsumerRecord → Commit
commit_of r = record { topic = r.topic; partition = r.partition; next_offset = suc r.offset }

module _ (w : World) (accepts : (letter : DeadLetterMessage) → w.accepts letter ≡ true) where
  -- Nothing is committed or raised yet, and the offset may be committed.
  record IsReady (done : Done) : Type 0 where
    quiet : commits done.effects ≡ []
    calm : raised done.effects ≡ false
    free : done.may_commit ≡ true

  module _ (r : ConsumerRecord) where
    park-IsReady :
        (reason : String) (error : Text) (attempts : ℕ) → IsReady (park w r reason error attempts)
    unfolding park commits
    park-IsReady reason error attempts =
        rw accepts (record { quiet = refl; calm = refl; free = refl })

    on_outcome-IsReady :
        (attempt : ℕ) (outcome : HandlerOutcome) (retry : Done)
        → IsReady retry
        → IsReady (on_outcome w r attempt outcome retry)
    unfolding on_outcome commits
    on_outcome-IsReady attempt handled retry h = record { quiet = refl; calm = refl; free = refl }
    on_outcome-IsReady attempt (invalid_event error) retry h =
        let p = park-IsReady "rejected" error attempt in
        record { quiet = p.quiet; calm = p.calm; free = p.free }
    on_outcome-IsReady attempt (dag_doctor_error error) retry h =
        let p = park-IsReady "handler_failed" error attempt in ground arith
    on_outcome-IsReady attempt (unexpected type_name error) retry h =
        let p = park-IsReady "unexpected_error" (type_name ++ (codes ": " ++ error)) attempt in
        ground arith

    try_from-IsReady :
        (event : FailureEvent) (attempt left : ℕ) → IsReady (try_from w r event attempt left)
    unfolding try_from commits
    try_from-IsReady event attempt zero = record { quiet = refl; calm = refl; free = refl }
    try_from-IsReady event attempt (suc left) =
        on_outcome-IsReady attempt (w.handler event attempt) _
          (try_from-IsReady event (suc attempt) left)

    on_parsed-IsReady : (parsed : Parsed) → IsReady (on_parsed w r parsed)
    unfolding on_parsed handle_with_retries
    on_parsed-IsReady (unparseable error) = park-IsReady "unparseable" error 1
    on_parsed-IsReady (message m) = try_from-IsReady (to_event m) 1 w.attempts

    commit_if-commits :
        (done : Done)
        → IsReady done
        → commits (commit_if w r done) ≡ (if w.takes_commit r then commit_of r ∷ [] else [])
    unfolding commit_if commit commits
    commit_if-commits done h =
        rw (h.free, commits-append done.effects (commit w r ∷ []), h.quiet)
          (elim (Bool-cases (w.takes_commit r)) [ inl e ↦ rw e refl | inr e ↦ rw e refl ])

    commit_if-raised :
        (done : Done) → IsReady done → raised (commit_if w r done) ≡ not (w.takes_commit r)
    unfolding commit_if commit
    commit_if-raised done h =
        rw (h.free, raised-append done.effects (commit w r ∷ []), h.calm)
          (elim (Bool-cases (w.takes_commit r)) [ inl e ↦ rw e refl | inr e ↦ rw e refl ])

    process-commits : commits (process w r) ≡ (if w.takes_commit r then commit_of r ∷ [] else [])
    unfolding process
    process-commits = commit_if-commits _ (on_parsed-IsReady (from_bytes w.validate r.value))

    process-raised : raised (process w r) ≡ not (w.takes_commit r)
    unfolding process
    process-raised = commit_if-raised _ (on_parsed-IsReady (from_bytes w.validate r.value))

-- Effects with no commit among them commit nothing.
commits_none : (fx : List Effect) → some_effect is_commit fx ≡ false → commits fx ≡ []
unfolding commits
commits_none [] h = refl
commits_none (committed topic partition next ∷ fx) h = absurd (ground arith)
commits_none (called attempt success ∷ fx) h = commits_none fx h
commits_none (slept seconds ∷ fx) h = commits_none fx h
commits_none (parked letter ∷ fx) h = commits_none fx h
commits_none (park_failed letter ∷ fx) h = commits_none fx h
commits_none (commit_failed topic partition next ∷ fx) h = commits_none fx h

-- Each record is handled successfully or parked.
abbrev pub AllSettled : World → List ConsumerRecord → Type 0
AllSettled w [] = Unit {0}
AllSettled w (r ∷ rs) = (some_effect settles (process w r) ≡ true) × AllSettled w rs

abbrev pub AllBytes : List ConsumerRecord → Type 0
AllBytes [] = Unit {0}
AllBytes (r ∷ rs) = Bytes r.value × AllBytes rs

abbrev pub going : ConsumerRecord → Delivered
going r = record { delivered = r; stopping = false }

-- The records up to the first whose commit the broker does not take.
abbrev pub until_refused : World → List ConsumerRecord → List ConsumerRecord
until_refused w [] = []
until_refused w (r ∷ rs) = if w.takes_commit r then r ∷ until_refused w rs else []

-- Those and the first that is refused, if there is one: the records that the run meets.
abbrev pub through_refused : World → List ConsumerRecord → List ConsumerRecord
through_refused w [] = []
through_refused w (r ∷ rs) = r ∷ (if w.takes_commit r then through_refused w rs else [])

raised_or_committed :
    (w : World) (r : ConsumerRecord)
    → IsFaithful w r (process w r)
    → raised (process w r) ≡ not (w.takes_commit r)
    → (w.takes_commit r ≡ true → some_effect is_commit (process w r) ≡ true)
    → some_effect settles (process w r) ≡ true
raised_or_committed w r faithful e f = elim (Bool-cases (w.takes_commit r)) [
  | inl q ↦ let a = faithful.commits_settled in let b = f q in ground arith
  | inr q ↦ let a = faithful.raises in ground arith
]

module _ (w : World) (accepts : (letter : DeadLetterMessage) → w.accepts letter ≡ true) where
  process-is_commit :
      (r : ConsumerRecord) → w.takes_commit r ≡ true → some_effect is_commit (process w r) ≡ true
  process-is_commit r takes = elim (Bool-cases (some_effect is_commit (process w r))) [
    | inl e ↦ e
    | inr e ↦
        let q : length (commit_of r ∷ []) ≡ 0 = ap length (
          ap (λ b. if b then commit_of r ∷ [] else []) (sym takes)
          ∙ (sym (process-commits w accepts r) ∙ commits_none (process w r) e)) in
        absurd (omega arith)
  ]

  process-settles :
      (r : ConsumerRecord)
      → 1 ≤ w.attempts
      → Bytes r.value
      → some_effect settles (process w r) ≡ true
  process-settles r h bytes =
      raised_or_committed w r (process-IsFaithful w r h bytes) (process-raised w accepts r)
        (process-is_commit r)

  AllSettled-all :
      1 ≤ w.attempts
      → (rs : List ConsumerRecord) → AllBytes rs
      → AllSettled w (through_refused w rs)
  AllSettled-all h [] bytes = tt
  AllSettled-all h (r ∷ rs) bytes = elim (Bool-cases (w.takes_commit r)) [
    | inl e ↦ rw e (process-settles r h bytes.0, AllSettled-all h rs bytes.1)
    | inr e ↦ rw e (process-settles r h bytes.0, tt)
  ]

  run-commits :
      (rs : List ConsumerRecord)
      → commits (run w (map going rs)) ≡ map commit_of (until_refused w rs)
  unfolding run commits
  run-commits [] = refl
  run-commits (r ∷ rs) = elim (Bool-cases (w.takes_commit r)) [
    | inl e ↦
        rw
          (
            process-raised w accepts r,
            e,
            commits-append (process w r) (run w (map going rs)),
            process-commits w accepts r,
            e,
            run-commits rs,
          )
          refl
    | inr e ↦
        rw
          (
            process-raised w accepts r,
            e,
            commits-append (process w r) [],
            process-commits w accepts r,
            e,
          )
          refl
  ]

  run-raised :
      (rs : List ConsumerRecord) → raised (run w (map going rs)) ≡ not (all w.takes_commit rs)
  unfolding run
  run-raised [] = refl
  run-raised (r ∷ rs) = elim (Bool-cases (w.takes_commit r)) [
    | inl e ↦
        rw
          (
            process-raised w accepts r,
            e,
            raised-append (process w r) (run w (map going rs)),
            process-raised w accepts r,
            e,
            run-raised rs,
          )
          refl
    | inr e ↦
        rw
          (
            process-raised w accepts r,
            e,
            raised-append (process w r) [],
            process-raised w accepts r,
            e,
          )
          refl
  ]

-- Where at least one attempt is allowed and the dead-letter topic takes every message, whatever the
-- handler does, a run that is not asked to stop goes through the records that it is given up to the
-- first whose commit the broker does not take, if there is one: each record that it meets, that one
-- included, is handled successfully or parked; it commits the next offset of each before that one
-- once, in the order of delivery, and commits nothing else; and it raises exactly if there is such a
-- record, so that with a broker that takes every commit it goes through all of them.
pub run-commits-all :
    (w : World) (rs : List ConsumerRecord)
    → 1 ≤ w.attempts
    → ((letter : DeadLetterMessage) → w.accepts letter ≡ true)
    → AllBytes rs
    → (commits (run w (map going rs)) ≡ map commit_of (until_refused w rs))
      × (raised (run w (map going rs)) ≡ not (all w.takes_commit rs))
      × AllSettled w (through_refused w rs)
run-commits-all w rs h accepts bytes =
    (run-commits w accepts rs, run-raised w accepts rs, AllSettled-all w accepts h rs bytes)

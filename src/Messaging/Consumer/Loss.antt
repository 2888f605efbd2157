-- ===== src/Messaging/Consumer/Loss.antt =====
-- About the run loop and the committed positions (src/dag_doctor/messaging/consumer.py, run).
use dag_doctor.Base.{
  ℕ, suc, ◌≡◌, arith, refl, Bool, true, false, not, ◌&&◌, ◌||◌, String, str_eq, ◌==◌, eq_iff, ap,
  ◌∙◌, ◌≤◌, append-nil, Option, some, List, [], ◌∷◌, ◌++◌, if◌then◌else◌,
}
use dag_doctor.Messaging.Consumer.{
  ConsumerRecord, World, Effect, called, slept, parked, park_failed, committed, process, run,
  position, commit_failed, raised,
}
use dag_doctor.Messaging.Consumer.Delivery.{
  settles, is_commit, some_effect, AllFit, process-IsFaithful,
}
use dag_doctor.Messaging.Base64.{Bytes}

position-append :
    (topic : String) (partition : ℕ) (known : Option ℕ) (xs ys : List Effect)
    → position topic partition known (xs ++ ys)
      ≡ position topic partition (position topic partition known xs) ys
unfolding position
position-append topic partition known [] ys = refl
position-append topic partition known (committed t p next ∷ xs) ys =
    position-append topic partition (if str_eq t topic && p == partition then some next else known)
      xs ys
position-append topic partition known (called a s ∷ xs) ys =
    position-append topic partition known xs ys
position-append topic partition known (slept s ∷ xs) ys =
    position-append topic partition known xs ys
position-append topic partition known (parked l ∷ xs) ys =
    position-append topic partition known xs ys
position-append topic partition known (park_failed l ∷ xs) ys =
    position-append topic partition known xs ys
position-append topic partition known (commit_failed t p next ∷ xs) ys =
    position-append topic partition known xs ys

abbrev position_of : ConsumerRecord → Option ℕ → List Effect → Option ℕ
position_of r = position r.topic r.partition

-- Effects that fit a record move its partition to the next offset if one of them commits.
position_of-fit :
    (r : ConsumerRecord) (known : Option ℕ) (fx : List Effect)
    → AllFit r fx
    → position_of r known fx ≡ (if some_effect is_commit fx then some (suc r.offset) else known)
unfolding position
position_of-fit r known [] h = refl
position_of-fit r known (committed t p next ∷ fx) h =
    ground (arith, position_of-fit r (some next) fx h.1, eq_iff t r.topic)
position_of-fit r known (called a s ∷ fx) h = position_of-fit r known fx h.1
position_of-fit r known (slept s ∷ fx) h = position_of-fit r known fx h.1
position_of-fit r known (parked l ∷ fx) h = position_of-fit r known fx h.1
position_of-fit r known (park_failed l ∷ fx) h = position_of-fit r known fx h.1
position_of-fit r known (commit_failed t p next ∷ fx) h = position_of-fit r known fx h.1

position_of-process :
    (w : World) (r : ConsumerRecord) (known : Option ℕ)
    → 1 ≤ w.attempts
    → Bytes r.value
    → position_of r known (process w r) ≡ (
        if some_effect settles (process w r) && w.takes_commit r
        then some (suc r.offset)
        else known)
position_of-process w r known h bytes =
    let faithful = process-IsFaithful w r h bytes in
    position_of-fit r known (process w r) faithful.all_fit
    ∙ ap (λ b. if b then some (suc r.offset) else known) faithful.commits_settled

same_stop : (stopping : Bool) → (if◌then◌else◌ {A = List Effect} stopping [] []) ≡ []
same_stop true = refl
same_stop false = refl

not_raised :
    (w : World) (r : ConsumerRecord)
    → 1 ≤ w.attempts
    → Bytes r.value
    → some_effect settles (process w r) ≡ false
    → raised (process w r) ≡ false
not_raised w r h bytes lost =
    (process-IsFaithful w r h bytes).raises ∙ ap (λ b. b && not (w.takes_commit r)) lost

-- Of two records of one partition, let the first be neither handled nor parked, since the
-- dead-letter topic refused it, and let the second be handled or parked, and its commit taken by the
-- broker. Then the run ends with the partition committed past the second record, and so past the
-- first.
pub run_passes_over :
    (w : World) (first second : ConsumerRecord) (known : Option ℕ) (stopping : Bool)
    → 1 ≤ w.attempts
    → Bytes first.value
    → Bytes second.value
    → second.topic ≡ first.topic
    → second.partition ≡ first.partition
    → some_effect settles (process w first) ≡ false
    → some_effect settles (process w second) ≡ true
    → w.takes_commit second ≡ true
    → position first.topic first.partition known (
        run w (
          record { delivered = first; stopping = false }
          ∷ record { delivered = second; stopping = stopping }
          ∷ []))
      ≡ some (suc second.offset)
unfolding run
run_passes_over w first second known stopping h bytes_first bytes_second same_topic same_partition
      lost done takes =
    rw
      (
        not_raised w first h bytes_first lost,
        same_stop (raised (process w second) || stopping),
        append-nil,
        position-append first.topic first.partition known (process w first) (process w second),
        position_of-process w first known h bytes_first,
        lost,
        ← same_topic,
        ← same_partition,
        position_of-process w second known h bytes_second,
        done,
        takes,
      )
      refl

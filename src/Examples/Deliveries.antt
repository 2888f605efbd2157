-- ===== src/Examples/Deliveries.antt =====
-- Records of the failure topic, and a dead-letter topic that refuses one of them.
use dag_doctor.Base.{◌≡◌, ◌==◌, not, refl, arith, none, some, [], ◌∷◌, codes, false}
use dag_doctor.Base.{map, all, true}
use dag_doctor.Messaging.Consumer.Progress.{
  AllSettled, commits, commit_of, going, until_refused, through_refused, run-commits-all,
}
use dag_doctor.Messaging.Base64.{Bytes}
use dag_doctor.Messaging.Schemas.{from_bytes, dead_letter}
use dag_doctor.Messaging.Consumer.{
  ConsumerRecord, World, handled, unexpected, park, on_parsed, commit, commit_if, raised, process,
  run, position,
}
use dag_doctor.Messaging.Consumer.Delivery.{IsFaithful, settles, some_effect, process-IsFaithful}
use dag_doctor.Messaging.Consumer.Loss.{run_passes_over}

abbrev first : ConsumerRecord
first = record { topic = "task-failures"; partition = 0; offset = 4; value = 123 ∷ 10 ∷ [] }

abbrev second : ConsumerRecord
second = record { topic = "task-failures"; partition = 0; offset = 5; value = 125 ∷ [] }

-- No payload is valid, and the dead letter of the first record is refused.
abbrev refusing : World
refusing = record {
  validate = λ raw. none;
  handler = λ event attempt. handled;
  accepts = λ letter. not (letter.source_offset == 4);
  takes_commit = λ r. true;
  attempts = 3;
}

first_Bytes : Bytes first.value
first_Bytes = (omega arith, (omega arith, tt))

second_Bytes : Bytes second.value
second_Bytes = (omega arith, tt)

process-IsFaithful_example : IsFaithful refusing second (process refusing second)
process-IsFaithful_example = process-IsFaithful refusing second (omega arith) second_Bytes

first_lost : some_effect settles (process refusing first) ≡ false
unfolding process on_parsed commit_if commit park from_bytes dead_letter
first_lost = refl

second_parked : some_effect settles (process refusing second) ≡ true
unfolding process on_parsed commit_if commit park from_bytes dead_letter
second_parked = refl

run_passes_over_example :
    position "task-failures" 0 none (
      run refusing (
        record { delivered = first; stopping = false }
        ∷ record { delivered = second; stopping = true }
        ∷ []))
    ≡ some 6
run_passes_over_example =
    run_passes_over refusing first second none true (omega arith) first_Bytes second_Bytes refl refl
      first_lost second_parked refl

-- Every dead letter is accepted, the handler crashes on every call, and the broker does not take the
-- commit of the second record.
abbrev accepting : World
accepting = record {
  validate = λ raw. none;
  handler = λ event attempt. unexpected (codes "KeyError") (codes "task_id");
  accepts = λ letter. true;
  takes_commit = λ (r : ConsumerRecord). r.offset == 4;
  attempts = 2;
}

run-commits-all_example :
    (commits (run accepting (map going (first ∷ second ∷ [])))
      ≡ map commit_of (until_refused accepting (first ∷ second ∷ [])))
    × (raised (run accepting (map going (first ∷ second ∷ [])))
        ≡ not (all accepting.takes_commit (first ∷ second ∷ [])))
    × AllSettled accepting (through_refused accepting (first ∷ second ∷ []))
run-commits-all_example =
    run-commits-all accepting (first ∷ second ∷ []) (omega arith) (λ letter. refl)
      (first_Bytes, (second_Bytes, tt))

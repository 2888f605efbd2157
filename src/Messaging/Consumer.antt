-- ===== src/Messaging/Consumer.antt =====
-- The consumer of the failure topic (src/dag_doctor/messaging/consumer.py) and the dead-letter
-- publisher that it parks messages with (src/dag_doctor/messaging/dlq.py). What the handler and the
-- broker do is a parameter, one answer for each call; what the consumer does is a list of effects.
pub mod Delivery
pub mod Loss
pub mod Progress
use dag_doctor.Base.{
  ℕ, zero, suc, ◌+◌, ◌==◌, String, str_eq, Text, codes, Bool, true, false, ◌&&◌, ◌||◌, Option, none,
  some, List, [], ◌∷◌, ◌++◌, if◌then◌else◌,
}
use dag_doctor.Core.Models.{FailureEvent}
use dag_doctor.Messaging.Schemas.{
  TaskFailureMessage, to_event, Parsed, message, unparseable, from_bytes, DeadLetterMessage,
  dead_letter,
}

pub record ConsumerRecord : Type 0 where
  pub topic : String
  pub partition : ℕ
  pub offset : ℕ
  pub value : List ℕ

-- How one call of the handler ended.
pub data HandlerOutcome : Type 0 where
  handled : HandlerOutcome
  invalid_event dag_doctor_error : (error : Text) → HandlerOutcome
  unexpected : (type_name error : Text) → HandlerOutcome

-- What the consumer meets: the validation of a payload, the handler at each attempt on an event,
-- whether the broker takes a dead letter, whether it takes the commit of a record's offset, and
-- `max_delivery_attempts`.
pub record World : Type 0 where
  pub validate : List ℕ → Option TaskFailureMessage
  pub handler : FailureEvent → ℕ → HandlerOutcome
  pub accepts : DeadLetterMessage → Bool
  pub takes_commit : ConsumerRecord → Bool
  pub attempts : ℕ

-- What the consumer did: a call of the handler and whether it succeeded, a pause in seconds, a dead
-- letter written or refused, an offset committed, and a commit that the broker did not take, whose
-- exception leaves the consumer.
pub data Effect : Type 0 where
  called : (attempt : ℕ) (success : Bool) → Effect
  slept : (seconds : ℕ) → Effect
  parked park_failed : DeadLetterMessage → Effect
  committed commit_failed : (topic : String) (partition next_offset : ℕ) → Effect

-- Whether an exception left the consumer.
abbrev pub raised : List Effect → Bool
raised [] = false
raised (commit_failed topic partition next ∷ fx) = true
raised (_ ∷ fx) = raised fx

-- A method's effects, and whether the offset may be committed.
pub record Done : Type 0 where
  pub effects : List Effect
  pub may_commit : Bool

abbrev pub after : List Effect → Done → Done
after fx done = record { effects = fx ++ done.effects; may_commit = done.may_commit }

module _ (w : World) (r : ConsumerRecord) where
  -- `_park`, with `DeadLetterPublisher.park` inside: a refused write is reported, not raised.
  unfoldable pub park : String → Text → ℕ → Done
  park reason error attempts =
      let letter = dead_letter r.value reason error r.topic r.partition r.offset attempts in
      if w.accepts letter
      then record { effects = parked letter ∷ []; may_commit = true }
      else record { effects = park_failed letter ∷ []; may_commit = false }

  -- What follows one call of the handler: `retry` is the rest of the loop.
  unfoldable pub on_outcome : ℕ → HandlerOutcome → Done → Done
  unfolding park
  on_outcome attempt handled retry = record {
    effects = called attempt true ∷ [];
    may_commit = true;
  }
  on_outcome attempt (invalid_event error) retry =
      after (called attempt false ∷ []) (park "rejected" error attempt)
  on_outcome attempt (dag_doctor_error error) retry =
      if attempt == w.attempts
      then after (called attempt false ∷ []) (park "handler_failed" error attempt)
      else after (called attempt false ∷ slept attempt ∷ []) retry
  on_outcome attempt (unexpected type_name error) retry =
      if attempt == w.attempts
      then after (called attempt false ∷ [])
          (park "unexpected_error" (type_name ++ (codes ": " ++ error)) attempt)
      else after (called attempt false ∷ slept attempt ∷ []) retry

  -- The `for` loop over `range(attempt, attempts + 1)`, which has `left` rounds to go.
  unfoldable pub try_from : FailureEvent → ℕ → ℕ → Done
  unfolding on_outcome
  try_from event attempt zero = record { effects = []; may_commit = true }
  try_from event attempt (suc left) =
      let retry = try_from event (suc attempt) left in
      on_outcome attempt (w.handler event attempt) retry

  unfoldable pub handle_with_retries : FailureEvent → Done
  unfolding try_from
  handle_with_retries event = try_from event 1 w.attempts

  -- `_commit`: no exception of the broker is caught.
  unfoldable pub commit : Effect
  commit =
      if w.takes_commit r
      then committed r.topic r.partition (suc r.offset)
      else commit_failed r.topic r.partition (suc r.offset)

  -- `if done: await self._commit(record)`
  unfoldable pub commit_if : Done → List Effect
  unfolding commit
  commit_if done = if done.may_commit then done.effects ++ commit ∷ [] else done.effects

  unfoldable pub on_parsed : Parsed → Done
  on_parsed (unparseable error) = park "unparseable" error 1
  on_parsed (message m) = handle_with_retries (to_event m)

  -- `FailureConsumer.process`
  unfoldable pub process : List Effect
  unfolding on_parsed commit_if
  process = commit_if (on_parsed (from_bytes w.validate r.value))

-- `FailureConsumer.run`: the records in the order of delivery, each with whether `_stopping` is set
-- when it has been processed. An exception of `process` ends it.
pub record Delivered : Type 0 where
  pub delivered : ConsumerRecord
  pub stopping : Bool

unfoldable pub run : World → List Delivered → List Effect
run w [] = []
run w (d ∷ ds) =
    let rest = run w ds in
    let fx = process w d.delivered in fx ++ (if raised fx || d.stopping then [] else rest)

-- The position that a group has committed on a partition: that of the last commit.
unfoldable pub position : String → ℕ → Option ℕ → List Effect → Option ℕ
position topic partition known [] = known
position topic partition known (committed t p next ∷ fx) =
    position topic partition (if str_eq t topic && p == partition then some next else known) fx
position topic partition known (called a s ∷ fx) = position topic partition known fx
position topic partition known (slept s ∷ fx) = position topic partition known fx
position topic partition known (parked l ∷ fx) = position topic partition known fx
position topic partition known (park_failed l ∷ fx) = position topic partition known fx
position topic partition known (commit_failed t p next ∷ fx) = position topic partition known fx

-- ===== src/Messaging/Publisher.antt =====
-- The publisher of failure events (src/dag_doctor/messaging/producer.py, FailurePublisher): what it
-- asks of the broker is a list of calls, and how the broker answers is a parameter.
pub mod Orderly
use dag_doctor.Base.{
  Bool, true, false, not, ◌&&◌, ◌||◌, Option, none, some, List, [], ◌∷◌, ◌++◌, if◌then◌else◌,
}
use dag_doctor.Core.Models.{FailureEvent}
use dag_doctor.Messaging.Schemas.{TaskFailureMessage, from_event}

-- Whether a client can be built from the settings (the client's package may be missing, or its
-- constructor may raise), whether the broker is reached, which records it acknowledges, and whether
-- a client stops without an exception.
pub record Broker : Type 0 where
  pub builds : Bool
  pub reachable : Bool
  pub acknowledges : TaskFailureMessage → Bool
  pub closes : Bool

pub data Call : Type 0 where
  connected unreachable disconnected close_failed : Call
  sent unacknowledged : TaskFailureMessage → Call

-- The exceptions: four `MessagingError`s, and those that are none: of building the client, of
-- stopping it, and of reading the settings.
pub data Fault : Type 0 where
  no_broker before_start no_acknowledgement running_loop : Fault
  build_error client_error settings_error : Fault

-- `_producer is not None`, and `_started`.
pub record Publisher : Type 0 where
  pub producer : Bool
  pub started : Bool

pub record Done : Type 0 where
  pub publisher : Publisher
  pub calls : List Call
  pub fault : Option Fault

-- A publisher as it is made, with no client injected.
abbrev pub fresh : Publisher
fresh = record { producer = false; started = false }

module _ (broker : Broker) where
  -- `FailurePublisher.start`: a client that cannot be built is no `MessagingError`.
  unfoldable pub start : Publisher → Done
  start p =
      if p.started
      then record { publisher = p; calls = []; fault = none }
      else if not p.producer && not broker.builds
      then record { publisher = p; calls = []; fault = some build_error }
      else if broker.reachable
      then record {
        publisher = record { producer = true; started = true };
        calls = connected ∷ [];
        fault = none;
      }
      else record {
        publisher = record { producer = true; started = false };
        calls = unreachable ∷ [];
        fault = some no_broker;
      }

  -- `FailurePublisher.stop`
  unfoldable pub stop : Publisher → Done
  stop p =
      if not (p.producer && p.started)
      then record {
        publisher = record { producer = p.producer; started = false };
        calls = [];
        fault = none;
      }
      else if broker.closes
      then record {
        publisher = record { producer = p.producer; started = false };
        calls = disconnected ∷ [];
        fault = none;
      }
      else record { publisher = p; calls = close_failed ∷ []; fault = some client_error }

  -- `FailurePublisher.publish`
  unfoldable pub publish : FailureEvent → Publisher → Done
  publish event p =
      let message = from_event event in
      if not p.producer || not p.started
      then record { publisher = p; calls = []; fault = some before_start }
      else if broker.acknowledges message
      then record { publisher = p; calls = sent message ∷ []; fault = none }
      else record {
        publisher = p;
        calls = unacknowledged message ∷ [];
        fault = some no_acknowledgement;
      }

  -- An exception of `__aexit__` takes the place of the one in the block.
  unfoldable pub last_fault : Option Fault → Option Fault → Option Fault
  last_fault earlier (some fault) = some fault
  last_fault earlier none = earlier

  -- The block of the `async with`, once `__aenter__` is done.
  unfoldable pub within : FailureEvent → Done → Option Fault → Done
  unfolding publish stop last_fault
  within event entered (some fault) = entered
  within event entered none =
      let published = publish event entered.publisher in
      let left = stop published.publisher in
      record {
        publisher = left.publisher;
        calls = entered.calls ++ (published.calls ++ left.calls);
        fault = last_fault published.fault left.fault;
      }

  -- `publish_failure_event`
  unfoldable pub publish_failure_event : FailureEvent → Done
  unfolding start within
  publish_failure_event event = let entered = start fresh in within event entered entered.fault

  -- `publish_failure_event_blocking`, and whether a loop is running.
  unfoldable pub publish_failure_event_blocking : Bool → FailureEvent → Done
  unfolding publish_failure_event
  publish_failure_event_blocking in_loop event =
      if in_loop
      then record { publisher = fresh; calls = []; fault = some running_loop }
      else publish_failure_event event

-- A use of a publisher: any of its three methods, each time with the broker as it is then.
pub data Operation : Type 0 where
  starting stopping : Operation
  publishing : FailureEvent → Operation

unfoldable pub operate : Broker → Operation → Publisher → Done
unfolding start stop publish
operate broker starting p = start broker p
operate broker stopping p = stop broker p
operate broker (publishing event) p = publish broker event p

unfoldable pub operate_all : List (Operation × Broker) → Publisher → Done
unfolding operate
operate_all [] p = record { publisher = p; calls = []; fault = none }
operate_all ((op, broker) ∷ ops) p =
    let first = operate broker op p in
    let rest = operate_all ops first.publisher in
    record { publisher = rest.publisher; calls = first.calls ++ rest.calls; fault = rest.fault }

-- ===== src/Messaging/Callback/Quiet.antt =====
-- About what the callback publishes and what it lets out
-- (src/dag_doctor/messaging/airflow_callback.py).
use dag_doctor.Base.{
  ℕ, ◌≤◌, ◌<◌, ◌≡◌, refl, ap, arith, ◌⊎◌, inl, inr, Bool-cases, Bool, true, false, not, ◌&&◌,
  Option, none, some, any, length, take, ◌++◌, Text, String, codes, leb,
}
use dag_doctor.Core.Models.{ℤ, pos, negsuc, FailureEvent}
use dag_doctor.Messaging.Schemas.{from_event}
use dag_doctor.Messaging.Publisher.{
  Broker, Call, sent, build_error, client_error, settings_error, start, stop, publish, within,
  last_fault, publish_failure_event, publish_failure_event_blocking,
}
use dag_doctor.Messaging.Callback.{
  integer, moment, Instance, Context, Built, event_of, no_instance, not_identified, is_blank,
  attr_str, or_text, str_of, at_least_one, int_or, truncate, truncated, max_exception_message_chars,
  event_from, event_read, from_instance, build_failure_event, first_of, datetime_of, escapes,
  Outcome, on_event, on_built, on_task_failure,
}

-- What an event says of its task instance: stripped attributes, the context's run where the instance
-- has none, the attempt, the exception, and the moments.
pub record IsReadFrom (context : Context) (now : ℕ) (ti : Instance) (event : FailureEvent)
    : Type 0 where
  pub dag_read : event.dag_id ≡ attr_str ti "dag_id"
  pub task_read : event.task_id ≡ attr_str ti "task_id"
  pub run_read : is_blank (attr_str ti "run_id") ≡ false → event.run_id ≡ attr_str ti "run_id"
  pub run_read_outside :
      is_blank (attr_str ti "run_id") ≡ true → event.run_id ≡ str_of context.run_id
  pub none_blank :
      (is_blank event.dag_id ≡ false)
      × (is_blank event.task_id ≡ false)
      × (is_blank event.run_id ≡ false)
  pub attempt_read :
      (n : ℕ) → ti.attribute "try_number" ≡ integer (pos n) → 1 ≤ n → event.try_number ≡ n
  pub attempt_counted : 1 ≤ event.try_number
  pub map_read : (i : ℤ) → ti.attribute "map_index" ≡ integer i → event.map_index ≡ i
  pub date_read : (t : ℕ) → context.logical_date ≡ moment t → event.logical_date ≡ some t
  pub failed_now : event.failed_at ≡ now
  pub no_exception :
      context.exception ≡ none → (event.exception_type ≡ none) × (event.exception_message ≡ none)
  pub message_kept :
      (type_name message : Text)
      → context.exception ≡ some (type_name, message)
      → length message ≤ 2000
      → (event.exception_type ≡ some type_name) × (event.exception_message ≡ some message)
  pub message_cut :
      (type_name message : Text)
      → context.exception ≡ some (type_name, message)
      → 2000 < length message
      → (event.exception_type ≡ some type_name)
        × (event.exception_message ≡ some (take 2000 message ++ codes "... [truncated]"))

-- What the result says of the context: an event with what it was read from, or what is missing.
abbrev pub BuiltFrom : Context → ℕ → Built → Type 0
BuiltFrom context now (event_of event) =
    (ti : Instance) × (first_of context.task_instance context.ti ≡ some ti)
    × IsReadFrom context now ti event
BuiltFrom context now no_instance = (context.task_instance ≡ none) × (context.ti ≡ none)
BuiltFrom context now not_identified =
    (ti : Instance) × (first_of context.task_instance context.ti ≡ some ti)
    × ((is_blank (attr_str ti "dag_id") ≡ true)
        ⊎ (is_blank (attr_str ti "task_id") ≡ true)
        ⊎ ((is_blank (attr_str ti "run_id") ≡ true) × (is_blank (str_of context.run_id) ≡ true)))

truncate-kept : (t : Text) → length t ≤ 2000 → truncate t ≡ t
unfolding truncate
truncate-kept t h = ground arith

truncate-cut : (t : Text) → 2000 < length t → truncate t ≡ take 2000 t ++ codes "... [truncated]"
unfolding truncate
truncate-cut t h = elim (Bool-cases (leb (length t) max_exception_message_chars)) [
  | inl e ↦ absurd (ground arith)
  | inr e ↦ rw e refl
]

at_least_one-le : (n : ℤ) → 1 ≤ at_least_one n
unfolding at_least_one
at_least_one-le (pos n) = omega arith
at_least_one-le (negsuc n) = omega arith

at_least_one_self : (n : ℕ) → 1 ≤ n → at_least_one (pos n) ≡ n
unfolding at_least_one
at_least_one_self n h = omega arith

event_read-IsReadFrom :
    (context : Context) (now : ℕ) (ti : Instance) (run_id : String)
    → or_text (attr_str ti "run_id") (str_of context.run_id) ≡ run_id
    → is_blank (attr_str ti "dag_id") ≡ false
    → is_blank (attr_str ti "task_id") ≡ false
    → is_blank run_id ≡ false
    → IsReadFrom context now ti
        (event_read context now ti (attr_str ti "dag_id") (attr_str ti "task_id") run_id)
unfolding event_read or_text int_or datetime_of first_of truncated
event_read-IsReadFrom context now ti run_id e d t r = record {
  dag_read = refl;
  task_read = refl;
  run_read = λ h. ground arith;
  run_read_outside = λ h. ground arith;
  none_blank = (d, t, r);
  attempt_read = λ n h k. rw h (at_least_one_self n k);
  attempt_counted = at_least_one-le (int_or (pos 1) (ti.attribute "try_number"));
  map_read = λ i h. rw h refl;
  date_read = λ m h. rw h refl;
  failed_now = refl;
  no_exception = λ h. rw h (refl, refl);
  message_kept = λ type_name message h k. rw h (refl, ap some (truncate-kept message k));
  message_cut = λ type_name message h k. rw h (refl, ap some (truncate-cut message k));
}

blank_run :
    (a b : String) → is_blank (or_text a b) ≡ true → (is_blank a ≡ true) × (is_blank b ≡ true)
unfolding or_text
blank_run a b h = elim (Bool-cases (is_blank a)) [
  | inl e ↦ (e, ground arith)
  | inr e ↦ absurd (ground arith)
]

none_first : (a b : Option Instance) → first_of a b ≡ none → (a ≡ none) × (b ≡ none)
unfolding first_of
none_first none b h = (refl, h)
none_first (some a) b h = absurd (ground arith)

from_instance-BuiltFrom :
    (context : Context) (now : ℕ) (o : Option Instance)
    → first_of context.task_instance context.ti ≡ o
    → BuiltFrom context now (from_instance context now o)
unfolding from_instance event_from first_of or_text
from_instance-BuiltFrom context now none e = none_first context.task_instance context.ti e
from_instance-BuiltFrom context now (some ti) e =
    elim (Bool-cases (is_blank (attr_str ti "dag_id"))) [
      | inl d ↦ rw d (ti, e, inl d)
      | inr d ↦ elim (Bool-cases (is_blank (attr_str ti "task_id"))) [
        | inl t ↦ rw (d, t) (ti, e, inr (inl t))
        | inr t ↦
            elim (Bool-cases (is_blank (or_text (attr_str ti "run_id") (str_of context.run_id)))) [
              | inl r ↦
                  rw (d, t, r)
                    (ti, e, inr (inr (blank_run (attr_str ti "run_id") (str_of context.run_id) r)))
              | inr r ↦
                  rw (d, t, r)
                    (
                      ti,
                      e,
                      event_read-IsReadFrom context now ti
                          (or_text (attr_str ti "run_id") (str_of context.run_id)) refl d t r,
                    )
            ]
      ]
    ]

-- From any context: an event, read from its task instance, has the stripped `dag_id` and `task_id` of
-- that instance, its `run_id` or, where that is blank, the context's, and none of the three is blank;
-- a positive `try_number` is kept and the attempt is at least one; an integer `map_index`, a logical
-- date and the moment are kept; and the exception is given by its type and its message, kept whole up
-- to 2000 characters and cut there with a mark where it is longer. Without an event, there is no task
-- instance, or the `dag_id`, the `task_id` or both run ids are blank.
pub build_failure_event-BuiltFrom :
    (context : Context) (now : ℕ) → BuiltFrom context now (build_failure_event context now)
unfolding build_failure_event
build_failure_event-BuiltFrom context now =
    from_instance-BuiltFrom context now (first_of context.task_instance context.ti) refl

abbrev pub is_sent : Call → Bool
is_sent (sent message) = true
is_sent _ = false

-- Whether a result is an event that the broker acknowledges.
abbrev pub is_acknowledged : Broker → Built → Bool
is_acknowledged broker (event_of event) = broker.acknowledges (from_event event)
is_acknowledged broker _ = false

pub record IsQuiet (broker : Broker) (in_loop configured : Bool) (built : Built) (outcome : Outcome)
    : Type 0 where
  pub published_iff :
      any is_sent outcome.calls
      ≡ configured
        && not in_loop
        && broker.builds
        && broker.reachable
        && is_acknowledged broker built
  pub raises_only :
      (outcome.raised ≡ none)
      ⊎ ((outcome.raised ≡ some settings_error) × (configured ≡ false))
      ⊎ ((outcome.raised ≡ some build_error) × (broker.builds ≡ false))
      ⊎ ((outcome.raised ≡ some client_error) × (broker.reachable ≡ true) × (broker.closes ≡ false))

on_built-IsQuiet :
    (broker : Broker) (in_loop configured : Bool) (built : Built)
    → IsQuiet broker in_loop configured built (on_built broker in_loop configured built)
unfolding on_built on_event publish_failure_event_blocking publish_failure_event start stop publish
    within last_fault escapes
on_built-IsQuiet broker in_loop configured no_instance = record {
  published_iff = ground arith;
  raises_only = inl refl;
}
on_built-IsQuiet broker in_loop configured not_identified = record {
  published_iff = ground arith;
  raises_only = inl refl;
}
on_built-IsQuiet broker in_loop false (event_of event) = record {
  published_iff = refl;
  raises_only = inr (inl (refl, refl));
}
on_built-IsQuiet broker true true (event_of event) = record {
  published_iff = refl;
  raises_only = inl refl;
}
on_built-IsQuiet broker false true (event_of event) = elim (Bool-cases broker.builds) [
  | inl b ↦ elim (Bool-cases broker.reachable) [
    | inl r ↦ elim (Bool-cases (broker.acknowledges (from_event event))) [
      | inl a ↦ elim (Bool-cases broker.closes) [
        | inl c ↦ record {
          published_iff = rw (b, r, a) refl;
          raises_only = rw (b, r, a, c) (inl refl);
        }
        | inr c ↦ record {
          published_iff = rw (b, r, a) refl;
          raises_only = rw (b, r, a, c) (inr (inr (inr (refl, refl, refl))));
        }
      ]
      | inr a ↦ elim (Bool-cases broker.closes) [
        | inl c ↦ record {
          published_iff = rw (b, r, a, c) refl;
          raises_only = rw (b, r, a, c) (inl refl);
        }
        | inr c ↦ record {
          published_iff = rw (b, r, a, c) refl;
          raises_only = rw (b, r, a, c) (inr (inr (inr (refl, refl, refl))));
        }
      ]
    ]
    | inr r ↦ record { published_iff = rw (b, r) refl; raises_only = rw (b, r) (inl refl) }
  ]
  | inr b ↦ record { published_iff = rw b refl; raises_only = rw b (inr (inr (inl (refl, refl)))) }
]

-- The callback publishes the event exactly if it can build one, there are settings, no event loop is
-- running, the client can be built, the broker is reached and it acknowledges the record; and it
-- raises nothing, except what reading the settings raises where there are none, what building the
-- client raises where it cannot be built, and what a client that was connected raises when it is
-- stopped.
pub on_task_failure-IsQuiet :
    (broker : Broker) (in_loop configured : Bool) (context : Context) (now : ℕ)
    → IsQuiet broker in_loop configured
        (build_failure_event context now)
        (on_task_failure broker in_loop configured context now)
unfolding on_task_failure
on_task_failure-IsQuiet broker in_loop configured context now =
    on_built-IsQuiet broker in_loop configured (build_failure_event context now)

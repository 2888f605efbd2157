-- ===== src/Messaging/Publisher/Orderly.antt =====
-- About the order of a publisher's calls (src/dag_doctor/messaging/producer.py, FailurePublisher).
use dag_doctor.Base.{
  ◌≡◌, refl, ap, ◌∙◌, arith, Bool, true, false, Option, none, some, List, [], ◌∷◌, ◌++◌,
}
use dag_doctor.Messaging.Publisher.{
  Broker, Call, connected, unreachable, disconnected, close_failed, sent, unacknowledged, Publisher,
  Done, Operation, starting, stopping, publishing, start, stop, publish, operate, operate_all,
  fresh,
}

-- Whether a connection is open after a call, from whether one was open before; `none` where the call
-- is out of order.
abbrev pub open_after : Call → Bool → Option Bool
open_after connected false = some true
open_after unreachable false = some false
open_after disconnected true = some false
open_after close_failed true = some true
open_after (sent message) true = some true
open_after (unacknowledged message) true = some true
open_after _ _ = none

abbrev then_open : Option Bool → (Bool → Option Bool) → Option Bool
then_open none f = none
then_open (some b) f = f b

abbrev pub open_after_all : List Call → Bool → Option Bool
open_after_all [] b = some b
open_after_all (c ∷ cs) b = then_open (open_after c b) (open_after_all cs)

open_after_all-append :
    (xs ys : List Call) (b c : Bool)
    → open_after_all xs b ≡ some c
    → open_after_all (xs ++ ys) b ≡ open_after_all ys c
open_after_all-append [] ys b c h = ap (λ o. then_open o (open_after_all ys)) h
open_after_all-append (x ∷ xs) ys b c h =
    after_first (open_after x b) (λ d. open_after_all-append xs ys d c) h
  where
    after_first :
        (o : Option Bool)
        → ((d : Bool)
            → open_after_all xs d ≡ some c
            → open_after_all (xs ++ ys) d ≡ open_after_all ys c)
        → then_open o (open_after_all xs) ≡ some c
        → then_open o (open_after_all (xs ++ ys)) ≡ open_after_all ys c
    after_first none later k = absurd (ground arith)
    after_first (some d) later k = later d k

-- Only a publisher with a client is started.
abbrev pub HasClient : Publisher → Type 0
HasClient p = p.started ≡ true → p.producer ≡ true

record IsOrderly (p : Publisher) (done : Done) : Type 0 where
  in_order : open_after_all done.calls p.started ≡ some done.publisher.started
  client : HasClient done.publisher

operate-IsOrderly :
    (broker : Broker) (op : Operation) (p : Publisher)
    → HasClient p
    → IsOrderly p (operate broker op p)
unfolding operate start stop publish
operate-IsOrderly broker starting p h = record { in_order = ground arith; client = ground arith }
operate-IsOrderly broker stopping p h = record { in_order = ground arith; client = ground arith }
operate-IsOrderly broker (publishing event) p h = record {
  in_order = ground arith;
  client = ground arith;
}

operate_all-IsOrderly :
    (ops : List (Operation × Broker)) (p : Publisher)
    → HasClient p
    → IsOrderly p (operate_all ops p)
unfolding operate_all
operate_all-IsOrderly [] p h = record { in_order = refl; client = h }
operate_all-IsOrderly ((op, broker) ∷ ops) p h =
    let first = operate-IsOrderly broker op p h in
    let rest = operate_all-IsOrderly ops (operate broker op p).publisher first.client in
    record {
      in_order =
          open_after_all-append (operate broker op p).calls
            (operate_all ops (operate broker op p).publisher).calls p.started
            (operate broker op p).publisher.started first.in_order
          ∙ rest.in_order;
      client = rest.client;
    }

-- However a publisher is used after it is made, and however the broker answers, its calls are in
-- order: it connects only while no connection is open, sends and disconnects only while one is, and
-- at the end a connection is open exactly if `_started` says so.
pub operate_all_orderly :
    (ops : List (Operation × Broker))
    → open_after_all (operate_all ops fresh).calls false
      ≡ some (operate_all ops fresh).publisher.started
operate_all_orderly ops = (operate_all-IsOrderly ops fresh (λ h. absurd (ground arith))).in_order

-- ===== src/Settlement/System.antt =====
-- services/settlement, with its broker: consumers on one queue, as steps on a shared state. A
-- message is delivered at least once: a consumer that dies gives its message back.
pub mod Calls
pub mod ExactlyOnce
pub mod Readings
pub mod Attested
pub mod Holding
pub mod Provenance
pub mod Kept
pub mod Delivery
pub mod Runs
use mesh_settle.Prelude.{ℕ, List, [], ◌∷◌, ◌++◌, Text}
use mesh_settle.Crypto.Primitives.{Primitives}
use mesh_settle.Models.Wire.{Wire}
use mesh_settle.Settlement.Consumer.{Disposition, ack, requeue, disposition}
use mesh_settle.Settlement.Effects.{
  Exn, Result, ok, err, Call, Reply, Prog, ret, raise, call, World, Event, take_call,
}
use mesh_settle.Settlement.Outcome.{SettlementOutcome}
use mesh_settle.Settlement.Processor.{Processor, process_packet}
use mesh_settle.Settlement.Redis.{Keys}

-- A message in the hands of a consumer, and what is left to do for it.
pub record Flight : Type 0 where
  pub body : List ℕ
  pub left : Prog SettlementOutcome

-- A delivery that was answered, and how the processor ended.
pub record Answer : Type 0 where
  pub body : List ℕ
  pub result : Result SettlementOutcome

pub record System : Type 0 where
  pub world : World
  pub ready : List (List ℕ)
  pub flights : List Flight
  pub acked : List Answer
  pub published : List (List ℕ)

-- Nothing published, no rows, and any keys and time.
abbrev pub started : ℕ → Keys → System
started clock keys = record {
  world = record {
    clock = clock;
    keys = keys;
    tables = record { settlements = []; next_id = 1; rejected_packets = [] };
  };
  ready = [];
  flights = [];
  acked = [];
  published = [];
}

-- A message goes back to the queue, or is done with.
unfoldable pub answer : Answer → Disposition → System → System
answer a ack s = record s { acked = a ∷ s.acked }
answer a requeue s = record s { ready = a.body ∷ s.ready }

module _ (c : Primitives) (wire : Wire) (p : Processor) where
  -- The steps: a message is published; a consumer takes one, makes its next call, ends by its
  -- outcome or by an exception, or dies; keys of Redis vanish or change.
  pub data Step : System → System → Type 0 where
    publish :
        (body : List ℕ) (s : System)
        → Step s (record s { ready = body ∷ s.ready; published = body ∷ s.published })
    deliver :
        (before : List (List ℕ)) (body : List ℕ) (after : List (List ℕ)) (s : System)
        → Step
            (record s { ready = before ++ body ∷ after })
            (record s {
              ready = before ++ after;
              flights = record { body = body; left = process_packet c wire p body } ∷ s.flights;
            })
    step_call :
        (before : List Flight) (body : List ℕ) (k : Call)
        (next : Result (Reply k) → Prog SettlementOutcome) (after : List Flight) (ev : Event)
        (s : System)
        → Step
            (record s { flights = before ++ record { body = body; left = call k next } ∷ after })
            (record s {
              world = (take_call ev k s.world).1;
              flights =
                  before ++ record { body = body; left = next (take_call ev k s.world).0 } ∷ after;
            })
    finish_flight :
        (before : List Flight) (body : List ℕ) (o : SettlementOutcome) (after : List Flight)
        (s : System)
        → Step
            (record s { flights = before ++ record { body = body; left = ret o } ∷ after })
            (answer
              (record { body = body; result = ok o })
              (disposition (ok o))
              (record s { flights = before ++ after }))
    fail_flight :
        (before : List Flight) (body : List ℕ) (after : List Flight) (s : System) (e : Exn)
        → Step
            (record s { flights = before ++ record { body = body; left = raise e } ∷ after })
            (answer
              (record { body = body; result = err e })
              (disposition (err e))
              (record s { flights = before ++ after }))
    crash :
        (before : List Flight) (f : Flight) (after : List Flight) (s : System)
        → Step
            (record s { flights = before ++ f ∷ after })
            (record s { flights = before ++ after; ready = f.body ∷ s.ready })
    lose_keys :
        (keys : Keys) (s : System) → Step s (record s { world = record (s.world) { keys = keys } })

  pub data Reach (start : System) : System → Type 0 where
    here : Reach start start
    onward : (s t : System) → Reach start s → Step s t → Reach start t

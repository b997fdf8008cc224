-- ===== src/Settlement/System/Provenance.antt =====
-- services/settlement: where the settlements come from, in every state that the consumers reach.
use mesh_settle.Prelude.{
  ℕ, refl, inl, inr, List, [], ◌∷◌, ◌++◌, All, All-at, arith, All-without, All-with, All-map, Among,
}
use mesh_settle.Crypto.Primitives.{Primitives}
use mesh_settle.Models.Wire.{Wire}
use mesh_settle.Settlement.Consumer.{Disposition, ack, requeue}
use mesh_settle.Settlement.Db.{NewSettlement, Settlement}
use mesh_settle.Settlement.Effects.{Result, ok, err, Call, Reply, Prog, call, Event, take_call}
use mesh_settle.Settlement.Outcome.{SettlementOutcome}
use mesh_settle.Settlement.Processor.{Processor}
use mesh_settle.Settlement.Processor.Authority.{process_packet-Dated}
use mesh_settle.Settlement.Redis.{Keys}
use mesh_settle.Settlement.System.{
  Flight, System, answer, Step, publish, deliver, step_call, finish_flight, fail_flight, crash,
  lose_keys, Reach, here, onward, started,
}
use mesh_settle.Settlement.System.Attested.{Attested, Attested-later}
use mesh_settle.Settlement.System.Calls.{take_call-Advanced}
use mesh_settle.Settlement.Db.Rows.{Sound, count_packet}
use mesh_settle.Settlement.Db.{count_key}
use mesh_settle.Settlement.System.Holding.{Holds, Holds-Goes, Holds-later, noted-Among}
use mesh_settle.Settlement.System.Readings.{Reading, noted, step_readings, readings}

module _ (c : Primitives) (wire : Wire) (p : Processor) where
  pub record Traced (rs : List Reading) (s : System) : Type 0 where
    pub sound : Sound (Attested c wire p s.published rs) s.world.tables.settlements
    pub queued : All (λ body. Among body s.published) s.ready
    pub holding : All (Holds c wire p s.published rs) s.flights

Sound-weaken :
    (P R : NewSettlement → Type 0) (rows : List Settlement)
    → ((v : NewSettlement) → P v → R v)
    → Sound P rows
    → Sound R rows
Sound-weaken P R rows f h = record {
  one_by_key = h.one_by_key;
  one_by_packet = h.one_by_packet;
  allowed = All-map _ _ rows (λ row. f row.values) h.allowed;
}

module _ (c : Primitives) (wire : Wire) (p : Processor) where
  called-Traced :
      (before : List Flight) (body : List ℕ) (k : Call)
      (next : Result (Reply k) → Prog SettlementOutcome) (after : List Flight) (ev : Event)
      (s : System) (rs : List Reading)
      → Traced c wire p rs
          (record s { flights = before ++ record { body = body; left = call k next } ∷ after })
      → Traced c wire p (noted body k (take_call ev k s.world).0 rs) (record s {
        world = (take_call ev k s.world).1;
        flights = before ++ record { body = body; left = next (take_call ev k s.world).0 } ∷ after;
      })
  called-Traced before body k next after ev s rs h =
      let f : Flight = record { body = body; left = call k next } in
      let r : Result (Reply k) = (take_call ev k s.world).0 in
      let more = noted body k r rs in
      let held = All-at (Holds c wire p s.published rs) before f after h.holding in
      let (allowed, goes) = Holds-Goes c wire p s.published rs body k next held in
      let step =
        take_call-Advanced (Attested c wire p s.published rs) k ev s.world allowed h.sound in
      record {
        sound =
            Sound-weaken (Attested c wire p s.published rs) (Attested c wire p s.published more) _
              (Attested-later c wire p s.published s.published rs more (λ b x. x)
                (noted-Among body k r rs))
              step.sound;
        queued = h.queued;
        holding =
            All-with (Holds c wire p s.published more) before _ after (held.0, inr (goes r))
              (All-map (Holds c wire p s.published rs) (Holds c wire p s.published more)
                (before ++ after)
                (Holds-later c wire p s.published s.published rs more (λ b x. x)
                  (noted-Among body k r rs))
                (All-without (Holds c wire p s.published rs) before f after h.holding));
      }

  answered-Traced :
      (before : List Flight) (f : Flight) (after : List Flight) (s : System)
      (r : Result SettlementOutcome) (d : Disposition) (rs : List Reading)
      → Traced c wire p rs (record s { flights = before ++ f ∷ after })
      → Traced c wire p rs
          (answer (record { body = f.body; result = r }) d (record s { flights = before ++ after }))
  unfolding answer
  answered-Traced before f after s r ack rs h = record {
    sound = h.sound;
    queued = h.queued;
    holding = All-without (Holds c wire p s.published rs) before f after h.holding;
  }
  answered-Traced before f after s r requeue rs h = record {
    sound = h.sound;
    queued = ((All-at (Holds c wire p s.published rs) before f after h.holding).0, h.queued);
    holding = All-without (Holds c wire p s.published rs) before f after h.holding;
  }

  Step-Traced :
      (s t : System) (step : Step c wire p s t) (rs : List Reading)
      → Traced c wire p rs s
      → Traced c wire p (step_readings c wire p step rs) t
  Step-Traced _ _ (publish body s) rs h = record {
    sound =
        Sound-weaken (Attested c wire p s.published rs) (Attested c wire p (body ∷ s.published) rs)
          _
          (Attested-later c wire p s.published (body ∷ s.published) rs rs (λ b x. inr x) (λ r x. x))
          h.sound;
    queued = (inl refl, All-map _ _ s.ready (λ b x. inr x) h.queued);
    holding =
        All-map (Holds c wire p s.published rs) (Holds c wire p (body ∷ s.published) rs) s.flights
          (Holds-later c wire p s.published (body ∷ s.published) rs rs (λ b x. inr x) (λ r x. x))
          h.holding;
  }
  Step-Traced _ _ (deliver before body after s) rs h = record {
    sound = h.sound;
    queued = All-without (λ b. Among b s.published) before body after h.queued;
    holding = (
      (
        All-at (λ b. Among b s.published) before body after h.queued,
        inl (process_packet-Dated c wire p body),
      ),
      h.holding,
    );
  }
  Step-Traced _ _ (step_call before body k next after ev s) rs h =
      called-Traced before body k next after ev s rs h
  Step-Traced _ _ (finish_flight before body o after s) rs h =
      answered-Traced before _ after s (ok o) _ rs h
  Step-Traced _ _ (fail_flight before body after s e) rs h =
      answered-Traced before _ after s (err e) _ rs h
  Step-Traced _ _ (crash before f after s) rs h = record {
    sound = h.sound;
    queued = ((All-at (Holds c wire p s.published rs) before f after h.holding).0, h.queued);
    holding = All-without (Holds c wire p s.published rs) before f after h.holding;
  }
  Step-Traced _ _ (lose_keys keys s) rs h = record {
    sound = h.sound;
    queued = h.queued;
    holding = h.holding;
  }

  started-Traced : (clock : ℕ) (keys : Keys) → Traced c wire p [] (started clock keys)
  unfolding count_key count_packet
  started-Traced clock keys = record {
    sound = record {
      one_by_key = λ k. omega arith;
      one_by_packet = λ n. omega arith;
      allowed = tt;
    };
    queued = tt;
    holding = tt;
  }

  Reach-Traced :
      (clock : ℕ) (keys : Keys) (s : System) (r : Reach c wire p (started clock keys) s)
      → Traced c wire p (readings c wire p r) s
  Reach-Traced clock keys _ here = started-Traced clock keys
  Reach-Traced clock keys s (onward u _ r step) =
      Step-Traced u s step (readings c wire p r) (Reach-Traced clock keys u r)

  -- In every state that the consumers reach from empty tables, every settlement has the values of
  -- a packet that one of the published messages held, whose signature verified and which was bound
  -- to its header, and of the instruction that the settlement key opens it to; and at a time that
  -- the clock of a consumer returned while it held that message, the packet was at most the
  -- freshness window old and at most the tolerance ahead.
  pub settlements-Attested :
      (clock : ℕ) (keys : Keys) (s : System) (r : Reach c wire p (started clock keys) s)
      → All
          (λ (row : Settlement). Attested c wire p s.published (readings c wire p r) row.values)
          s.world.tables.settlements
  settlements-Attested clock keys s r = (Reach-Traced clock keys s r).sound.allowed

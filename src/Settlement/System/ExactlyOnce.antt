-- ===== src/Settlement/System/ExactlyOnce.antt =====
-- services/settlement: what holds of the consumers, the queue and the stores in every state that
-- their steps reach.
use mesh_settle.Prelude.{
  ℕ, ◌≤◌, ◌≡◌, sym, true, some, List, [], ◌∷◌, ◌++◌, Text, arith, All, All-at, All-without,
  All-with, All-map, inl, inr,
}
use mesh_settle.Crypto.Primitives.{Primitives}
use mesh_settle.Models.Wire.{Wire}
use mesh_settle.Settlement.Consumer.{Disposition, ack, requeue}
use mesh_settle.Settlement.Db.{count_key, count_settlements}
use mesh_settle.Settlement.Db.Rows.{Sound, HasRow, count_of_row, count_packet}
use mesh_settle.Settlement.Effects.{
  Result, ok, err, Call, Reply, Prog, call, World, Event, take_call,
}
use mesh_settle.Settlement.Effects.Follows.{Follows, known_after}
use mesh_settle.Settlement.Outcome.{SettlementOutcome, is_settled}
use mesh_settle.Settlement.Processor.{Processor}
use mesh_settle.Settlement.Processor.Authority.{Authorised, process_packet-Follows}
use mesh_settle.Settlement.Processor.Honesty.{Honest, Member}
use mesh_settle.Settlement.Redis.{Keys}
use mesh_settle.Settlement.System.{
  Flight, Answer, System, answer, Step, publish, deliver, step_call, finish_flight, fail_flight,
  crash, lose_keys, Reach, here, onward, started,
}
use mesh_settle.Settlement.System.Calls.{Rows, Rows-stay, take_call-Advanced}

Rows-Member :
    (w : World) (k : Text) (ks : List Text)
    → Rows w ks
    → Member k ks
    → HasRow w.tables.settlements k
Rows-Member w k [] r m = absurd m
Rows-Member w k (j ∷ ks) r (inl e) = rw (sym e) r.0
Rows-Member w k (j ∷ ks) r (inr m) = Rows-Member w k ks r.1 m

-- A settlement that was reported has its row.
abbrev pub ReportedRow : World → Result SettlementOutcome → Type 0
ReportedRow w (ok o) =
    is_settled o ≡ true → (k : Text) × (o.idempotency_key ≡ some k) × HasRow w.tables.settlements k
ReportedRow w (err e) = Unit

module _ (c : Primitives) (wire : Wire) (p : Processor) where
  -- A consumer holds a program that goes on as the pipeline may.
  abbrev pub OnTrack : World → Flight → Type 0
  OnTrack w f = (ks : List Text) × Rows w ks × Follows (Authorised c wire p) Honest ks f.left

  pub record Consistent (s : System) : Type 0 where
    pub sound : Sound (Authorised c wire p) s.world.tables.settlements
    pub on_track : All (OnTrack s.world) s.flights
    pub reported : All (λ (a : Answer). ReportedRow s.world a.result) s.acked

module _ (c : Primitives) (wire : Wire) (p : Processor) where
  ReportedRow-stay :
      (w u : World)
      → ((k : Text) → HasRow w.tables.settlements k → HasRow u.tables.settlements k)
      → (r : Result SettlementOutcome) → ReportedRow w r
      → ReportedRow u r
  ReportedRow-stay w u h (ok o) x =
      λ yes_settled. let (k, e, row) = x yes_settled in (k, e, h k row)
  ReportedRow-stay w u h (err e) x = tt

  Honest-ReportedRow :
      (w : World) (ks : List Text) (r : Result SettlementOutcome)
      → Rows w ks
      → Honest ks r
      → ReportedRow w r
  Honest-ReportedRow w ks (ok o) rows h =
      λ yes_settled. let (k, e, m) = h yes_settled in (k, e, Rows-Member w k ks rows m)
  Honest-ReportedRow w ks (err e) rows h = tt

  answer-Consistent :
      (a : Answer) (d : Disposition) (s : System)
      → ReportedRow s.world a.result
      → Consistent c wire p s
      → Consistent c wire p (answer a d s)
  unfolding answer
  answer-Consistent a ack s r h = record {
    sound = h.sound;
    on_track = h.on_track;
    reported = (r, h.reported);
  }
  answer-Consistent a requeue s r h = record {
    sound = h.sound;
    on_track = h.on_track;
    reported = h.reported;
  }

  -- The end of a flight, by its outcome or by an exception.
  ended :
      (before : List Flight) (f : Flight) (after : List Flight) (s : System)
      (r : Result SettlementOutcome) (d : Disposition)
      → ((ks : List Text) → Follows (Authorised c wire p) Honest ks f.left → Honest ks r)
      → Consistent c wire p (record s { flights = before ++ f ∷ after })
      → Consistent c wire p
          (answer (record { body = f.body; result = r }) d (record s { flights = before ++ after }))
  ended before f after s r d honest h =
      let (ks, rows, follows) = All-at (OnTrack c wire p s.world) before f after h.on_track in
      answer-Consistent _ d (record s { flights = before ++ after })
        (Honest-ReportedRow s.world ks r rows (honest ks follows))
        (record {
          sound = h.sound;
          on_track = All-without (OnTrack c wire p s.world) before f after h.on_track;
          reported = h.reported;
        })

  OnTrack-stay :
      (w u : World)
      → ((k : Text) → HasRow w.tables.settlements k → HasRow u.tables.settlements k)
      → (f : Flight) → OnTrack c wire p w f
      → OnTrack c wire p u f
  OnTrack-stay w u h f (ks, rows, follows) = (ks, Rows-stay w u ks h rows, follows)

  called :
      (before : List Flight) (body : List ℕ) (k : Call)
      (next : Result (Reply k) → Prog SettlementOutcome) (after : List Flight) (ev : Event)
      (s : System)
      → Consistent c wire p
          (record s { flights = before ++ record { body = body; left = call k next } ∷ after })
      → Consistent c wire p (record s {
        world = (take_call ev k s.world).1;
        flights = before ++ record { body = body; left = next (take_call ev k s.world).0 } ∷ after;
      })
  called before body k next after ev s h =
      let f : Flight = record { body = body; left = call k next } in
      let (ks, rows, (allowed, follows)) =
        All-at (OnTrack c wire p s.world) before f after h.on_track in
      let step = take_call-Advanced (Authorised c wire p) k ev s.world allowed h.sound in
      let u : World = (take_call ev k s.world).1 in
      record {
        sound = step.sound;
        on_track =
            All-with (OnTrack c wire p u) before _ after
              (known_after k (take_call ev k s.world).0 ks, step.known ks rows, follows _)
              (All-map (OnTrack c wire p s.world) (OnTrack c wire p u) (before ++ after)
                (OnTrack-stay s.world u step.stay)
                (All-without (OnTrack c wire p s.world) before f after h.on_track));
        reported =
            All-map _ _ s.acked (λ a. ReportedRow-stay s.world u step.stay a.result) h.reported;
      }

  Step-Consistent :
      (s t : System) → Step c wire p s t → Consistent c wire p s → Consistent c wire p t
  Step-Consistent _ _ (publish body s) h = record {
    sound = h.sound;
    on_track = h.on_track;
    reported = h.reported;
  }
  Step-Consistent _ _ (deliver before body after s) h = record {
    sound = h.sound;
    on_track = (([], tt, process_packet-Follows c wire p body), h.on_track);
    reported = h.reported;
  }
  Step-Consistent _ _ (step_call before body k next after ev s) h =
      called before body k next after ev s h
  Step-Consistent _ _ (finish_flight before body o after s) h =
      ended before _ after s (ok o) _ (λ ks x. x) h
  Step-Consistent _ _ (fail_flight before body after s e) h =
      ended before _ after s (err e) _ (λ ks x. x) h
  Step-Consistent _ _ (crash before f after s) h = record {
    sound = h.sound;
    on_track = All-without (OnTrack c wire p s.world) before f after h.on_track;
    reported = h.reported;
  }
  Step-Consistent _ _ (lose_keys keys s) h = record {
    sound = h.sound;
    on_track = h.on_track;
    reported = h.reported;
  }

  pub Reach-Consistent :
      (s t : System) → Reach c wire p s t → Consistent c wire p s → Consistent c wire p t
  Reach-Consistent s _ here h = h
  Reach-Consistent s t (onward u _ r step) h = Step-Consistent u t step (Reach-Consistent s u r h)

  pub started-Consistent : (clock : ℕ) (keys : Keys) → Consistent c wire p (started clock keys)
  unfolding count_key count_packet
  started-Consistent clock keys = record {
    sound = record {
      one_by_key = λ k. omega arith;
      one_by_packet = λ n. omega arith;
      allowed = tt;
    };
    on_track = tt;
    reported = tt;
  }

  pub reached :
      (clock : ℕ) (keys : Keys) (s : System)
      → Reach c wire p (started clock keys) s
      → Consistent c wire p s
  reached clock keys s r = Reach-Consistent _ s r (started-Consistent clock keys)

  -- In every state that the consumers reach from empty tables, whatever is published, delivered
  -- twice, evicted from Redis or interrupted, and in whatever order the calls of the consumers
  -- interleave, at most one settlement has any given key.
  pub settled_once :
      (clock : ℕ) (keys : Keys) (s : System)
      → Reach c wire p (started clock keys) s
      → (k : Text) → count_settlements (some k) s.world.tables.settlements ≤ 1
  unfolding count_settlements
  settled_once clock keys s r k = (reached clock keys s r).sound.one_by_key k

  pub paid_once :
      (w : World) (k : Text)
      → Sound (Authorised c wire p) w.tables.settlements
      → HasRow w.tables.settlements k
      → count_settlements (some k) w.tables.settlements ≡ 1
  unfolding count_settlements
  paid_once w k sound row =
      omega (arith, sound.one_by_key k, count_of_row k w.tables.settlements row)

  -- In every state that the consumers reach from empty tables, a delivery that was acknowledged
  -- with a settled outcome has exactly one settlement with the key of the outcome.
  pub acked_settled :
      (clock : ℕ) (keys : Keys) (s : System)
      → Reach c wire p (started clock keys) s
      → (before : List Answer) (body : List ℕ) (o : SettlementOutcome) (after : List Answer)
      → s.acked ≡ before ++ record { body = body; result = ok o } ∷ after
      → is_settled o ≡ true
      → (k : Text) × (o.idempotency_key ≡ some k)
        × (count_settlements (some k) s.world.tables.settlements ≡ 1)
  acked_settled clock keys s r before body o after e yes_settled =
      let h = reached clock keys s r in
      let reported =
        All-at (λ (a : Answer). ReportedRow s.world a.result) before
          (record { body = body; result = ok o }) after (rw (sym e) h.reported) in
      let (k, named, row) = reported yes_settled in (k, named, paid_once s.world k h.sound row)

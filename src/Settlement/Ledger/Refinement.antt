-- ===== src/Settlement/Ledger/Refinement.antt =====
-- services/settlement: the consumers, the queue and the stores implement the ledger. Every step of
-- theirs is a step of the ledger or leaves it alone, and so a payment in it is there for ever.
use mesh_settle.Prelude.{
  ℕ, ◌≡◌, refl, sym, ap, ◌∙◌, inl, inr, some, List, Text, text_eq, text_eq_sound, All-at,
  Bool-cases, arith,
}
use mesh_settle.Crypto.Primitives.{Primitives}
use mesh_settle.Models.Wire.{Wire}
use mesh_settle.Settlement.Consumer.{Disposition, ack, requeue}
use mesh_settle.Settlement.Db.{NewSettlement, Settlement, insert_rejection}
use mesh_settle.Settlement.Effects.{
  Call, now, redis_set_nx, redis_set, redis_get, redis_delete, add_settlement, add_rejection, call,
  World, Event, serve, pass, take_call,
}
use mesh_settle.Settlement.Effects.Follows.{Allowed}
use mesh_settle.Settlement.Effects.Post.{take_call_cases}
use mesh_settle.Settlement.Ledger.{Ledger, empty_ledger, Enters, entered, Grows, same, more}
use mesh_settle.Settlement.Ledger.View.{ledger_of, ledger_of_nil, Entered, insert-Entered}
use mesh_settle.Settlement.Processor.{Processor}
use mesh_settle.Settlement.Processor.Authority.{Authorised}
use mesh_settle.Settlement.Redis.{Keys}
use mesh_settle.Settlement.System.{
  Answer, System, answer, Step, publish, deliver, step_call, finish_flight, fail_flight, crash,
  lose_keys, Reach, here, onward, started,
}
use mesh_settle.Settlement.System.ExactlyOnce.{
  Consistent, OnTrack, Reach-Consistent, started-Consistent,
}

module _ (P : NewSettlement → Type 0) where
  serve-Entered :
      (ev : Event) (c : Call) (w : World)
      → Allowed P c
      → Entered P w.tables.settlements (serve ev c w).1.tables.settlements
  unfolding serve
  serve-Entered ev now w a = inl refl
  serve-Entered ev (redis_set_nx k v ttl) w a = inl refl
  serve-Entered ev (redis_set k v ttl) w a = inl refl
  serve-Entered ev (redis_get k) w a = inl refl
  serve-Entered ev (redis_delete k) w a = inl refl
  serve-Entered ev (add_settlement v) w a = insert-Entered P v a w.clock w.tables
  serve-Entered ev (add_rejection r) w a = unfold insert_rejection in inl refl

  take_call-Entered :
      (ev : Event) (c : Call) (w : World)
      → Allowed P c
      → Entered P w.tables.settlements (take_call ev c w).1.tables.settlements
  take_call-Entered ev c w a =
      take_call_cases c ev w (λ r u. Entered P w.tables.settlements u.tables.settlements)
        (serve-Entered ev c (pass ev.elapsed w) a) (λ l. inl refl)
        (λ l. serve-Entered ev c (pass ev.elapsed w) a)

  Grows-Entered :
      (l : Ledger) (rows rows' : List Settlement)
      → Grows P l (ledger_of rows)
      → Entered P rows rows'
      → Grows P l (ledger_of rows')
  Grows-Entered l rows rows' g (inl e) = rw e g
  Grows-Entered l rows rows' g (inr e) = more _ _ g e

  -- A payment in the ledger stays as it is.
  Enters-keeps :
      (l m : Ledger) (k : Text) (v : NewSettlement)
      → Enters P l m
      → l.paid k ≡ some v
      → m.paid k ≡ some v
  Enters-keeps l m k v (entered w a new_key new_packet e) h =
      rw e (elim (Bool-cases (text_eq w.idempotency_key k)) [
        | inl hit ↦
            let equal = text_eq_sound w.idempotency_key k hit in
            absurd (ground (arith, sym new_key ∙ ap l.paid equal ∙ h))
        | inr miss ↦ rw miss h
      ])

  pub Grows-keeps :
      (l m : Ledger) (k : Text) (v : NewSettlement)
      → Grows P l m
      → l.paid k ≡ some v
      → m.paid k ≡ some v
  Grows-keeps l _ k v same h = h
  Grows-keeps l n k v (more m _ g e) h = Enters-keeps m n k v e (Grows-keeps l m k v g h)

module _ (c : Primitives) (wire : Wire) (p : Processor) where
  abbrev pub view : System → Ledger
  view s = ledger_of s.world.tables.settlements

  pub answer-rows :
      (a : Answer) (d : Disposition) (s : System)
      → (answer a d s).world.tables.settlements ≡ s.world.tables.settlements
  unfolding answer
  answer-rows a ack s = refl
  answer-rows a requeue s = refl

  Step-Entered :
      (s t : System)
      → Step c wire p s t
      → Consistent c wire p s
      → Entered (Authorised c wire p) s.world.tables.settlements t.world.tables.settlements
  Step-Entered _ _ (publish body s) h = inl refl
  Step-Entered _ _ (deliver before body after s) h = inl refl
  Step-Entered _ _ (step_call before body k next after ev s) h =
      let (ks, rows, (allowed, follows)) =
        All-at (OnTrack c wire p s.world) before (record { body = body; left = call k next }) after
          h.on_track in
      take_call-Entered (Authorised c wire p) ev k s.world allowed
  Step-Entered _ _ (finish_flight before body o after s) h = inl (answer-rows _ _ _)
  Step-Entered _ _ (fail_flight before body after s e) h = inl (answer-rows _ _ _)
  Step-Entered _ _ (crash before f after s) h = inl refl
  Step-Entered _ _ (lose_keys keys s) h = inl refl

  Reach-Grows :
      (s t : System)
      → Reach c wire p s t
      → Consistent c wire p s
      → Grows (Authorised c wire p) (view s) (view t)
  Reach-Grows s _ here h = same
  Reach-Grows s t (onward u _ r step) h =
      Grows-Entered (Authorised c wire p) (view s) u.world.tables.settlements
        t.world.tables.settlements (Reach-Grows s u r h)
        (Step-Entered u t step (Reach-Consistent c wire p s u r h))

  -- The consumers, the queue, Redis and Postgres implement a ledger: in every state that they
  -- reach from empty tables, the settlements, seen as a ledger of the payments under their keys
  -- and of the packet ids, come of the empty ledger by entering payments one at a time, each of
  -- which was authorised by a packet that was read, and whose key and packet id were new when it
  -- was entered.
  pub system_refines_ledger :
      (clock : ℕ) (keys : Keys) (s : System)
      → Reach c wire p (started clock keys) s
      → Grows (Authorised c wire p) empty_ledger (view s)
  system_refines_ledger clock keys s r =
      rw (sym ledger_of_nil)
        (Reach-Grows (started clock keys) s r (started-Consistent c wire p clock keys))

  -- A payment that the ledger of a reached state has under a key is there, with the same values,
  -- in every state that is reached from it.
  pub payments_stay :
      (clock : ℕ) (keys : Keys) (s t : System) (k : Text) (v : NewSettlement)
      → Reach c wire p (started clock keys) s
      → Reach c wire p s t
      → (view s).paid k ≡ some v
      → (view t).paid k ≡ some v
  payments_stay clock keys s t k v r later =
      Grows-keeps (Authorised c wire p) (view s) (view t) k v (
        Reach-Grows s t later (
          Reach-Consistent c wire p (started clock keys) s r
            (started-Consistent c wire p clock keys)))

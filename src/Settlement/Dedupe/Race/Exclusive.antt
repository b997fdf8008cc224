-- ===== src/Settlement/Dedupe/Race/Exclusive.antt =====
-- services/settlement/dedupe.py: exactly one of the consumers that race for a claim wins it.
use mesh_settle.Prelude.{
  ℕ, zero, suc, ◌+◌, ◌*◌, ◌≤◌, ◌<◌, ◌≡◌, refl, sym, ap, ◌∙◌, subst, inl, inr, ◌⊎◌, true, false,
  none, some, List, ◌∷◌, ◌++◌, Text, All, All-at, All-with, All-without, All-map, tally,
  tally-insert, arith, replicate,
}
use mesh_settle.Settlement.Dedupe.{
  ClaimOutcome, claimed, in_flight, DedupeStore, claim, claimed_marker,
}
use mesh_settle.Settlement.Effects.{
  Result, ok, Call, now, redis_set_nx, redis_set, redis_get, redis_delete, add_settlement,
  add_rejection, Reply, Prog, ret, call, World, Event, serve, pass,
}
use mesh_settle.Settlement.Redis.{Entry, get, live, set, set_nx}
use mesh_settle.Settlement.Redis.Laws.{set_self}
use mesh_settle.Settlement.Dedupe.Race.{
  Race, RaceStep, command, Raced, at_start, then_step, wins, racing, live-later, live-now,
  set_nx-free, set_nx-held, take_call-delivered, take_call-later, RaceStep-later,
}
use mesh_settle.Settlement.Dedupe.Race.Standing.{
  Standing, claim-Standing, Standing-later, tally-no_wins,
}

module _ (d : DedupeStore) (k : Text) where
  -- The invariant of the race: no one has won and the key is free, or one consumer has won and the
  -- key holds its claim until some time.
  data Fair (start : ℕ) (r : Race) : Type 0 where
    open_race :
        get r.world.clock k r.world.keys ≡ none
        → start ≤ r.world.clock
        → All (Standing d k false) r.racers
        → Fair start r
    taken_race :
        (e : Entry)
        → r.world.keys k ≡ some e
        → e.value ≡ claimed_marker
        → start + d.claim_ttl * 1000 ≤ e.expires
        → All (Standing d k true) r.racers
        → tally wins r.racers ≡ 1
        → Fair start r

  -- The race after one racer has made a command.
  after_command :
      List (Prog ClaimOutcome) → List (Prog ClaimOutcome) → Prog ClaimOutcome → World → Race
  after_command before after p w = record { world = w; racers = before ++ p ∷ after }

  module _ (start : ℕ) (before after : List (Prog ClaimOutcome)) where
    won-Fair :
        (p : Prog ClaimOutcome) (w : World) (clock : ℕ)
        → p ≡ ret claimed
        → start ≤ clock
        → w.keys k ≡ some (record { value = claimed_marker; expires = clock + d.claim_ttl * 1000 })
        → All (Standing d k false) (before ++ after)
        → Fair start (after_command before after p w)
    unfolding after_command Standing wins
    won-Fair p w clock won begun held others =
        taken_race _ held refl (omega (arith, begun))
          (All-with (Standing d k true) before p after
            (subst (Standing d k true) (sym won) (refl, inl refl))
            (All-map (Standing d k false) (Standing d k true) (before ++ after) (Standing-later d k)
              others))
          (tally-insert wins before p after
            ∙ omega (arith, ap wins won, tally-no_wins d k (before ++ after) others))

    -- In a race that is won, a racer that has not won goes on.
    lost-Fair :
        (p : Prog ClaimOutcome) (w : World) (e : Entry)
        → w.keys k ≡ some e
        → e.value ≡ claimed_marker
        → start + d.claim_ttl * 1000 ≤ e.expires
        → Standing d k true p
        → wins p ≡ 0
        → All (Standing d k true) (before ++ after)
        → tally wins (before ++ after) ≡ 1
        → Fair start (after_command before after p w)
    unfolding after_command
    lost-Fair p w e held value long standing no_win others one =
        taken_race e held value long (All-with (Standing d k true) before p after standing others)
          (tally-insert wins before p after ∙ omega (arith, no_win, one))

  -- In an open race the first `SET NX` wins.
  open-Fair :
      (start : ℕ) (before : List (Prog ClaimOutcome)) (c : Call)
      (next : Result (Reply c) → Prog ClaimOutcome) (after : List (Prog ClaimOutcome)) (ev : Event)
      (w : World)
      → get w.clock k w.keys ≡ none
      → start ≤ w.clock
      → Standing d k false (call c next)
      → All (Standing d k false) (before ++ after)
      → Fair start (
          after_command before after
            (next (serve ev c (pass ev.elapsed w)).0)
            (serve ev c (pass ev.elapsed w)).1)
  unfolding Standing serve get
  open-Fair start before (redis_set_nx key value ttl) next after ev w free begun h others =
      let at = w.clock + ev.elapsed in
      let (same_key, same_value, same_ttl, won, lost, asks) = h in
      let free_later = live-later (w.keys k) w.clock ev.elapsed free in
      let first : set_nx at key value ttl w.keys
          ≡ (true, set at k claimed_marker d.claim_ttl w.keys) =
        rw (same_key, same_value, same_ttl)
          (set_nx-free at k claimed_marker d.claim_ttl w.keys free_later) in
      rw first (
        won-Fair start before after (next (ok true)) _ at won (omega (arith, begun))
          (set_self at k claimed_marker d.claim_ttl w.keys) others)
  open-Fair start before (redis_get key) next after ev w free begun h others =
      absurd (ground (arith, h.0))
  open-Fair start before now next after ev w free begun h others = absurd h
  open-Fair start before (redis_set key value ttl) next after ev w free begun h others = absurd h
  open-Fair start before (redis_delete key) next after ev w free begun h others = absurd h
  open-Fair start before (add_settlement v) next after ev w free begun h others = absurd h
  open-Fair start before (add_rejection r) next after ev w free begun h others = absurd h

  -- In a race that is won, no further consumer wins while the claim lasts.
  taken-Fair :
      (start : ℕ) (before : List (Prog ClaimOutcome)) (c : Call)
      (next : Result (Reply c) → Prog ClaimOutcome) (after : List (Prog ClaimOutcome)) (ev : Event)
      (w : World) (e : Entry)
      → w.keys k ≡ some e
      → e.value ≡ claimed_marker
      → start + d.claim_ttl * 1000 ≤ e.expires
      → w.clock + ev.elapsed < start + d.claim_ttl * 1000
      → Standing d k true (call c next)
      → All (Standing d k true) (before ++ after)
      → tally wins (before ++ after) ≡ 1
      → Fair start (
          after_command before after
            (next (serve ev c (pass ev.elapsed w)).0)
            (serve ev c (pass ev.elapsed w)).1)
  unfolding Standing serve get wins
  taken-Fair start before (redis_set_nx key value ttl) next after ev w e held marked long soon h
        others one =
      let at = w.clock + ev.elapsed in
      let (same_key, same_value, same_ttl, won, lost, asks) = h in
      let present : get at k w.keys ≡ some e.value =
        ap (live at) held ∙ live-now e at (omega (arith, long, soon)) in
      let again : set_nx at key value ttl w.keys ≡ (false, w.keys) =
        rw (same_key, same_value, same_ttl)
          (set_nx-held at k claimed_marker e.value d.claim_ttl w.keys present) in
      rw again
        (lost-Fair start before after (next (ok false)) _ e held marked long asks lost others one)
  taken-Fair start before (redis_get key) next after ev w e held marked long soon h others one =
      let at = w.clock + ev.elapsed in
      let (was_taken, same_key, lost) = h in
      let present : get at key w.keys ≡ some claimed_marker =
        rw same_key
          (ap (live at) held ∙ live-now e at (omega (arith, long, soon)) ∙ ap some marked) in
      rw present (
        lost-Fair start before after (next (ok (some claimed_marker))) _ e held marked long
          (subst (Standing d k true) (sym lost) (refl, inr refl)) (ap wins lost) others one)
  taken-Fair start before now next after ev w e held marked long soon h others one = absurd h
  taken-Fair start before (redis_set key value ttl) next after ev w e held marked long soon h others
        one =
      absurd h
  taken-Fair start before (redis_delete key) next after ev w e held marked long soon h others one =
      absurd h
  taken-Fair start before (add_settlement v) next after ev w e held marked long soon h others one =
      absurd h
  taken-Fair start before (add_rejection r) next after ev w e held marked long soon h others one =
      absurd h

  step-Fair :
      (start : ℕ) (s t : Race)
      → RaceStep s t
      → t.world.clock < start + d.claim_ttl * 1000
      → Fair start s
      → Fair start t
  unfolding after_command wins
  step-Fair start _ _ (command before c next after ev w answered) soon (open_race free begun all) =
      rw (take_call-delivered ev c w answered) (
        open-Fair start before c next after ev w free begun
          (All-at (Standing d k false) before (call c next) after all)
          (All-without (Standing d k false) before (call c next) after all))
  step-Fair start _ _ (command before c next after ev w answered) soon
        (taken_race e held marked long all one) =
      let later = take_call-later ev c w answered in
      rw (take_call-delivered ev c w answered) (
        taken-Fair start before c next after ev w e held marked long (omega (arith, soon, later))
          (All-at (Standing d k true) before (call c next) after all)
          (All-without (Standing d k true) before (call c next) after all)
          (omega (arith, one, tally-insert wins before (call c next) after)))

  racing-Standing : (n : ℕ) → All (Standing d k false) (replicate n (claim d k))
  racing-Standing zero = tt
  racing-Standing (suc n) = (claim-Standing d k, racing-Standing n)

  Raced-Fair :
      (n : ℕ) (w : World) (t : Race)
      → Raced (racing d k n w) t
      → get w.clock k w.keys ≡ none
      → t.world.clock < w.clock + d.claim_ttl * 1000
      → Fair w.clock t
  Raced-Fair n w _ at_start free soon = open_race free (omega arith) (racing-Standing n)
  Raced-Fair n w t (then_step s _ path step) free soon =
      step-Fair w.clock s t step soon
        (Raced-Fair n w s path free (omega (arith, RaceStep-later s t step, soon)))

  -- Once a claim has returned, one has won.
  Fair-returned :
      (start : ℕ) (t : Race) (before : List (Prog ClaimOutcome)) (o : ClaimOutcome)
      (after : List (Prog ClaimOutcome))
      → Fair start t
      → t.racers ≡ before ++ ret o ∷ after
      → (tally wins t.racers ≡ 1) × ((o ≡ claimed) ⊎ (o ≡ in_flight))
  unfolding Standing
  Fair-returned start t before o after (open_race free begun all) e = absurd (
      ground (
        arith,
        (All-at (Standing d k false) before (ret o) after
            (subst (All (Standing d k false)) e all)).0,
      ))
  Fair-returned start t before o after (taken_race entry held marked long all one) e = (
    one,
    (All-at (Standing d k true) before (ret o) after (subst (All (Standing d k true)) e all)).1,
  )

  -- Among any number of consumers that race for the claim of one key which is free, in whatever
  -- order their commands interleave, exactly one has won as soon as one of them has returned, and
  -- each that has returned has claimed the key or found it in flight, if Redis answers every
  -- command and less time has passed than a claim lasts.
  pub claim-Exclusive :
      (n : ℕ) (w : World) (t : Race)
      → Raced (racing d k n w) t
      → get w.clock k w.keys ≡ none
      → t.world.clock < w.clock + d.claim_ttl * 1000
      → (before : List (Prog ClaimOutcome)) (o : ClaimOutcome) (after : List (Prog ClaimOutcome))
      → t.racers ≡ before ++ ret o ∷ after
      → (tally wins t.racers ≡ 1) × ((o ≡ claimed) ⊎ (o ≡ in_flight))
  claim-Exclusive n w t path free soon before o after e =
      Fair-returned w.clock t before o after (Raced-Fair n w t path free soon) e

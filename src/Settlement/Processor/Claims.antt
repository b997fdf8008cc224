-- ===== src/Settlement/Processor/Claims.antt =====
-- services/settlement/dedupe.py: what the claims do to the keys, for each way that their calls end.
use mesh_settle.Prelude.{
  ◌+◌, ◌≡◌, ◌≢◌, refl, inl, inr, Bool, true, false, Option, some, none, Text, arith, if◌then◌else◌,
  Option-cases,
}
use mesh_settle.Settlement.Dedupe.{
  DedupeStore, ClaimOutcome, claimed, claimed_marker, settled_marker, outcome_of_marker, claim,
  mark_settled, release_claim,
}
use mesh_settle.Settlement.Effects.{
  integrity, other, Result, ok, err, redis_set_nx, redis_set, redis_get, redis_delete, World, Event,
  serve, take_call, pass, perform, ret, ◌>>=◌,
}
use mesh_settle.Settlement.Effects.Post.{
  Lost, take_call_cases, Post, BindPost, Post-bind, Post-perform,
}
use mesh_settle.Settlement.Redis.{get, set, set_nx, delete}

-- Another call on Redis does nothing to the tables.
abbrev pub SameTables : World → World → Type 0
SameTables w u = u.tables ≡ w.tables

-- After a claim was won: nothing was live under the key, and it holds the claim now.
pub record Took (d : DedupeStore) (k : Text) (w : World) (ev : Event) (u : World) : Type 0 where
  pub later : u.clock ≡ w.clock + ev.elapsed
  pub absent : get u.clock k w.keys ≡ none
  pub keys : u.keys ≡ set u.clock k claimed_marker d.claim_ttl w.keys
  pub tables : SameTables w u

-- After a claim was not won: the keys are as they were, and the key was live.
pub record NotTook (k : Text) (w : World) (ev : Event) (u : World) : Type 0 where
  pub later : u.clock ≡ w.clock + ev.elapsed
  pub present : (m : Text) × (get (w.clock + ev.elapsed) k w.keys ≡ some m)
  pub keys : u.keys ≡ w.keys
  pub tables : SameTables w u

-- Only the reply of `SET NX` makes a claim.
outcome_of_marker-ne-claimed : (m : Option Text) → outcome_of_marker m ≢ claimed
unfolding outcome_of_marker
outcome_of_marker-ne-claimed m e = ground arith

module _ (E : Event → Type 0) where
  -- What the environment may do is no more than `E`, so a lost reply must be within it.
  abbrev pub Fault : Type 0
  Fault = (ev : Event) × E ev × Lost ev

  module _ (d : DedupeStore) (k : Text) where
    abbrev Tried : World → Event → Result Bool → World → Type 0
    Tried w ev (ok true) u = Took d k w ev u
    Tried w ev (ok false) u = NotTook k w ev u
    Tried w ev (err e) u = (e ≡ other) × Lost ev × SameTables w u

    set_nx-Tried :
        (w : World) (ev : Event)
        → Tried w ev
            (serve ev (redis_set_nx k claimed_marker d.claim_ttl) (pass ev.elapsed w)).0
            (serve ev (redis_set_nx k claimed_marker d.claim_ttl) (pass ev.elapsed w)).1
    unfolding serve set_nx
    set_nx-Tried w ev = elim (Option-cases (get (w.clock + ev.elapsed) k w.keys)) [
      | inl e ↦ rw (e, set_nx) (record { later = refl; absent = e; keys = refl; tables = refl })
      | inr (m, e) ↦
          rw (e, set_nx) (record { later = refl; present = (m, e); keys = refl; tables = refl })
    ]

    take_set_nx-Tried :
        (w : World) (ev : Event)
        → Tried w ev
            (take_call ev (redis_set_nx k claimed_marker d.claim_ttl) w).0
            (take_call ev (redis_set_nx k claimed_marker d.claim_ttl) w).1
    take_set_nx-Tried w ev =
        take_call_cases (redis_set_nx k claimed_marker d.claim_ttl) ev w (Tried w ev)
          (set_nx-Tried w ev) (λ l. (refl, l, refl)) (λ l. (refl, l, unfold serve in refl))

    -- To prove a postcondition of `claim`: prove it of a claim that was won, of one that was not,
    -- and of a lost reply.
    module _ (w : World) (Q : Result ClaimOutcome → World → Type 0)
        (won : (ev : Event) (u : World) → E ev → Took d k w ev u → Q (ok claimed) u)
        (lost : (o : ClaimOutcome) (ev : Event) (u : World)
          → o ≢ claimed
          → E ev
          → (m : Text) × (get (w.clock + ev.elapsed) k w.keys ≡ some m)
          → SameTables w u
          → u.keys ≡ w.keys
          → Q (ok o) u)
        (failed : Fault → (u : World) → SameTables w u → Q (err other) u) where
      get-Post :
          (first : Event) (v : World)
          → E first
          → NotTook k w first v
          → Post E (perform (redis_get k) >>= λ current. ret (outcome_of_marker current)) v Q
      get-Post first v a h = Post-bind E _ _ v Q (
          Post-perform E (redis_get k) v _ λ ev b.
            take_call_cases (redis_get k) ev v
              (BindPost E (λ current. ret (outcome_of_marker current)) Q)
              (unfold serve in
                lost _ first _ (outcome_of_marker-ne-claimed (get (v.clock + ev.elapsed) k v.keys))
                  a h.present h.tables h.keys)
              (λ l. failed (ev, b, l) (pass ev.elapsed v) h.tables)
              (λ l. unfold serve in failed (ev, b, l) _ h.tables))

      after_set_nx :
          (ev : Event) (r : Result Bool) (u : World)
          → E ev
          → Tried w ev r u
          → BindPost E
              (λ b.
                if b
                then ret claimed
                else (perform (redis_get k) >>= λ current. ret (outcome_of_marker current)))
              Q
              r
              u
      after_set_nx ev (ok true) u b h = won ev u b h
      after_set_nx ev (ok false) u b h = get-Post ev u b h
      after_set_nx ev (err integrity) u b h = absurd (ground (arith, h.0))
      after_set_nx ev (err other) u b h = failed (ev, b, h.1) u h.2

      pub claim-Post : Post E (claim d k) w Q
      unfolding claim
      claim-Post =
          Post-bind E _ _ w Q
            (Post-perform E _ w _ λ ev b. after_set_nx ev _ _ b (take_set_nx-Tried w ev))

    -- To prove a postcondition of `mark_settled`.
    pub mark_settled-Post :
        (w : World) (Q : Result (Unit {0}) → World → Type 0)
        → ((u : World)
            → u.keys ≡ set u.clock k settled_marker d.settled_ttl w.keys
            → SameTables w u
            → Q (ok tt) u)
        → (Fault → (u : World) → SameTables w u → Q (err other) u)
        → Post E (mark_settled d k) w Q
    unfolding mark_settled
    mark_settled-Post w Q done failed = Post-perform E _ w Q λ ev b.
        take_call_cases (redis_set k settled_marker d.settled_ttl) ev w Q
          (unfold serve in done _ refl refl) (λ l. failed (ev, b, l) _ refl)
          (λ l. unfold serve in failed (ev, b, l) _ refl)

  -- To prove a postcondition of `release_claim`.
  pub release_claim-Post :
      (k : Text) (w : World) (Q : Result (Unit {0}) → World → Type 0)
      → ((u : World) → u.keys ≡ delete k w.keys → SameTables w u → Q (ok tt) u)
      → (Fault → (u : World) → SameTables w u → Q (err other) u)
      → Post E (release_claim k) w Q
  unfolding release_claim
  release_claim-Post k w Q done failed = Post-perform E _ w Q λ ev b.
      take_call_cases (redis_delete k) ev w Q (unfold serve in done _ refl refl)
        (λ l. failed (ev, b, l) _ refl) (λ l. unfold serve in failed (ev, b, l) _ refl)

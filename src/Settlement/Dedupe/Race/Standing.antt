-- ===== src/Settlement/Dedupe/Race/Standing.antt =====
-- services/settlement/dedupe.py: where a consumer stands in a race for a claim.
use mesh_settle.Prelude.{
  ◌≡◌, refl, ◌⊎◌, Bool, true, false, some, List, [], ◌∷◌, Text, text_eq, All, tally, arith,
}
use mesh_settle.Settlement.Dedupe.{
  ClaimOutcome, claimed, in_flight, DedupeStore, claim, claimed_marker, outcome_of_marker,
}
use mesh_settle.Settlement.Effects.{
  ok, now, redis_set_nx, redis_set, redis_get, redis_delete, add_settlement, add_rejection, Prog,
  ret, raise, call, perform, ◌>>=◌,
}
use mesh_settle.Settlement.Dedupe.Race.{wins}

module _ (d : DedupeStore) (k : Text) where
  -- Where a consumer stands in the race, before the key is taken or afterwards.
  unfoldable pub Standing : Bool → Prog ClaimOutcome → Type 0
  Standing taken (ret o) = (taken ≡ true) × ((o ≡ claimed) ⊎ (o ≡ in_flight))
  Standing taken (call (redis_set_nx key value ttl) next) =
      (key ≡ k)
      × (value ≡ claimed_marker)
      × (ttl ≡ d.claim_ttl)
      × (next (ok true) ≡ ret claimed)
      × (wins (next (ok false)) ≡ 0)
      × Standing true (next (ok false))
  Standing taken (call (redis_get key) next) =
      (taken ≡ true) × (key ≡ k) × (next (ok (some claimed_marker)) ≡ ret in_flight)
  Standing taken _ = ⊥

  pub claim-Standing : Standing false (claim d k)
  unfolding Standing claim perform ◌>>=◌ outcome_of_marker text_eq wins
  claim-Standing = (refl, refl, refl, refl, refl, (refl, refl, refl))

  pub Standing-later : (p : Prog ClaimOutcome) → Standing false p → Standing true p
  unfolding Standing
  Standing-later (ret o) h = absurd (ground (arith, h.0))
  Standing-later (call (redis_set_nx key value ttl) next) h = h
  Standing-later (call (redis_get key) next) h = absurd (ground (arith, h.0))
  Standing-later (raise e) h = absurd h
  Standing-later (call now next) h = absurd h
  Standing-later (call (redis_set key value ttl) next) h = absurd h
  Standing-later (call (redis_delete key) next) h = absurd h
  Standing-later (call (add_settlement v) next) h = absurd h
  Standing-later (call (add_rejection r) next) h = absurd h

  no_wins : (p : Prog ClaimOutcome) → Standing false p → wins p ≡ 0
  unfolding Standing wins
  no_wins (ret o) h = absurd (ground (arith, h.0))
  no_wins (raise e) h = refl
  no_wins (call c next) h = refl

  pub tally-no_wins : (ps : List (Prog ClaimOutcome)) → All (Standing false) ps → tally wins ps ≡ 0
  unfolding tally
  tally-no_wins [] h = refl
  tally-no_wins (p ∷ ps) h = omega (arith, no_wins p h.0, tally-no_wins ps h.1)

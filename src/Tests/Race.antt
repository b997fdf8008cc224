-- ===== src/Tests/Race.antt =====
-- Two consumers that race for the claim of one key.
use mesh_settle.Prelude.{◌≡◌, ◌⊎◌, refl, [], ◌∷◌, Text, codes, tally, arith}
use mesh_settle.Settlement.Dedupe.{claimed, in_flight, DedupeStore, claim, claimed_marker}
use mesh_settle.Settlement.Dedupe.Race.{Race, RaceStep, command, at_start, then_step, wins, racing}
use mesh_settle.Settlement.Dedupe.Race.Exclusive.{claim-Exclusive}
use mesh_settle.Settlement.Effects.{ret, redis_set_nx, perform, ◌>>=◌, take_call, serve}
use mesh_settle.Settlement.Redis.{set_nx, get, live}
use mesh_settle.Tests.Sample.{empty_world, at_noon}

abbrev store : DedupeStore
store = record { claim_ttl = 60; settled_ttl = 86400 }

abbrev key : Text
key = codes "settle:1"

-- The first consumer's command has been answered.
abbrev won : Race
won = record {
  world = (take_call at_noon (redis_set_nx key claimed_marker 60) empty_world).1;
  racers = ret claimed ∷ claim store key ∷ [];
}

first_step : RaceStep (racing store key 2 empty_world) won
unfolding claim perform ◌>>=◌ take_call serve set_nx get live
first_step =
    command [] (redis_set_nx key claimed_marker 60) _ (claim store key ∷ []) at_noon empty_world
      refl

claim-Exclusive_example :
    (tally wins won.racers ≡ 1) × ((claimed ≡ claimed) ⊎ (claimed ≡ in_flight))
unfolding take_call serve set_nx get live
claim-Exclusive_example =
    claim-Exclusive store key 2 empty_world won (then_step _ _ at_start first_step) refl
      (omega arith) [] claimed (claim store key ∷ []) refl

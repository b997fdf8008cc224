-- ===== src/Settlement/Dedupe.antt =====
-- services/settlement/dedupe.py: `DedupeStore`, the claims in Redis.
pub mod Race
use mesh_settle.Prelude.{ℕ, Option, none, some, Text, codes, text_eq, if◌then◌else◌, ◌==◌}
use mesh_settle.Settlement.Effects.{
  Prog, ret, ◌>>=◌, perform, redis_set_nx, redis_set, redis_get, redis_delete,
}

abbrev pub claimed_marker : Text
claimed_marker = codes "claimed"

abbrev pub settled_marker : Text
settled_marker = codes "settled"

pub data ClaimOutcome : Type 0 where
  claimed in_flight already_settled : ClaimOutcome

-- The two lifetimes, in seconds.
pub record DedupeStore : Type 0 where
  pub claim_ttl : ℕ
  pub settled_ttl : ℕ

-- `claim_ttl_seconds or settings.dedupe_claim_ttl_seconds`: zero counts as absent.
unfoldable pub or_setting : Option ℕ → ℕ → ℕ
or_setting none default = default
or_setting (some n) default = if n == 0 then default else n

-- `__init__`
unfoldable pub dedupe_store : Option ℕ → Option ℕ → DedupeStore → DedupeStore
unfolding or_setting
dedupe_store claim_ttl_seconds settled_ttl_seconds settings = record {
  claim_ttl = or_setting claim_ttl_seconds settings.claim_ttl;
  settled_ttl = or_setting settled_ttl_seconds settings.settled_ttl;
}

-- What a lost claim means, by the marker that is found.
unfoldable pub outcome_of_marker : Option Text → ClaimOutcome
outcome_of_marker none = in_flight
outcome_of_marker (some marker) =
    if text_eq marker settled_marker then already_settled else in_flight

module _ (d : DedupeStore) where
  unfoldable pub claim : Text → Prog ClaimOutcome
  claim k = do
    won ← perform (redis_set_nx k claimed_marker d.claim_ttl)
    if won then ret claimed else do current ← perform (redis_get k); ret (outcome_of_marker current)

  unfoldable pub mark_settled : Text → Prog (Unit {0})
  mark_settled k = perform (redis_set k settled_marker d.settled_ttl)

unfoldable pub release_claim : Text → Prog (Unit {0})
release_claim k = perform (redis_delete k)

-- `state`
unfoldable pub state : Text → Prog (Option Text)
state k = perform (redis_get k)

-- ===== src/Settlement/App.antt =====
-- services/settlement/app.py: what the routes show of the service, and the processor that its start
-- makes of the settings.
pub mod Shown
use mesh_settle.Prelude.{
  ℕ, ℤ, pos, pos_part, Bool, true, false, ◌&&◌, Option, none, some, ◌>>=◌, List, [], ◌∷◌, Text,
  codes, text_eq, if◌then◌else◌,
}
use mesh_settle.Crypto.Primitives.{Key}
use mesh_settle.Keys.Accessors.{KeyCache, sender_signing_public_key, settlement_rsa_private_key}
use mesh_settle.Keys.Library.{PemLibrary}
use mesh_settle.Keys.Loading.{Loaded, loaded, key_configuration_error}
use mesh_settle.Keys.Settings.{Settings}
use mesh_settle.Models.Moment.{Moment}
use mesh_settle.Settlement.Db.{Settlement}
use mesh_settle.Settlement.Dedupe.{DedupeStore}
use mesh_settle.Settlement.Metrics.{SettlementMetrics, snapshot}
use mesh_settle.Settlement.Processor.{Processor, settlement_processor}

-- `SettlementView`
pub record SettlementView : Type 0 where
  pub id : ℕ
  pub idempotency_key : Text
  pub packet_id : ℕ
  pub sender_id : Text
  pub payer_id : Text
  pub payee_id : Text
  pub amount_minor : ℕ
  pub currency : Text
  pub packet_created_at : Moment
  pub settled_at : ℕ
  pub hop_count : ℕ

-- `SettlementView.model_validate`, of a row.
unfoldable pub settlement_view : Settlement → SettlementView
settlement_view s = record {
  id = s.id;
  idempotency_key = s.idempotency_key;
  packet_id = s.packet_id;
  sender_id = s.sender_id;
  payer_id = s.payer_id;
  payee_id = s.payee_id;
  amount_minor = s.amount_minor;
  currency = s.currency;
  packet_created_at = s.packet_created_at;
  settled_at = s.settled_at;
  hop_count = s.hop_count;
}

-- `MetricsView`
pub record MetricsView : Type 0 where
  pub settled : ℕ
  pub rejected : ℕ
  pub duplicates : ℕ
  pub invalid_signature : ℕ
  pub malformed : ℕ
  pub decryption_failed : ℕ
  pub expired : ℕ
  pub not_yet_valid : ℕ
  pub internal_errors : ℕ
  pub queue_depth : Option ℕ

abbrev argument : Text → List (Text × ℕ) → Option ℕ
argument name [] = none
argument name ((other, value) ∷ rest) =
    if text_eq other name then some value else argument name rest

abbrev metrics_fields : List Text
metrics_fields =
    codes "settled"
    ∷ codes "rejected"
    ∷ codes "duplicates"
    ∷ codes "invalid_signature"
    ∷ codes "malformed"
    ∷ codes "decryption_failed"
    ∷ codes "expired"
    ∷ codes "not_yet_valid"
    ∷ codes "internal_errors"
    ∷ []

abbrev named : Text → List Text → Bool
named name [] = false
named name (other ∷ rest) = if text_eq other name then true else named name rest

-- No argument but the fields: `extra="forbid"`.
abbrev only_fields : List (Text × ℕ) → Bool
only_fields [] = true
only_fields ((name, value) ∷ rest) = named name metrics_fields && only_fields rest

abbrev if_only_fields : List (Text × ℕ) → MetricsView → Option MetricsView
if_only_fields arguments view = if only_fields arguments then some view else none

-- `MetricsView(**arguments, queue_depth=depth)`; `none` is a `ValidationError`.
unfoldable pub metrics_view : List (Text × ℕ) → Option ℕ → Option MetricsView
metrics_view arguments depth = do
  settled ← argument (codes "settled") arguments
  rejected ← argument (codes "rejected") arguments
  duplicates ← argument (codes "duplicates") arguments
  invalid_signature ← argument (codes "invalid_signature") arguments
  malformed ← argument (codes "malformed") arguments
  decryption_failed ← argument (codes "decryption_failed") arguments
  expired ← argument (codes "expired") arguments
  not_yet_valid ← argument (codes "not_yet_valid") arguments
  internal_errors ← argument (codes "internal_errors") arguments
  if_only_fields arguments (record {
    settled = settled;
    rejected = rejected;
    duplicates = duplicates;
    invalid_signature = invalid_signature;
    malformed = malformed;
    decryption_failed = decryption_failed;
    expired = expired;
    not_yet_valid = not_yet_valid;
    internal_errors = internal_errors;
    queue_depth = depth;
  })

-- `metrics_endpoint`, with the depth that the consumer reports if there is one.
unfoldable pub metrics_endpoint : SettlementMetrics → Option (Option ℕ) → Option MetricsView
unfolding metrics_view snapshot
metrics_endpoint m none = metrics_view (snapshot m) none
metrics_endpoint m (some depth) = metrics_view (snapshot m) depth

-- `HealthView`
pub record HealthView : Type 0 where
  pub status : Text
  pub service : Text
  pub redis : Bool
  pub database : Bool
  pub consuming : Bool

-- `DedupeStore.ping`, of what Redis answers; `none` is an exception.
unfoldable pub ping : Option Bool → Bool
ping none = false
ping (some answered) = answered

-- `healthz`, with whether the query of the database returns and whether there is a consumer.
unfoldable pub healthz : Option Bool → Bool → Bool → HealthView
unfolding ping
healthz redis_answer database_ok consuming = record {
  status = if ping redis_answer && database_ok then codes "ok" else codes "degraded";
  service = codes "settlement";
  redis = ping redis_answer;
  database = database_ok;
  consuming = consuming;
}

abbrev pub processor_of : Settings → DedupeStore → Loaded → Loaded → Option Processor
processor_of s dedupe (loaded sender_key) (loaded private_key) = some (
    settlement_processor dedupe sender_key private_key none none
      (pos_part s.freshness_window_seconds) (pos_part s.clock_skew_tolerance_seconds))
processor_of s dedupe _ _ = none

-- The processor that `lifespan` makes of settings in their bounds; `none` is an error of the keys.
unfoldable pub started_processor : PemLibrary → Settings → DedupeStore → KeyCache → Option Processor
unfolding settlement_processor sender_signing_public_key settlement_rsa_private_key
started_processor lib s dedupe cache =
    let sender_key = sender_signing_public_key lib s cache in
    let private_key = settlement_rsa_private_key lib s sender_key.1 in
    processor_of s dedupe sender_key.0 private_key.0

-- ===== src/Settlement/App/Shown.antt =====
-- services/settlement/app.py: the counters are shown as they are.
use mesh_settle.Prelude.{◌≡◌, refl, ℕ, Option, none, some, text_eq}
use mesh_settle.Settlement.App.{MetricsView, metrics_view, metrics_endpoint}
use mesh_settle.Settlement.Metrics.{SettlementMetrics, snapshot, rejected}

abbrev shown : SettlementMetrics → Option ℕ → MetricsView
shown m depth = record {
  settled = m.settled;
  rejected = rejected m;
  duplicates = m.duplicates;
  invalid_signature = m.invalid_signature;
  malformed = m.malformed;
  decryption_failed = m.decryption_failed;
  expired = m.expired;
  not_yet_valid = m.not_yet_valid;
  internal_errors = m.internal_errors;
  queue_depth = depth;
}

metrics_view-shown :
    (m : SettlementMetrics) (depth : Option ℕ)
    → metrics_view (snapshot m) depth ≡ some (shown m depth)
unfolding metrics_view snapshot text_eq
metrics_view-shown m depth = refl

pub metrics_endpoint-shown :
    (m : SettlementMetrics) (depth : Option ℕ)
    → (metrics_endpoint m none ≡ some (shown m none))
      × (metrics_endpoint m (some depth) ≡ some (shown m depth))
unfolding metrics_endpoint
metrics_endpoint-shown m depth = (metrics_view-shown m none, metrics_view-shown m depth)

-- ===== src/Settlement/Outcome/Windows.antt =====
-- services/settlement/processor.py: what `_check_freshness` bounds.
use mesh_settle.Prelude.{ℕ, ◌+◌, ◌*◌, ◌≤◌, ◌≡◌, arith}
use mesh_settle.Settlement.Outcome.{fresh, freshness, second_micros}

pub freshness-fresh :
    (window tolerance now created : ℕ)
    → freshness window tolerance now created ≡ fresh
    → (now ≤ created + window * second_micros) × (created ≤ now + tolerance * second_micros)
unfolding freshness
freshness-fresh window tolerance now created h = (ground (arith, h), ground (arith, h))

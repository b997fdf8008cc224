-- ===== src/Settlement/Metrics.antt =====
-- services/settlement/processor.py: `SettlementMetrics`, the counters of a processor.
use mesh_settle.Prelude.{
  ℕ, ◌+◌, ◌≡◌, refl, inl, inr, Option, none, some, List, [], ◌∷◌, Text, arith, text_eq,
  if◌then◌else◌, Bool-cases, codes,
}
use mesh_settle.Models.Codes.{
  ErrorCode, code_value, malformed_payload, invalid_signature, duplicate_packet, decryption_failed,
  packet_expired, packet_not_yet_valid, internal_error,
}
use mesh_settle.Settlement.Outcome.{SettlementOutcome, is_settled}

pub record SettlementMetrics : Type 0 where
  pub settled : ℕ
  pub duplicates : ℕ
  pub invalid_signature : ℕ
  pub malformed : ℕ
  pub decryption_failed : ℕ
  pub expired : ℕ
  pub not_yet_valid : ℕ
  pub internal_errors : ℕ
  pub by_code : List (Text × ℕ)

abbrev pub no_metrics : SettlementMetrics
no_metrics = record {
  settled = 0;
  duplicates = 0;
  invalid_signature = 0;
  malformed = 0;
  decryption_failed = 0;
  expired = 0;
  not_yet_valid = 0;
  internal_errors = 0;
  by_code = [];
}

-- `by_code[k] = by_code.get(k, 0) + 1`
unfoldable pub bump : Text → List (Text × ℕ) → List (Text × ℕ)
bump k [] = (k, 1) ∷ []
bump k ((j, n) ∷ rest) =
    let bumped = bump k rest in if text_eq j k then (j, n + 1) ∷ rest else (j, n) ∷ bumped

unfoldable pub count_by_code : ErrorCode → SettlementMetrics → SettlementMetrics
count_by_code duplicate_packet m = record m { duplicates = m.duplicates + 1 }
count_by_code invalid_signature m = record m { invalid_signature = m.invalid_signature + 1 }
count_by_code malformed_payload m = record m { malformed = m.malformed + 1 }
count_by_code decryption_failed m = record m { decryption_failed = m.decryption_failed + 1 }
count_by_code packet_expired m = record m { expired = m.expired + 1 }
count_by_code packet_not_yet_valid m = record m { not_yet_valid = m.not_yet_valid + 1 }
count_by_code internal_error m = record m { internal_errors = m.internal_errors + 1 }

unfoldable pub record_code : Option ErrorCode → SettlementMetrics → SettlementMetrics
unfolding count_by_code bump
record_code none m = m
record_code (some code) m =
    count_by_code code (record m { by_code = bump (code_value code) m.by_code })

-- `record`
unfoldable pub record_outcome : SettlementOutcome → SettlementMetrics → SettlementMetrics
unfolding record_code
record_outcome o m =
    if is_settled o then record m { settled = m.settled + 1 } else record_code o.code m

unfoldable pub sum_values : List (Text × ℕ) → ℕ
sum_values [] = 0
sum_values ((k, n) ∷ rest) = n + sum_values rest

-- `rejected`
abbrev pub rejected : SettlementMetrics → ℕ
rejected m = sum_values m.by_code

-- `snapshot`
unfoldable pub snapshot : SettlementMetrics → List (Text × ℕ)
snapshot m =
    (codes "settled", m.settled)
    ∷ (codes "rejected", rejected m)
    ∷ (codes "duplicates", m.duplicates)
    ∷ (codes "invalid_signature", m.invalid_signature)
    ∷ (codes "malformed", m.malformed)
    ∷ (codes "decryption_failed", m.decryption_failed)
    ∷ (codes "expired", m.expired)
    ∷ (codes "not_yet_valid", m.not_yet_valid)
    ∷ (codes "internal_errors", m.internal_errors)
    ∷ []

-- The metrics after a sequence of outcomes.
unfoldable pub record_all : List SettlementOutcome → SettlementMetrics → SettlementMetrics
unfolding record_outcome
record_all [] m = m
record_all (o ∷ os) m = record_all os (record_outcome o m)

sum_values-bump : (k : Text) (l : List (Text × ℕ)) → sum_values (bump k l) ≡ sum_values l + 1
unfolding sum_values bump
sum_values-bump k [] = refl
sum_values-bump k ((j, n) ∷ rest) = ground (arith, sum_values-bump k rest)

-- The sum of the counters of the seven codes.
abbrev pub counted : SettlementMetrics → ℕ
counted m =
    m.duplicates + m.invalid_signature + m.malformed + m.decryption_failed + m.expired
    + m.not_yet_valid + m.internal_errors

record_code-rejected :
    (code : Option ErrorCode) (m : SettlementMetrics)
    → rejected m ≡ counted m
    → rejected (record_code code m) ≡ counted (record_code code m)
unfolding record_code count_by_code
record_code-rejected none m h = h
record_code-rejected (some duplicate_packet) m h =
    omega (arith, h, sum_values-bump (code_value duplicate_packet) m.by_code)
record_code-rejected (some invalid_signature) m h =
    omega (arith, h, sum_values-bump (code_value invalid_signature) m.by_code)
record_code-rejected (some malformed_payload) m h =
    omega (arith, h, sum_values-bump (code_value malformed_payload) m.by_code)
record_code-rejected (some decryption_failed) m h =
    omega (arith, h, sum_values-bump (code_value decryption_failed) m.by_code)
record_code-rejected (some packet_expired) m h =
    omega (arith, h, sum_values-bump (code_value packet_expired) m.by_code)
record_code-rejected (some packet_not_yet_valid) m h =
    omega (arith, h, sum_values-bump (code_value packet_not_yet_valid) m.by_code)
record_code-rejected (some internal_error) m h =
    omega (arith, h, sum_values-bump (code_value internal_error) m.by_code)

-- The total of rejections and the sum of the seven counters of rejections agree after any sequence
-- of recorded outcomes, if they agreed before it.
pub record_all-rejected :
    (os : List SettlementOutcome) (m : SettlementMetrics)
    → rejected m ≡ counted m
    → rejected (record_all os m) ≡ counted (record_all os m)
unfolding record_all record_outcome
record_all-rejected [] m h = h
record_all-rejected (o ∷ os) m h = record_all-rejected os _ (elim (Bool-cases (is_settled o)) [
  | inl yes_settled ↦ rw yes_settled h
  | inr not_settled ↦ rw not_settled (record_code-rejected o.code m h)
])

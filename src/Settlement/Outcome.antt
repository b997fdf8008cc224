-- ===== src/Settlement/Outcome.antt =====
-- services/settlement/processor.py: `SettlementOutcome`, and the texts of the rejections.
pub mod Windows
use mesh_settle.Prelude.{
  ℕ, ◌+◌, ◌-◌, ◌*◌, ◌/◌, Bool, true, false, Option, none, some, List, [], ◌∷◌, ◌++◌, Text, codes,
  take, ltb, if◌then◌else◌,
}
use mesh_settle.Crypto.Json.{decimal}
use mesh_settle.Models.Codes.{ErrorCode, PacketStatus}
use mesh_settle.Models.Fields.{Errors}

pub record SettlementOutcome : Type 0 where
  pub status : PacketStatus
  pub detail : Text
  pub code : Option ErrorCode
  pub idempotency_key : Option Text
  pub packet_id : Option ℕ
  pub settlement_id : Option ℕ
  pub retryable : Bool

-- `settled`
unfoldable pub is_settled : SettlementOutcome → Bool
is_settled o = elim o.status [ PacketStatus.settled ↦ true | _ ↦ false ]

-- The rejection of a packet that was read, with its key and id.
unfoldable pub rejection : ErrorCode → Text → Text → ℕ → SettlementOutcome
rejection code detail key packet_id = record {
  status = PacketStatus.rejected;
  detail = detail;
  code = some code;
  idempotency_key = some key;
  packet_id = some packet_id;
  settlement_id = none;
  retryable = false;
}

-- `".".join(...)`
unfoldable pub join_dots : List Text → Text
join_dots [] = []
join_dots (s ∷ []) = s
join_dots (s ∷ t ∷ rest) = s ++ b'.' ∷ join_dots (t ∷ rest)

abbrev pub or_packet : Text → Text
or_packet [] = codes "packet"
or_packet (c ∷ s) = c ∷ s

-- `_summarize_validation_error`
unfoldable pub summarize_validation_error : Errors → Text
unfolding join_dots
summarize_validation_error [] = codes "packet failed schema validation"
summarize_validation_error (first ∷ rest) =
    take 256 (or_packet (join_dots first.loc) ++ codes ": " ++ first.msg)

-- Where a packet stands in its window. The ages are whole microseconds. The code compares the float
-- `total_seconds()` with the whole seconds of the setting, which has the same result for a setting
-- below 2^34 seconds (544 years); above, an age one microsecond over is rounded down to it.
pub data Freshness : Type 0 where
  fresh : Freshness
  expired not_yet_valid : Text → Freshness

abbrev pub second_micros : ℕ
second_micros = 1000000

-- The two tests of `_check_freshness`, at a time, for a time of creation.
unfoldable pub freshness : ℕ → ℕ → ℕ → ℕ → Freshness
unfolding decimal
freshness window tolerance now created =
    if ltb (created + window * second_micros) now
    then expired (
        codes "packet is "
        ++ decimal ((now - created) / second_micros)
        ++ codes "s old, older than the "
        ++ decimal window
        ++ codes "s freshness window")
    else if ltb (now + tolerance * second_micros) created
    then not_yet_valid (
        codes "packet is dated "
        ++ decimal ((created - now) / second_micros)
        ++ codes "s in the future, beyond the "
        ++ decimal tolerance
        ++ codes "s clock-skew tolerance")
    else fresh

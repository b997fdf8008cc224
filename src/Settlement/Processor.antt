-- ===== src/Settlement/Processor.antt =====
-- services/settlement/processor.py: `SettlementProcessor`, the decision pipeline, as a program over
-- the calls on Redis and Postgres. Log lines are left out. One function stands for each stage of
-- `_process`; a stage calls the next one.
pub mod Persist
pub mod Gate
pub mod Calls
pub mod Claims
pub mod Report
pub mod Honesty
pub mod Authority
pub mod Calm
pub mod Fits
use mesh_settle.Prelude.{
  ℕ, Bool, true, false, Option, none, some, List, Text, codes, text_eq, take, if◌then◌else◌,
}
use mesh_settle.Crypto.Primitives.{Key, Primitives}
use mesh_settle.Crypto.Signing.{Verified, verified, signature_error}
use mesh_settle.Models.Codes.{
  ErrorCode, code_value, PacketStatus, malformed_payload, invalid_signature, duplicate_packet,
  decryption_failed, packet_expired, packet_not_yet_valid, internal_error,
}
use mesh_settle.Models.Fields.{Errors, Validated, valid, invalid}
use mesh_settle.Models.Instruction.{PaymentInstruction}
use mesh_settle.Models.Moment.{Moment, micros}
use mesh_settle.Models.Packet.{
  PaymentPacket, hop_count, idempotency_key, verify, expected_aad, open_instruction,
  OpenedInstruction, opened,
}
use mesh_settle.Models.Wire.{Wire, model_validate_json}
use mesh_settle.Settlement.Db.{NewSettlement, RejectedPacket}
use mesh_settle.Settlement.Dedupe.{
  DedupeStore, ClaimOutcome, claimed, in_flight, already_settled, claim, mark_settled,
  release_claim,
}
use mesh_settle.Settlement.Effects.{
  Exn, integrity, other, Result, ok, err, now, add_settlement, add_rejection, Prog, ret, raise,
  ◌>>=◌, ◌>>◌, perform, try_except, attempt,
}
use mesh_settle.Settlement.Outcome.{
  SettlementOutcome, rejection, summarize_validation_error, Freshness, fresh, expired,
  not_yet_valid, freshness,
}

-- What `__init__` keeps, but for the connections.
pub record Processor : Type 0 where
  pub dedupe : DedupeStore
  pub sender_public_key : Key
  pub settlement_private_key : Key
  pub freshness_window_seconds : ℕ
  pub clock_skew_tolerance_seconds : ℕ

-- `settings.x if x is None else x`
unfoldable pub injected : Option ℕ → ℕ → ℕ
injected none setting = setting
injected (some n) setting = n

-- `__init__`, with the settings for the two windows.
unfoldable pub settlement_processor :
    DedupeStore → Key → Key → Option ℕ → Option ℕ → ℕ → ℕ → Processor
unfolding injected
settlement_processor dedupe sender_key private_key window tolerance set_window set_tolerance =
    record {
      dedupe = dedupe;
      sender_public_key = sender_key;
      settlement_private_key = private_key;
      freshness_window_seconds = injected window set_window;
      clock_skew_tolerance_seconds = injected tolerance set_tolerance;
    }

-- `record_rejection`
unfoldable pub record_rejection : ErrorCode → Text → Option Text → Option ℕ → Prog (Unit {0})
record_rejection code detail key packet_id = do
  rejected_at ← perform now
  perform (
      add_rejection (record {
        idempotency_key = key;
        packet_id = packet_id;
        reason = code_value code;
        detail = take 256 detail;
        rejected_at = rejected_at;
      }))

-- `_persist_rejection`: best effort.
unfoldable pub persist_rejection : ErrorCode → Text → Option Text → Option ℕ → Prog (Unit {0})
persist_rejection code detail key packet_id =
    try_except (record_rejection code detail key packet_id) (λ e. ret tt)

module _ (c : Primitives) (w : Wire) (p : Processor) where
  -- The values of the row that a packet and its instruction make.
  unfoldable pub settlement_values : PaymentPacket → PaymentInstruction → NewSettlement
  settlement_values packet i = record {
    idempotency_key = idempotency_key c packet;
    packet_id = packet.packet_id;
    sender_id = packet.sender_id;
    payer_id = i.payer_id;
    payee_id = i.payee_id;
    amount_minor = i.amount_minor;
    currency = i.currency;
    packet_created_at = i.created_at;
    hop_count = hop_count packet;
  }

  unfoldable pub reject : PaymentPacket → ErrorCode → Text → SettlementOutcome
  unfolding rejection
  reject packet code detail = rejection code detail (idempotency_key c packet) packet.packet_id

  unfoldable pub settled_outcome : PaymentPacket → ℕ → SettlementOutcome
  settled_outcome packet id = record {
    status = PacketStatus.settled;
    detail = codes "settled";
    code = none;
    idempotency_key = some (idempotency_key c packet);
    packet_id = some packet.packet_id;
    settlement_id = some id;
    retryable = false;
  }

  -- `_reject_before_claim`
  unfoldable pub reject_before_claim : PaymentPacket → ErrorCode → Text → Prog SettlementOutcome
  reject_before_claim packet code detail = do
    persist_rejection code detail (some (idempotency_key c packet)) (some packet.packet_id)
    ret (reject packet code detail)

  -- `_reject_after_claim`, and the outcome that its callers return.
  unfoldable pub reject_after_claim : PaymentPacket → ErrorCode → Text → Prog SettlementOutcome
  reject_after_claim packet code detail = do
    persist_rejection code detail (some (idempotency_key c packet)) (some packet.packet_id)
    release_claim (idempotency_key c packet)
    ret (reject packet code detail)

  -- After the transaction of `_write_settlement`: committed, refused by a constraint, or failed.
  unfoldable pub finish_write : PaymentPacket → Result ℕ → Prog SettlementOutcome
  finish_write packet (ok id) = do
    mark_settled p.dedupe (idempotency_key c packet)
    ret (settled_outcome packet id)
  finish_write packet (err integrity) = do
    mark_settled p.dedupe (idempotency_key c packet)
    ret (reject packet duplicate_packet (codes "packet was already settled"))
  finish_write packet (err other) = raise other

  -- `_write_settlement`
  unfoldable pub write_settlement : PaymentPacket → PaymentInstruction → Prog SettlementOutcome
  write_settlement packet i = do
    result ← attempt (perform (add_settlement (settlement_values packet i)))
    finish_write packet result

  -- Steps 4 to 6: what was opened, the two kinds of failure that are caught, or another exception.
  unfoldable pub settle_opened : PaymentPacket → OpenedInstruction → Prog SettlementOutcome
  settle_opened packet (opened i) = write_settlement packet i
  settle_opened packet (OpenedInstruction.decryption_failed e) =
      reject_after_claim packet decryption_failed (codes "packet payload could not be decrypted")
  settle_opened packet (OpenedInstruction.value_error e) =
      reject_after_claim packet malformed_payload (take 256 e)
  settle_opened packet (OpenedInstruction.validation_error es) =
      reject_after_claim packet malformed_payload (take 256 (w.show_errors es))
  settle_opened packet OpenedInstruction.recursion_error = raise other

  unfoldable pub retry_outcome : PaymentPacket → SettlementOutcome
  unfolding reject
  retry_outcome packet =
      record (reject packet internal_error (codes "settlement failed unexpectedly")) {
        retryable = true;
      }

  -- The handler of an unexpected failure.
  unfoldable pub release_and_retry : PaymentPacket → Prog SettlementOutcome
  release_and_retry packet = do release_claim (idempotency_key c packet); ret (retry_outcome packet)

  unfoldable pub settle_claimed : PaymentPacket → Prog SettlementOutcome
  settle_claimed packet =
      try_except
        (settle_opened packet
          (open_instruction c w.read_instruction packet p.settlement_private_key))
        (λ e. release_and_retry packet)

  -- Step 3, after the claim.
  unfoldable pub after_claim : PaymentPacket → ClaimOutcome → Prog SettlementOutcome
  after_claim packet claimed = settle_claimed packet
  after_claim packet already_settled =
      ret (reject packet duplicate_packet (codes "packet was already settled"))
  after_claim packet in_flight =
      ret (
        reject packet duplicate_packet
          (codes "packet is already being settled by another consumer"))

  -- Step 3, from the claim on.
  unfoldable pub claim_and_settle : PaymentPacket → Prog SettlementOutcome
  claim_and_settle packet = do
    outcome ← claim p.dedupe (idempotency_key c packet)
    after_claim packet outcome

  -- Step 2b.
  unfoldable pub check_aad : PaymentPacket → Prog SettlementOutcome
  check_aad packet =
      if text_eq packet.envelope.aad (expected_aad packet)
      then claim_and_settle packet
      else reject_before_claim packet malformed_payload
          (codes "envelope AAD does not match the packet header")

  -- Step 2a: `_check_freshness`, by the result of its tests.
  unfoldable pub after_freshness : PaymentPacket → Freshness → Prog SettlementOutcome
  after_freshness packet fresh = check_aad packet
  after_freshness packet (expired detail) = reject_before_claim packet packet_expired detail
  after_freshness packet (not_yet_valid detail) =
      reject_before_claim packet packet_not_yet_valid detail

  unfoldable pub check_freshness : PaymentPacket → Prog SettlementOutcome
  check_freshness packet = do
    time ← perform now
    after_freshness packet (
        freshness p.freshness_window_seconds p.clock_skew_tolerance_seconds (micros time)
          (micros packet.created_at))

  -- Step 2.
  unfoldable pub after_verify : PaymentPacket → Verified → Prog SettlementOutcome
  after_verify packet verified = check_freshness packet
  after_verify packet (signature_error e) =
      reject_before_claim packet invalid_signature (codes "packet signature did not verify")

  -- Step 1.
  unfoldable pub after_parse : Validated PaymentPacket → Prog SettlementOutcome
  after_parse (valid packet) = after_verify packet (verify c packet p.sender_public_key)
  after_parse (invalid es) = do
    persist_rejection malformed_payload (summarize_validation_error es) none none
    ret (record {
      status = PacketStatus.rejected;
      detail = summarize_validation_error es;
      code = some malformed_payload;
      idempotency_key = none;
      packet_id = none;
      settlement_id = none;
      retryable = false;
    })

  -- `_process`
  unfoldable pub process_packet : List ℕ → Prog SettlementOutcome
  process_packet raw_body = after_parse (model_validate_json w raw_body)

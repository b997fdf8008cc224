-- ===== src/Settlement/Processor/Authority.antt =====
-- services/settlement/processor.py: every settlement that the pipeline tries to write is authorised,
-- and it reports a settlement only under a key that is committed, whatever the stores reply.
use mesh_settle.Prelude.{ℕ, ◌≡◌, refl, inl, inr, true, none, List, [], Text, text_eq, Bool-cases}
use mesh_settle.Crypto.Primitives.{Primitives}
use mesh_settle.Crypto.Signing.{Verified, verified, signature_error}
use mesh_settle.Models.Codes.{
  ErrorCode, malformed_payload, invalid_signature, duplicate_packet, decryption_failed,
  packet_expired, packet_not_yet_valid,
}
use mesh_settle.Models.Fields.{Validated, valid, invalid}
use mesh_settle.Models.Instruction.{PaymentInstruction}
use mesh_settle.Models.Moment.{Moment}
use mesh_settle.Models.Packet.{
  PaymentPacket, verify, expected_aad, idempotency_key, open_instruction, OpenedInstruction, opened,
}
use mesh_settle.Models.Wire.{Wire, model_validate_json}
use mesh_settle.Settlement.Db.{NewSettlement}
use mesh_settle.Settlement.Dedupe.{ClaimOutcome, claimed, in_flight, already_settled}
use mesh_settle.Settlement.Effects.{
  integrity, other, Result, ok, err, add_settlement, perform, ◌>>=◌,
}
use mesh_settle.Settlement.Effects.Dated.{Dated, Follows-Dated, Dated-Follows}
use mesh_settle.Settlement.Effects.Follows.{
  Follows, BindFollows, TryFollows, Follows-mono, Follows-bind, Follows-try, Follows-attempt,
  Follows-perform, known_after,
}
use mesh_settle.Settlement.Outcome.{
  SettlementOutcome, is_settled, Freshness, fresh, expired, not_yet_valid,
}
use mesh_settle.Settlement.Processor.{
  Processor, settlement_values, reject, settled_outcome, reject_before_claim, reject_after_claim,
  finish_write, write_settlement, settle_opened, release_and_retry, retry_outcome, settle_claimed,
  after_claim, claim_and_settle, check_aad, after_freshness, check_freshness, after_verify,
  after_parse, process_packet,
}
use mesh_settle.Settlement.Processor.Gate.{Admitted, fresh_at}
use mesh_settle.Settlement.Processor.Honesty.{
  Member, Honest, persist_then, release_then, mark_then, claim_then,
}

module _ (c : Primitives) (wire : Wire) (p : Processor) where
  -- The row is that of a packet which some message holds and which is verified, fresh at some time,
  -- bound to its header, and opened by the settlement key to the instruction. `AuthorisedBy` says
  -- which message and which time.
  pub record Authorised (v : NewSettlement) : Type 0 where
    pub body : List ℕ
    pub packet : PaymentPacket
    pub time : Moment
    pub instruction : PaymentInstruction
    pub read : model_validate_json wire body ≡ valid packet
    pub admitted : Admitted c wire p packet time
    pub held :
        open_instruction c wire.read_instruction packet p.settlement_private_key
        ≡ opened instruction
    pub values : v ≡ settlement_values c wire p packet instruction

module _ (c : Primitives) (wire : Wire) (p : Processor) (P : NewSettlement → Type 0) where
  module _ (packet : PaymentPacket) where
    rejected_Honest :
        (e : ErrorCode) (detail : Text) (ks : List Text)
        → Honest ks (ok (reject c wire p packet e detail))
    unfolding reject is_settled
    rejected_Honest e detail ks h = cc

    retry_Honest : (ks : List Text) → Honest ks (ok (retry_outcome c wire p packet))
    unfolding retry_outcome is_settled
    retry_Honest ks h = cc

    settled_Honest :
        (id : ℕ) (ks : List Text)
        → Member (idempotency_key c packet) ks
        → Honest ks (ok (settled_outcome c wire p packet id))
    unfolding settled_outcome
    settled_Honest id ks m h = (idempotency_key c packet, refl, m)

    reject_before_claim-Follows :
        (e : ErrorCode) (detail : Text) (ks : List Text)
        → Follows P Honest ks (reject_before_claim c wire p packet e detail)
    unfolding reject_before_claim
    reject_before_claim-Follows e detail ks =
        persist_then P ks _ (rejected_Honest e detail ks) e detail _ _

    handled :
        (ks : List Text) (r : Result SettlementOutcome)
        → Honest ks r
        → TryFollows P (λ e. release_and_retry c wire p packet) Honest ks r
    unfolding release_and_retry
    handled ks (ok o) h = h
    handled ks (err e) h = release_then P ks _ (retry_Honest ks) _

    reject_after_claim-Follows :
        (e : ErrorCode) (detail : Text) (ks : List Text)
        → Follows P Honest ks (reject_after_claim c wire p packet e detail)
    unfolding reject_after_claim
    reject_after_claim-Follows e detail ks =
        persist_then P ks _ (release_then P ks _ (rejected_Honest e detail ks) _) e detail _ _

    finish_write-Follows :
        (r : Result ℕ) (ks : List Text)
        → ((id : ℕ) → r ≡ ok id → Member (idempotency_key c packet) ks)
        → Follows P Honest ks (finish_write c wire p packet r)
    unfolding finish_write
    finish_write-Follows (ok id) ks m = mark_then P ks _ (settled_Honest id ks (m id refl)) _ _
    finish_write-Follows (err integrity) ks m =
        mark_then P ks _ (rejected_Honest duplicate_packet _ ks) _ _
    finish_write-Follows (err other) ks m = tt

    after_add :
        (i : PaymentInstruction) (ks : List Text) (r : Result ℕ)
        → Follows P Honest
            (known_after (add_settlement (settlement_values c wire p packet i)) r ks)
            (finish_write c wire p packet r)
    unfolding settlement_values
    after_add i ks (ok id) = finish_write-Follows (ok id) _ (λ j e. inl refl)
    after_add i ks (err e) = finish_write-Follows (err e) ks (λ j x. cc)

    write_settlement-Follows :
        (i : PaymentInstruction) (ks : List Text)
        → P (settlement_values c wire p packet i)
        → Follows P Honest ks (write_settlement c wire p packet i)
    unfolding write_settlement
    write_settlement-Follows i ks a = Follows-bind P _ (finish_write c wire p packet) Honest ks (
        Follows-attempt P _ (BindFollows P (finish_write c wire p packet) Honest) ks (
          Follows-perform P (add_settlement (settlement_values c wire p packet i))
            (λ ls r. BindFollows P (finish_write c wire p packet) Honest ls (ok r)) ks a
            (after_add i ks)))

    settle_opened-Follows :
        (o : OpenedInstruction) (ks : List Text)
        → ((i : PaymentInstruction) → o ≡ opened i → P (settlement_values c wire p packet i))
        → Follows P Honest ks (settle_opened c wire p packet o)
    unfolding settle_opened
    settle_opened-Follows (opened i) ks a = write_settlement-Follows i ks (a i refl)
    settle_opened-Follows (OpenedInstruction.decryption_failed m) ks a =
        reject_after_claim-Follows decryption_failed _ ks
    settle_opened-Follows (OpenedInstruction.value_error m) ks a =
        reject_after_claim-Follows malformed_payload _ ks
    settle_opened-Follows (OpenedInstruction.validation_error m) ks a =
        reject_after_claim-Follows malformed_payload _ ks
    settle_opened-Follows OpenedInstruction.recursion_error ks a = tt

    -- The rows that the pipeline may write for the packet are allowed.
    abbrev MayWrite : Type 0
    MayWrite =
        (i : PaymentInstruction)
        → open_instruction c wire.read_instruction packet p.settlement_private_key ≡ opened i
        → P (settlement_values c wire p packet i)

    settle_claimed-Follows :
        (ks : List Text) → MayWrite → Follows P Honest ks (settle_claimed c wire p packet)
    unfolding settle_claimed
    settle_claimed-Follows ks may =
        Follows-try P _ _ Honest ks
          (Follows-mono P _ Honest _ ks handled (settle_opened-Follows _ ks may))

    after_claim-Follows :
        (ks : List Text) (o : ClaimOutcome)
        → MayWrite
        → Follows P Honest ks (after_claim c wire p packet o)
    unfolding after_claim
    after_claim-Follows ks claimed may = settle_claimed-Follows ks may
    after_claim-Follows ks already_settled may = rejected_Honest duplicate_packet _ ks
    after_claim-Follows ks in_flight may = rejected_Honest duplicate_packet _ ks

    claim_and_settle-Follows :
        (ks : List Text) → MayWrite → Follows P Honest ks (claim_and_settle c wire p packet)
    unfolding claim_and_settle
    claim_and_settle-Follows ks may =
        claim_then P ks _ (λ o. after_claim-Follows ks o may) p.dedupe _

    check_aad-Follows :
        (ks : List Text)
        → (text_eq packet.envelope.aad (expected_aad packet) ≡ true → MayWrite)
        → Follows P Honest ks (check_aad c wire p packet)
    unfolding check_aad
    check_aad-Follows ks may =
        elim (Bool-cases (text_eq packet.envelope.aad (expected_aad packet))) [
          | inl yes_bound ↦ rw yes_bound (claim_and_settle-Follows ks (may yes_bound))
          | inr not_bound ↦ rw not_bound (reject_before_claim-Follows malformed_payload _ ks)
        ]

    after_freshness-Follows :
        (ks : List Text) (f : Freshness)
        → (f ≡ fresh → text_eq packet.envelope.aad (expected_aad packet) ≡ true → MayWrite)
        → Follows P Honest ks (after_freshness c wire p packet f)
    unfolding after_freshness
    after_freshness-Follows ks fresh may = check_aad-Follows ks (may refl)
    after_freshness-Follows ks (expired detail) may =
        reject_before_claim-Follows packet_expired detail ks
    after_freshness-Follows ks (not_yet_valid detail) may =
        reject_before_claim-Follows packet_not_yet_valid detail ks

module _ (c : Primitives) (wire : Wire) (p : Processor) where
  -- The row is authorised by that body, at that time.
  pub record AuthorisedBy (body : List ℕ) (time : Moment) (v : NewSettlement) : Type 0 where
    pub packet : PaymentPacket
    pub instruction : PaymentInstruction
    pub read : model_validate_json wire body ≡ valid packet
    pub admitted : Admitted c wire p packet time
    pub held :
        open_instruction c wire.read_instruction packet p.settlement_private_key
        ≡ opened instruction
    pub values : v ≡ settlement_values c wire p packet instruction

module _ (c : Primitives) (wire : Wire) (p : Processor) where
  AuthorisedBy-Authorised :
      (body : List ℕ) (time : Moment) (v : NewSettlement)
      → AuthorisedBy c wire p body time v
      → Authorised c wire p v
  AuthorisedBy-Authorised body time v a = record {
    body = body;
    packet = a.packet;
    time = time;
    instruction = a.instruction;
    read = a.read;
    admitted = a.admitted;
    held = a.held;
    values = a.values;
  }

  module _ (body : List ℕ) where
    after_time-Follows :
        (packet : PaymentPacket) (time : Moment)
        → model_validate_json wire body ≡ valid packet
        → verify c packet p.sender_public_key ≡ verified
        → Follows
            (AuthorisedBy c wire p body time)
            Honest
            []
            (after_freshness c wire p packet (fresh_at c wire p time packet))
    after_time-Follows packet time read signed =
        after_freshness-Follows c wire p (AuthorisedBy c wire p body time) packet [] _
          λ in_window bound i held. record {
            packet = packet;
            instruction = i;
            read = read;
            admitted = record { signed = signed; in_window = in_window; bound = bound };
            held = held;
            values = refl;
          }

    after_verify-Dated :
        (packet : PaymentPacket) (v : Verified)
        → model_validate_json wire body ≡ valid packet
        → verify c packet p.sender_public_key ≡ v
        → Dated (AuthorisedBy c wire p body) Honest (after_verify c wire p packet v)
    unfolding after_verify check_freshness perform ◌>>=◌
    after_verify-Dated packet verified read e =
        (λ time. after_time-Follows packet time read e, λ x. tt)
    after_verify-Dated packet (signature_error m) read e =
        Follows-Dated (AuthorisedBy c wire p body) Honest _
          (reject_before_claim-Follows c wire p (λ v. ⊥) packet invalid_signature _ [])

    after_parse-Dated :
        (r : Validated PaymentPacket)
        → model_validate_json wire body ≡ r
        → Dated (AuthorisedBy c wire p body) Honest (after_parse c wire p r)
    unfolding after_parse is_settled
    after_parse-Dated (valid packet) e = after_verify-Dated packet _ e refl
    after_parse-Dated (invalid es) e =
        Follows-Dated (AuthorisedBy c wire p body) Honest _
          (persist_then (λ v. ⊥) [] _ (λ h. cc) malformed_payload _ none none)

    -- On any message and whatever the stores reply: every settlement that the pipeline tries to
    -- write is authorised by that message at the time that its first call returned, and it reports
    -- a settlement only under a key that is committed.
    pub process_packet-Dated :
        Dated (AuthorisedBy c wire p body) Honest (process_packet c wire p body)
    unfolding process_packet
    process_packet-Dated = after_parse-Dated _ refl

  -- On any message and whatever the stores reply: every settlement that the pipeline tries to write
  -- is authorised, and it reports a settlement only under a key that is committed.
  pub process_packet-Follows :
      (body : List ℕ) → Follows (Authorised c wire p) Honest [] (process_packet c wire p body)
  process_packet-Follows body =
      Dated-Follows (AuthorisedBy c wire p body) Honest (Authorised c wire p)
        (AuthorisedBy-Authorised body) _ (process_packet-Dated body)

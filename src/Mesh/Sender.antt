-- ===== src/Mesh/Sender.antt =====
-- services/sender/app.py: a request becomes a packet, which is answered or handed to the mesh. The
-- limit on the rate of requests is left out.
pub mod Sealed
pub mod Buildable
use mesh_settle.Prelude.{
  ℕ, Option, none, some, Bool, true, false, List, [], ◌∷◌, ◌++◌, Text, codes, take,
}
use mesh_settle.Crypto.Hybrid.{Randomness}
use mesh_settle.Crypto.Primitives.{Key, Primitives}
use mesh_settle.Mesh.Relay.{Refusal}
use mesh_settle.Mesh.Replies.{first_validation_message}
use mesh_settle.Mesh.Urls.{rstrip_slash}
use mesh_settle.Models.Codes.{malformed_payload, internal_error, PacketStatus, created, relayed}
use mesh_settle.Models.Fields.{Errors, Validated, valid, invalid}
use mesh_settle.Models.Instruction.{
  PaymentInstruction, TransactionRequest, RawRequest, validate_request, to_instruction,
}
use mesh_settle.Models.Moment.{Moment}
use mesh_settle.Models.Packet.{PaymentPacket, create, idempotency_key}

-- `get_mesh_entrypoint`
unfoldable pub get_mesh_entrypoint : Text → Text
unfolding rstrip_slash
get_mesh_entrypoint mesh_relay_url = rstrip_slash mesh_relay_url ++ codes "/relay"

-- `PacketCreatedResponse`
pub record PacketCreatedResponse : Type 0 where
  pub packet : PaymentPacket
  pub idempotency_key : Text
  pub status : PacketStatus

-- `PacketSubmittedResponse`
pub record PacketSubmittedResponse : Type 0 where
  pub packet_id : ℕ
  pub idempotency_key : Text
  pub submitted_to : Text
  pub status : PacketStatus
  pub hop_count : ℕ

-- What the neighbour reports, with the two fields that may be missing.
pub record Reported : Type 0 where
  pub status : Option PacketStatus
  pub hop_count : Option ℕ

abbrev or_else {ℓ} : {A : Type ℓ} → Option A → A → A
or_else none a = a
or_else (some b) a = b

pub data SenderAnswer {ℓ} (A : Type ℓ) : Type ℓ where
  accepted : A → SenderAnswer A
  refused : Refusal → SenderAnswer A
  failed : SenderAnswer A

-- What the services draw and read while they make a packet.
pub record Draws : Type 0 where
  pub randomness : Randomness
  pub uuid : ℕ
  pub instruction_time : Moment
  pub packet_time : Moment

module _ (c : Primitives) where
  -- `safe_fingerprint`, of bytes.
  unfoldable pub safe_fingerprint : List ℕ → ℕ → Text
  safe_fingerprint raw length = take length (c.sha256_hex raw)

  -- `sender_id_for`
  unfoldable pub sender_id_for : Key → Text
  unfolding safe_fingerprint
  sender_id_for signing_key = codes "device-" ++ safe_fingerprint (c.ed25519_public signing_key) 8

  module _ (signing_key recipient_key : Key) (d : Draws) where
    -- `PacketCreatedResponse.of`
    unfoldable pub created_response : PaymentPacket → PacketCreatedResponse
    created_response packet = record {
      packet = packet;
      idempotency_key = idempotency_key c packet;
      status = PacketStatus.created;
    }

    abbrev packet_of_instruction : PaymentInstruction → PaymentPacket
    packet_of_instruction i =
        create c d.randomness i (sender_id_for signing_key) signing_key recipient_key d.packet_time

    abbrev created_of : Validated PaymentInstruction → SenderAnswer PacketCreatedResponse
    created_of (valid i) = accepted (created_response (packet_of_instruction i))
    created_of (invalid es) = failed

    abbrev created_or_refused : Validated TransactionRequest → SenderAnswer PacketCreatedResponse
    created_or_refused (valid q) = created_of (to_instruction q d.uuid d.instruction_time)
    created_or_refused (invalid es) = refused (record {
      code = malformed_payload;
      detail = first_validation_message es;
      http_status = 422;
    })

    -- `create_packet`
    unfoldable pub create_packet : RawRequest → SenderAnswer PacketCreatedResponse
    unfolding created_response sender_id_for to_instruction validate_request
    create_packet body = created_or_refused (validate_request body)

    abbrev submitted_response : Text → PaymentPacket → Reported → PacketSubmittedResponse
    submitted_response mesh_entrypoint packet reported = record {
      packet_id = packet.packet_id;
      idempotency_key = idempotency_key c packet;
      submitted_to = mesh_entrypoint;
      status = or_else reported.status relayed;
      hop_count = or_else reported.hop_count 0;
    }

    abbrev submitted_of :
        Text → PaymentPacket → Option Reported → SenderAnswer PacketSubmittedResponse
    submitted_of mesh_entrypoint packet none = refused (record {
      code = internal_error;
      detail = codes "no mesh node accepted the packet";
      http_status = 502;
    })
    submitted_of mesh_entrypoint packet (some reported) =
        accepted (submitted_response mesh_entrypoint packet reported)

    abbrev submit_instruction :
        Text
        → (PaymentPacket → Option Reported)
        → Validated PaymentInstruction
        → SenderAnswer PacketSubmittedResponse
    submit_instruction mesh_entrypoint post (valid i) =
        submitted_of mesh_entrypoint (packet_of_instruction i) (post (packet_of_instruction i))
    submit_instruction mesh_entrypoint post (invalid es) = failed

    abbrev submit_or_refuse :
        Text
        → (PaymentPacket → Option Reported)
        → Validated TransactionRequest
        → SenderAnswer PacketSubmittedResponse
    submit_or_refuse mesh_entrypoint post (valid q) =
        submit_instruction mesh_entrypoint post (to_instruction q d.uuid d.instruction_time)
    submit_or_refuse mesh_entrypoint post (invalid es) = refused (record {
      code = malformed_payload;
      detail = first_validation_message es;
      http_status = 422;
    })

    -- `submit_packet`, with what the mesh node does with a packet that is posted to it: `none` is an
    -- `httpx.HTTPError`.
    unfoldable pub submit_packet :
        Text → (PaymentPacket → Option Reported) → RawRequest → SenderAnswer PacketSubmittedResponse
    unfolding sender_id_for to_instruction validate_request
    submit_packet mesh_entrypoint post body =
        submit_or_refuse mesh_entrypoint post (validate_request body)

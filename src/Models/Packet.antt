-- ===== src/Models/Packet.antt =====
-- shared/models.py: `EncryptedEnvelope`, `HopRecord` and `PaymentPacket`, with the methods of the
-- packet. What pydantic reads in a JSON document before the checks of the model is a parameter.
pub mod Document
pub mod Acceptance
pub mod Alike
use mesh_settle.Prelude.{
  ℕ, suc, ◌==◌, String, codes, Bool, not, Option, none, some, List, [], ◌∷◌, ◌++◌, map, Text,
  text_eq, length, if◌then◌else◌,
}
use mesh_settle.Crypto.Json.{decimal}
use mesh_settle.Crypto.Primitives.{Key, Primitives}
use mesh_settle.Crypto.Signing.{
  build_aad, SignedFields, build_signing_bytes, derive_idempotency_key, sign_bytes, Verified,
  verify_signature,
}
use mesh_settle.Crypto.Hybrid.{
  Randomness, EncryptedPayload, Decrypted, decrypted, decryption_error, encrypt_payload,
  decrypt_payload,
}
use mesh_settle.Models.Uuid.{uuid_text}
use mesh_settle.Models.Moment.{Moment, Datetime, canonical_timestamp}
use mesh_settle.Models.Fields.{
  ErrorItem, Errors, Validated, valid, invalid, built, RawBytes, bytes_of, bytes_errors, error_at,
  identifier_errors, timestamp_errors, moment_of,
}
use mesh_settle.Models.Instruction.{
  PaymentInstruction, to_canonical_bytes, ReadInstruction, ParsedInstruction, parsed,
  from_canonical_bytes,
}

-- `EncryptedEnvelope`: the fields of an encrypted payload.
abbrev pub EncryptedEnvelope : Type 0
EncryptedEnvelope = EncryptedPayload

pub record HopRecord : Type 0 where
  pub node_id : Text
  pub received_at : Moment

pub record PaymentPacket : Type 0 where
  pub packet_id : ℕ
  pub sender_id : Text
  pub created_at : Moment
  pub envelope : EncryptedEnvelope
  pub signature : List ℕ
  pub hops : List HopRecord

-- The fields of the JSON documents with the types that the models declare.
pub record RawEnvelope : Type 0 where
  pub encrypted_key : RawBytes
  pub nonce : RawBytes
  pub ciphertext : RawBytes
  pub aad : RawBytes

pub record RawHop : Type 0 where
  pub node_id : Text
  pub received_at : Datetime

pub record RawPacket : Type 0 where
  pub packet_id : ℕ
  pub sender_id : Text
  pub created_at : Datetime
  pub envelope : RawEnvelope
  pub signature : RawBytes
  pub hops : List RawHop

-- `_nonce_is_96_bits`, `_not_empty` and `_signature_is_ed25519_sized`
unfoldable pub nonce_ok : List ℕ → Bool
nonce_ok b = length b == 12

unfoldable pub not_empty : List ℕ → Bool
not_empty b = not (length b == 0)

unfoldable pub signature_ok : List ℕ → Bool
signature_ok b = length b == 64

-- Errors inside a member.
abbrev pub inside : Text → Errors → Errors
inside field = map (λ (e : ErrorItem). record e { loc = field ∷ e.loc })

unfoldable pub envelope_errors : RawEnvelope → Errors
unfolding nonce_ok not_empty bytes_errors
envelope_errors r =
    bytes_errors "encrypted_key" not_empty "Value error, value must not be empty" r.encrypted_key
    ++ bytes_errors "nonce" nonce_ok "Value error, nonce must be exactly 12 bytes (96 bits)" r.nonce
    ++ bytes_errors "ciphertext" not_empty "Value error, value must not be empty" r.ciphertext
    ++ bytes_errors "aad" not_empty "Value error, value must not be empty" r.aad

unfoldable pub hops_errors : ℕ → List RawHop → Errors
unfolding identifier_errors timestamp_errors decimal
hops_errors index [] = []
hops_errors index (h ∷ hs) =
    inside (codes "hops") (
      inside (decimal index)
        (identifier_errors "node_id" h.node_id ++ timestamp_errors "received_at" h.received_at))
    ++ hops_errors (suc index) hs

unfoldable pub packet_errors : RawPacket → Errors
unfolding signature_ok envelope_errors hops_errors identifier_errors timestamp_errors bytes_errors
packet_errors r =
    identifier_errors "sender_id" r.sender_id
    ++ timestamp_errors "created_at" r.created_at
    ++ inside (codes "envelope") (envelope_errors r.envelope)
    ++ bytes_errors "signature" signature_ok
        "Value error, Ed25519 signature must be exactly 64 bytes" r.signature
    ++ hops_errors 0 r.hops

abbrev pub hop_of : RawHop → HopRecord
hop_of h = record { node_id = h.node_id; received_at = moment_of h.received_at }

unfoldable pub packet_of : RawPacket → PaymentPacket
unfolding bytes_of moment_of
packet_of r = record {
  packet_id = r.packet_id;
  sender_id = r.sender_id;
  created_at = moment_of r.created_at;
  envelope = record {
    encrypted_key = bytes_of r.envelope.encrypted_key;
    nonce = bytes_of r.envelope.nonce;
    ciphertext = bytes_of r.envelope.ciphertext;
    aad = bytes_of r.envelope.aad;
  };
  signature = bytes_of r.signature;
  hops = map hop_of r.hops;
}

-- `PaymentPacket.model_validate` of the fields.
unfoldable pub validate_packet : RawPacket → Validated PaymentPacket
unfolding packet_errors packet_of
validate_packet r = built (packet_errors r) (packet_of r)

unfoldable pub hop_count : PaymentPacket → ℕ
hop_count p = length p.hops

-- The fields that `signing_bytes` and `create` hand to `build_signing_bytes`.
unfoldable pub signed_fields : ℕ → Text → Moment → EncryptedEnvelope → SignedFields
unfolding uuid_text canonical_timestamp
signed_fields packet_id sender_id created_at envelope = record {
  packet_id = uuid_text packet_id;
  sender_id = sender_id;
  created_at = canonical_timestamp created_at;
  encrypted_key = envelope.encrypted_key;
  nonce = envelope.nonce;
  ciphertext = envelope.ciphertext;
  aad = envelope.aad;
}

unfoldable pub signing_bytes : PaymentPacket → List ℕ
unfolding signed_fields build_signing_bytes
signing_bytes p =
    build_signing_bytes (signed_fields p.packet_id p.sender_id p.created_at p.envelope)

unfoldable pub expected_aad : PaymentPacket → List ℕ
unfolding build_aad uuid_text
expected_aad p = build_aad (uuid_text p.packet_id) p.sender_id

-- `append_hop`
unfoldable pub append_hop : PaymentPacket → HopRecord → PaymentPacket
append_hop p hop = record p { hops = p.hops ++ hop ∷ [] }

-- An instruction, `DecryptionError`, or another `ValueError`.
pub data OpenedInstruction : Type 0 where
  opened : PaymentInstruction → OpenedInstruction
  decryption_failed : String → OpenedInstruction
  value_error : Text → OpenedInstruction
  validation_error : Errors → OpenedInstruction
  recursion_error : OpenedInstruction

-- The cross-check of the inner against the outer packet id.
unfoldable pub cross_check : ℕ → ParsedInstruction → OpenedInstruction
cross_check packet_id (parsed i) =
    if i.packet_id == packet_id
    then opened i
    else OpenedInstruction.value_error (codes "inner packet_id does not match envelope packet_id")
cross_check packet_id (ParsedInstruction.value_error e) = OpenedInstruction.value_error e
cross_check packet_id (ParsedInstruction.validation_error es) =
    OpenedInstruction.validation_error es
cross_check packet_id ParsedInstruction.recursion_error = OpenedInstruction.recursion_error

unfoldable pub read_decrypted : (List ℕ → ReadInstruction) → ℕ → Decrypted → OpenedInstruction
unfolding cross_check from_canonical_bytes
read_decrypted read_instruction packet_id (decrypted m) =
    cross_check packet_id (from_canonical_bytes read_instruction m)
read_decrypted read_instruction packet_id (decryption_error e) = decryption_failed e

module _ (c : Primitives) where
  unfoldable pub idempotency_key : PaymentPacket → Text
  unfolding signing_bytes derive_idempotency_key
  idempotency_key p = derive_idempotency_key c (signing_bytes p)

  unfoldable pub verify : PaymentPacket → Key → Verified
  unfolding signing_bytes verify_signature
  verify p public_key = verify_signature c (signing_bytes p) p.signature public_key

  unfoldable pub open_instruction :
      (List ℕ → ReadInstruction) → PaymentPacket → Key → OpenedInstruction
  unfolding read_decrypted decrypt_payload
  open_instruction read_instruction p recipient_private_key =
      read_decrypted read_instruction p.packet_id
        (decrypt_payload c p.envelope recipient_private_key)

  -- The envelope that `create` seals.
  unfoldable pub seal : Randomness → PaymentInstruction → Text → Key → EncryptedEnvelope
  unfolding encrypt_payload build_aad uuid_text to_canonical_bytes
  seal r i sender_id recipient_public_key =
      encrypt_payload c r (to_canonical_bytes i) recipient_public_key
        (build_aad (uuid_text i.packet_id) sender_id)

  -- `PaymentPacket.create`, at a time in UTC. The validators that the constructors of the two models
  -- run on what was built are left out; Mesh/Sender/Buildable is about them.
  unfoldable pub create :
      Randomness → PaymentInstruction → Text → Key → Key → Moment → PaymentPacket
  unfolding seal sign_bytes build_signing_bytes signed_fields
  create r i sender_id signing_key recipient_public_key moment =
      let envelope = seal r i sender_id recipient_public_key in
      record {
        packet_id = i.packet_id;
        sender_id = sender_id;
        created_at = moment;
        envelope = envelope;
        signature =
            sign_bytes c (build_signing_bytes (signed_fields i.packet_id sender_id moment envelope))
              signing_key;
        hops = [];
      }

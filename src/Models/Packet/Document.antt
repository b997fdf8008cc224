-- ===== src/Models/Packet/Document.antt =====
-- shared/models.py: a packet that is well formed is accepted again when its document is read, and a
-- packet that is accepted is well formed.
use mesh_settle.Prelude.{
  ℕ, suc, ◌≡◌, refl, ap, Bool, true, some, List, [], ◌∷◌, map, Text, All, String,
}
use mesh_settle.Crypto.Base64.{b64u_encode}
use mesh_settle.Crypto.Base64.RoundTrip.{Bytes, b64u_decode-encode}
use mesh_settle.Models.Fields.{
  valid, RawBytes, is_identifier, identifier_errors, bytes_errors, bytes_of, coerce_bytes,
  timestamp_errors, moment_of,
}
use mesh_settle.Models.Packet.{
  PaymentPacket, HopRecord, nonce_ok, not_empty, signature_ok, hop_of, envelope_errors, hops_errors,
  packet_errors, packet_of, validate_packet,
}
use mesh_settle.Models.Wire.{Wire, WireLaws, raw_hop, raw_packet, model_validate_json}
use mesh_settle.Models.Moment.{normalize_to_utc}

-- A field of bytes that passes its test.
pub record Accepted (test : List ℕ → Bool) (b : List ℕ) : Type 0 where
  pub bytes : Bytes b
  pub passes : test b ≡ true

pub record WellFormed (p : PaymentPacket) : Type 0 where
  pub sender_id : is_identifier p.sender_id ≡ true
  pub encrypted_key : Accepted not_empty p.envelope.encrypted_key
  pub nonce : Accepted nonce_ok p.envelope.nonce
  pub ciphertext : Accepted not_empty p.envelope.ciphertext
  pub aad : Accepted not_empty p.envelope.aad
  pub signature : Accepted signature_ok p.signature
  pub hops : All (λ (h : HopRecord). is_identifier h.node_id ≡ true) p.hops

coerce_bytes-encode : (b : List ℕ) → Bytes b → coerce_bytes (RawBytes.text (b64u_encode b)) ≡ some b
unfolding coerce_bytes
coerce_bytes-encode b h = b64u_decode-encode b h

bytes_of-encode : (b : List ℕ) → Bytes b → bytes_of (RawBytes.text (b64u_encode b)) ≡ b
unfolding bytes_of
bytes_of-encode b h = rw (coerce_bytes-encode b h, bytes_of) refl

bytes_errors-encode :
    (field message : String) (test : List ℕ → Bool) (b : List ℕ)
    → Accepted test b
    → bytes_errors field test message (RawBytes.text (b64u_encode b)) ≡ []
unfolding bytes_errors
bytes_errors-encode field message test b h =
    rw (coerce_bytes-encode b h.bytes, bytes_errors, h.passes) refl

identifier_errors_lem :
    (field : String) (s : Text) → is_identifier s ≡ true → identifier_errors field s ≡ []
unfolding identifier_errors
identifier_errors_lem field s h = rw h refl

hops_errors-raw_hop :
    (n : ℕ) (hs : List HopRecord)
    → All (λ (h : HopRecord). is_identifier h.node_id ≡ true) hs
    → hops_errors n (map raw_hop hs) ≡ []
unfolding hops_errors timestamp_errors normalize_to_utc
hops_errors-raw_hop n [] h = refl
hops_errors-raw_hop n (x ∷ hs) (h, rest) =
    rw (identifier_errors_lem "node_id" x.node_id h) (hops_errors-raw_hop (suc n) hs rest)

hop_of-raw_hop : (hs : List HopRecord) → map hop_of (map raw_hop hs) ≡ hs
unfolding moment_of
hop_of-raw_hop [] = refl
hop_of-raw_hop (x ∷ hs) = ap (λ (l : List HopRecord). x ∷ l) (hop_of-raw_hop hs)

packet_errors-raw_packet : (p : PaymentPacket) → WellFormed p → packet_errors (raw_packet p) ≡ []
unfolding packet_errors envelope_errors timestamp_errors normalize_to_utc
packet_errors-raw_packet p h = simp (
  identifier_errors_lem "sender_id" p.sender_id h.sender_id,
  bytes_errors-encode "encrypted_key" "Value error, value must not be empty" not_empty _
      h.encrypted_key,
  bytes_errors-encode "nonce" "Value error, nonce must be exactly 12 bytes (96 bits)" nonce_ok _
      h.nonce,
  bytes_errors-encode "ciphertext" "Value error, value must not be empty" not_empty _ h.ciphertext,
  bytes_errors-encode "aad" "Value error, value must not be empty" not_empty _ h.aad,
  bytes_errors-encode "signature" "Value error, Ed25519 signature must be exactly 64 bytes"
      signature_ok _ h.signature,
  hops_errors-raw_hop 0 p.hops h.hops,
)

packet_of-raw_packet : (p : PaymentPacket) → WellFormed p → packet_of (raw_packet p) ≡ p
unfolding packet_of moment_of
packet_of-raw_packet p h = simp (
  bytes_of-encode _ h.encrypted_key.bytes,
  bytes_of-encode _ h.nonce.bytes,
  bytes_of-encode _ h.ciphertext.bytes,
  bytes_of-encode _ h.aad.bytes,
  bytes_of-encode _ h.signature.bytes,
  hop_of-raw_hop p.hops,
)

-- The document that is written for a well-formed packet is read and validated as that packet, if
-- pydantic reads back the fields of a document that it wrote.
pub model_validate_json-dump :
    (w : Wire) (p : PaymentPacket)
    → WireLaws w
    → WellFormed p
    → model_validate_json w (w.dump_packet p) ≡ valid p
unfolding model_validate_json validate_packet
model_validate_json-dump w p laws h =
    rw (laws.read_packet-dump p, packet_errors-raw_packet p h) (ap valid (packet_of-raw_packet p h))

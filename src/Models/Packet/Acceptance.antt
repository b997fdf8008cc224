-- ===== src/Models/Packet/Acceptance.antt =====
-- shared/models.py: what was validated as a packet is well formed.
use mesh_settle.Prelude.{
  ℕ, suc, ◌≡◌, refl, subst, inl, inr, Bool, true, some, List, [], ◌∷◌, ◌++◌, map, Text, All, String,
  codes, arith, Option-cases,
}
use mesh_settle.Crypto.Base64.RoundTrip.{Bytes}
use mesh_settle.Crypto.Base64.Range.{b64u_decode-Bytes}
use mesh_settle.Crypto.Json.{decimal}
use mesh_settle.Models.Fields.{
  Errors, Validated, valid, invalid, RawBytes, is_identifier, identifier_errors, bytes_errors,
  bytes_of, coerce_bytes, timestamp_errors,
}
use mesh_settle.Models.Fields.Built.{
  nil_left, nil_right, both_nil, identifier_of_errors, built_valid,
}
use mesh_settle.Models.Packet.{
  PaymentPacket, HopRecord, RawPacket, RawHop, nonce_ok, not_empty, signature_ok, inside, hop_of,
  envelope_errors, hops_errors, packet_errors, packet_of, validate_packet,
}
use mesh_settle.Models.Packet.Document.{Accepted, WellFormed}
use mesh_settle.Models.Wire.{Wire, checked_packet, model_validate_json}

-- A `bytes` object holds bytes.
abbrev pub HoldsBytes : RawBytes → Type 0
HoldsBytes (RawBytes.raw b) = Bytes b
HoldsBytes (RawBytes.text s) = Unit
HoldsBytes RawBytes.other = Unit

pub record HoldBytes (r : RawPacket) : Type 0 where
  pub encrypted_key : HoldsBytes r.envelope.encrypted_key
  pub nonce : HoldsBytes r.envelope.nonce
  pub ciphertext : HoldsBytes r.envelope.ciphertext
  pub aad : HoldsBytes r.envelope.aad
  pub signature : HoldsBytes r.signature

coerced-Bytes : (v : RawBytes) (b : List ℕ) → HoldsBytes v → coerce_bytes v ≡ some b → Bytes b
unfolding coerce_bytes
coerced-Bytes (RawBytes.raw a) b h e = subst Bytes (ground (arith, e)) h
coerced-Bytes (RawBytes.text s) b h e = b64u_decode-Bytes s b e
coerced-Bytes RawBytes.other b h e = absurd (ground (arith, e))

test_of_errors :
    (field message : String) (test : List ℕ → Bool) (v : RawBytes)
    → bytes_errors field test message v ≡ []
    → (b : List ℕ) × (coerce_bytes v ≡ some b) × (test b ≡ true)
unfolding bytes_errors
test_of_errors field message test v h = elim (Option-cases (coerce_bytes v)) [
  | inl refused ↦ absurd (ground (arith, refused, h))
  | inr (b, e) ↦ (b, e, ground (arith, e, h))
]

Accepted-field :
    (field message : String) (test : List ℕ → Bool) (v : RawBytes)
    → HoldsBytes v
    → bytes_errors field test message v ≡ []
    → Accepted test (bytes_of v)
unfolding bytes_of
Accepted-field field message test v held h =
    let (b, e, passes) = test_of_errors field message test v h in
    rw (e, bytes_of) (record { bytes = coerced-Bytes v b held e; passes = passes })

inside_nil : (field : Text) (es : Errors) → inside field es ≡ [] → es ≡ []
inside_nil field [] h = refl
inside_nil field (e ∷ es) h = absurd (ground (arith, h))

hops_named :
    (n : ℕ) (hs : List RawHop)
    → hops_errors n hs ≡ []
    → All (λ (h : HopRecord). is_identifier h.node_id ≡ true) (map hop_of hs)
unfolding hops_errors
hops_named n [] h = tt
hops_named n (x ∷ hs) h =
    let here =
      inside_nil (decimal n) _
        (inside_nil (codes "hops") _ (nil_left _ (hops_errors (suc n) hs) h)) in
    (
      identifier_of_errors "node_id" x.node_id
          (nil_left _ (timestamp_errors "received_at" x.received_at) here),
      hops_named (suc n) hs (nil_right _ (hops_errors (suc n) hs) h),
    )

-- The fields of an envelope, by the errors that they do not have.
envelope-Accepted :
    (r : RawPacket)
    → HoldBytes r
    → envelope_errors r.envelope ≡ []
    → Accepted not_empty (bytes_of r.envelope.encrypted_key)
      × Accepted nonce_ok (bytes_of r.envelope.nonce)
      × Accepted not_empty (bytes_of r.envelope.ciphertext)
      × Accepted not_empty (bytes_of r.envelope.aad)
unfolding envelope_errors
envelope-Accepted r held h =
    let empty : String = "Value error, value must not be empty" in
    let wrong : String = "Value error, nonce must be exactly 12 bytes (96 bits)" in
    let keys = bytes_errors "encrypted_key" not_empty empty r.envelope.encrypted_key in
    let nonces = bytes_errors "nonce" nonce_ok wrong r.envelope.nonce in
    let texts = bytes_errors "ciphertext" not_empty empty r.envelope.ciphertext in
    let (three, aad) = both_nil (keys ++ nonces ++ texts) _ h in
    let (two, text) = both_nil (keys ++ nonces) _ three in
    let (key, nonce) = both_nil keys _ two in
    (
      Accepted-field "encrypted_key" empty not_empty r.envelope.encrypted_key held.encrypted_key
          key,
      Accepted-field "nonce" wrong nonce_ok r.envelope.nonce held.nonce nonce,
      Accepted-field "ciphertext" empty not_empty r.envelope.ciphertext held.ciphertext text,
      Accepted-field "aad" empty not_empty r.envelope.aad held.aad aad,
    )

raw-WellFormed : (r : RawPacket) → HoldBytes r → packet_errors r ≡ [] → WellFormed (packet_of r)
unfolding packet_errors packet_of
raw-WellFormed r held h =
    let wrong : String = "Value error, Ed25519 signature must be exactly 64 bytes" in
    let senders = identifier_errors "sender_id" r.sender_id in
    let times = timestamp_errors "created_at" r.created_at in
    let envelopes = inside (codes "envelope") (envelope_errors r.envelope) in
    let signatures = bytes_errors "signature" signature_ok wrong r.signature in
    let (four, hops) = both_nil (senders ++ times ++ envelopes ++ signatures) _ h in
    let (three, signature) = both_nil (senders ++ times ++ envelopes) _ four in
    let (two, envelope) = both_nil (senders ++ times) _ three in
    let (sender, time) = both_nil senders _ two in
    let (key, nonce, text, aad) = envelope-Accepted r held (inside_nil _ _ envelope) in
    record {
      sender_id = identifier_of_errors "sender_id" r.sender_id sender;
      encrypted_key = key;
      nonce = nonce;
      ciphertext = text;
      aad = aad;
      signature =
          Accepted-field "signature" wrong signature_ok r.signature held.signature signature;
      hops = hops_named 0 r.hops hops;
    }

pub validate_packet-WellFormed :
    (r : RawPacket) (p : PaymentPacket) → HoldBytes r → validate_packet r ≡ valid p → WellFormed p
unfolding validate_packet
validate_packet-WellFormed r p held e =
    let (clean, same) = built_valid _ _ p e in subst WellFormed same (raw-WellFormed r held clean)

-- The documents that are read hold bytes where they hold `bytes` objects; a JSON document holds none.
pub record ReadsBytes (w : Wire) : Type 0 where
  pub held : (body : List ℕ) (r : RawPacket) → w.read_packet body ≡ valid r → HoldBytes r

checked-WellFormed :
    (v : Validated RawPacket) (p : PaymentPacket)
    → ((r : RawPacket) → v ≡ valid r → HoldBytes r)
    → checked_packet v ≡ valid p
    → WellFormed p
checked-WellFormed (valid r) p held e = validate_packet-WellFormed r p (held r refl) e
checked-WellFormed (invalid es) p held e = absurd (ground (arith, e))

-- A document that is validated as a packet holds a well-formed one: its sender matches the
-- pattern, its envelope and its signature hold bytes and have the required lengths, and its hops
-- name nodes that match the pattern, if a JSON document holds no bytes that are none.
pub model_validate_json-WellFormed :
    (w : Wire) (body : List ℕ) (p : PaymentPacket)
    → ReadsBytes w
    → model_validate_json w body ≡ valid p
    → WellFormed p
unfolding model_validate_json
model_validate_json-WellFormed w body p reads e =
    checked-WellFormed (w.read_packet body) p (reads.held body) e

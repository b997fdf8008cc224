-- ===== src/Mesh/Sender/Buildable.antt =====
-- services/sender and shared/models.py: the validators that the constructors of the two models run
-- at the end of `PaymentPacket.create`, which the definition leaves out.
use mesh_settle.Prelude.{ℕ, ◌≡◌, true, List, ◌∷◌, Text, length, arith, ==_iff}
use mesh_settle.Crypto.Hybrid.{Randomness, encrypt_payload}
use mesh_settle.Crypto.Json.{canonical_json, dumps}
use mesh_settle.Crypto.Utf8.{utf8_encode, utf8_char}
use mesh_settle.Models.Uuid.{uuid_text}
use mesh_settle.Crypto.Primitives.{Key, Primitives, PrimitiveLaws}
use mesh_settle.Crypto.Signing.{build_aad, sign_bytes}
use mesh_settle.Models.Instruction.{PaymentInstruction}
use mesh_settle.Models.Moment.{Moment}
use mesh_settle.Models.Packet.{PaymentPacket, create, seal, nonce_ok, not_empty, signature_ok}

-- The lengths that the validators test.
pub record Buildable (p : PaymentPacket) : Type 0 where
  pub nonce : nonce_ok p.envelope.nonce ≡ true
  pub aad : not_empty p.envelope.aad ≡ true
  pub signature : signature_ok p.signature ≡ true

not_empty-cons : (b : ℕ) (bs : List ℕ) → not_empty (b ∷ bs) ≡ true
unfolding not_empty
not_empty-cons b bs = ground arith

module _ (c : Primitives) (laws : PrimitiveLaws c) (r : Randomness) (i : PaymentInstruction)
    (sender_id : Text) (signing_key recipient_key : Key) (time : Moment) where
  aad-filled : (packet_id : Text) → not_empty (build_aad packet_id sender_id) ≡ true
  unfolding build_aad canonical_json dumps utf8_encode utf8_char
  aad-filled packet_id = not_empty-cons _ _

  -- The nonce, the associated data and the signature of a created packet pass their validators, if
  -- the nonce that was drawn has 12 bytes.
  create-Buildable :
      length r.nonce ≡ 12 → Buildable (create c r i sender_id signing_key recipient_key time)
  unfolding create seal encrypt_payload nonce_ok signature_ok sign_bytes
  create-Buildable drawn = record {
    nonce = (==_iff (length r.nonce) 12).1 drawn;
    aad = aad-filled (uuid_text i.packet_id);
    signature = (==_iff _ 64).1 (laws.length-sign _ _);
  }

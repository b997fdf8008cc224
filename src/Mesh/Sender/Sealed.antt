-- ===== src/Mesh/Sender/Sealed.antt =====
-- services/sender and shared/models.py: a packet that `create` makes verifies, is bound to its
-- header, and opens to the instruction.
use mesh_settle.Prelude.{
  ℕ, ◌≡◌, refl, ap, ◌∙◌, true, List, Text, length, text_eq, text_eq_refl, ==_iff,
}
use mesh_settle.Crypto.Hybrid.{Randomness, aes_key_bytes, encrypt_payload, decrypted}
use mesh_settle.Crypto.Hybrid.Opening.{decrypt_payload-encrypt}
use mesh_settle.Crypto.Primitives.{Key, Primitives, PrimitiveLaws}
use mesh_settle.Crypto.Signing.{verified, build_aad, sign_bytes, verify_signature, checked_result}
use mesh_settle.Models.Fields.{valid}
use mesh_settle.Models.Instruction.{
  PaymentInstruction, TransactionRequest, ReadInstruction, fields, from_canonical_bytes, check_read,
  validated_instruction, to_canonical_bytes, request_fields, to_instruction,
}
use mesh_settle.Models.Moment.{Moment}
use mesh_settle.Models.Packet.{
  create, seal, verify, expected_aad, open_instruction, opened, read_decrypted, cross_check,
  signing_bytes,
}
use mesh_settle.Models.Uuid.{uuid_text}

module _ (c : Primitives) (laws : PrimitiveLaws c) (r : Randomness) (i : PaymentInstruction)
    (sender_id : Text) (signing_key : Key) (time : Moment) where
  -- A created packet verifies under the public key of the key that signed it.
  pub verify-create :
      (recipient_key : Key)
      → verify c
          (create c r i sender_id signing_key recipient_key time)
          (c.ed25519_public signing_key)
        ≡ verified
  unfolding verify create signing_bytes verify_signature sign_bytes
  verify-create recipient_key = rw (laws.verify-sign, checked_result) refl

  -- The associated data of a created packet are those that its header implies.
  pub aad-create :
      (recipient_key : Key)
      → text_eq
          (create c r i sender_id signing_key recipient_key time).envelope.aad
          (expected_aad (create c r i sender_id signing_key recipient_key time))
        ≡ true
  unfolding create seal encrypt_payload expected_aad
  aad-create recipient_key = text_eq_refl (build_aad (uuid_text i.packet_id) sender_id)

  read_decrypted-canonical :
      (read : List ℕ → ReadInstruction) (q : TransactionRequest) (uuid : ℕ) (made : Moment)
      → to_instruction q uuid made ≡ valid i
      → read (to_canonical_bytes i) ≡ fields (request_fields q uuid made)
      → read_decrypted read i.packet_id (decrypted (to_canonical_bytes i)) ≡ opened i
  unfolding read_decrypted from_canonical_bytes check_read cross_check validated_instruction
      to_instruction
  read_decrypted-canonical read q uuid made valid_i back =
      rw (back, valid_i, (==_iff i.packet_id i.packet_id).1 refl) refl

  -- The settlement key opens a created packet to the instruction that was sealed in it, if the
  -- content key has 32 bytes, the instruction was made of a request, and its canonical bytes are
  -- read back as the fields of that request.
  pub open_instruction-create :
      (read : List ℕ → ReadInstruction) (settlement_key : Key) (q : TransactionRequest) (uuid : ℕ)
      (made : Moment)
      → length r.content_key ≡ aes_key_bytes
      → to_instruction q uuid made ≡ valid i
      → read (to_canonical_bytes i) ≡ fields (request_fields q uuid made)
      → open_instruction c read
          (create c r i sender_id signing_key (c.rsa_public settlement_key) time)
          settlement_key
        ≡ opened i
  unfolding open_instruction create seal
  open_instruction-create read settlement_key q uuid made long valid_i back =
      ap (read_decrypted read i.packet_id) (
        decrypt_payload-encrypt c laws r (to_canonical_bytes i)
          (build_aad (uuid_text i.packet_id) sender_id) settlement_key long)
      ∙ read_decrypted-canonical read q uuid made valid_i back

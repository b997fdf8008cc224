-- ===== src/Tests/Crypto.antt =====
-- shared/crypto.py at concrete inputs.
use mesh_settle.Prelude.{◌≡◌, refl, some, [], ◌∷◌, codes}
use mesh_settle.Crypto.Base64.{b64u_encode, b64u_decode}
use mesh_settle.Crypto.Base64.RoundTrip.{b64u_decode-encode}
use mesh_settle.Crypto.Hybrid.{encrypt_payload, decrypt_payload, decrypted}
use mesh_settle.Crypto.Hybrid.Opening.{decrypt_payload-encrypt}
use mesh_settle.Crypto.Signing.{SignedFields}
use mesh_settle.Crypto.Signing.Injective.{build_aad_injective}
use mesh_settle.Tests.Sample.{toy_primitives, toy_laws, randomness, settlement_key, lunch-Bytes}

b64u_decode-encode_example :
    b64u_decode (b64u_encode (0 ∷ 7 ∷ 65 ∷ 255 ∷ [])) ≡ some (0 ∷ 7 ∷ 65 ∷ 255 ∷ [])
b64u_decode-encode_example = b64u_decode-encode (0 ∷ 7 ∷ 65 ∷ 255 ∷ []) lunch-Bytes

decrypt_payload-encrypt_example :
    decrypt_payload toy_primitives
      (encrypt_payload toy_primitives randomness (codes "lunch") settlement_key (codes "header"))
      settlement_key
    ≡ decrypted (codes "lunch")
decrypt_payload-encrypt_example =
    decrypt_payload-encrypt toy_primitives toy_laws randomness (codes "lunch") (codes "header")
      settlement_key refl

build_aad_injective_example : (codes "id-1" ≡ codes "id-1") × (codes "device-1" ≡ codes "device-1")
build_aad_injective_example =
    build_aad_injective (codes "id-1") (codes "device-1") (codes "id-1") (codes "device-1") refl

abbrev some_fields : SignedFields
some_fields = record {
  packet_id = codes "id-1";
  sender_id = codes "device-1";
  created_at = codes "noon";
  encrypted_key = 0 ∷ 7 ∷ 65 ∷ 255 ∷ [];
  nonce = 0 ∷ 7 ∷ 65 ∷ 255 ∷ [];
  ciphertext = 0 ∷ 7 ∷ 65 ∷ 255 ∷ [];
  aad = 0 ∷ 7 ∷ 65 ∷ 255 ∷ [];
}

-- ===== src/Crypto/Hybrid/Opening.antt =====
-- Opening what was sealed.
use mesh_settle.Prelude.{ℕ, ◌≡◌, List, length, arith}
use mesh_settle.Crypto.Primitives.{Key, Primitives, PrimitiveLaws}
use mesh_settle.Crypto.Hybrid.{
  Randomness, aes_key_bytes, decrypted, encrypt_payload, decrypt_payload,
}

-- Decrypting an encrypted payload with the private key of its recipient gives the message, if the
-- content key has 32 bytes and the primitives undo each other.
pub decrypt_payload-encrypt :
    (p : Primitives) (laws : PrimitiveLaws p) (r : Randomness) (m aad : List ℕ) (k : Key)
    → length r.content_key ≡ aes_key_bytes
    → decrypt_payload p (encrypt_payload p r m (p.rsa_public k) aad) k ≡ decrypted m
unfolding decrypt_payload encrypt_payload
decrypt_payload-encrypt p laws r m aad k h = ground (
  arith,
  laws.oaep_decrypt-encrypt k r.seed r.content_key,
  laws.gcm_decrypt-encrypt r.content_key r.nonce m aad,
)

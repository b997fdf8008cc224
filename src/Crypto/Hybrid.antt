-- ===== src/Crypto/Hybrid.antt =====
-- shared/crypto.py: `encrypt_payload` and `decrypt_payload`. The random values that
-- `encrypt_payload` draws are arguments.
pub mod Opening
use mesh_settle.Prelude.{ℕ, String, Option, none, some, List, length, ◌==◌, if◌then◌else◌}
use mesh_settle.Crypto.Primitives.{Key, Primitives, Opened, plaintext, invalid_tag, open_failed}

abbrev pub aes_key_bytes : ℕ
aes_key_bytes = 32

-- What `AESGCM.generate_key`, `_random_nonce` and the padding draw.
pub record Randomness : Type 0 where
  pub content_key : List ℕ
  pub nonce : List ℕ
  pub seed : List ℕ

pub record EncryptedPayload : Type 0 where
  pub encrypted_key : List ℕ
  pub nonce : List ℕ
  pub ciphertext : List ℕ
  pub aad : List ℕ

-- A plaintext, or `DecryptionError` with its text.
pub data Decrypted : Type 0 where
  decrypted : List ℕ → Decrypted
  decryption_error : String → Decrypted

unfoldable pub opened_result : Opened → Decrypted
opened_result (plaintext m) = decrypted m
opened_result invalid_tag = decryption_error "AES-GCM authentication tag mismatch"
opened_result open_failed = decryption_error "payload could not be decrypted"

module _ (p : Primitives) where
  unfoldable pub encrypt_payload : Randomness → List ℕ → Key → List ℕ → EncryptedPayload
  encrypt_payload r message recipient_public_key aad = record {
    encrypted_key = p.oaep_encrypt recipient_public_key r.seed r.content_key;
    nonce = r.nonce;
    ciphertext = p.gcm_encrypt r.content_key r.nonce message aad;
    aad = aad;
  }

  -- With the content key unwrapped, or not.
  unfoldable pub open_with : EncryptedPayload → Option (List ℕ) → Decrypted
  unfolding opened_result
  open_with e none = decryption_error "content key could not be unwrapped"
  open_with e (some content_key) =
      if length content_key == aes_key_bytes
      then opened_result (p.gcm_decrypt content_key e.nonce e.ciphertext e.aad)
      else decryption_error "unwrapped content key has the wrong length"

  unfoldable pub decrypt_payload : EncryptedPayload → Key → Decrypted
  unfolding open_with
  decrypt_payload e recipient_private_key =
      open_with e (p.oaep_decrypt recipient_private_key e.encrypted_key)

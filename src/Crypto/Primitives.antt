-- ===== src/Crypto/Primitives.antt =====
-- The third-party functions that shared/crypto.py calls: those of the package cryptography, SHA-256
-- of hashlib, and what they are documented to do together. Keys are opaque byte strings.
use mesh_settle.Prelude.{ℕ, ◌≡◌, List, Text, Option, some, length}

abbrev pub Key : Type 0
Key = List ℕ

-- How `Ed25519PublicKey.verify` ends: it returns, it raises `InvalidSignature`, or it raises
-- another exception.
pub data Checked : Type 0 where
  valid invalid_signature check_failed : Checked

-- How `AESGCM(key).decrypt` ends: with the plaintext, with `InvalidTag`, or with another exception.
pub data Opened : Type 0 where
  plaintext : List ℕ → Opened
  invalid_tag open_failed : Opened

pub record Primitives : Type 0 where
  -- `hashlib.sha256(data).hexdigest()`
  pub sha256_hex : List ℕ → Text
  -- `private_key.public_key()`, of an Ed25519 and of an RSA key
  pub ed25519_public : Key → Key
  pub rsa_public : Key → Key
  -- `private_key.sign(data)`
  pub ed25519_sign : Key → List ℕ → List ℕ
  -- `public_key.verify(signature, data)`
  pub ed25519_verify : Key → List ℕ → List ℕ → Checked
  -- `public_key.encrypt(content_key, OAEP(...))`, from a random seed
  pub oaep_encrypt : Key → List ℕ → List ℕ → List ℕ
  -- `private_key.decrypt(encrypted_key, OAEP(...))`; `none` is any exception
  pub oaep_decrypt : Key → List ℕ → Option (List ℕ)
  -- `AESGCM(key).encrypt(nonce, data, aad)`
  pub gcm_encrypt : List ℕ → List ℕ → List ℕ → List ℕ → List ℕ
  -- `AESGCM(key).decrypt(nonce, data, aad)`
  pub gcm_decrypt : List ℕ → List ℕ → List ℕ → List ℕ → Opened

-- What the documentation of the primitives promises of a pair of calls.
pub record PrimitiveLaws (p : Primitives) : Type 0 where
  pub verify-sign :
      (k msg : List ℕ) → p.ed25519_verify (p.ed25519_public k) (p.ed25519_sign k msg) msg ≡ valid
  pub length-sign : (k msg : List ℕ) → length (p.ed25519_sign k msg) ≡ 64
  pub oaep_decrypt-encrypt :
      (k seed m : List ℕ) → p.oaep_decrypt k (p.oaep_encrypt (p.rsa_public k) seed m) ≡ some m
  pub gcm_decrypt-encrypt :
      (k nonce m aad : List ℕ)
      → p.gcm_decrypt k nonce (p.gcm_encrypt k nonce m aad) aad ≡ plaintext m

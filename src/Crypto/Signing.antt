-- ===== src/Crypto/Signing.antt =====
-- shared/crypto.py: the associated data, the bytes that a signature covers, the idempotency key, and
-- signing and verifying.
pub mod Injective
use mesh_settle.Prelude.{ℕ, String, List, [], ◌∷◌, ◌++◌, Text, codes}
use mesh_settle.Crypto.Base64.{b64u_encode}
use mesh_settle.Crypto.Json.{Items, str, canonical_json}
use mesh_settle.Crypto.Primitives.{Key, Primitives, Checked, valid, invalid_signature, check_failed}

-- `build_aad`
unfoldable pub build_aad : Text → Text → List ℕ
unfolding canonical_json
build_aad packet_id sender_id =
    canonical_json ((codes "packet_id", str packet_id) ∷ (codes "sender_id", str sender_id) ∷ [])

-- The fields that the signature covers, as `build_signing_bytes` takes them.
pub record SignedFields : Type 0 where
  pub packet_id : Text
  pub sender_id : Text
  pub created_at : Text
  pub encrypted_key : List ℕ
  pub nonce : List ℕ
  pub ciphertext : List ℕ
  pub aad : List ℕ

-- `build_signing_bytes`
unfoldable pub build_signing_bytes : SignedFields → List ℕ
unfolding canonical_json b64u_encode
build_signing_bytes f = canonical_json (
    (codes "packet_id", str f.packet_id)
    ∷ (codes "sender_id", str f.sender_id)
    ∷ (codes "created_at", str f.created_at)
    ∷ (codes "encrypted_key", str (b64u_encode f.encrypted_key))
    ∷ (codes "nonce", str (b64u_encode f.nonce))
    ∷ (codes "ciphertext", str (b64u_encode f.ciphertext))
    ∷ (codes "aad", str (b64u_encode f.aad))
    ∷ [])

abbrev pub idempotency_key_prefix : Text
idempotency_key_prefix = codes "settle:"

module _ (p : Primitives) where
  -- `derive_idempotency_key`
  unfoldable pub derive_idempotency_key : List ℕ → Text
  derive_idempotency_key signing_bytes = idempotency_key_prefix ++ p.sha256_hex signing_bytes

  -- `sign_bytes`
  unfoldable pub sign_bytes : List ℕ → Key → List ℕ
  sign_bytes signing_bytes private_key = p.ed25519_sign private_key signing_bytes

-- How `verify_signature` ends: it returns, or it raises `SignatureVerificationError` with a text.
pub data Verified : Type 0 where
  verified : Verified
  signature_error : String → Verified

unfoldable pub checked_result : Checked → Verified
checked_result valid = verified
checked_result invalid_signature = signature_error "packet signature did not verify"
checked_result check_failed = signature_error "packet signature could not be checked"

-- `verify_signature`
unfoldable pub verify_signature : Primitives → List ℕ → List ℕ → Key → Verified
unfolding checked_result
verify_signature p signing_bytes signature public_key =
    checked_result (p.ed25519_verify public_key signature signing_bytes)

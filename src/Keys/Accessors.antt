-- ===== src/Keys/Accessors.antt =====
-- shared/crypto.py: the keys of the configuration, which are cached once they are loaded.
use mesh_settle.Prelude.{Option, none, some}
use mesh_settle.Crypto.Primitives.{Key}
use mesh_settle.Keys.Library.{PemLibrary}
use mesh_settle.Keys.Loading.{
  Loaded, loaded, key_configuration_error, load_signing_private_key, load_signing_public_key,
  load_rsa_private_key, load_rsa_public_key,
}
use mesh_settle.Keys.Pem.{normalize_pem}
use mesh_settle.Keys.Settings.{Settings}

-- What `lru_cache(maxsize=1)` holds for each of the four functions.
pub record KeyCache : Type 0 where
  pub signing_private : Option Key
  pub signing_public : Option Key
  pub rsa_private : Option Key
  pub rsa_public : Option Key

abbrev pub empty_cache : KeyCache
empty_cache = record {
  signing_private = none;
  signing_public = none;
  rsa_private = none;
  rsa_public = none;
}

-- A cached key, or the key that is loaded; an exception is not cached.
abbrev remembered : Option Key → Loaded → Loaded
remembered (some key) fresh = loaded key
remembered none fresh = fresh

abbrev to_remember : Loaded → Option Key
to_remember (loaded key) = some key
to_remember (key_configuration_error message) = none

module _ (lib : PemLibrary) (s : Settings) where
  unfoldable pub sender_signing_private_key : KeyCache → Loaded × KeyCache
  sender_signing_private_key cache =
      let key =
        remembered cache.signing_private
          (load_signing_private_key lib (normalize_pem s.sender_signing_private_key_pem)) in
      (key, record cache { signing_private = to_remember key })

  unfoldable pub sender_signing_public_key : KeyCache → Loaded × KeyCache
  sender_signing_public_key cache =
      let key =
        remembered cache.signing_public
          (load_signing_public_key lib (normalize_pem s.sender_signing_public_key_pem)) in
      (key, record cache { signing_public = to_remember key })

  unfoldable pub settlement_rsa_private_key : KeyCache → Loaded × KeyCache
  settlement_rsa_private_key cache =
      let key =
        remembered cache.rsa_private
          (load_rsa_private_key lib (normalize_pem s.settlement_rsa_private_key_pem)) in
      (key, record cache { rsa_private = to_remember key })

  unfoldable pub settlement_rsa_public_key : KeyCache → Loaded × KeyCache
  settlement_rsa_public_key cache =
      let key =
        remembered cache.rsa_public
          (load_rsa_public_key lib (normalize_pem s.settlement_rsa_public_key_pem)) in
      (key, record cache { rsa_public = to_remember key })

-- `reset_key_cache`
unfoldable pub reset_key_cache : KeyCache → KeyCache
reset_key_cache cache = empty_cache

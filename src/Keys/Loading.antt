-- ===== src/Keys/Loading.antt =====
-- shared/crypto.py: `generate_signing_keypair` and `generate_rsa_keypair`, and the four functions
-- that parse a key from a PEM text.
use mesh_settle.Prelude.{
  ℕ, ◌≡◌, ◌≢◌, ◌<◌, refl, ap, ◌∙◌, Option, none, some, List, [], ◌∷◌, ◌++◌, Text, codes, All, ltb,
  lt→ltb, if◌then◌else◌,
}
use mesh_settle.Crypto.Primitives.{Key, Primitives}
use mesh_settle.Keys.Library.{AnyKey, ed25519, rsa, PemLibrary, PemLaws, Written-ascii}
use mesh_settle.Keys.Strings.{strip}

-- `pem.encode("ascii")`; `none` is `UnicodeEncodeError`.
unfoldable pub encode_ascii : Text → Option (List ℕ)
encode_ascii [] = some []
encode_ascii (c ∷ s) = elim (encode_ascii s) [
  | none ↦ none
  | some rest ↦ if ltb c 128 then some (c ∷ rest) else none
]

-- How a key is loaded: it is there, or `KeyConfigurationError` is raised with a message.
pub data Loaded : Type 0 where
  loaded : Key → Loaded
  key_configuration_error : Text → Loaded

-- The private and the public PEM text.
pub record KeyPair : Type 0 where
  pub private_pem : Text
  pub public_pem : Text

module _ (c : Primitives) (lib : PemLibrary) where
  -- `generate_signing_keypair`, of the key that is drawn.
  unfoldable pub generate_signing_keypair : Key → KeyPair
  generate_signing_keypair private_key = record {
    private_pem = lib.private_pem (ed25519 private_key);
    public_pem = lib.public_pem (ed25519 (c.ed25519_public private_key));
  }

  -- `generate_rsa_keypair`, of the key that is drawn.
  unfoldable pub generate_rsa_keypair : Key → KeyPair
  generate_rsa_keypair private_key = record {
    private_pem = lib.private_pem (rsa private_key);
    public_pem = lib.public_pem (rsa (c.rsa_public private_key));
  }

abbrev read_bytes : (List ℕ → Option AnyKey) → Option (List ℕ) → Option AnyKey
read_bytes load none = none
read_bytes load (some bytes) = load bytes

abbrev expect_ed25519 : (AnyKey → Text) → Text → AnyKey → Loaded
expect_ed25519 type_name message (ed25519 key) = loaded key
expect_ed25519 type_name message key = key_configuration_error (message ++ type_name key)

abbrev expect_rsa : (AnyKey → Text) → Text → AnyKey → Loaded
expect_rsa type_name message (rsa key) = loaded key
expect_rsa type_name message key = key_configuration_error (message ++ type_name key)

abbrev parsed : Text → (AnyKey → Loaded) → Option AnyKey → Loaded
parsed message expect none = key_configuration_error message
parsed message expect (some key) = expect key

-- `not pem or not pem.strip()`
abbrev unless_blank : Text → Text → Loaded → Loaded
unless_blank message [] result = key_configuration_error message
unless_blank message (c ∷ stripped) result = result

module _ (lib : PemLibrary) where
  -- `load_pem_private_key` and `load_pem_public_key`, of the encoded text.
  abbrev read_private : Text → Option AnyKey
  read_private pem = read_bytes lib.load_pem_private_key (encode_ascii pem)

  abbrev read_public : Text → Option AnyKey
  read_public pem = read_bytes lib.load_pem_public_key (encode_ascii pem)

  unfoldable pub load_signing_private_key : Text → Loaded
  load_signing_private_key pem =
      unless_blank (codes "signing private key PEM is empty") (strip pem) (
        parsed (codes "signing private key PEM could not be parsed")
          (expect_ed25519 lib.private_type_name (codes "expected an Ed25519 private key, got "))
          (read_private pem))

  unfoldable pub load_signing_public_key : Text → Loaded
  load_signing_public_key pem = unless_blank (codes "signing public key PEM is empty") (strip pem) (
      parsed (codes "signing public key PEM could not be parsed")
        (expect_ed25519 lib.public_type_name (codes "expected an Ed25519 public key, got "))
        (read_public pem))

  unfoldable pub load_rsa_private_key : Text → Loaded
  load_rsa_private_key pem = unless_blank (codes "RSA private key PEM is empty") (strip pem) (
      parsed (codes "RSA private key PEM could not be parsed")
        (expect_rsa lib.private_type_name (codes "expected an RSA private key, got "))
        (read_private pem))

  unfoldable pub load_rsa_public_key : Text → Loaded
  load_rsa_public_key pem = unless_blank (codes "RSA public key PEM is empty") (strip pem) (
      parsed (codes "RSA public key PEM could not be parsed")
        (expect_rsa lib.public_type_name (codes "expected an RSA public key, got "))
        (read_public pem))

encode_ascii-All : (s : Text) → All (λ c. c < 128) s → encode_ascii s ≡ some s
unfolding encode_ascii
encode_ascii-All [] h = refl
encode_ascii-All (c ∷ s) h = rw (encode_ascii-All s h.1, lt→ltb c 128 h.0) refl

unless_blank-Nonempty :
    (message s : Text) (result : Loaded) → s ≢ [] → unless_blank message s result ≡ result
unless_blank-Nonempty message [] result some_text = absurd (some_text refl)
unless_blank-Nonempty message (c ∷ s) result some_text = refl

-- A written key is loaded from its text.
module _ (lib : PemLibrary) (laws : PemLaws lib) (key : Key) where
  read_private-pem : (k : AnyKey) → read_private lib (lib.private_pem k) ≡ some k
  read_private-pem k =
      ap (read_bytes lib.load_pem_private_key)
        (encode_ascii-All _ (Written-ascii _ (laws.private-Written k)))
      ∙ laws.load_pem_private_key-pem k

  read_public-pem : (k : AnyKey) → read_public lib (lib.public_pem k) ≡ some k
  read_public-pem k =
      ap (read_bytes lib.load_pem_public_key)
        (encode_ascii-All _ (Written-ascii _ (laws.public-Written k)))
      ∙ laws.load_pem_public_key-pem k

  pub load_signing_private_key-pem :
      load_signing_private_key lib (lib.private_pem (ed25519 key)) ≡ loaded key
  unfolding load_signing_private_key
  load_signing_private_key-pem =
      unless_blank-Nonempty _ _ _ (laws.private-Written (ed25519 key)).some_text
      ∙ ap (parsed _ _) (read_private-pem (ed25519 key))

  pub load_signing_public_key-pem :
      load_signing_public_key lib (lib.public_pem (ed25519 key)) ≡ loaded key
  unfolding load_signing_public_key
  load_signing_public_key-pem =
      unless_blank-Nonempty _ _ _ (laws.public-Written (ed25519 key)).some_text
      ∙ ap (parsed _ _) (read_public-pem (ed25519 key))

  pub load_rsa_private_key-pem : load_rsa_private_key lib (lib.private_pem (rsa key)) ≡ loaded key
  unfolding load_rsa_private_key
  load_rsa_private_key-pem =
      unless_blank-Nonempty _ _ _ (laws.private-Written (rsa key)).some_text
      ∙ ap (parsed _ _) (read_private-pem (rsa key))

  pub load_rsa_public_key-pem : load_rsa_public_key lib (lib.public_pem (rsa key)) ≡ loaded key
  unfolding load_rsa_public_key
  load_rsa_public_key-pem =
      unless_blank-Nonempty _ _ _ (laws.public-Written (rsa key)).some_text
      ∙ ap (parsed _ _) (read_public-pem (rsa key))

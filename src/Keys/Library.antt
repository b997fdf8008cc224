-- ===== src/Keys/Library.antt =====
-- The functions on PEM texts that shared/crypto.py calls of the package cryptography, and what they
-- are documented to do.
use mesh_settle.Prelude.{
  ℕ, ◌≡◌, ◌≢◌, Bool, true, not, ◌&&◌, ◌||◌, leb, ◌==◌, List, [], Text, Option, some, All, All-map,
  arith, ◌<◌,
}
use mesh_settle.Crypto.Primitives.{Key}
use mesh_settle.Keys.Pem.{normal_pem}
use mesh_settle.Keys.Strings.{Plain, strip, newline, backslash}
use mesh_settle.Models.Fields.{all_chars}
use mesh_settle.Models.Fields.Chars.{All-all_chars}

-- What a PEM text may hold: a key that the services use, or one of another type, by its name.
pub data AnyKey : Type 0 where
  ed25519 : Key → AnyKey
  rsa : Key → AnyKey
  other : Text → AnyKey

pub record PemLibrary : Type 0 where
  -- `type(key).__name__`, of a private and of a public key
  pub private_type_name : AnyKey → Text
  pub public_type_name : AnyKey → Text
  -- `private_key.private_bytes(PEM, PKCS8, NoEncryption()).decode("ascii")`
  pub private_pem : AnyKey → Text
  -- `public_key.public_bytes(PEM, SubjectPublicKeyInfo).decode("ascii")`
  pub public_pem : AnyKey → Text
  -- `load_pem_private_key(data, password=None)` and `load_pem_public_key(data)`; `none` is any
  -- exception
  pub load_pem_private_key : List ℕ → Option AnyKey
  pub load_pem_public_key : List ℕ → Option AnyKey

-- The characters of PEM texts: printable ASCII, but for quotes, dollars and backslashes, and line
-- breaks.
unfoldable pub is_pem_char : ℕ → Bool
is_pem_char c =
    c == newline
    || leb 32 c && leb c 126 && not (c == b'"') && not (c == b'$') && not (c == backslash)

-- A PEM text as the package writes it: lines that begin and end with no
-- space, each with its line break.
pub record Written (pem : Text) : Type 0 where
  pub chars : all_chars is_pem_char pem ≡ true
  pub lines : normal_pem pem ≡ pem
  pub some_text : strip pem ≢ []

-- What is written is read back.
pub record PemLaws (lib : PemLibrary) : Type 0 where
  pub private-Written : (k : AnyKey) → Written (lib.private_pem k)
  pub public-Written : (k : AnyKey) → Written (lib.public_pem k)
  pub load_pem_private_key-pem :
      (k : AnyKey) → lib.load_pem_private_key (lib.private_pem k) ≡ some k
  pub load_pem_public_key-pem : (k : AnyKey) → lib.load_pem_public_key (lib.public_pem k) ≡ some k

pub Written-Plain : (pem : Text) → Written pem → Plain pem
unfolding is_pem_char
Written-Plain pem written =
    All-map (λ c. is_pem_char c ≡ true) (λ c. c ≢ backslash) pem (λ c h e. ground arith)
      (All-all_chars is_pem_char pem written.chars)

pub Written-ascii : (pem : Text) → Written pem → All (λ c. c < 128) pem
unfolding is_pem_char
Written-ascii pem written =
    All-map (λ c. is_pem_char c ≡ true) (λ c. c < 128) pem (λ c h. ground arith)
      (All-all_chars is_pem_char pem written.chars)

-- ===== src/Keys/Keygen.antt =====
-- shared/keygen.py: the lines that `main` prints.
use mesh_settle.Prelude.{Bool, true, false, List, [], ◌∷◌, ◌++◌, Text, codes}
use mesh_settle.Crypto.Primitives.{Key, Primitives}
use mesh_settle.Keys.Library.{PemLibrary}
use mesh_settle.Keys.Loading.{generate_signing_keypair, generate_rsa_keypair}
use mesh_settle.Keys.Pem.{escape_pem}
use mesh_settle.Keys.Strings.{strip}

-- The arguments of `print` for one pair.
unfoldable pub printed_pair : Bool → Text → Text → List Text
unfolding strip escape_pem
printed_pair true name pem = (codes "# --- " ++ name ++ codes " ---") ∷ strip pem ∷ [] ∷ []
printed_pair false name pem = (name ++ codes "=\"" ++ escape_pem pem ++ codes "\"") ∷ []

module _ (c : Primitives) (lib : PemLibrary) where
  -- `main`, with the flag `--pem` and the keys that are drawn.
  unfoldable pub print_keys : Bool → Key → Key → List Text
  unfolding printed_pair generate_signing_keypair generate_rsa_keypair
  print_keys pem signing_key rsa_key =
      let signing = generate_signing_keypair c lib signing_key in
      let rsa = generate_rsa_keypair c lib rsa_key in
      codes "# MeshSettle generated keys — treat the PRIVATE values as secrets."
        ∷ codes "# Copy into .env (gitignored) or your secret manager. Generate once only."
        ∷ []
        ∷ printed_pair pem (codes "SENDER_SIGNING_PRIVATE_KEY_PEM") signing.private_pem
      ++ printed_pair pem (codes "SENDER_SIGNING_PUBLIC_KEY_PEM") signing.public_pem
      ++ printed_pair pem (codes "SETTLEMENT_RSA_PRIVATE_KEY_PEM") rsa.private_pem
      ++ printed_pair pem (codes "SETTLEMENT_RSA_PUBLIC_KEY_PEM") rsa.public_pem

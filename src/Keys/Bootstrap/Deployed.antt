-- ===== src/Keys/Bootstrap/Deployed.antt =====
-- scripts/bootstrap_env.py, shared/config.py and shared/crypto.py: the keys that the services load
-- from the settings which a bootstrapped `.env` holds.
use mesh_settle.Prelude.{
  ◌≡◌, refl, ap, ◌∙◌, inl, inr, true, some, Text, pos_part, text_eq, subst, codes,
}
use mathlib.Core.Option.{some_inj}
use mesh_settle.Crypto.Primitives.{Key, Primitives}
use mesh_settle.Keys.Accessors.{
  empty_cache, sender_signing_private_key, sender_signing_public_key, settlement_rsa_private_key,
  settlement_rsa_public_key,
}
use mesh_settle.Keys.Bootstrap.{
  Drawn, build_files, build_env_lines, build_env_infra_lines, env_lines, env_infra_lines, quoted,
}
use mesh_settle.Keys.Bootstrap.Reader.{
  Reader, ReaderLaws, all_fit, Reading, is_name, defines, lookup, is_bare_char, is_name_char,
}
use mesh_settle.Keys.Bootstrap.Values.{unescaped, escaped_line, escaped_chars, password-bare}
use mesh_settle.Keys.Library.{ed25519, rsa, PemLibrary, PemLaws, Written, Written-Plain}
use mesh_settle.Keys.Loading.{
  generate_signing_keypair, generate_rsa_keypair, loaded, load_signing_private_key,
  load_signing_public_key, load_rsa_private_key, load_rsa_public_key, load_signing_private_key-pem,
  load_signing_public_key-pem, load_rsa_private_key-pem, load_rsa_public_key-pem,
}
use mesh_settle.Keys.Pem.{escape_pem, normalize_pem, normalize_pem-escape_pem}
use mesh_settle.Keys.Settings.{Settings}
use mesh_settle.Models.Fields.{all_chars}
use mesh_settle.Settlement.App.{started_processor, processor_of}
use mesh_settle.Settlement.Dedupe.{DedupeStore}
use mesh_settle.Settlement.Processor.{settlement_processor, injected}

module _ (c : Primitives) (lib : PemLibrary) (laws : PemLaws lib) (d : Drawn) where
  pub env-fits : all_fit (build_env_lines c lib d) ≡ true
  unfolding all_fit build_env_lines env_lines is_name_char is_bare_char generate_signing_keypair
      generate_rsa_keypair
  env-fits =
      let signing_private = laws.private-Written (ed25519 d.signing_key) in
      let signing_public = laws.public-Written (ed25519 (c.ed25519_public d.signing_key)) in
      let rsa_private = laws.private-Written (rsa d.rsa_key) in
      let rsa_public = laws.public-Written (rsa (c.rsa_public d.rsa_key)) in
      rw
        (
          password-bare d.postgres_bytes,
          password-bare d.rabbitmq_bytes,
          escaped_line _ signing_private,
          escaped_chars _ signing_private,
          escaped_line _ signing_public,
          escaped_chars _ signing_public,
          escaped_line _ rsa_private,
          escaped_chars _ rsa_private,
          escaped_line _ rsa_public,
          escaped_chars _ rsa_public,
        )
        refl

  pub env_infra-fits : all_fit (build_env_infra_lines c lib d) ≡ true
  unfolding all_fit build_env_infra_lines env_infra_lines is_name_char is_bare_char
  env_infra-fits = rw (password-bare d.postgres_bytes, password-bare d.rabbitmq_bytes) refl

-- A setting that a reader finds where a key was written between quotes.
normalized :
    (pem field : Text) (name : Text)
    → Written pem
    → Reading (some (quoted name (escape_pem pem))) (some field)
    → normalize_pem field ≡ pem
normalized pem field name written (inl as_written) =
    ap normalize_pem (some_inj.0 as_written)
    ∙ (normalize_pem-escape_pem pem (Written-Plain pem written) written.some_text).0
    ∙ written.lines
normalized pem field name written (inr decoded) =
    ap normalize_pem (some_inj.0 decoded ∙ unescaped pem written)
    ∙ (normalize_pem-escape_pem pem (Written-Plain pem written) written.some_text).1
    ∙ written.lines

-- The settings hold what the reader finds in a text under the names of the four keys.
pub record KeysFrom (read : Reader) (text : Text) (s : Settings) : Type 0 where
  pub signing_private :
      read text (codes "SENDER_SIGNING_PRIVATE_KEY_PEM") ≡ some s.sender_signing_private_key_pem
  pub signing_public :
      read text (codes "SENDER_SIGNING_PUBLIC_KEY_PEM") ≡ some s.sender_signing_public_key_pem
  pub rsa_private :
      read text (codes "SETTLEMENT_RSA_PRIVATE_KEY_PEM") ≡ some s.settlement_rsa_private_key_pem
  pub rsa_public :
      read text (codes "SETTLEMENT_RSA_PUBLIC_KEY_PEM") ≡ some s.settlement_rsa_public_key_pem

-- A process that starts with the settings loads these private keys and their public keys.
pub record Deployed (c : Primitives) (lib : PemLibrary) (s : Settings) (signing_key rsa_key : Key)
    : Type 0 where
  pub signing_private : (sender_signing_private_key lib s empty_cache).0 ≡ loaded signing_key
  pub signing_public :
      (sender_signing_public_key lib s empty_cache).0 ≡ loaded (c.ed25519_public signing_key)
  pub rsa_private : (settlement_rsa_private_key lib s empty_cache).0 ≡ loaded rsa_key
  pub rsa_public : (settlement_rsa_public_key lib s empty_cache).0 ≡ loaded (c.rsa_public rsa_key)
  pub processor :
      (dedupe : DedupeStore)
      → started_processor lib s dedupe empty_cache
        ≡ some (record {
          dedupe = dedupe;
          sender_public_key = c.ed25519_public signing_key;
          settlement_private_key = rsa_key;
          freshness_window_seconds = pos_part s.freshness_window_seconds;
          clock_skew_tolerance_seconds = pos_part s.clock_skew_tolerance_seconds;
        })

processor_of_loaded :
    (lib : PemLibrary) (s : Settings) (dedupe : DedupeStore) (public_key private_key : Key)
    → (sender_signing_public_key lib s empty_cache).0 ≡ loaded public_key
    → (settlement_rsa_private_key lib s empty_cache).0 ≡ loaded private_key
    → started_processor lib s dedupe empty_cache
      ≡ processor_of s dedupe (loaded public_key) (loaded private_key)
unfolding started_processor sender_signing_public_key settlement_rsa_private_key
processor_of_loaded lib s dedupe public_key private_key public private =
    let private_loaded =
      (settlement_rsa_private_key lib s (sender_signing_public_key lib s empty_cache).1).0 in
    ap (λ k. processor_of s dedupe k private_loaded) public
    ∙ ap (processor_of s dedupe (loaded public_key)) private

module _ (c : Primitives) (lib : PemLibrary) (laws : PemLaws lib) (d : Drawn) (read : Reader)
    (reader_laws : ReaderLaws read) where
  pub in_env :
      (name : Text)
      → is_name name ≡ true
      → Reading (lookup name (build_env_lines c lib d)) (read (build_files c lib d).0 name)
  unfolding build_files
  in_env name named = reader_laws.reads (build_env_lines c lib d) name (env-fits c lib laws d) named

  -- A key of the file, in the settings.
  setting :
      (name pem field : Text)
      → is_name name ≡ true
      → Written pem
      → lookup name (build_env_lines c lib d) ≡ some (quoted name (escape_pem pem))
      → read (build_files c lib d).0 name ≡ some field
      → normalize_pem field ≡ pem
  setting name pem field named written line value = normalized pem field name written (
      subst (λ l. Reading l (some field)) line
        (subst (Reading (lookup name (build_env_lines c lib d))) value (in_env name named)))

  module _ (s : Settings) (from : KeysFrom read (build_files c lib d).0 s) where
    deployed_signing_private :
        (sender_signing_private_key lib s empty_cache).0 ≡ loaded d.signing_key
    unfolding sender_signing_private_key build_env_lines env_lines lookup defines text_eq all_chars
        is_name_char generate_signing_keypair
    deployed_signing_private =
        let written = laws.private-Written (ed25519 d.signing_key) in
        ap (load_signing_private_key lib) (setting _ _ _ refl written refl from.signing_private)
        ∙ load_signing_private_key-pem lib laws d.signing_key

    deployed_signing_public :
        (sender_signing_public_key lib s empty_cache).0 ≡ loaded (c.ed25519_public d.signing_key)
    unfolding sender_signing_public_key build_env_lines env_lines lookup defines text_eq all_chars
        is_name_char generate_signing_keypair
    deployed_signing_public =
        let written = laws.public-Written (ed25519 (c.ed25519_public d.signing_key)) in
        ap (load_signing_public_key lib) (setting _ _ _ refl written refl from.signing_public)
        ∙ load_signing_public_key-pem lib laws (c.ed25519_public d.signing_key)

    deployed_rsa_private : (settlement_rsa_private_key lib s empty_cache).0 ≡ loaded d.rsa_key
    unfolding settlement_rsa_private_key build_env_lines env_lines lookup defines text_eq all_chars
        is_name_char generate_rsa_keypair
    deployed_rsa_private =
        let written = laws.private-Written (rsa d.rsa_key) in
        ap (load_rsa_private_key lib) (setting _ _ _ refl written refl from.rsa_private)
        ∙ load_rsa_private_key-pem lib laws d.rsa_key

    deployed_rsa_public :
        (settlement_rsa_public_key lib s empty_cache).0 ≡ loaded (c.rsa_public d.rsa_key)
    unfolding settlement_rsa_public_key build_env_lines env_lines lookup defines text_eq all_chars
        is_name_char generate_rsa_keypair
    deployed_rsa_public =
        let written = laws.public-Written (rsa (c.rsa_public d.rsa_key)) in
        ap (load_rsa_public_key lib) (setting _ _ _ refl written refl from.rsa_public)
        ∙ load_rsa_public_key-pem lib laws (c.rsa_public d.rsa_key)

    -- A process whose settings hold what a reader of env files finds under the names of the four
    -- keys in the bootstrapped file, with the escapes of line breaks as they are or decoded, loads
    -- the two private keys that were drawn and the public keys of these, and starts a settlement
    -- processor with that pair of keys, if the library of PEM texts reads what it writes.
    pub build_files-Deployed : Deployed c lib s d.signing_key d.rsa_key
    unfolding settlement_processor injected
    build_files-Deployed = record {
      signing_private = deployed_signing_private;
      signing_public = deployed_signing_public;
      rsa_private = deployed_rsa_private;
      rsa_public = deployed_rsa_public;
      processor = λ dedupe.
          processor_of_loaded lib s dedupe _ _ deployed_signing_public deployed_rsa_private;
    }

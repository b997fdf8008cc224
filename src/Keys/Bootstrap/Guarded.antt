-- ===== src/Keys/Bootstrap/Guarded.antt =====
-- scripts/bootstrap_env.py: what `main` leaves in the repository's root.
use mesh_settle.Prelude.{
  ◌≡◌, ◌⊎◌, inl, inr, refl, sym, ◌∙◌, Bool, true, false, Option, none, some, List, [], ◌∷◌, ◌++◌,
  Text, codes, text_eq, ℕ, subst, ap,
}
use mathlib.Core.List.{cons≢nil}
use mesh_settle.Crypto.Primitives.{Primitives}
use mesh_settle.Keys.Bootstrap.{
  Drawn, assign, build_files, build_env_lines, build_env_infra_lines, env_lines, env_infra_lines,
}
use mesh_settle.Keys.Bootstrap.Deployed.{env_infra-fits, in_env}
use mesh_settle.Keys.Bootstrap.Main.{
  File, Files, Ended, owner_only, named, existing, write_files, write_text, chmod_owner_only,
  guarded, main,
}
use mesh_settle.Keys.Bootstrap.Reader.{
  Reader, Reading, ReaderLaws, is_name, is_name_char, defines, lookup,
}
use mesh_settle.Keys.Library.{PemLibrary, PemLaws}
use mesh_settle.Models.Fields.{all_chars}

-- A file that only its owner reads.
abbrev owned : Text → Option File
owned text = some (record { text = text; mode = owner_only })

-- The two texts hold the same credentials, and the second one none of the keys.
pub record Matching (read : Reader) (env infra : Text) : Type 0 where
  pub postgres_user : read infra (codes "POSTGRES_USER") ≡ read env (codes "POSTGRES_USER")
  pub postgres_password :
      read infra (codes "POSTGRES_PASSWORD") ≡ read env (codes "POSTGRES_PASSWORD")
  pub postgres_db : read infra (codes "POSTGRES_DB") ≡ read env (codes "POSTGRES_DB")
  pub rabbitmq_user : read infra (codes "RABBITMQ_DEFAULT_USER") ≡ read env (codes "RABBITMQ_USER")
  pub rabbitmq_password :
      read infra (codes "RABBITMQ_DEFAULT_PASS") ≡ read env (codes "RABBITMQ_PASSWORD")
  pub no_signing_key : read infra (codes "SENDER_SIGNING_PRIVATE_KEY_PEM") ≡ none
  pub no_rsa_key : read infra (codes "SETTLEMENT_RSA_PRIVATE_KEY_PEM") ≡ none

-- Neither file exists.
abbrev pub Absent : Files → Type 0
Absent files = (files.env ≡ none) × (files.env_infra ≡ none)

both_absent :
    (name other : Text) (a b : Option File)
    → named name a ++ named other b ≡ []
    → (a ≡ none) × (b ≡ none)
both_absent name other none none e = (refl, refl)
both_absent name other none (some file) e = absurd (cons≢nil e)
both_absent name other (some file) b e = absurd (cons≢nil e)

existing-Absent : (files : Files) → existing files ≡ [] → Absent files
unfolding existing
existing-Absent files e = both_absent _ _ files.env files.env_infra e

Absent-existing : (files : Files) → Absent files → existing files ≡ []
unfolding existing
Absent-existing files absent = rw (absent.0, absent.1) refl

-- How the script ends: it keeps the files that exist, or it writes both.
pub data Guarded (read : Reader) (force : Bool) (files : Files) (e : Ended) : Type 0 where
  kept :
      force ≡ false
      → (Absent files → ⊥)
      → e.status ≡ 1
      → e.files ≡ files
      → Guarded read force files e
  replaced :
      (force ≡ true) ⊎ Absent files
      → e.status ≡ 0
      → (env infra : Text) → e.files ≡ record { env = owned env; env_infra = owned infra }
      → Matching read env infra
      → Guarded read force files e

module _ (c : Primitives) (lib : PemLibrary) (laws : PemLaws lib) (read : Reader)
    (reader_laws : ReaderLaws read) (d : Drawn) where
  in_env_infra :
      (name : Text)
      → is_name name ≡ true
      → Reading (lookup name (build_env_infra_lines c lib d)) (read (build_files c lib d).1 name)
  unfolding build_files
  in_env_infra name named =
      reader_laws.reads (build_env_infra_lines c lib d) name (env_infra-fits c lib laws d) named

  -- A value that both files assign, and a name that the second one does not assign.
  assigned_alike :
      (name other value : Text)
      → is_name name ≡ true
      → is_name other ≡ true
      → lookup name (build_env_infra_lines c lib d) ≡ some (assign name value)
      → lookup other (build_env_lines c lib d) ≡ some (assign other value)
      → read (build_files c lib d).1 name ≡ read (build_files c lib d).0 other
  assigned_alike name other value named other_named here there =
      let found =
        subst (λ l. Reading l (read (build_files c lib d).1 name)) here (in_env_infra name named) in
      let other_found =
        subst (λ l. Reading l (read (build_files c lib d).0 other)) there
          (in_env c lib laws d read reader_laws other other_named) in
      found ∙ sym other_found

  not_assigned :
      (name : Text)
      → is_name name ≡ true
      → lookup name (build_env_infra_lines c lib d) ≡ none
      → read (build_files c lib d).1 name ≡ none
  not_assigned name named here =
      subst (λ l. Reading l (read (build_files c lib d).1 name)) here (in_env_infra name named)

  build_files-Matching : Matching read (build_files c lib d).0 (build_files c lib d).1
  unfolding build_env_lines build_env_infra_lines env_lines env_infra_lines lookup defines text_eq
      all_chars is_name_char
  build_files-Matching = record {
    postgres_user = assigned_alike _ _ _ refl refl refl refl;
    postgres_password = assigned_alike _ _ _ refl refl refl refl;
    postgres_db = assigned_alike _ _ _ refl refl refl refl;
    rabbitmq_user = assigned_alike _ _ _ refl refl refl refl;
    rabbitmq_password = assigned_alike _ _ _ refl refl refl refl;
    no_signing_key = not_assigned _ refl refl;
    no_rsa_key = not_assigned _ refl refl;
  }

  owned_file :
      (default_mode : ℕ) (text : Text) (file : Option File)
      → chmod_owner_only (write_text default_mode text file)
        ≡ record { text = text; mode = owner_only }
  unfolding write_text chmod_owner_only
  owned_file default_mode text none = refl
  owned_file default_mode text (some file) = refl

  write_files-owned :
      (default_mode : ℕ) (texts : Text × Text) (files : Files)
      → write_files default_mode texts files
        ≡ record { env = owned texts.0; env_infra = owned texts.1 }
  unfolding write_files
  write_files-owned default_mode texts files =
      ap
        (λ f. record {
          env = some f;
          env_infra = some (chmod_owner_only (write_text default_mode texts.1 files.env_infra));
        })
        (owned_file default_mode texts.0 files.env)
      ∙ ap (λ f. record { env = owned texts.0; env_infra = some f })
          (owned_file default_mode texts.1 files.env_infra)

  guarded-Guarded :
      (force : Bool) (default_mode : ℕ) (files : Files) (names : List Text)
      → existing files ≡ names
      → Guarded read force files (guarded c lib force default_mode d files names)
  guarded-Guarded force default_mode files [] e =
      replaced (inr (existing-Absent files e)) refl _ _ (write_files-owned default_mode _ files)
        build_files-Matching
  guarded-Guarded true default_mode files (name ∷ names) e =
      replaced (inl refl) refl _ _ (write_files-owned default_mode _ files) build_files-Matching
  guarded-Guarded false default_mode files (name ∷ names) e =
      kept refl (λ absent. cons≢nil (sym e ∙ Absent-existing files absent)) refl refl

  -- The script that bootstraps the environment leaves the files as they are and exits with 1 if
  -- one of them exists and the force flag is not given; otherwise it exits with 0, both files have
  -- the mode 600, a reader of env files finds the same credentials of Postgres and RabbitMQ in
  -- both, and it finds neither private key in the file for the infrastructure, if the library of
  -- PEM texts writes lines of printable ASCII.
  pub main-Guarded :
      (force : Bool) (default_mode : ℕ) (files : Files)
      → Guarded read force files (main c lib force default_mode d files)
  unfolding main
  main-Guarded force default_mode files = guarded-Guarded force default_mode files _ refl

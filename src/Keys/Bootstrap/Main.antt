-- ===== src/Keys/Bootstrap/Main.antt =====
-- scripts/bootstrap_env.py: `main`. A write or a change of mode that fails is not modelled.
use mesh_settle.Prelude.{ℕ, Bool, true, false, Option, none, some, List, [], ◌∷◌, ◌++◌, Text, codes}
use mesh_settle.Crypto.Primitives.{Primitives}
use mesh_settle.Keys.Library.{PemLibrary}
use mesh_settle.Keys.Bootstrap.{Drawn, build_files}

pub record File : Type 0 where
  pub text : Text
  pub mode : ℕ

-- The two files of the repository's root.
pub record Files : Type 0 where
  pub env : Option File
  pub env_infra : Option File

-- How the script ends: its exit status, what it printed, and the files.
pub record Ended : Type 0 where
  pub status : ℕ
  pub printed : List Text
  pub files : Files

-- `0o600`
abbrev pub owner_only : ℕ
owner_only = 384

-- `path.write_text(text)`: a file that exists keeps its mode, a new one has the process's.
unfoldable pub write_text : ℕ → Text → Option File → File
write_text default_mode text none = record { text = text; mode = default_mode }
write_text default_mode text (some file) = record file { text = text }

-- `path.chmod(0o600)`
unfoldable pub chmod_owner_only : File → File
chmod_owner_only file = record file { mode = owner_only }

-- The names of the paths that exist, in the order of the tuple.
abbrev pub named : Text → Option File → List Text
named name none = []
named name (some file) = name ∷ []

unfoldable pub existing : Files → List Text
existing files = named (codes ".env") files.env ++ named (codes ".env.infra") files.env_infra

-- `", ".join(names)`
unfoldable pub join_comma : List Text → Text
join_comma [] = []
join_comma (name ∷ []) = name
join_comma (name ∷ next ∷ names) = name ++ codes ", " ++ join_comma (next ∷ names)

-- The files are written and then made the owner's.
unfoldable pub write_files : ℕ → Text × Text → Files → Files
unfolding write_text chmod_owner_only
write_files default_mode texts files = record {
  env = some (chmod_owner_only (write_text default_mode texts.0 files.env));
  env_infra = some (chmod_owner_only (write_text default_mode texts.1 files.env_infra));
}

abbrev refused : List Text → Files → Ended
refused names files = record {
  status = 1;
  printed =
      (codes "refusing to overwrite existing "
        ++ join_comma names
        ++ codes "; pass --force to regenerate")
      ∷ [];
  files = files;
}

module _ (c : Primitives) (lib : PemLibrary) where
  abbrev written : ℕ → Drawn → Files → Ended
  written default_mode d files = record {
    status = 0;
    printed =
        codes "wrote .env and .env.infra (mode 600)"
        ∷ codes "credentials match across both files; keys will persist across restarts"
        ∷ [];
    files = write_files default_mode (build_files c lib d) files;
  }

  abbrev pub guarded : Bool → ℕ → Drawn → Files → List Text → Ended
  guarded force default_mode d files [] = written default_mode d files
  guarded true default_mode d files (name ∷ names) = written default_mode d files
  guarded false default_mode d files (name ∷ names) = refused (name ∷ names) files

  -- `main`, with the parsed flag, the mode of new files, what would be drawn, and the files.
  unfoldable pub main : Bool → ℕ → Drawn → Files → Ended
  unfolding existing write_files build_files join_comma
  main force default_mode d files = guarded force default_mode d files (existing files)

-- ===== src/Tests/Keys.antt =====
-- The keys, log entries, the proxy and the migration at concrete inputs.
use mesh_settle.Prelude.{
  pos, ◌≡◌, refl, true, false, none, some, List, [], ◌∷◌, Text, codes, text_eq,
}
use mesh_settle.Keys.Bootstrap.{Drawn, build_files, build_env_lines, env_lines}
use mesh_settle.Keys.Bootstrap.Deployed.{KeysFrom, Deployed, env-fits, build_files-Deployed}
use mesh_settle.Keys.Bootstrap.Guarded.{Guarded, main-Guarded}
use mesh_settle.Keys.Bootstrap.Main.{Files, main}
use mesh_settle.Keys.Bootstrap.Reader.{lookup, defines, is_name, is_name_char}
use mesh_settle.Keys.Bootstrap.Trust.{Loads, Answerable, Trusted, create_packet-Trusted}
use mesh_settle.Mesh.Sender.{Draws}
use mesh_settle.Models.Instruction.{RawRequest, validate_request}
use mesh_settle.Keys.Library.{ed25519, rsa}
use mesh_settle.Keys.Loading.{generate_signing_keypair, generate_rsa_keypair}
use mesh_settle.Keys.Pem.{escape_pem}
use mesh_settle.Keys.Settings.{Settings, default_settings}
use mesh_settle.Logging.{redact_secrets}
use mesh_settle.Logging.Redacted.{Redacted, redact_secrets-Redacted}
use mesh_settle.Models.Fields.{all_chars}
use mesh_settle.Settlement.Schema.{Schema, has_table, has_index, without_table}
use mesh_settle.Settlement.Schema.Migrated.{Free, Migration, upgrade-Migration}
use mesh_settle.Tests.Env.{toy_reader, toy_reader-laws, render-Found, Found}
use mesh_settle.Tests.Pem.{toy_pem_library, toy-PemLaws}
use mesh_settle.Tests.Sample.{
  toy_primitives, toy_laws, toy_wire, sender_key, settlement_key, randomness, noon, lunch,
  lunch_request, lunch_made, lunch_read,
}

abbrev drawn : Drawn
drawn = record {
  postgres_bytes = 1 ∷ 2 ∷ 3 ∷ 4 ∷ [];
  rabbitmq_bytes = 250 ∷ 251 ∷ 252 ∷ [];
  signing_key = sender_key;
  rsa_key = settlement_key;
}

-- The settings of a process that reads the bootstrapped file.
abbrev deployed_settings : Settings
deployed_settings = record default_settings {
  sender_signing_private_key_pem = escape_pem (toy_pem_library.private_pem (ed25519 sender_key));
  sender_signing_public_key_pem = escape_pem (toy_pem_library.public_pem (ed25519 sender_key));
  settlement_rsa_private_key_pem = escape_pem (toy_pem_library.private_pem (rsa settlement_key));
  settlement_rsa_public_key_pem = escape_pem (toy_pem_library.public_pem (rsa settlement_key));
}

in_file :
    (name : Text)
    → is_name name ≡ true
    → Found
        (lookup name (build_env_lines toy_primitives toy_pem_library drawn))
        (toy_reader (build_files toy_primitives toy_pem_library drawn).0 name)
unfolding build_files
in_file name h =
    render-Found (build_env_lines toy_primitives toy_pem_library drawn) name
      (env-fits toy_primitives toy_pem_library toy-PemLaws drawn) h

file-KeysFrom :
    KeysFrom toy_reader (build_files toy_primitives toy_pem_library drawn).0 deployed_settings
unfolding build_env_lines env_lines lookup defines text_eq all_chars is_name_char
    generate_signing_keypair generate_rsa_keypair
file-KeysFrom = record {
  signing_private = in_file (codes "SENDER_SIGNING_PRIVATE_KEY_PEM") refl;
  signing_public = in_file (codes "SENDER_SIGNING_PUBLIC_KEY_PEM") refl;
  rsa_private = in_file (codes "SETTLEMENT_RSA_PRIVATE_KEY_PEM") refl;
  rsa_public = in_file (codes "SETTLEMENT_RSA_PUBLIC_KEY_PEM") refl;
}

build_files-Deployed_example :
    Deployed toy_primitives toy_pem_library deployed_settings sender_key settlement_key
build_files-Deployed_example =
    build_files-Deployed toy_primitives toy_pem_library toy-PemLaws drawn toy_reader toy_reader-laws
      deployed_settings file-KeysFrom

-- The keys that are loaded, and a request for the lunch.
lunch_keys : Loads toy_pem_library deployed_settings
lunch_keys =
    let deployed =
      build_files-Deployed toy_primitives toy_pem_library toy-PemLaws drawn toy_reader
        toy_reader-laws deployed_settings file-KeysFrom in
    record {
      signing_private = sender_key;
      signing_public = sender_key;
      rsa_private = settlement_key;
      rsa_public = settlement_key;
      loads_signing_private = deployed.signing_private;
      loads_signing_public = deployed.signing_public;
      loads_rsa_private = deployed.rsa_private;
      loads_rsa_public = deployed.rsa_public;
    }

abbrev lunch_draws : Draws
lunch_draws = record {
  randomness = randomness;
  uuid = 77;
  instruction_time = noon;
  packet_time = noon;
}

abbrev lunch_order : RawRequest
lunch_order = record {
  payer_id = codes "alice";
  payee_id = codes "bob";
  amount_minor = pos 1250;
  currency = some (codes "INR");
}

lunch-Answerable : Answerable toy_wire.read_instruction lunch_draws lunch_order lunch
unfolding validate_request
lunch-Answerable = record {
  request = lunch_request;
  accepts = refl;
  long_key = refl;
  made_of = lunch_made;
  read_back = lunch_read;
}

create_packet-Trusted_example :
    Trusted toy_primitives toy_pem_library deployed_settings lunch_keys toy_wire.read_instruction
      lunch_draws lunch_order lunch
create_packet-Trusted_example =
    create_packet-Trusted toy_primitives toy_laws toy_pem_library toy-PemLaws drawn toy_reader
      toy_reader-laws deployed_settings file-KeysFrom lunch_keys toy_wire.read_instruction
      lunch_draws lunch_order lunch lunch-Answerable

-- Only `.env.infra` is there.
abbrev half : Files
half = record { env = none; env_infra = some (record { text = codes "OLD=1"; mode = 420 }) }

main-Guarded_example :
    Guarded toy_reader false half (main toy_primitives toy_pem_library false 420 drawn half)
main-Guarded_example =
    main-Guarded toy_primitives toy_pem_library toy-PemLaws toy_reader toy_reader-laws drawn false
      420 half

abbrev entry : List (Text × Text)
entry = (codes "event", codes "relay.forwarded") ∷ (codes "postgres_password", codes "hunter2") ∷ []

redact_secrets-Redacted_example :
    Redacted Text (λ s. s) (λ s. s) entry (redact_secrets Text (λ s. s) (λ s. s) entry)
redact_secrets-Redacted_example = redact_secrets-Redacted Text (λ s. s) (λ s. s) entry

-- A database that holds the table of another program.
abbrev other_schema : Schema
other_schema = record {
  tables = record { name = codes "spatial_ref_sys"; columns = []; constraints = [] } ∷ [];
  indexes = [];
}

other_schema-Free : Free other_schema
unfolding has_table has_index without_table text_eq
other_schema-Free = record {
  settlements = refl;
  rejected_packets = refl;
  settled_at = refl;
  payer_id = refl;
  reason = refl;
  rejected_at = refl;
  no_settlements_index = refl;
  no_rejected_packets_index = refl;
}

upgrade-Migration_example : (t : Schema) × Migration other_schema t
upgrade-Migration_example = upgrade-Migration other_schema other_schema-Free

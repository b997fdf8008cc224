-- ===== src/Keys/Bootstrap.antt =====
-- scripts/bootstrap_env.py: the contents of `.env` and `.env.infra`, line by line.
pub mod Main
pub mod Reader
pub mod Values
pub mod Deployed
pub mod Guarded
pub mod Trust
use mesh_settle.Prelude.{ℕ, List, [], ◌∷◌, ◌++◌, Text, codes}
use mesh_settle.Crypto.Base64.{b64u_encode}
use mesh_settle.Crypto.Primitives.{Key, Primitives}
use mesh_settle.Keys.Library.{PemLibrary}
use mesh_settle.Keys.Loading.{KeyPair, generate_signing_keypair, generate_rsa_keypair}
use mesh_settle.Keys.Pem.{escape_pem}
use mesh_settle.Keys.Strings.{newline}

-- A line of an env file: `#text`, `name=value` or `name="value"`, or an empty one.
pub data EnvLine : Type 0 where
  blank : EnvLine
  comment : Text → EnvLine
  assign quoted : Text → Text → EnvLine

unfoldable pub line_text : EnvLine → Text
line_text blank = []
line_text (comment s) = b'#' ∷ s
line_text (assign name value) = name ++ b'=' ∷ value
line_text (quoted name value) = name ++ b'=' ∷ b'"' ∷ value ++ b'"' ∷ []

-- The text of a file of such lines.
unfoldable pub render : List EnvLine → Text
unfolding line_text
render [] = []
render (line ∷ lines) = line_text line ++ newline ∷ render lines

-- `_password`: `secrets.token_urlsafe(24)`, of the 24 bytes that are drawn.
unfoldable pub password : List ℕ → Text
unfolding b64u_encode
password drawn = b64u_encode drawn

abbrev pub postgres_user : Text
postgres_user = codes "meshsettle"

abbrev pub postgres_db : Text
postgres_db = codes "meshsettle"

abbrev pub rabbitmq_user : Text
rabbitmq_user = codes "meshsettle"

module _ (postgres_password rabbitmq_password : Text) where
  -- `.env`
  unfoldable pub env_lines : KeyPair → KeyPair → List EnvLine
  unfolding escape_pem
  env_lines signing rsa =
      comment (codes " MeshSettle local environment. Generated by scripts/bootstrap_env.py.")
      ∷ comment (codes " Gitignored. Contains real private keys. Never commit, never share.")
      ∷ blank
      ∷ comment (codes " --- Postgres ---")
      ∷ assign (codes "POSTGRES_USER") postgres_user
      ∷ assign (codes "POSTGRES_PASSWORD") postgres_password
      ∷ assign (codes "POSTGRES_DB") postgres_db
      ∷ comment
          (codes " Host/port for running services directly on your machine. docker-compose.yml")
      ∷ comment (codes " overrides these with the compose service names.")
      ∷ assign (codes "POSTGRES_HOST") (codes "localhost")
      ∷ assign (codes "POSTGRES_PORT") (codes "5432")
      ∷ blank
      ∷ comment (codes " --- Redis (dedupe store) ---")
      ∷ assign (codes "REDIS_URL") (codes "redis://localhost:6379/0")
      ∷ assign (codes "DEDUPE_TTL_SECONDS") (codes "86400")
      ∷ assign (codes "DEDUPE_CLAIM_TTL_SECONDS") (codes "60")
      ∷ blank
      ∷ comment (codes " --- Freshness window (replay defense) ---")
      ∷ comment
          (codes " How old a packet may be and still settle, and how far ahead its timestamp may")
      ∷ comment (codes " be. See ARCHITECTURE.md \"Why a freshness window is needed\".")
      ∷ assign (codes "FRESHNESS_WINDOW_SECONDS") (codes "86400")
      ∷ assign (codes "CLOCK_SKEW_TOLERANCE_SECONDS") (codes "300")
      ∷ blank
      ∷ comment (codes " --- RabbitMQ ---")
      ∷ assign (codes "RABBITMQ_USER") rabbitmq_user
      ∷ assign (codes "RABBITMQ_PASSWORD") rabbitmq_password
      ∷ assign (codes "RABBITMQ_HOST") (codes "localhost")
      ∷ assign (codes "RABBITMQ_PORT") (codes "5672")
      ∷ assign (codes "SETTLEMENT_QUEUE") (codes "meshsettle.settlements")
      ∷ blank
      ∷ comment
          (codes " --- Crypto keys (generated once; regenerating invalidates old signatures) ---")
      ∷ quoted (codes "SENDER_SIGNING_PRIVATE_KEY_PEM") (escape_pem signing.private_pem)
      ∷ quoted (codes "SENDER_SIGNING_PUBLIC_KEY_PEM") (escape_pem signing.public_pem)
      ∷ quoted (codes "SETTLEMENT_RSA_PRIVATE_KEY_PEM") (escape_pem rsa.private_pem)
      ∷ quoted (codes "SETTLEMENT_RSA_PUBLIC_KEY_PEM") (escape_pem rsa.public_pem)
      ∷ blank
      ∷ comment (codes " --- Mesh simulation ---")
      ∷ assign (codes "MESH_HOP_COUNT") (codes "2")
      ∷ assign (codes "MESH_HOP_LIMIT") (codes "16")
      ∷ assign (codes "MESH_NODE_ID") (codes "relay-1")
      ∷ assign (codes "MESH_RELAY_URL") (codes "http://localhost:8002")
      ∷ assign (codes "BRIDGE_URL") (codes "http://localhost:8003")
      ∷ assign (codes "MESH_FORWARD_TIMEOUT_SECONDS") (codes "5.0")
      ∷ blank
      ∷ comment (codes " --- Rate limiting ---")
      ∷ assign (codes "RATE_LIMIT_PER_MINUTE") (codes "60")
      ∷ blank
      ∷ comment (codes " --- Logging ---")
      ∷ assign (codes "LOG_LEVEL") (codes "INFO")
      ∷ []

  -- `.env.infra`
  unfoldable pub env_infra_lines : List EnvLine
  env_infra_lines =
      comment
        (codes " MeshSettle infrastructure credentials. Generated by scripts/bootstrap_env.py.")
      ∷ comment
          (codes " Gitignored. Only what the Postgres and RabbitMQ images need to initialize;")
      ∷ comment (codes " no private keys belong in here.")
      ∷ comment (codes "")
      ∷ comment (codes " These MUST match the corresponding values in .env. Both files are written")
      ∷ comment (codes " together so they cannot drift.")
      ∷ blank
      ∷ assign (codes "POSTGRES_USER") postgres_user
      ∷ assign (codes "POSTGRES_PASSWORD") postgres_password
      ∷ assign (codes "POSTGRES_DB") postgres_db
      ∷ blank
      ∷ assign (codes "RABBITMQ_DEFAULT_USER") rabbitmq_user
      ∷ assign (codes "RABBITMQ_DEFAULT_PASS") rabbitmq_password
      ∷ []

-- What `build_files` draws: the bytes of the two passwords, and the two private keys.
pub record Drawn : Type 0 where
  pub postgres_bytes : List ℕ
  pub rabbitmq_bytes : List ℕ
  pub signing_key : Key
  pub rsa_key : Key

module _ (c : Primitives) (lib : PemLibrary) where
  -- `build_files`: the lines of both files, with the same credentials, and their texts.
  unfoldable pub build_env_lines : Drawn → List EnvLine
  unfolding env_lines
  build_env_lines d =
      env_lines (password d.postgres_bytes) (password d.rabbitmq_bytes)
        (generate_signing_keypair c lib d.signing_key) (generate_rsa_keypair c lib d.rsa_key)

  unfoldable pub build_env_infra_lines : Drawn → List EnvLine
  unfolding env_infra_lines
  build_env_infra_lines d = env_infra_lines (password d.postgres_bytes) (password d.rabbitmq_bytes)

  unfoldable pub build_files : Drawn → Text × Text
  unfolding render build_env_lines build_env_infra_lines
  build_files d = (render (build_env_lines d), render (build_env_infra_lines d))

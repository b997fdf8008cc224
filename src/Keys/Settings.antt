-- ===== src/Keys/Settings.antt =====
-- shared/config.py: the settings, their bounds, and the URLs that are computed of them. That
-- pydantic-settings finds the values in the environment is not modelled.
use mesh_settle.Prelude.{ℕ, ◌+◌, ℤ, pos, negsuc, ◌∷◌, ◌++◌, Text, codes, Bool, false, ◌&&◌, leb}
use mesh_settle.Crypto.Json.{decimal}

pub data LogLevel : Type 0 where
  debug info warning error : LogLevel

-- `Settings`, but for the timeout, which is a float.
pub record Settings : Type 0 where
  pub postgres_user : Text
  pub postgres_password : Text
  pub postgres_db : Text
  pub postgres_host : Text
  pub postgres_port : ℤ
  pub redis_url : Text
  pub dedupe_ttl_seconds : ℤ
  pub freshness_window_seconds : ℤ
  pub clock_skew_tolerance_seconds : ℤ
  pub dedupe_claim_ttl_seconds : ℤ
  pub rabbitmq_user : Text
  pub rabbitmq_password : Text
  pub rabbitmq_host : Text
  pub rabbitmq_port : ℤ
  pub settlement_queue : Text
  pub sender_signing_private_key_pem : Text
  pub sender_signing_public_key_pem : Text
  pub settlement_rsa_private_key_pem : Text
  pub settlement_rsa_public_key_pem : Text
  pub mesh_hop_count : ℤ
  pub mesh_hop_limit : ℤ
  pub mesh_node_id : Text
  pub sender_url : Text
  pub mesh_relay_url : Text
  pub bridge_url : Text
  pub settlement_url : Text
  pub rate_limit_per_minute : ℤ
  pub log_level : LogLevel

-- The defaults of the fields.
abbrev pub default_settings : Settings
default_settings = record {
  postgres_user = codes "meshsettle";
  postgres_password = codes "";
  postgres_db = codes "meshsettle";
  postgres_host = codes "localhost";
  postgres_port = pos 5432;
  redis_url = codes "redis://localhost:6379/0";
  dedupe_ttl_seconds = pos 86400;
  freshness_window_seconds = pos 86400;
  clock_skew_tolerance_seconds = pos 300;
  dedupe_claim_ttl_seconds = pos 60;
  rabbitmq_user = codes "meshsettle";
  rabbitmq_password = codes "";
  rabbitmq_host = codes "localhost";
  rabbitmq_port = pos 5672;
  settlement_queue = codes "meshsettle.settlements";
  sender_signing_private_key_pem = codes "";
  sender_signing_public_key_pem = codes "";
  settlement_rsa_private_key_pem = codes "";
  settlement_rsa_public_key_pem = codes "";
  mesh_hop_count = pos 2;
  mesh_hop_limit = pos 16;
  mesh_node_id = codes "relay-1";
  sender_url = codes "http://localhost:8001";
  mesh_relay_url = codes "http://localhost:8002";
  bridge_url = codes "http://localhost:8003";
  settlement_url = codes "http://localhost:8004";
  rate_limit_per_minute = pos 60;
  log_level = info;
}

abbrev at_least : ℕ → ℤ → Bool
at_least bound (pos n) = leb bound n
at_least bound (negsuc n) = false

-- The constraints of the fields, without which no settings are made.
unfoldable pub in_bounds : Settings → Bool
in_bounds s =
    at_least 1 s.freshness_window_seconds
    && at_least 0 s.clock_skew_tolerance_seconds
    && at_least 1 s.dedupe_claim_ttl_seconds
    && at_least 0 s.mesh_hop_count
    && at_least 1 s.mesh_hop_limit
    && at_least 1 s.rate_limit_per_minute

abbrev integer_text : ℤ → Text
integer_text (pos n) = decimal n
integer_text (negsuc n) = b'-' ∷ decimal (n + 1)

-- A URL with credentials, as the f-strings write it.
unfoldable pub url_with_credentials : Text → Text → Text → Text → ℤ → Text → Text
unfolding decimal
url_with_credentials scheme user password host port path =
    scheme
    ++ codes "://"
    ++ user
    ++ codes ":"
    ++ password
    ++ codes "@"
    ++ host
    ++ codes ":"
    ++ integer_text port
    ++ codes "/"
    ++ path

module _ (s : Settings) where
  unfoldable pub postgres_dsn : Text
  unfolding url_with_credentials
  postgres_dsn =
      url_with_credentials (codes "postgresql+asyncpg") s.postgres_user s.postgres_password
        s.postgres_host s.postgres_port s.postgres_db

  unfoldable pub postgres_sync_dsn : Text
  unfolding url_with_credentials
  postgres_sync_dsn =
      url_with_credentials (codes "postgresql+psycopg") s.postgres_user s.postgres_password
        s.postgres_host s.postgres_port s.postgres_db

  unfoldable pub rabbitmq_url : Text
  unfolding url_with_credentials
  rabbitmq_url =
      url_with_credentials (codes "amqp") s.rabbitmq_user s.rabbitmq_password s.rabbitmq_host
        s.rabbitmq_port (codes "")

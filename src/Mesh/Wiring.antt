-- ===== src/Mesh/Wiring.antt =====
-- services/mesh_relay/app.py, services/bridge/app.py and services/sender/app.py: what the services
-- take from the settings, and the replies that do not come from a handler.
use mesh_settle.Prelude.{pos_part, codes}
use mesh_settle.Keys.Settings.{Settings}
use mesh_settle.Mesh.Relay.{RelayConfig, Refusal}
use mesh_settle.Models.Codes.{internal_error}

-- `RelayConfig.from_settings`, of settings in their bounds.
unfoldable pub from_settings : Settings → RelayConfig
from_settings s = record {
  node_id = s.mesh_node_id;
  next_relay_url = s.mesh_relay_url;
  bridge_url = s.bridge_url;
  hop_count_target = pos_part s.mesh_hop_count;
  hop_limit = pos_part s.mesh_hop_limit;
}

-- `_rate_limited`, which the services declare alike.
abbrev pub rate_limited : Refusal
rate_limited = record {
  code = internal_error;
  detail = codes "rate limit exceeded";
  http_status = 429;
}

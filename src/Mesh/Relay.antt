-- ===== src/Mesh/Relay.antt =====
-- services/mesh_relay/app.py: one hop. `relay` is cut at its call of the next node: what it decides
-- before, and what it answers after. The limit on the rate of requests is left out.
pub mod Journey
use mesh_settle.Prelude.{
  ℕ, ◌+◌, Bool, true, false, List, [], ◌∷◌, ◌++◌, Text, codes, leb, if◌then◌else◌, ◌==◌,
}
use mesh_settle.Crypto.Base64.{strip_before}
use mesh_settle.Crypto.Json.{decimal}
use mesh_settle.Crypto.Primitives.{Key, Primitives}
use mesh_settle.Crypto.Signing.{Verified, verified, signature_error}
use mesh_settle.Mesh.Urls.{rstrip_slash}
use mesh_settle.Models.Codes.{
  ErrorCode, malformed_payload, invalid_signature, internal_error, PacketStatus, bridged, relayed,
}
use mesh_settle.Models.Fields.{Errors, Validated, valid, invalid, is_identifier}
use mesh_settle.Models.Moment.{Moment}
use mesh_settle.Models.Packet.{PaymentPacket, HopRecord, hop_count, append_hop, verify}
use mesh_settle.Models.Wire.{Wire, model_validate_json}

pub record RelayConfig : Type 0 where
  pub node_id : Text
  pub next_relay_url : Text
  pub bridge_url : Text
  pub hop_count_target : ℕ
  pub hop_limit : ℕ

-- `next_destination`
unfoldable pub next_destination : RelayConfig → ℕ → Text × PacketStatus
unfolding rstrip_slash
next_destination config hops =
    if leb config.hop_count_target hops
    then (rstrip_slash config.bridge_url ++ codes "/bridge", bridged)
    else (rstrip_slash config.next_relay_url ++ codes "/relay", relayed)

-- A refusal with its code, its text and its HTTP status.
pub record Refusal : Type 0 where
  pub code : ErrorCode
  pub detail : Text
  pub http_status : ℕ

-- What a node does with a packet: it refuses it, it fails with an exception that it does not catch,
-- or it forwards a packet to a URL, with the status to report.
pub data Decision : Type 0 where
  refuse : Refusal → Decision
  crash : Decision
  forward : Text → PacketStatus → PaymentPacket → Decision

module _ (config : RelayConfig) (now : Moment) where
  -- Steps 3 and 4: the hop record is validated when it is made, so a node whose name is no
  -- identifier fails.
  unfoldable pub record_hop : PaymentPacket → Decision
  unfolding is_identifier next_destination append_hop hop_count
  record_hop packet =
      let forwarded = append_hop packet (record { node_id = config.node_id; received_at = now }) in
      let (destination, status) = next_destination config (hop_count forwarded) in
      if is_identifier config.node_id then forward destination status forwarded else crash

  -- Step 2.
  unfoldable pub check_limit : PaymentPacket → Decision
  unfolding record_hop
  check_limit packet =
      if leb config.hop_limit (hop_count packet)
      then refuse (record {
        code = malformed_payload;
        detail = codes "packet exceeded the hop limit of " ++ decimal config.hop_limit;
        http_status = 400;
      })
      else record_hop packet

  -- Step 1.
  unfoldable pub after_check : PaymentPacket → Verified → Decision
  unfolding check_limit
  after_check packet verified = check_limit packet
  after_check packet (signature_error e) = refuse (record {
    code = invalid_signature;
    detail = codes "packet signature did not verify";
    http_status = 400;
  })

  module _ (c : Primitives) (sender_key : Key) where
    -- `relay`, up to the call.
    unfoldable pub relay_packet : PaymentPacket → Decision
    relay_packet packet = after_check packet (verify c packet sender_key)

-- `RelayResponse`
pub record RelayResponse : Type 0 where
  pub status : PacketStatus
  pub node_id : Text
  pub hop_count : ℕ
  pub forwarded_to : Text
  pub packet_id : ℕ

pub data RelayAnswer : Type 0 where
  accepted : RelayResponse → RelayAnswer
  refused : Refusal → RelayAnswer
  failed : RelayAnswer

-- `relay`, from the call on: whether the next node accepted the packet.
unfoldable pub relay_answer : RelayConfig → Bool → Decision → RelayAnswer
relay_answer config sent (refuse r) = refused r
relay_answer config sent crash = failed
relay_answer config false (forward destination status packet) = refused (record {
  code = internal_error;
  detail = codes "could not forward the packet to the next node";
  http_status = 502;
})
relay_answer config true (forward destination status packet) = accepted (record {
  status = status;
  node_id = config.node_id;
  hop_count = hop_count packet;
  forwarded_to = destination;
  packet_id = packet.packet_id;
})

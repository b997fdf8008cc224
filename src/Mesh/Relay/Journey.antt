-- ===== src/Mesh/Relay/Journey.antt =====
-- services/mesh_relay: the journey of a packet through relays, each of which posts to the next one
-- or to the bridge, as JSON documents.
pub mod Arrivals
pub mod Delivery
pub mod Requests
use mesh_settle.Prelude.{
  ℕ, suc, zero, ◌+◌, ◌≤◌, ◌<◌, ◌≡◌, refl, ap, ◌∙◌, inl, inr, true, false, List, Text, arith, leb,
  if◌then◌else◌, Bool-cases,
}
use mesh_settle.Crypto.Primitives.{Key, Primitives}
use mesh_settle.Crypto.Signing.{Verified, verified, signature_error}
use mesh_settle.Mesh.Relay.{
  RelayConfig, Refusal, Decision, refuse, crash, forward, next_destination, record_hop, check_limit,
  after_check, relay_packet,
}
use mesh_settle.Mesh.Replies.{first_validation_message}
use mesh_settle.Models.Codes.{PacketStatus, bridged, relayed, malformed_payload}
use mesh_settle.Models.Fields.{Validated, valid, invalid, is_identifier}
use mesh_settle.Models.Moment.{Moment}
use mesh_settle.Models.Packet.{PaymentPacket, HopRecord, hop_count, append_hop, verify}
use mesh_settle.Models.Packet.Alike.{
  Alike, Alike-trans, append_hop-Alike, append_hop-WellFormed, hop_count-append_hop,
  Alike-SameDerived,
}
use mesh_settle.Models.Packet.Document.{WellFormed, model_validate_json-dump}
use mesh_settle.Models.Wire.{Wire, WireLaws, model_validate_json}

-- A node, at the time of its request.
pub record Node : Type 0 where
  pub config : RelayConfig
  pub now : Moment

-- How a journey ends: at the bridge with a document, or at a node that does not forward it; or the
-- packet is still on its way after that many nodes.
pub data Arrival : Type 0 where
  arrived : List ℕ → Arrival
  dropped : Arrival
  circulating : Arrival

module _ (c : Primitives) (w : Wire) (key : Key) where
  abbrev pub handle_read : Node → Validated PaymentPacket → Decision
  handle_read node (valid packet) = relay_packet node.config node.now c key packet
  handle_read node (invalid es) =
      refuse (record {
        code = malformed_payload;
        detail = first_validation_message es;
        http_status = 422;
      })

  -- `POST /relay`, up to the call of the next node.
  unfoldable pub handle : Node → List ℕ → Decision
  unfolding relay_packet first_validation_message
  handle node body = handle_read node (model_validate_json w body)

  -- The journey from the node of that number on; a node's next relay is the next node.
  unfoldable pub travel : (ℕ → Node) → ℕ → ℕ → List ℕ → Arrival
  unfolding handle
  travel nodes zero n body = circulating
  travel nodes (suc fuel) n body = elim (handle (nodes n) body) [
    | refuse r ↦ dropped
    | crash ↦ dropped
    | forward destination bridged packet ↦ arrived (w.dump_packet packet)
    | forward destination _ packet ↦ travel nodes fuel (suc n) (w.dump_packet packet)
  ]

  module _ (node : Node) (packet : PaymentPacket) where
    abbrev pub hop : HopRecord
    hop = record { node_id = node.config.node_id; received_at = node.now }

    abbrev pub next_status : PacketStatus
    next_status = (next_destination node.config (suc (hop_count packet))).1

    -- What a node requires in order to forward a packet.
    pub record Forwards : Type 0 where
      pub signed : verify c packet key ≡ verified
      pub within : hop_count packet < node.config.hop_limit
      pub named : is_identifier node.config.node_id ≡ true

    pub data Decided (d : Decision) : Type 0 where
      refused : (r : Refusal) → d ≡ refuse r → Decided d
      crashed : d ≡ crash → Decided d
      forwarded :
          (destination : Text)
          → d ≡ forward destination next_status (append_hop packet hop)
          → Forwards
          → Decided d

module _ (c : Primitives) (w : Wire) (key : Key) where
  module _ (node : Node) (packet : PaymentPacket) where
    record_hop-Decided :
        verify c packet key ≡ verified
        → hop_count packet < node.config.hop_limit
        → Decided c w key node packet (record_hop node.config node.now packet)
    unfolding record_hop
    record_hop-Decided signed within = elim (Bool-cases (is_identifier node.config.node_id)) [
      | inl named ↦
          rw (named, hop_count-append_hop packet (hop c w key node packet))
            (forwarded _ refl (record { signed = signed; within = within; named = named }))
      | inr unnamed ↦ rw unnamed (crashed refl)
    ]

    check_limit-Decided :
        verify c packet key ≡ verified
        → Decided c w key node packet (check_limit node.config node.now packet)
    unfolding check_limit
    check_limit-Decided signed = elim (Bool-cases (leb node.config.hop_limit (hop_count packet))) [
      | inl over ↦ rw over (refused _ refl)
      | inr under ↦ rw under (record_hop-Decided signed (ground arith))
    ]

    after_check-Decided :
        (v : Verified)
        → verify c packet key ≡ v
        → Decided c w key node packet (after_check node.config node.now packet v)
    unfolding after_check
    after_check-Decided verified e = check_limit-Decided e
    after_check-Decided (signature_error m) e = refused _ refl

    pub relay_packet-Decided :
        Decided c w key node packet (relay_packet node.config node.now c key packet)
    unfolding relay_packet
    relay_packet-Decided = after_check-Decided _ refl

  module _ (laws : WireLaws w) where
    handle-dump :
        (node : Node) (p : PaymentPacket)
        → WellFormed p
        → handle c w key node (w.dump_packet p) ≡ relay_packet node.config node.now c key p
    unfolding handle
    handle-dump node p wf = rw (model_validate_json-dump w p laws wf) refl

    abbrev pub from_decision : (ℕ → Node) → ℕ → ℕ → Decision → Arrival
    from_decision nodes fuel n (refuse r) = dropped
    from_decision nodes fuel n crash = dropped
    from_decision nodes fuel n (forward destination bridged packet) = arrived (w.dump_packet packet)
    from_decision nodes fuel n (forward destination _ packet) =
        travel c w key nodes fuel (suc n) (w.dump_packet packet)

    pub travel-dump :
        (nodes : ℕ → Node) (fuel n : ℕ) (p : PaymentPacket)
        → WellFormed p
        → travel c w key nodes (suc fuel) n (w.dump_packet p)
          ≡ from_decision nodes fuel n (relay_packet (nodes n).config (nodes n).now c key p)
    unfolding travel
    travel-dump nodes fuel n p wf = ap (from_decision nodes fuel n) (handle-dump (nodes n) p wf)

    pub travel-read :
        (nodes : ℕ → Node) (fuel n : ℕ) (body : List ℕ) (v : Validated PaymentPacket)
        → model_validate_json w body ≡ v
        → travel c w key nodes (suc fuel) n body
          ≡ from_decision nodes fuel n (handle_read c w key (nodes n) v)
    unfolding travel handle
    travel-read nodes fuel n body v read =
        ap (λ x. from_decision nodes fuel n (handle_read c w key (nodes n) x)) read

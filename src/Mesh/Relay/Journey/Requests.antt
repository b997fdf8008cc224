-- ===== src/Mesh/Relay/Journey/Requests.antt =====
-- services/mesh_relay: a journey that starts with any request to a relay.
use mesh_settle.Prelude.{ℕ, suc, zero, ◌≤◌, ◌<◌, ◌≡◌, refl, List, arith}
use mesh_settle.Crypto.Primitives.{Key, Primitives}
use mesh_settle.Mesh.Relay.Journey.{
  Node, Arrival, arrived, dropped, travel, hop, relay_packet-Decided, travel-read,
}
use mesh_settle.Mesh.Relay.Journey.Arrivals.{
  Carried, Ended, is_dropped, is_arrived, by_decision, travel-Ended,
}
use mesh_settle.Models.Fields.{Validated, valid, invalid}
use mesh_settle.Models.Packet.{PaymentPacket}
use mesh_settle.Models.Packet.Acceptance.{ReadsBytes, model_validate_json-WellFormed}
use mesh_settle.Models.Packet.Alike.{append_hop-WellFormed, hop_count-append_hop}
use mesh_settle.Models.Wire.{Wire, WireLaws, model_validate_json}

module _ (c : Primitives) (w : Wire) (key : Key) (laws : WireLaws w) where
  -- How a journey that starts with a request ends: it is dropped, or the request held a packet, and
  -- that packet's document has come to the bridge.
  pub data Finished (most : ℕ) (body : List ℕ) (a : Arrival) : Type 0 where
    none_arrived : a ≡ dropped → Finished most body a
    one_arrived :
        (p : PaymentPacket)
        → model_validate_json w body ≡ valid p
        → (document : List ℕ) → a ≡ arrived document
        → Carried c w key laws most p document
        → Finished most body a

  module _ (reads : ReadsBytes w) (nodes : ℕ → Node) (most : ℕ)
      (bounded : (i : ℕ) → (nodes i).config.hop_limit ≤ most) where
    valid-Ended :
        (fuel n : ℕ) (body : List ℕ) (p : PaymentPacket)
        → model_validate_json w body ≡ valid p
        → most < suc fuel
        → Ended c w key laws most p (travel c w key nodes (suc fuel) n body)
    valid-Ended fuel n body p read enough =
        let wf = model_validate_json-WellFormed w body p reads read in
        let count = hop_count-append_hop p (hop c w key (nodes n) p) in
        rw (travel-read c w key laws nodes fuel n body (valid p) read) (
          by_decision c w key laws nodes most fuel n p _ wf (bounded n)
            (λ f.
              travel-Ended c w key laws nodes most fuel (suc n) _
                (append_hop-WellFormed p _ f.named wf) bounded
                (omega (arith, count, f.within, bounded n)) (omega (arith, count, enough)))
            (relay_packet-Decided c w key (nodes n) p))

    Ended-Finished :
        (body : List ℕ) (p : PaymentPacket) (a : Arrival)
        → model_validate_json w body ≡ valid p
        → Ended c w key laws most p a
        → Finished most body a
    Ended-Finished body p a read (is_dropped e) = none_arrived e
    Ended-Finished body p a read (is_arrived document e h) = one_arrived p read document e h

    by_read :
        (fuel n : ℕ) (body : List ℕ) (v : Validated PaymentPacket)
        → model_validate_json w body ≡ v
        → most < suc fuel
        → Finished most body (travel c w key nodes (suc fuel) n body)
    by_read fuel n body (valid p) read enough =
        Ended-Finished body p _ read (valid-Ended fuel n body p read enough)
    by_read fuel n body (invalid es) read enough =
        none_arrived (travel-read c w key laws nodes fuel n body (invalid es) read)

    -- The body of any request to a relay, among any relays whose hop limits are bounded by a
    -- number, is dropped or reaches the bridge within one node more than that number: it never
    -- circulates. If it arrives, it held a packet whose signature verified, and the document at
    -- the bridge is of that packet with more hops, within the bound, and no other change, if a
    -- JSON document holds no bytes that are none.
    pub travel-Finished :
        (fuel n : ℕ) (body : List ℕ)
        → most < fuel
        → Finished most body (travel c w key nodes fuel n body)
    travel-Finished zero n body enough = absurd (omega (arith, enough))
    travel-Finished (suc fuel) n body enough = by_read fuel n body _ refl enough

-- ===== src/Mesh/Relay/Journey/Arrivals.antt =====
-- services/mesh_relay: a journey ends: the packet arrives or is dropped.
use mesh_settle.Prelude.{ℕ, suc, zero, ◌+◌, ◌≤◌, ◌<◌, ◌≡◌, refl, ap, List, Text, arith}
use mesh_settle.Crypto.Primitives.{Key, Primitives}
use mesh_settle.Crypto.Signing.{verified}
use mesh_settle.Mesh.Relay.{Decision, forward}
use mesh_settle.Models.Codes.{PacketStatus, bridged, relayed}
use mesh_settle.Models.Packet.{PaymentPacket, hop_count, append_hop, verify}
use mesh_settle.Models.Packet.Alike.{
  Alike, Alike-trans, append_hop-Alike, append_hop-WellFormed, hop_count-append_hop,
}
use mesh_settle.Models.Packet.Document.{WellFormed}
use mesh_settle.Models.Wire.{Wire, WireLaws}
use mesh_settle.Mesh.Relay.Journey.{
  Node, Arrival, arrived, dropped, travel, hop, Forwards, Decided, refused, crashed, forwarded,
  relay_packet-Decided, from_decision, travel-dump,
}

module _ (c : Primitives) (w : Wire) (key : Key) (laws : WireLaws w) where
  -- The end of a journey: the packet was dropped, or its document has come to the bridge, with
  -- more hops and no other change, and its signature was verified.
  pub record Carried (most : ℕ) (p : PaymentPacket) (body : List ℕ) : Type 0 where
    pub packet : PaymentPacket
    pub document : body ≡ w.dump_packet packet
    pub alike : Alike p packet
    pub well_formed : WellFormed packet
    pub more_hops : hop_count p < hop_count packet
    pub hops_within : hop_count packet ≤ most
    pub signed : verify c p key ≡ verified

  pub data Ended (most : ℕ) (p : PaymentPacket) (a : Arrival) : Type 0 where
    is_dropped : a ≡ dropped → Ended most p a
    is_arrived : (body : List ℕ) → a ≡ arrived body → Carried most p body → Ended most p a

  onward :
      (most : ℕ) (node : Node) (p : PaymentPacket) (a : Arrival)
      → verify c p key ≡ verified
      → Ended most (append_hop p (hop c w key node p)) a
      → Ended most p a
  onward most node p a signed (is_dropped e) = is_dropped e
  onward most node p a signed (is_arrived body e h) = is_arrived body e (record {
    packet = h.packet;
    document = h.document;
    alike = Alike-trans (append_hop-Alike p _) h.alike;
    well_formed = h.well_formed;
    more_hops = omega (arith, h.more_hops, hop_count-append_hop p (hop c w key node p));
    hops_within = h.hops_within;
    signed = signed;
  })

  first_arrival :
      (most : ℕ) (node : Node) (p : PaymentPacket)
      → WellFormed p
      → Forwards c w key node p
      → node.config.hop_limit ≤ most
      → Carried most p (w.dump_packet (append_hop p (hop c w key node p)))
  first_arrival most node p wf f b =
      let count = hop_count-append_hop p (hop c w key node p) in
      record {
        packet = append_hop p (hop c w key node p);
        document = refl;
        alike = append_hop-Alike p _;
        well_formed = append_hop-WellFormed p _ f.named wf;
        more_hops = omega (arith, count);
        hops_within = omega (arith, count, f.within, b);
        signed = f.signed;
      }

  by_status :
      (nodes : ℕ → Node) (most fuel n : ℕ) (p : PaymentPacket) (destination : Text)
      (status : PacketStatus)
      → WellFormed p
      → (nodes n).config.hop_limit ≤ most
      → Forwards c w key (nodes n) p
      → Ended most (append_hop p (hop c w key (nodes n) p)) (
          travel c w key nodes fuel
            (suc n)
            (w.dump_packet (append_hop p (hop c w key (nodes n) p))))
      → Ended most p (
          from_decision c w key laws nodes fuel n
            (forward destination status (append_hop p (hop c w key (nodes n) p))))
  by_status nodes most fuel n p destination bridged wf b f rest =
      is_arrived _ refl (first_arrival most (nodes n) p wf f b)
  by_status nodes most fuel n p destination relayed wf b f rest =
      onward most (nodes n) p _ f.signed rest
  by_status nodes most fuel n p destination PacketStatus.created wf b f rest =
      onward most (nodes n) p _ f.signed rest
  by_status nodes most fuel n p destination PacketStatus.settled wf b f rest =
      onward most (nodes n) p _ f.signed rest
  by_status nodes most fuel n p destination PacketStatus.rejected wf b f rest =
      onward most (nodes n) p _ f.signed rest

  pub by_decision :
      (nodes : ℕ → Node) (most fuel n : ℕ) (p : PaymentPacket) (d : Decision)
      → WellFormed p
      → (nodes n).config.hop_limit ≤ most
      → (Forwards c w key (nodes n) p
          → Ended most (append_hop p (hop c w key (nodes n) p)) (
              travel c w key nodes fuel
                (suc n)
                (w.dump_packet (append_hop p (hop c w key (nodes n) p)))))
      → Decided c w key (nodes n) p d
      → Ended most p (from_decision c w key laws nodes fuel n d)
  by_decision nodes most fuel n p d wf b rest (refused r e) =
      is_dropped (ap (from_decision c w key laws nodes fuel n) e)
  by_decision nodes most fuel n p d wf b rest (crashed e) =
      is_dropped (ap (from_decision c w key laws nodes fuel n) e)
  by_decision nodes most fuel n p d wf b rest (forwarded destination e f) =
      rw e (by_status nodes most fuel n p destination _ wf b f (rest f))

  -- The document of a well-formed packet, among any relays whose hop limits are bounded by a
  -- number, reaches the bridge or is dropped within as many nodes as that number leaves to it: it
  -- never circulates. If it arrives, its signature was verified, and the packet has more hops,
  -- within the bound, and differs in nothing else.
  pub travel-Ended :
      (nodes : ℕ → Node) (most fuel n : ℕ) (p : PaymentPacket)
      → WellFormed p
      → ((i : ℕ) → (nodes i).config.hop_limit ≤ most)
      → hop_count p ≤ most
      → most < fuel + hop_count p
      → Ended most p (travel c w key nodes fuel n (w.dump_packet p))
  travel-Ended nodes most zero n p wf b within enough = absurd (omega (arith, within, enough))
  travel-Ended nodes most (suc fuel) n p wf b within enough =
      let count = hop_count-append_hop p (hop c w key (nodes n) p) in
      rw (travel-dump c w key laws nodes fuel n p wf) (
        by_decision nodes most fuel n p _ wf (b n)
          (λ f.
            travel-Ended nodes most fuel (suc n) _ (append_hop-WellFormed p _ f.named wf) b
              (omega (arith, count, f.within, b n)) (omega (arith, count, enough)))
          (relay_packet-Decided c w key (nodes n) p))

-- ===== src/Mesh/Relay/Journey/Delivery.antt =====
-- services/mesh_relay: a packet comes through relays that agree on the number of hops.
use mesh_settle.Prelude.{
  ℕ, suc, zero, ◌+◌, ◌≤◌, ◌<◌, ◌≡◌, refl, ap, ◌∙◌, inl, inr, true, false, arith, leb, if◌then◌else◌,
  Bool-cases,
}
use mesh_settle.Crypto.Primitives.{Key, Primitives}
use mesh_settle.Crypto.Signing.{verified}
use mesh_settle.Mesh.Relay.{
  RelayConfig, forward, next_destination, record_hop, check_limit, after_check, relay_packet,
}
use mesh_settle.Models.Codes.{bridged, relayed}
use mesh_settle.Models.Fields.{is_identifier}
use mesh_settle.Models.Packet.{PaymentPacket, hop_count, append_hop, verify}
use mesh_settle.Models.Packet.Alike.{
  Alike, Alike-trans, append_hop-Alike, append_hop-WellFormed, hop_count-append_hop,
  Alike-SameDerived,
}
use mesh_settle.Models.Packet.Document.{WellFormed}
use mesh_settle.Models.Wire.{Wire, WireLaws}
use mesh_settle.Mesh.Relay.Journey.{Node, Arrival, arrived, travel, hop, Forwards, travel-dump}

module _ (c : Primitives) (w : Wire) (key : Key) (laws : WireLaws w) where
  -- How a relay forwards a packet that it accepts.
  relay_packet-Forwards :
      (node : Node) (p : PaymentPacket)
      → Forwards c w key node p
      → relay_packet node.config node.now c key p
        ≡ forward
            (next_destination node.config (suc (hop_count p))).0
            (next_destination node.config (suc (hop_count p))).1
            (append_hop p (hop c w key node p))
  unfolding relay_packet after_check check_limit record_hop
  relay_packet-Forwards node p f =
      rw (f.signed, f.named, hop_count-append_hop p (hop c w key node p), over_limit) refl
    where
      over_limit : leb node.config.hop_limit (hop_count p) ≡ false
      over_limit = ground (arith, f.within)

  -- Relays that agree on the number of hops, whose limits allow it, and whose names are in order.
  pub record Uniform (target : ℕ) (nodes : ℕ → Node) : Type 0 where
    pub agreed : (i : ℕ) → (nodes i).config.hop_count_target ≡ target
    pub allowed : (i : ℕ) → target ≤ (nodes i).config.hop_limit
    pub named : (i : ℕ) → is_identifier (nodes i).config.node_id ≡ true

  -- The hops at the bridge: as many as the relays agree on, and one at least.
  abbrev pub hops_at_bridge : ℕ → ℕ → ℕ
  hops_at_bridge target hops = if leb target (suc hops) then suc hops else target

  abbrev pub Delivered : ℕ → PaymentPacket → Arrival → Type 0
  Delivered hops p a =
      (q : PaymentPacket) × (a ≡ arrived (w.dump_packet q))
      × Alike p q
      × WellFormed q
      × (hop_count q ≡ hops)

  Delivered-onward :
      (hops hops' : ℕ) (p q : PaymentPacket) (a : Arrival)
      → hops ≡ hops'
      → Alike p q
      → Delivered hops q a
      → Delivered hops' p a
  Delivered-onward hops hops' p q a same alike (r, e, alike', wf, count) =
      (r, e, Alike-trans alike alike', wf, count ∙ same)

  status_last :
      (config : RelayConfig) (target hops : ℕ)
      → config.hop_count_target ≡ target
      → leb target hops ≡ true
      → (next_destination config hops).1 ≡ bridged
  unfolding next_destination
  status_last config target hops e last = rw (e, last) refl

  status_further :
      (config : RelayConfig) (target hops : ℕ)
      → config.hop_count_target ≡ target
      → leb target hops ≡ false
      → (next_destination config hops).1 ≡ relayed
  unfolding next_destination
  status_further config target hops e further = rw (e, further) refl

  hops_after_one :
      (target hops : ℕ)
      → leb target (suc hops) ≡ false
      → hops_at_bridge target (suc hops) ≡ hops_at_bridge target hops
  hops_after_one target hops further = ground (arith, further)

  -- The document of a well-formed packet whose signature verifies, at relays whose node ids match
  -- the pattern and that agree on a number of hops, which the hop limits of all of them allow and
  -- which leave room for the packet, comes to the bridge with that number of hops, or with one
  -- more than it had where that is more, and with no other change, if pydantic reads back the
  -- documents that it wrote and the journey may visit as many nodes as hops are missing, and one
  -- at least.
  pub travel-Delivered :
      (nodes : ℕ → Node) (target fuel n : ℕ) (p : PaymentPacket)
      → WellFormed p
      → verify c p key ≡ verified
      → Uniform target nodes
      → ((i : ℕ) → hop_count p < (nodes i).config.hop_limit)
      → target ≤ fuel + hop_count p
      → 1 ≤ fuel
      → Delivered
          (hops_at_bridge target (hop_count p))
          p
          (travel c w key nodes fuel n (w.dump_packet p))
  travel-Delivered nodes target zero n p wf signed u room enough one = absurd (omega (arith, one))
  travel-Delivered nodes target (suc fuel) n p wf signed u room enough one =
      let f : Forwards c w key (nodes n) p = record {
        signed = signed;
        within = room n;
        named = u.named n;
      } in
      rw (travel-dump c w key laws nodes fuel n p wf, relay_packet-Forwards (nodes n) p f)
        (elim (Bool-cases (leb target (suc (hop_count p)))) [
          | inl last ↦
              rw (status_last (nodes n).config target (suc (hop_count p)) (u.agreed n) last, last)
                (
                  append_hop p (hop c w key (nodes n) p),
                  refl,
                  append_hop-Alike p _,
                  append_hop-WellFormed p _ (u.named n) wf,
                  hop_count-append_hop p _,
                )
          | inr further ↦
              rw (status_further (nodes n).config target (suc (hop_count p)) (u.agreed n) further) (
                let q = append_hop p (hop c w key (nodes n) p) in
                let count = hop_count-append_hop p (hop c w key (nodes n) p) in
                Delivered-onward (hops_at_bridge target (hop_count q)) _ p q _
                  (ap (hops_at_bridge target) count ∙ hops_after_one target (hop_count p) further)
                  (append_hop-Alike p _)
                  (travel-Delivered nodes target fuel (suc n) q
                    (append_hop-WellFormed p _ (u.named n) wf)
                    ((Alike-SameDerived c p q (append_hop-Alike p _)).verify key ∙ signed) u
                    (λ i. ground (arith, count, further, u.allowed i))
                    (omega (arith, count, enough)) (ground (arith, further, enough))))
        ])

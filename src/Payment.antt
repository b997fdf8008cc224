-- ===== src/Payment.antt =====
-- A payment from end to end: services/sender makes a packet, the relays of services/mesh_relay carry
-- it, services/bridge puts it on the queue, and services/settlement settles it.
use mesh_settle.Prelude.{
  ℕ, ◌^◌, ◌≤◌, ◌<◌, ◌≡◌, refl, sym, ◌∙◌, true, false, none, List, [], ◌∷◌, ◌++◌, Text, arith,
  length,
}
use mesh_settle.Crypto.Hybrid.{Randomness, aes_key_bytes}
use mesh_settle.Crypto.Primitives.{Key, Primitives, PrimitiveLaws}
use mesh_settle.Crypto.Signing.{verified}
use mesh_settle.Mesh.Bridge.{
  Message, message_of, confirmed, RabbitMqPublisher, publish, publish_packet, after_check,
  bridge_read, bridge,
}
use mesh_settle.Mesh.Relay.Journey.{Node, arrived, travel}
use mesh_settle.Mesh.Relay.Journey.Delivery.{Uniform, travel-Delivered}
use mesh_settle.Mesh.Sender.Sealed.{verify-create, aad-create, open_instruction-create}
use mesh_settle.Models.Fields.{valid}
use mesh_settle.Models.Instruction.{
  PaymentInstruction, TransactionRequest, fields, to_canonical_bytes, request_fields,
  to_instruction,
}
use mesh_settle.Models.Instruction.Checked.{CheckedInstruction, validate_instruction-Checked}
use mesh_settle.Models.Moment.{Moment}
use mesh_settle.Models.Packet.{
  PaymentPacket, create, verify, hop_count, idempotency_key, signing_bytes, open_instruction,
  opened,
}
use mesh_settle.Models.Packet.Alike.{Alike, Alike-SameDerived, signing_bytes-Alike}
use mesh_settle.Models.Packet.Document.{WellFormed, model_validate_json-dump}
use mesh_settle.Models.Wire.{Wire, WireLaws}
use mesh_settle.Settlement.Db.{Settlement, has_key, has_packet, keeps_constraints}
use mesh_settle.Settlement.Dedupe.{DedupeStore}
use mesh_settle.Settlement.Effects.{ok, World, Event, Schedule, run}
use mesh_settle.Settlement.Processor.{Processor, settlement_values, settled_outcome, process_packet}
use mesh_settle.Settlement.Processor.Calls.{row}
use mesh_settle.Settlement.Processor.Calm.{Calm, Genuine, run-Written}
use mesh_settle.Settlement.Processor.Fits.{settlement_values-fits}
use mesh_settle.Settlement.Redis.{get}

module _ (c : Primitives) (w : Wire) (laws : PrimitiveLaws c) (wire_laws : WireLaws w) where
  -- A connected bridge puts the document of a packet that verifies on the queue, if it is confirmed.
  bridge-dump :
      (publisher : RabbitMqPublisher) (key : Key) (q : PaymentPacket) (queue : List Message)
      → WellFormed q
      → verify c q key ≡ verified
      → publisher.connected ≡ true
      → (bridge c w publisher key confirmed (w.dump_packet q) queue).1
        ≡ queue ++ message_of (w.dump_packet q) (idempotency_key c q) ∷ []
  unfolding bridge bridge_read after_check publish_packet publish
  bridge-dump publisher key q queue wf signed connected =
      rw (model_validate_json-dump w q wire_laws wf, signed, connected) refl

  module _ (proc : Processor) (p q : PaymentPacket) (most : ℕ) (alike : Alike p q) where
    Calm-Alike : (ev : Event) → Calm c w proc p most ev → Calm c w proc q most ev
    Calm-Alike ev h = record {
      answered = h.answered;
      in_window = rw alike.created_at h.in_window;
      soon = h.soon;
    }

    -- The constraints hold for the row of a packet whose key and id are new.
    keeps-Alike :
        (i : PaymentInstruction) (rows : List Settlement)
        → CheckedInstruction i
        → has_key (idempotency_key c p) rows ≡ false
        → has_packet p.packet_id rows ≡ false
        → keeps_constraints (settlement_values c w proc q i) rows ≡ true
    unfolding keeps_constraints settlement_values
    keeps-Alike i rows checked new_key new_packet =
        rw ((Alike-SameDerived c p q alike).idempotency_key, alike.packet_id, new_key, new_packet)
          (ground (arith, checked.positive))

-- The setting of one payment: what the sender draws and reads, the keys of both ends, the relays, the
-- bridge, and the settlement service.
pub record Setting : Type 0 where
  pub randomness : Randomness
  pub request : TransactionRequest
  pub uuid : ℕ
  pub made : Moment
  pub sender_id : Text
  pub signing_key : Key
  pub settlement_key : Key
  pub sent : Moment
  pub nodes : ℕ → Node
  pub target : ℕ
  pub publisher : RabbitMqPublisher
  pub dedupe : DedupeStore
  pub window : ℕ
  pub tolerance : ℕ

module _ (c : Primitives) (w : Wire) (wire_laws : WireLaws w) (s : Setting)
    (i : PaymentInstruction) where
  abbrev pub sent_packet : PaymentPacket
  sent_packet =
      create c s.randomness i s.sender_id s.signing_key (c.rsa_public s.settlement_key) s.sent

  abbrev pub processor : Processor
  processor = record {
    dedupe = s.dedupe;
    sender_public_key = c.ed25519_public s.signing_key;
    settlement_private_key = s.settlement_key;
    freshness_window_seconds = s.window;
    clock_skew_tolerance_seconds = s.tolerance;
  }

  -- The payment can be made: the instruction is the request's and is read back from its bytes, the
  -- packet is well formed, and the relays and the bridge let it through.
  pub record CanPay : Type 0 where
    pub long_key : length s.randomness.content_key ≡ aes_key_bytes
    pub made_of : to_instruction s.request s.uuid s.made ≡ valid i
    pub read_back :
        w.read_instruction (to_canonical_bytes i) ≡ fields (request_fields s.request s.uuid s.made)
    pub well_formed : WellFormed sent_packet
    pub digest : length (c.sha256_hex (signing_bytes sent_packet)) ≤ 64
    pub uniform : Uniform c w (c.ed25519_public s.signing_key) wire_laws s.target s.nodes
    pub few_hops : s.target < 2 ^ 30
    pub room : (n : ℕ) → hop_count sent_packet < (s.nodes n).config.hop_limit
    pub connected : s.publisher.connected ≡ true

  -- The stores do not know the payment yet.
  pub record Unknown (v : World) : Type 0 where
    pub free : get v.clock (idempotency_key c sent_packet) v.keys ≡ none
    pub new_key : has_key (idempotency_key c sent_packet) v.tables.settlements ≡ false
    pub new_packet : has_packet sent_packet.packet_id v.tables.settlements ≡ false

  -- The payment has been made: the document of the packet, with its hops, has come to the bridge and
  -- is on the queue under the packet's key, and its delivery settles the instruction.
  pub record Paid (fuel most : ℕ) (queue : List Message) (v : World) (schedule : Schedule)
      : Type 0 where
    pub carried : PaymentPacket
    pub alike : Alike sent_packet carried
    pub at_bridge :
        travel c w (c.ed25519_public s.signing_key) s.nodes fuel 0 (w.dump_packet sent_packet)
        ≡ arrived (w.dump_packet carried)
    pub queued :
        (bridge c w s.publisher
          (c.ed25519_public s.signing_key)
          confirmed
          (w.dump_packet carried)
          queue).1
        ≡ queue ++ message_of (w.dump_packet carried) (idempotency_key c sent_packet) ∷ []
    pub id : ℕ
    pub at : ℕ
    pub outcome :
        (run schedule 0 (process_packet c w processor (w.dump_packet carried)) v).0
        ≡ ok (settled_outcome c w processor carried id)
    pub settled :
        (run schedule 0
          (process_packet c w processor (w.dump_packet carried))
          v).1.tables.settlements
        ≡ row id at (settlement_values c w processor carried i) ∷ v.tables.settlements

module _ (c : Primitives) (w : Wire) (laws : PrimitiveLaws c) (wire_laws : WireLaws w) (s : Setting)
    (i : PaymentInstruction) where
  abbrev sent : PaymentPacket
  sent = sent_packet c w wire_laws s i

  no_hops : hop_count sent ≡ 0
  unfolding create hop_count
  no_hops = refl

  verified_sent : verify c sent (c.ed25519_public s.signing_key) ≡ verified
  verified_sent =
      verify-create c laws s.randomness i s.sender_id s.signing_key s.sent
        (c.rsa_public s.settlement_key)

  carried-Genuine :
      (q : PaymentPacket) (most : ℕ)
      → WellFormed q
      → Alike sent q
      → Genuine c w (processor c w wire_laws s i) q most (w.dump_packet q)
  carried-Genuine q most wf alike =
      let same = Alike-SameDerived c sent q alike in
      record {
        read = model_validate_json-dump w q wire_laws wf;
        signed = same.verify (c.ed25519_public s.signing_key) ∙ verified_sent;
        bound =
            rw (same.expected_aad, alike.envelope)
              (aad-create c laws s.randomness i s.sender_id s.signing_key s.sent
                (c.rsa_public s.settlement_key));
      }

  carried_opens :
      (q : PaymentPacket)
      → Alike sent q
      → CanPay c w wire_laws s i
      → open_instruction c w.read_instruction q s.settlement_key ≡ opened i
  carried_opens q alike can =
      (Alike-SameDerived c sent q alike).open_instruction w.read_instruction s.settlement_key
      ∙ open_instruction-create c laws s.randomness i s.sender_id s.signing_key s.sent
          w.read_instruction s.settlement_key s.request s.uuid s.made can.long_key can.made_of
          can.read_back

  checked : CanPay c w wire_laws s i → CheckedInstruction i
  unfolding to_instruction
  checked can = validate_instruction-Checked (request_fields s.request s.uuid s.made) i can.made_of

  -- A payment that can be made is made: the document of the packet that the sender creates is
  -- carried by the relays to the bridge, is put on the queue under the key of the packet, and its
  -- delivery adds exactly one settlement with the values of the instruction, if the stores do not
  -- know the payment yet and the consumer's calls are answered while the packet is fresh.
  pub payment_settles :
      (fuel most : ℕ) (queue : List Message) (v : World) (schedule : Schedule)
      → CanPay c w wire_laws s i
      → Unknown c w wire_laws s i v
      → s.target ≤ fuel
      → 1 ≤ fuel
      → ((j : ℕ) → Calm c w (processor c w wire_laws s i) sent most (schedule j))
      → Paid c w wire_laws s i fuel most queue v schedule
  payment_settles fuel most queue v schedule can unknown enough one calm =
      let (q, at_bridge, alike, wf, hops) =
        travel-Delivered c w (c.ed25519_public s.signing_key) wire_laws s.nodes s.target fuel 0 sent
          can.well_formed verified_sent can.uniform can.room (omega (arith, enough, no_hops)) one in
      let same = Alike-SameDerived c sent q alike in
      let proc = processor c w wire_laws s i in
      let check = checked can in
      let fit =
        settlement_values-fits c w proc q i wf check
          (rw (signing_bytes-Alike sent q alike) can.digest)
          (ground (arith, hops, no_hops, can.few_hops)) in
      let written =
        run-Written c w proc q most i (carried_opens q alike can) fit (w.dump_packet q) v schedule 0
          (carried-Genuine q most wf alike) (rw same.idempotency_key unknown.free)
          (λ j. Calm-Alike c w laws wire_laws proc sent q most alike (schedule j) (calm j)) in
      let (id, at, outcome, settled) = written.stored (
        keeps-Alike c w laws wire_laws proc sent q most alike i v.tables.settlements check
          unknown.new_key unknown.new_packet) in
      record {
        carried = q;
        alike = alike;
        at_bridge = at_bridge;
        queued = rw (sym same.idempotency_key) (
            bridge-dump c w laws wire_laws s.publisher (c.ed25519_public s.signing_key) q queue wf
              (same.verify (c.ed25519_public s.signing_key) ∙ verified_sent) can.connected);
        id = id;
        at = at;
        outcome = outcome;
        settled = settled;
      }

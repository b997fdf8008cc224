-- ===== src/Mesh/Bridge/Readable.antt =====
-- services/bridge and services/settlement: what the consumer reads in the messages of the bridge.
use mesh_settle.Prelude.{ℕ, ◌≡◌, ap, ◌∙◌, List, [], All, All-map}
use mesh_settle.Crypto.Primitives.{Key, Primitives}
use mesh_settle.Crypto.Signing.{verified}
use mesh_settle.Mesh.Bridge.{Message, Confirmation, RabbitMqPublisher}
use mesh_settle.Mesh.Bridge.Queue.{VouchedAmong, bridge_all, bridge_all-Vouched}
use mesh_settle.Models.Fields.{valid}
use mesh_settle.Models.Packet.{PaymentPacket, idempotency_key, verify}
use mesh_settle.Models.Packet.Acceptance.{ReadsBytes, model_validate_json-WellFormed}
use mesh_settle.Models.Packet.Document.{model_validate_json-dump}
use mesh_settle.Models.Wire.{Wire, WireLaws, model_validate_json}

-- The consumer reads a packet in the message, it verifies, and the message's id is its key.
pub record Readable (c : Primitives) (w : Wire) (key : Key) (m : Message) : Type 0 where
  pub packet : PaymentPacket
  pub read : model_validate_json w m.body ≡ valid packet
  pub signed : verify c packet key ≡ verified
  pub named : m.message_id ≡ idempotency_key c packet

module _ (c : Primitives) (w : Wire) (key : Key) (laws : WireLaws w) (reads : ReadsBytes w) where
  VouchedAmong-Readable :
      (requests : List (Confirmation × List ℕ)) (m : Message)
      → VouchedAmong c w key requests m
      → Readable c w key m
  VouchedAmong-Readable requests m among =
      let v = among.vouched in
      let wf = model_validate_json-WellFormed w among.request v.packet reads v.read in
      record {
        packet = v.packet;
        read =
            ap (λ (x : Message). model_validate_json w x.body) v.message
            ∙ model_validate_json-dump w v.packet laws wf;
        signed = v.signed;
        named = ap (λ (x : Message). x.message_id) v.message;
      }

  -- After any sequence of requests to the bridge, whatever the broker does with each, the consumer
  -- reads in every message of the queue a packet that verifies and whose key is the id of the
  -- message, if the queue was empty before, pydantic reads back the documents that it wrote, and a
  -- JSON document holds no bytes that are none.
  pub bridge_all-Readable :
      (publisher : RabbitMqPublisher) (requests : List (Confirmation × List ℕ))
      → All (Readable c w key) (bridge_all c w publisher key requests [])
  bridge_all-Readable publisher requests =
      All-map (VouchedAmong c w key requests) (Readable c w key)
        (bridge_all c w publisher key requests []) (VouchedAmong-Readable requests)
        (bridge_all-Vouched c w publisher key requests)

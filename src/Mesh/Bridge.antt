-- ===== src/Mesh/Bridge.antt =====
-- services/bridge: the handler of a packet that has come to a node with connectivity
-- (services/bridge/app.py), and its publishers (services/bridge/publisher.py).
pub mod Queue
pub mod Readable
pub mod Connection
use mesh_settle.Prelude.{ℕ, Bool, true, false, List, [], ◌∷◌, ◌++◌, Text, codes, if◌then◌else◌}
use mesh_settle.Crypto.Primitives.{Key, Primitives}
use mesh_settle.Crypto.Signing.{Verified, verified, signature_error}
use mesh_settle.Mesh.Relay.{Refusal}
use mesh_settle.Mesh.Replies.{first_validation_message}
use mesh_settle.Models.Codes.{
  malformed_payload, invalid_signature, internal_error, PacketStatus, bridged,
}
use mesh_settle.Models.Fields.{Errors, Validated, valid, invalid}
use mesh_settle.Models.Packet.{PaymentPacket, hop_count, idempotency_key, verify}
use mesh_settle.Models.Wire.{Wire, model_validate_json}

-- A message as it is handed to the broker.
pub record Message : Type 0 where
  pub body : List ℕ
  pub message_id : Text
  pub content_type : Text
  pub persistent : Bool

-- What becomes of a message that is handed over: the broker takes it and confirms it, it does not
-- come to the broker, or the broker takes it and the confirmation is lost.
pub data Confirmation : Type 0 where
  confirmed not_received not_confirmed : Confirmation

-- `publish` returns, or raises `PublishError`.
pub data Published : Type 0 where
  published : Published
  publish_error : Text → Published

-- `RabbitMQPublisher`: its queue, and whether it is connected.
pub record RabbitMqPublisher : Type 0 where
  pub queue : Text
  pub connected : Bool

abbrev pub message_of : List ℕ → Text → Message
message_of body message_id = record {
  body = body;
  message_id = message_id;
  content_type = codes "application/json";
  persistent = true;
}

abbrev pub hand_over : Confirmation → Message → List Message → Published × List Message
hand_over confirmed m queue = (published, queue ++ m ∷ [])
hand_over not_received m queue = (publish_error (codes "broker did not confirm the message"), queue)
hand_over not_confirmed m queue =
    (publish_error (codes "broker did not confirm the message"), queue ++ m ∷ [])

-- `RabbitMQPublisher.publish`, with the messages of the queue.
unfoldable pub publish :
    RabbitMqPublisher → Confirmation → List ℕ → Text → List Message → Published × List Message
publish publisher fate body message_id queue =
    if publisher.connected
    then hand_over fate (message_of body message_id) queue
    else (publish_error (codes "publisher is not connected"), queue)

-- `InMemoryPublisher.publish`
unfoldable pub publish_in_memory : List ℕ → Text → List (List ℕ × Text) → List (List ℕ × Text)
publish_in_memory body message_id messages = messages ++ (body, message_id) ∷ []

-- `BridgeResponse`
pub record BridgeResponse : Type 0 where
  pub status : PacketStatus
  pub queue : Text
  pub packet_id : ℕ
  pub hop_count : ℕ
  pub idempotency_key : Text

pub data BridgeAnswer : Type 0 where
  accepted : BridgeResponse → BridgeAnswer
  refused : Refusal → BridgeAnswer

module _ (c : Primitives) (w : Wire) (publisher : RabbitMqPublisher) where
  -- The answer after `publish`.
  unfoldable pub bridge_answer : PaymentPacket → Published → BridgeAnswer
  bridge_answer packet published = accepted (record {
    status = bridged;
    queue = publisher.queue;
    packet_id = packet.packet_id;
    hop_count = hop_count packet;
    idempotency_key = idempotency_key c packet;
  })
  bridge_answer packet (publish_error e) = refused (record {
    code = internal_error;
    detail = codes "packet could not be queued for settlement";
    http_status = 503;
  })

  unfoldable pub publish_packet :
      Confirmation → PaymentPacket → List Message → BridgeAnswer × List Message
  unfolding publish
  publish_packet fate packet queue =
      let (result, queue') =
        publish publisher fate (w.dump_packet packet) (idempotency_key c packet) queue in
      (bridge_answer packet result, queue')

  unfoldable pub after_check :
      Confirmation → PaymentPacket → Verified → List Message → BridgeAnswer × List Message
  unfolding publish_packet
  after_check fate packet verified queue = publish_packet fate packet queue
  after_check fate packet (signature_error e) queue = (
    refused (record {
      code = invalid_signature;
      detail = codes "packet signature did not verify";
      http_status = 400;
    }),
    queue,
  )

  module _ (sender_key : Key) where
    unfoldable pub bridge_read :
        Confirmation → Validated PaymentPacket → List Message → BridgeAnswer × List Message
    unfolding after_check first_validation_message
    bridge_read fate (valid packet) queue =
        after_check fate packet (verify c packet sender_key) queue
    bridge_read fate (invalid es) queue = (
      refused (record {
        code = malformed_payload;
        detail = first_validation_message es;
        http_status = 422;
      }),
      queue,
    )

    -- `bridge`, on the body of the request.
    unfoldable pub bridge : Confirmation → List ℕ → List Message → BridgeAnswer × List Message
    unfolding bridge_read
    bridge fate body queue = bridge_read fate (model_validate_json w body) queue

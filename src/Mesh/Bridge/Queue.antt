-- ===== src/Mesh/Bridge/Queue.antt =====
-- services/bridge: what its requests put on the queue.
use mesh_settle.Prelude.{
  ℕ, ◌≡◌, refl, Bool, true, false, List, [], ◌∷◌, ◌++◌, All, All-append, Among, All-Among,
}
use mesh_settle.Crypto.Primitives.{Key, Primitives}
use mesh_settle.Crypto.Signing.{Verified, verified, signature_error}
use mesh_settle.Mesh.Bridge.{
  Message, message_of, Confirmation, confirmed, not_received, not_confirmed, RabbitMqPublisher,
  publish, BridgeAnswer, refused, bridge_answer, publish_packet, after_check, bridge_read, bridge,
}
use mesh_settle.Mesh.Relay.{Refusal}
use mesh_settle.Models.Fields.{Validated, valid, invalid}
use mesh_settle.Models.Packet.{PaymentPacket, idempotency_key, verify}
use mesh_settle.Models.Wire.{Wire, model_validate_json}

-- A message with the document and the key of the packet that the body of the request holds and whose
-- signature verifies.
pub record Vouched (c : Primitives) (w : Wire) (key : Key) (request : List ℕ) (m : Message)
    : Type 0 where
  pub packet : PaymentPacket
  pub read : model_validate_json w request ≡ valid packet
  pub signed : verify c packet key ≡ verified
  pub message : m ≡ message_of (w.dump_packet packet) (idempotency_key c packet)

-- A message that is vouched for by the body of one of the requests.
pub record VouchedAmong (c : Primitives) (w : Wire) (key : Key)
    (requests : List (Confirmation × List ℕ)) (m : Message) : Type 0 where
  pub fate : Confirmation
  pub request : List ℕ
  pub made : Among (fate, request) requests
  pub vouched : Vouched c w key request m

module _ (c : Primitives) (w : Wire) (publisher : RabbitMqPublisher) (key : Key) where
  -- What a request has done: the queue has one more message, that of the packet in its body, which is
  -- the only way to an acceptance; or the request was refused and the queue is as it was.
  pub data Bridged (request : List ℕ) (before : List Message) (a : BridgeAnswer)
      (after : List Message) : Type 0 where
    enqueued :
        (m : Message)
        → after ≡ before ++ m ∷ []
        → Vouched c w key request m
        → Bridged request before a after
    turned_away : (r : Refusal) → a ≡ refused r → after ≡ before → Bridged request before a after

module _ (c : Primitives) (w : Wire) (publisher : RabbitMqPublisher) (key : Key) where
  publish-Bridged :
      (fate : Confirmation) (connected : Bool) (request : List ℕ) (packet : PaymentPacket)
      (queue : List Message)
      → model_validate_json w request ≡ valid packet
      → verify c packet key ≡ verified
      → Bridged c w publisher key request queue
          (publish_packet c w (record publisher { connected = connected }) fate packet queue).0
          (publish_packet c w (record publisher { connected = connected }) fate packet queue).1
  unfolding publish_packet publish bridge_answer
  publish-Bridged confirmed true request packet queue read signed =
      enqueued _ refl (record { packet = packet; read = read; signed = signed; message = refl })
  publish-Bridged not_received true request packet queue read signed = turned_away _ refl refl
  publish-Bridged not_confirmed true request packet queue read signed =
      enqueued _ refl (record { packet = packet; read = read; signed = signed; message = refl })
  publish-Bridged fate false request packet queue read signed = turned_away _ refl refl

  after_check-Bridged :
      (fate : Confirmation) (request : List ℕ) (packet : PaymentPacket) (v : Verified)
      (queue : List Message)
      → model_validate_json w request ≡ valid packet
      → verify c packet key ≡ v
      → Bridged c w publisher key request queue
          (after_check c w publisher fate packet v queue).0
          (after_check c w publisher fate packet v queue).1
  unfolding after_check
  after_check-Bridged fate request packet verified queue read e =
      publish-Bridged fate publisher.connected request packet queue read e
  after_check-Bridged fate request packet (signature_error m) queue read e = turned_away _ refl refl

  bridge_read-Bridged :
      (fate : Confirmation) (request : List ℕ) (r : Validated PaymentPacket) (queue : List Message)
      → model_validate_json w request ≡ r
      → Bridged c w publisher key request queue
          (bridge_read c w publisher key fate r queue).0
          (bridge_read c w publisher key fate r queue).1
  unfolding bridge_read
  bridge_read-Bridged fate request (valid packet) queue e =
      after_check-Bridged fate request packet _ queue e refl
  bridge_read-Bridged fate request (invalid es) queue e = turned_away _ refl refl

  -- Whatever a request to the bridge holds and whatever the broker does, either the queue has one
  -- more message, which is the document of a packet that the request held and whose signature
  -- verified, under its key, or the request is refused and the queue is as it was.
  pub bridge-Bridged :
      (fate : Confirmation) (request : List ℕ) (queue : List Message)
      → Bridged c w publisher key request queue
          (bridge c w publisher key fate request queue).0
          (bridge c w publisher key fate request queue).1
  unfolding bridge
  bridge-Bridged fate request queue = bridge_read-Bridged fate request _ queue refl

  -- The queue after a sequence of requests.
  unfoldable pub bridge_all : List (Confirmation × List ℕ) → List Message → List Message
  unfolding bridge
  bridge_all [] queue = queue
  bridge_all ((fate, request) ∷ rest) queue =
      bridge_all rest (bridge c w publisher key fate request queue).1

  Bridged-Vouched :
      (made : List (Confirmation × List ℕ)) (fate : Confirmation) (request : List ℕ)
      (before : List Message) (a : BridgeAnswer) (after : List Message)
      → Among (fate, request) made
      → Bridged c w publisher key request before a after
      → All (VouchedAmong c w key made) before
      → All (VouchedAmong c w key made) after
  Bridged-Vouched made fate request before a after among (enqueued m e v) h = rw e (
      All-append (VouchedAmong c w key made) before (m ∷ []) h
        (record { fate = fate; request = request; made = among; vouched = v }, tt))
  Bridged-Vouched made fate request before a after among (turned_away r e same) h = rw same h

  pub bridge_all-VouchedAmong :
      (made requests : List (Confirmation × List ℕ)) (queue : List Message)
      → All (λ r. Among r made) requests
      → All (VouchedAmong c w key made) queue
      → All (VouchedAmong c w key made) (bridge_all requests queue)
  unfolding bridge_all
  bridge_all-VouchedAmong made [] queue among h = h
  bridge_all-VouchedAmong made ((fate, request) ∷ rest) queue among h =
      bridge_all-VouchedAmong made rest _ among.1
        (Bridged-Vouched made fate request queue _ _ among.0 (bridge-Bridged fate request queue) h)

  -- After any sequence of requests to the bridge with an empty queue before, whatever the broker
  -- does with each, every message of the queue is the document of a packet that the body of one of
  -- these requests held and whose signature verified, under the key of that packet.
  pub bridge_all-Vouched :
      (requests : List (Confirmation × List ℕ))
      → All (VouchedAmong c w key requests) (bridge_all requests [])
  bridge_all-Vouched requests = bridge_all-VouchedAmong requests requests [] (All-Among requests) tt

-- ===== src/Tests/Requests.antt =====
-- What the services accept, at concrete requests.
use mesh_settle.Prelude.{subst, arith, [], ◌∷◌, All}
use mesh_settle.Mesh.Bridge.{confirmed, not_confirmed}
use mesh_settle.Mesh.Bridge.Queue.{bridge_all}
use mesh_settle.Mesh.Bridge.Readable.{Readable, bridge_all-Readable}
use mesh_settle.Mesh.Relay.Journey.{travel}
use mesh_settle.Mesh.Relay.Journey.Requests.{Finished, travel-Finished}
use mesh_settle.Models.Fields.{Validated, valid, invalid}
use mesh_settle.Models.Packet.Acceptance.{ReadsBytes, HoldBytes, model_validate_json-WellFormed}
use mesh_settle.Models.Packet.Document.{WellFormed, model_validate_json-dump}
use mesh_settle.Models.Packet.{RawPacket}
use mesh_settle.Tests.Mesh.{relay_node, rabbit}
use mesh_settle.Tests.Sample.{
  toy_primitives, toy_wire, toy_wire_laws, sender_key, lunch_packet, lunch_packet-WellFormed,
  lunch_body,
}

abbrev Held : Validated RawPacket → Type 0
Held (valid r) = HoldBytes r
Held (invalid es) = Unit

-- The toy documents hold texts where they hold bytes.
toy_wire-ReadsBytes : ReadsBytes toy_wire
toy_wire-ReadsBytes = record {
  held = λ body r e.
      subst Held e
        (record { encrypted_key = tt; nonce = tt; ciphertext = tt; aad = tt; signature = tt });
}

model_validate_json-WellFormed_example : WellFormed lunch_packet
model_validate_json-WellFormed_example =
    model_validate_json-WellFormed toy_wire lunch_body lunch_packet toy_wire-ReadsBytes
      (model_validate_json-dump toy_wire lunch_packet toy_wire_laws lunch_packet-WellFormed)

bridge_all-Readable_example : All (Readable toy_primitives toy_wire sender_key) (
    bridge_all toy_primitives toy_wire rabbit sender_key
      ((confirmed, lunch_body) ∷ (not_confirmed, lunch_body) ∷ [])
      [])
bridge_all-Readable_example =
    bridge_all-Readable toy_primitives toy_wire sender_key toy_wire_laws toy_wire-ReadsBytes rabbit
      ((confirmed, lunch_body) ∷ (not_confirmed, lunch_body) ∷ [])

travel-Finished_example :
    Finished toy_primitives toy_wire sender_key toy_wire_laws 16 lunch_body
      (travel toy_primitives toy_wire sender_key (λ n. relay_node) 17 0 lunch_body)
travel-Finished_example =
    travel-Finished toy_primitives toy_wire sender_key toy_wire_laws toy_wire-ReadsBytes
      (λ n. relay_node) 16 (λ n. omega arith) 17 0 lunch_body (omega arith)

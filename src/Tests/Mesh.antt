-- ===== src/Tests/Mesh.antt =====
-- The mesh and a whole payment at concrete inputs.
use mesh_settle.Prelude.{◌≡◌, refl, arith, true, [], ◌∷◌, codes, All}
use mesh_settle.Mesh.Bridge.{confirmed, not_confirmed, RabbitMqPublisher, bridge}
use mesh_settle.Mesh.Bridge.Queue.{
  Bridged, VouchedAmong, bridge-Bridged, bridge_all, bridge_all-Vouched,
}
use mesh_settle.Mesh.Relay.Journey.{Node, travel}
use mesh_settle.Mesh.Relay.Journey.Delivery.{Uniform, Delivered, hops_at_bridge, travel-Delivered}
use mesh_settle.Mesh.Sender.Sealed.{open_instruction-create}
use mesh_settle.Models.Fields.{is_identifier}
use mesh_settle.Models.Moment.{micros}
use mesh_settle.Models.Packet.{create, hop_count, open_instruction, opened}
use mesh_settle.Payment.{processor, Setting, CanPay, Unknown, Paid, payment_settles}
use mesh_settle.Settlement.Db.{has_key, has_packet}
use mesh_settle.Settlement.Redis.{get, live}
use mesh_settle.Settlement.Outcome.{freshness}
use mesh_settle.Settlement.Processor.Calm.{Calm}
use mesh_settle.Tests.Sample.{
  toy_primitives, toy_laws, toy_wire, toy_wire_laws, noon, lunch, lunch_packet,
  lunch_packet-WellFormed, lunch_body, device, sender_key, settlement_key, randomness, at_noon,
  empty_world, lunch_verifies, lunch_request, lunch_made, lunch_read,
}

abbrev pub relay_node : Node
relay_node = record {
  config = record {
    node_id = codes "relay-1";
    next_relay_url = codes "http://relay-2:8002/";
    bridge_url = codes "http://bridge:8003";
    hop_count_target = 2;
    hop_limit = 16;
  };
  now = noon;
}

no_hops_yet : hop_count lunch_packet ≡ 0
unfolding hop_count create
no_hops_yet = refl

uniform : Uniform toy_primitives toy_wire sender_key toy_wire_laws 2 (λ n. relay_node)
unfolding is_identifier
uniform = record { agreed = λ n. refl; allowed = λ n. omega arith; named = λ n. refl }

travel-Delivered_example :
    Delivered toy_primitives toy_wire sender_key toy_wire_laws
      (hops_at_bridge toy_primitives toy_wire sender_key toy_wire_laws 2 (hop_count lunch_packet))
      lunch_packet
      (travel toy_primitives toy_wire sender_key (λ n. relay_node) 2 0 lunch_body)
travel-Delivered_example =
    travel-Delivered toy_primitives toy_wire sender_key toy_wire_laws (λ n. relay_node) 2 2 0
      lunch_packet lunch_packet-WellFormed lunch_verifies uniform (λ n. omega (arith, no_hops_yet))
      (omega (arith, no_hops_yet)) (omega arith)

abbrev pub rabbit : RabbitMqPublisher
rabbit = record { queue = codes "meshsettle.settlements"; connected = true }

bridge-Bridged_example :
    Bridged toy_primitives toy_wire rabbit sender_key lunch_body []
      (bridge toy_primitives toy_wire rabbit sender_key confirmed lunch_body []).0
      (bridge toy_primitives toy_wire rabbit sender_key confirmed lunch_body []).1
bridge-Bridged_example =
    bridge-Bridged toy_primitives toy_wire rabbit sender_key confirmed lunch_body []

bridge_all-Vouched_example :
    All
      (VouchedAmong toy_primitives toy_wire sender_key
        ((confirmed, lunch_body) ∷ (not_confirmed, lunch_body) ∷ []))
      (bridge_all toy_primitives toy_wire rabbit sender_key
        ((confirmed, lunch_body) ∷ (not_confirmed, lunch_body) ∷ [])
        [])
bridge_all-Vouched_example =
    bridge_all-Vouched toy_primitives toy_wire rabbit sender_key
      ((confirmed, lunch_body) ∷ (not_confirmed, lunch_body) ∷ [])

open_instruction-create_example :
    open_instruction toy_primitives toy_wire.read_instruction lunch_packet settlement_key
    ≡ opened lunch
open_instruction-create_example =
    open_instruction-create toy_primitives toy_laws randomness lunch device sender_key noon
      toy_wire.read_instruction settlement_key lunch_request 77 noon refl lunch_made lunch_read

abbrev lunch_setting : Setting
lunch_setting = record {
  randomness = randomness;
  request = lunch_request;
  uuid = 77;
  made = noon;
  sender_id = device;
  signing_key = sender_key;
  settlement_key = settlement_key;
  sent = noon;
  nodes = λ n. relay_node;
  target = 2;
  publisher = rabbit;
  dedupe = record { claim_ttl = 60; settled_ttl = 86400 };
  window = 86400;
  tolerance = 300;
}

lunch_can_be_paid : CanPay toy_primitives toy_wire toy_wire_laws lunch_setting lunch
lunch_can_be_paid = record {
  long_key = refl;
  made_of = lunch_made;
  read_back = lunch_read;
  well_formed = lunch_packet-WellFormed;
  digest = omega arith;
  uniform = uniform;
  few_hops = omega arith;
  room = λ n. omega (arith, no_hops_yet);
  connected = refl;
}

lunch-Unknown : Unknown toy_primitives toy_wire toy_wire_laws lunch_setting lunch empty_world
unfolding get live has_key has_packet
lunch-Unknown = record { free = refl; new_key = refl; new_packet = refl }

lunch-Calm :
    Calm toy_primitives toy_wire
      (processor toy_primitives toy_wire toy_wire_laws lunch_setting lunch)
      lunch_packet
      0
      at_noon
unfolding freshness create micros
lunch-Calm = record { answered = refl; in_window = refl; soon = omega arith }

payment_settles_example :
    Paid toy_primitives toy_wire toy_wire_laws lunch_setting lunch 2 0 [] empty_world (λ j. at_noon)
payment_settles_example =
    payment_settles toy_primitives toy_wire toy_laws toy_wire_laws lunch_setting lunch 2 0 []
      empty_world (λ j. at_noon) lunch_can_be_paid lunch-Unknown (omega arith) (omega arith)
      (λ j. lunch-Calm)

-- ===== src/Tests/Models.antt =====
-- shared/models.py at concrete inputs.
use mesh_settle.Prelude.{◌≡◌, refl, codes}
use mesh_settle.Models.Fields.{valid}
use mesh_settle.Models.Instruction.{validate_instruction}
use mesh_settle.Models.Instruction.Checked.{CheckedInstruction, validate_instruction-Checked}
use mesh_settle.Models.Moment.Reading.{canonical_timestamp_injective}
use mesh_settle.Models.Packet.{append_hop}
use mesh_settle.Models.Packet.Alike.{SameDerived, append_hop-Alike, Alike-SameDerived}
use mesh_settle.Models.Packet.Document.{model_validate_json-dump}
use mesh_settle.Models.Wire.{model_validate_json}
use mesh_settle.Tests.Sample.{
  toy_primitives, toy_wire, toy_wire_laws, noon, lunch, raw_lunch, lunch_packet,
  lunch_packet-WellFormed,
}

canonical_timestamp_injective_example : noon ≡ noon
canonical_timestamp_injective_example = canonical_timestamp_injective noon noon refl

validate_instruction-Checked_example : CheckedInstruction lunch
unfolding validate_instruction
validate_instruction-Checked_example = validate_instruction-Checked raw_lunch lunch refl

Alike-SameDerived_example :
    SameDerived toy_primitives lunch_packet
      (append_hop lunch_packet (record { node_id = codes "relay-1"; received_at = noon }))
Alike-SameDerived_example =
    Alike-SameDerived toy_primitives lunch_packet
      (append_hop lunch_packet (record { node_id = codes "relay-1"; received_at = noon }))
      (append_hop-Alike lunch_packet (record { node_id = codes "relay-1"; received_at = noon }))

model_validate_json-dump_example :
    model_validate_json toy_wire (toy_wire.dump_packet lunch_packet) ≡ valid lunch_packet
model_validate_json-dump_example =
    model_validate_json-dump toy_wire lunch_packet toy_wire_laws lunch_packet-WellFormed

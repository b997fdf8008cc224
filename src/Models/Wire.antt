-- ===== src/Models/Wire.antt =====
-- What the program leaves to pydantic and json: reading JSON into the declared types, writing a
-- packet as JSON, and the text of a `ValidationError`.
use mesh_settle.Prelude.{◌≡◌, List, ℕ, map, Text}
use mesh_settle.Models.Moment.{Datetime}
use mesh_settle.Models.Fields.{Errors, Validated, valid, invalid, RawBytes}
use mesh_settle.Crypto.Base64.{b64u_encode}
use mesh_settle.Models.Instruction.{ReadInstruction}
use mesh_settle.Models.Packet.{PaymentPacket, HopRecord, RawPacket, RawHop, validate_packet}

pub record Wire : Type 0 where
  -- `model_validate_json` of a packet as far as the declared types: the fields, or the errors
  pub read_packet : List ℕ → Validated RawPacket
  -- `json.loads`, the test for an object, and the declared types of an instruction
  pub read_instruction : List ℕ → ReadInstruction
  -- `model_dump_json` of a packet
  pub dump_packet : PaymentPacket → List ℕ
  -- `str` of a `ValidationError`
  pub show_errors : Errors → Text

abbrev pub raw_hop : HopRecord → RawHop
raw_hop h = record { node_id = h.node_id; received_at = Datetime.aware h.received_at }

-- What a dumped packet holds: the serializers of the fields are `b64u_encode` and
-- `canonical_timestamp`, and the latter is read back as an aware datetime.
abbrev pub raw_packet : PaymentPacket → RawPacket
raw_packet p = record {
  packet_id = p.packet_id;
  sender_id = p.sender_id;
  created_at = Datetime.aware p.created_at;
  envelope = record {
    encrypted_key = RawBytes.text (b64u_encode p.envelope.encrypted_key);
    nonce = RawBytes.text (b64u_encode p.envelope.nonce);
    ciphertext = RawBytes.text (b64u_encode p.envelope.ciphertext);
    aad = RawBytes.text (b64u_encode p.envelope.aad);
  };
  signature = RawBytes.text (b64u_encode p.signature);
  hops = map raw_hop p.hops;
}

-- A JSON document that pydantic wrote is read back.
pub record WireLaws (w : Wire) : Type 0 where
  pub read_packet-dump :
      (p : PaymentPacket) → w.read_packet (w.dump_packet p) ≡ valid (raw_packet p)

abbrev pub checked_packet : Validated RawPacket → Validated PaymentPacket
checked_packet (valid r) = validate_packet r
checked_packet (invalid es) = invalid es

-- `PaymentPacket.model_validate_json`
unfoldable pub model_validate_json : Wire → List ℕ → Validated PaymentPacket
unfolding validate_packet
model_validate_json w body = checked_packet (w.read_packet body)

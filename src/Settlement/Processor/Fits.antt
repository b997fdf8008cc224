-- ===== src/Settlement/Processor/Fits.antt =====
-- services/settlement: the columns of `settlements` are wide enough for every validated packet and
-- instruction.
use mesh_settle.Prelude.{◌^◌, ◌≤◌, ◌<◌, ◌≡◌, true, Text, arith, length, length-append}
use mesh_settle.Crypto.Primitives.{Primitives}
use mesh_settle.Crypto.Signing.{derive_idempotency_key, idempotency_key_prefix}
use mesh_settle.Models.Fields.{is_identifier, is_currency}
use mesh_settle.Models.Instruction.{PaymentInstruction}
use mesh_settle.Models.Instruction.Checked.{CheckedInstruction}
use mesh_settle.Models.Packet.{PaymentPacket, hop_count, idempotency_key, signing_bytes}
use mesh_settle.Models.Packet.Document.{WellFormed}
use mesh_settle.Models.Wire.{Wire}
use mesh_settle.Settlement.Db.{fits}
use mesh_settle.Settlement.Processor.{Processor, settlement_values}

identifier_length : (s : Text) → is_identifier s ≡ true → length s ≤ 64
unfolding is_identifier
identifier_length s h = ground (arith, h)

currency_length : (s : Text) → is_currency s ≡ true → length s ≡ 3
unfolding is_currency
currency_length s h = ground (arith, h)

key_length :
    (c : Primitives) (packet : PaymentPacket)
    → length (c.sha256_hex (signing_bytes packet)) ≤ 64
    → length (idempotency_key c packet) ≤ 80
unfolding idempotency_key derive_idempotency_key
key_length c packet h =
    omega (arith, h, length-append idempotency_key_prefix (c.sha256_hex (signing_bytes packet)))

-- The values of a well-formed packet and a checked instruction fit the columns of the table of
-- settlements, if the digest has at most 64 characters and the hops are fewer than 2^31.
pub settlement_values-fits :
    (c : Primitives) (w : Wire) (p : Processor) (packet : PaymentPacket) (i : PaymentInstruction)
    → WellFormed packet
    → CheckedInstruction i
    → length (c.sha256_hex (signing_bytes packet)) ≤ 64
    → hop_count packet < 2 ^ 31
    → fits (settlement_values c w p packet i) ≡ true
unfolding fits settlement_values
settlement_values-fits c w p packet i wf ok digest hops = ground (
  arith,
  key_length c packet digest,
  identifier_length packet.sender_id wf.sender_id,
  identifier_length i.payer_id ok.payer,
  identifier_length i.payee_id ok.payee,
  currency_length i.currency ok.currency,
  ok.bounded,
  hops,
)

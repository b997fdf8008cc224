-- ===== src/Settlement/System/Attested.antt =====
-- services/settlement: every settlement comes of a message that was published, and was fresh by the
-- clock of the consumer that held it.
use mesh_settle.Prelude.{ℕ, ◌+◌, ◌*◌, ◌≤◌, ◌≡◌, true, List, text_eq, Among}
use mesh_settle.Crypto.Primitives.{Primitives}
use mesh_settle.Crypto.Signing.{verified}
use mesh_settle.Models.Fields.{valid}
use mesh_settle.Models.Instruction.{PaymentInstruction}
use mesh_settle.Models.Moment.{Moment, micros}
use mesh_settle.Models.Packet.{PaymentPacket, verify, expected_aad, open_instruction, opened}
use mesh_settle.Models.Wire.{Wire, model_validate_json}
use mesh_settle.Settlement.Db.{NewSettlement}
use mesh_settle.Settlement.Outcome.{second_micros}
use mesh_settle.Settlement.Outcome.Windows.{freshness-fresh}
use mesh_settle.Settlement.Processor.{Processor, settlement_values}
use mesh_settle.Settlement.Processor.Authority.{AuthorisedBy}
use mesh_settle.Settlement.System.Readings.{Reading}

-- The row has the values of the packet in a published message, whose signature verifies, which is
-- bound to its header, which the settlement key opens to the instruction, and which was neither too
-- old nor too far ahead at a time that the clock of a consumer with this message returned.
pub record Attested (c : Primitives) (wire : Wire) (p : Processor) (published : List (List ℕ))
    (rs : List Reading) (v : NewSettlement) : Type 0 where
  pub body : List ℕ
  pub packet : PaymentPacket
  pub time : Moment
  pub instruction : PaymentInstruction
  pub sent : Among body published
  pub clocked : Among (body, time) rs
  pub read : model_validate_json wire body ≡ valid packet
  pub signed : verify c packet p.sender_public_key ≡ verified
  pub not_old : micros time ≤ micros packet.created_at + p.freshness_window_seconds * second_micros
  pub not_ahead :
      micros packet.created_at ≤ micros time + p.clock_skew_tolerance_seconds * second_micros
  pub bound : text_eq packet.envelope.aad (expected_aad packet) ≡ true
  pub held :
      open_instruction c wire.read_instruction packet p.settlement_private_key ≡ opened instruction
  pub values : v ≡ settlement_values c wire p packet instruction

module _ (c : Primitives) (wire : Wire) (p : Processor) where
  pub Attested-of :
      (published : List (List ℕ)) (rs : List Reading) (body : List ℕ) (time : Moment)
      → Among body published
      → Among (body, time) rs
      → (v : NewSettlement) → AuthorisedBy c wire p body time v
      → Attested c wire p published rs v
  Attested-of published rs body time sent clocked v a =
      let edges =
        freshness-fresh p.freshness_window_seconds p.clock_skew_tolerance_seconds (micros time)
          (micros a.packet.created_at) a.admitted.in_window in
      record {
        body = body;
        packet = a.packet;
        time = time;
        instruction = a.instruction;
        sent = sent;
        clocked = clocked;
        read = a.read;
        signed = a.admitted.signed;
        not_old = edges.0;
        not_ahead = edges.1;
        bound = a.admitted.bound;
        held = a.held;
        values = a.values;
      }

  -- More messages and more readings take nothing back.
  pub Attested-later :
      (published later : List (List ℕ)) (rs more : List Reading)
      → ((b : List ℕ) → Among b published → Among b later)
      → ((r : Reading) → Among r rs → Among r more)
      → (v : NewSettlement) → Attested c wire p published rs v
      → Attested c wire p later more v
  Attested-later published later rs more f g v a = record {
    body = a.body;
    packet = a.packet;
    time = a.time;
    instruction = a.instruction;
    sent = f a.body a.sent;
    clocked = g (a.body, a.time) a.clocked;
    read = a.read;
    signed = a.signed;
    not_old = a.not_old;
    not_ahead = a.not_ahead;
    bound = a.bound;
    held = a.held;
    values = a.values;
  }

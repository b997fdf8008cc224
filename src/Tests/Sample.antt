-- ===== src/Tests/Sample.antt =====
-- A concrete environment: primitives that keep the promises of their documentation, documents, a
-- packet and its keys.
use mesh_settle.Prelude.{
  ℕ, ◌+◌, ◌%◌, ◌≡◌, refl, ap, Bool, true, some, none, List, [], ◌∷◌, Text, codes, text_eq,
  text_eq_refl, replicate, length, pos, ltb, ◌&&◌, if◌then◌else◌, arith,
}
use mesh_settle.Crypto.Base64.{rstrip_pad, urlsafe_b64encode, strip_before}
use mesh_settle.Crypto.Hybrid.{Randomness}
use mesh_settle.Crypto.Primitives.{
  Key, Primitives, PrimitiveLaws, valid, invalid_signature, plaintext,
}
use mesh_settle.Crypto.Signing.{verified}
use mesh_settle.Mesh.Sender.Sealed.{open_instruction-create}
use mesh_settle.Models.Fields.{Validated, is_identifier}
use mesh_settle.Models.Instruction.{
  PaymentInstruction, RawInstruction, fields, not_json, to_canonical_bytes, TransactionRequest,
  to_instruction, validate_instruction, request_fields,
}
use mesh_settle.Models.Moment.{Moment, Datetime}
use mesh_settle.Models.Packet.{
  PaymentPacket, create, verify, open_instruction, opened, not_empty, nonce_ok, signature_ok,
}
use mesh_settle.Models.Packet.Document.{Accepted, WellFormed}
use mesh_settle.Models.Wire.{Wire, WireLaws, raw_packet}
use mesh_settle.Tests.Documents.{written, read_back, read_back-written}
use mesh_settle.Crypto.Base64.RoundTrip.{Bytes}
use mesh_settle.Settlement.Effects.{World, Event, delivered}
use mesh_settle.Settlement.Processor.{Processor}

-- A signature is 64 times a checksum; nothing is hidden.
abbrev pub toy_sign : Key → List ℕ → List ℕ
toy_sign k m = replicate 64 ((length k + length m) % 256)

abbrev pub toy_primitives : Primitives
toy_primitives = record {
  sha256_hex = λ b. length b ∷ [];
  ed25519_public = λ k. k;
  rsa_public = λ k. k;
  ed25519_sign = toy_sign;
  ed25519_verify = λ k s m. if text_eq s (toy_sign k m) then valid else invalid_signature;
  oaep_encrypt = λ k seed m. m;
  oaep_decrypt = λ k m. some m;
  gcm_encrypt = λ k nonce m aad. m;
  gcm_decrypt = λ k nonce m aad. plaintext m;
}

pub toy_laws : PrimitiveLaws toy_primitives
toy_laws = record {
  verify-sign = λ k m. rw (text_eq_refl (toy_sign k m)) refl;
  length-sign = λ k m. refl;
  oaep_decrypt-encrypt = λ k seed m. refl;
  gcm_decrypt-encrypt = λ k nonce m aad. refl;
}

abbrev pub noon : Moment
noon = record {
  year = 2026;
  month = 3;
  day = 14;
  hour = 12;
  minute = 0;
  second = 0;
  microsecond = 0;
}

abbrev pub lunch : PaymentInstruction
lunch = record {
  packet_id = 77;
  payer_id = codes "alice";
  payee_id = codes "bob";
  amount_minor = 1250;
  currency = codes "INR";
  created_at = noon;
}

abbrev pub sender_key : Key
sender_key = 1 ∷ 2 ∷ 3 ∷ []

abbrev pub settlement_key : Key
settlement_key = 4 ∷ 5 ∷ []

abbrev pub randomness : Randomness
randomness = record { content_key = replicate 32 7; nonce = replicate 12 9; seed = [] }

abbrev pub device : Text
device = codes "device-1"

-- The packet that the sender makes of the lunch.
abbrev pub lunch_packet : PaymentPacket
lunch_packet = create toy_primitives randomness lunch device sender_key settlement_key noon

abbrev pub raw_lunch : RawInstruction
raw_lunch = record {
  packet_id = 77;
  payer_id = codes "alice";
  payee_id = codes "bob";
  amount_minor = pos 1250;
  currency = some (codes "INR");
  created_at = Datetime.aware noon;
}

abbrev pub toy_wire : Wire
toy_wire = record {
  read_packet = λ b. Validated.valid (raw_packet (read_back b));
  read_instruction =
      λ b. if text_eq b (to_canonical_bytes lunch) then fields raw_lunch else not_json;
  dump_packet = written;
  show_errors = λ es. codes "errors";
}

pub toy_wire_laws : WireLaws toy_wire
toy_wire_laws = record {
  read_packet-dump = λ p. ap (λ x. Validated.valid (raw_packet x)) (read_back-written p);
}

abbrev pub toy_processor : Processor
toy_processor = record {
  dedupe = record { claim_ttl = 60; settled_ttl = 86400 };
  sender_public_key = sender_key;
  settlement_private_key = settlement_key;
  freshness_window_seconds = 86400;
  clock_skew_tolerance_seconds = 300;
}

pub lunch_verifies : verify toy_primitives lunch_packet sender_key ≡ verified
unfolding verify create text_eq rstrip_pad urlsafe_b64encode strip_before
lunch_verifies = refl

-- A wide range of bytes.
pub lunch-Bytes : Bytes (0 ∷ 7 ∷ 65 ∷ 255 ∷ [])
lunch-Bytes = (omega arith, (omega arith, (omega arith, (omega arith, tt))))

abbrev pub empty_world : World
empty_world = record {
  clock = 1000;
  keys = λ k. none;
  tables = record { settlements = []; next_id = 1; rejected_packets = [] };
}

-- Every call is answered at once, at noon.
abbrev pub at_noon : Event
at_noon = record { elapsed = 0; wall = noon; fate = delivered }

abbrev pub lunch_body : List ℕ
lunch_body = written lunch_packet

are_bytes : List ℕ → Bool
are_bytes [] = true
are_bytes (b ∷ bs) = ltb b 256 && are_bytes bs

are_bytes-Bytes : (bs : List ℕ) → are_bytes bs ≡ true → Bytes bs
unfolding are_bytes
are_bytes-Bytes [] h = tt
are_bytes-Bytes (b ∷ bs) h = (ground (arith, h), are_bytes-Bytes bs (ground (arith, h)))

accept : (test : List ℕ → Bool) (b : List ℕ) → are_bytes b ≡ true → test b ≡ true → Accepted test b
accept test b h passes = record { bytes = are_bytes-Bytes b h; passes = passes }

pub lunch_packet-WellFormed : WellFormed lunch_packet
unfolding create are_bytes is_identifier not_empty nonce_ok signature_ok text_eq rstrip_pad
    urlsafe_b64encode strip_before
lunch_packet-WellFormed = record {
  sender_id = refl;
  encrypted_key = accept _ _ refl refl;
  nonce = accept _ _ refl refl;
  ciphertext = accept _ _ refl refl;
  aad = accept _ _ refl refl;
  signature = accept _ _ refl refl;
  hops = tt;
}

abbrev pub lunch_request : TransactionRequest
lunch_request = record {
  payer_id = codes "alice";
  payee_id = codes "bob";
  amount_minor = 1250;
  currency = codes "INR";
}

pub lunch_made : to_instruction lunch_request 77 noon ≡ Validated.valid lunch
unfolding to_instruction validate_instruction
lunch_made = refl

pub lunch_read :
    toy_wire.read_instruction (to_canonical_bytes lunch)
    ≡ fields (request_fields lunch_request 77 noon)
unfolding request_fields
lunch_read = rw (text_eq_refl (to_canonical_bytes lunch)) refl

pub lunch_opens :
    open_instruction toy_primitives toy_wire.read_instruction lunch_packet settlement_key
    ≡ opened lunch
lunch_opens =
    open_instruction-create toy_primitives toy_laws randomness lunch device sender_key noon
      toy_wire.read_instruction settlement_key lunch_request 77 noon refl lunch_made lunch_read

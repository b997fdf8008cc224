-- ===== src/Models/Instruction.antt =====
-- shared/models.py: `PaymentInstruction`, the plaintext inside the envelope, and
-- `TransactionRequest`, from which the sender makes one.
pub mod Checked
use mesh_settle.Prelude.{
  ℕ, ℤ, pos, pos_part, String, Option, none, some, List, [], ◌∷◌, ◌++◌, Text, codes,
}
use mesh_settle.Crypto.Json.{str, int, canonical_json}
use mesh_settle.Models.Uuid.{uuid_text}
use mesh_settle.Models.Moment.{Moment, Datetime, canonical_timestamp}
use mesh_settle.Models.Fields.{
  Errors, Validated, valid, invalid, built, identifier_errors, payee_errors, amount_errors,
  currency_errors, timestamp_errors, moment_of,
}

pub record PaymentInstruction : Type 0 where
  pub packet_id : ℕ
  pub payer_id : Text
  pub payee_id : Text
  pub amount_minor : ℕ
  pub currency : Text
  pub created_at : Moment

-- The fields of a JSON object with the types that the model declares, before its own checks; a
-- currency may be left out.
pub record RawInstruction : Type 0 where
  pub packet_id : ℕ
  pub payer_id : Text
  pub payee_id : Text
  pub amount_minor : ℤ
  pub currency : Option Text
  pub created_at : Datetime

abbrev pub default_currency : Text
default_currency = codes "INR"

abbrev pub or_default : Option Text → Text
or_default none = default_currency
or_default (some c) = c

unfoldable pub instruction_errors : RawInstruction → Errors
unfolding identifier_errors payee_errors amount_errors currency_errors timestamp_errors
instruction_errors r =
    identifier_errors "payer_id" r.payer_id
    ++ payee_errors r.payer_id r.payee_id
    ++ amount_errors r.amount_minor
    ++ currency_errors (or_default r.currency)
    ++ timestamp_errors "created_at" r.created_at

-- `PaymentInstruction.model_validate`
unfoldable pub validate_instruction : RawInstruction → Validated PaymentInstruction
unfolding instruction_errors moment_of
validate_instruction r = built (instruction_errors r) (record {
  packet_id = r.packet_id;
  payer_id = r.payer_id;
  payee_id = r.payee_id;
  amount_minor = pos_part r.amount_minor;
  currency = or_default r.currency;
  created_at = moment_of r.created_at;
})

-- `PaymentInstruction.to_canonical_bytes`
unfoldable pub to_canonical_bytes : PaymentInstruction → List ℕ
unfolding canonical_json uuid_text canonical_timestamp
to_canonical_bytes i = canonical_json (
    (codes "packet_id", str (uuid_text i.packet_id))
    ∷ (codes "payer_id", str i.payer_id)
    ∷ (codes "payee_id", str i.payee_id)
    ∷ (codes "amount_minor", int i.amount_minor)
    ∷ (codes "currency", str i.currency)
    ∷ (codes "created_at", str (canonical_timestamp i.created_at))
    ∷ [])

-- What json and pydantic read in a byte string, before the checks of the model: no JSON; bytes that
-- json refuses with another `ValueError`, for their encoding or a number with too many digits; JSON
-- that is nested too deep (`RecursionError`) or is no object; an object with fields that do not have
-- the declared types, or the fields.
pub data ReadInstruction : Type 0 where
  not_json too_deep not_object : ReadInstruction
  refused_by_json : Text → ReadInstruction
  bad_fields : Errors → ReadInstruction
  fields : RawInstruction → ReadInstruction

-- An instruction, the `ValueError`, of which pydantic's is `ValidationError` with its errors, or the
-- `RecursionError`.
pub data ParsedInstruction : Type 0 where
  parsed : PaymentInstruction → ParsedInstruction
  value_error : Text → ParsedInstruction
  validation_error : Errors → ParsedInstruction
  recursion_error : ParsedInstruction

unfoldable pub validated_instruction : Validated PaymentInstruction → ParsedInstruction
validated_instruction (valid i) = parsed i
validated_instruction (invalid es) = validation_error es

unfoldable pub check_read : ReadInstruction → ParsedInstruction
unfolding validated_instruction validate_instruction
check_read not_json = value_error (codes "decrypted payload is not valid JSON")
check_read (refused_by_json e) = value_error e
check_read too_deep = recursion_error
check_read not_object = value_error (codes "decrypted payload is not a JSON object")
check_read (bad_fields es) = validation_error es
check_read (fields r) = validated_instruction (validate_instruction r)

-- `PaymentInstruction.from_canonical_bytes`
unfoldable pub from_canonical_bytes : (List ℕ → ReadInstruction) → List ℕ → ParsedInstruction
unfolding check_read
from_canonical_bytes read_instruction bytes = check_read (read_instruction bytes)

-- `TransactionRequest`, with the fields that a request's body has.
pub record TransactionRequest : Type 0 where
  pub payer_id : Text
  pub payee_id : Text
  pub amount_minor : ℕ
  pub currency : Text

pub record RawRequest : Type 0 where
  pub payer_id : Text
  pub payee_id : Text
  pub amount_minor : ℤ
  pub currency : Option Text

unfoldable pub validate_request : RawRequest → Validated TransactionRequest
unfolding identifier_errors payee_errors amount_errors currency_errors
validate_request r =
    built
      (identifier_errors "payer_id" r.payer_id
        ++ payee_errors r.payer_id r.payee_id
        ++ amount_errors r.amount_minor
        ++ currency_errors (or_default r.currency))
      (record {
        payer_id = r.payer_id;
        payee_id = r.payee_id;
        amount_minor = pos_part r.amount_minor;
        currency = or_default r.currency;
      })

-- The constructor call of `to_instruction`, which validates again: the raw fields.
unfoldable pub request_fields : TransactionRequest → ℕ → Moment → RawInstruction
request_fields q uuid now = record {
  packet_id = uuid;
  payer_id = q.payer_id;
  payee_id = q.payee_id;
  amount_minor = pos q.amount_minor;
  currency = some q.currency;
  created_at = Datetime.aware now;
}

-- `TransactionRequest.to_instruction`, with the result of `uuid4()` and the time.
unfoldable pub to_instruction : TransactionRequest → ℕ → Moment → Validated PaymentInstruction
unfolding request_fields validate_instruction
to_instruction q uuid now = validate_instruction (request_fields q uuid now)

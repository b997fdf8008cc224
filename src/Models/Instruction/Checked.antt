-- ===== src/Models/Instruction/Checked.antt =====
-- shared/models.py: what holds of an instruction that was validated.
use mesh_settle.Prelude.{
  ◌≤◌, ◌≡◌, ◌≢◌, sym, ℤ, pos, negsuc, pos_part, true, [], ◌++◌, Text, arith, text_eq_refl,
}
use mesh_settle.Models.Fields.{
  valid, is_identifier, is_currency, max_amount_minor, identifier_errors, payee_errors,
  currency_errors, amount_errors,
}
use mesh_settle.Models.Fields.Built.{nil_left, nil_right, identifier_of_errors, built_valid}
use mesh_settle.Models.Instruction.{
  PaymentInstruction, RawInstruction, or_default, instruction_errors, validate_instruction,
}

pub record CheckedInstruction (i : PaymentInstruction) : Type 0 where
  pub payer : is_identifier i.payer_id ≡ true
  pub payee : is_identifier i.payee_id ≡ true
  pub distinct : i.payer_id ≢ i.payee_id
  pub positive : 1 ≤ i.amount_minor
  pub bounded : i.amount_minor ≤ max_amount_minor
  pub currency : is_currency i.currency ≡ true

payee_of_errors : (payer payee : Text) → payee_errors payer payee ≡ [] → is_identifier payee ≡ true
unfolding payee_errors
payee_of_errors payer payee e = ground (arith, e)

distinct_of_errors :
    (payer payee : Text)
    → payee_errors payer payee ≡ []
    → is_identifier payer ≡ true
    → payer ≢ payee
unfolding payee_errors
distinct_of_errors payer payee e h same = ground (arith, e, h, same, text_eq_refl payer)

currency_of_errors : (s : Text) → currency_errors s ≡ [] → is_currency s ≡ true
unfolding currency_errors
currency_of_errors s e = ground (arith, e)

amount_of_errors :
    (n : ℤ) → amount_errors n ≡ [] → (1 ≤ pos_part n) × (pos_part n ≤ max_amount_minor)
unfolding amount_errors
amount_of_errors (pos n) e = (ground (arith, e), ground (arith, e))
amount_of_errors (negsuc n) e = absurd (ground (arith, e))

CheckedInstruction-of_same :
    (a b : PaymentInstruction) → a ≡ b → CheckedInstruction a → CheckedInstruction b
CheckedInstruction-of_same a b e h = rw (sym e) h

-- A validated instruction has a payer and a payee that match the pattern and differ, an amount of
-- at least one and at most the limit, and a currency of three capital letters.
pub validate_instruction-Checked :
    (r : RawInstruction) (i : PaymentInstruction)
    → validate_instruction r ≡ valid i
    → CheckedInstruction i
unfolding validate_instruction instruction_errors
validate_instruction-Checked r i e =
    let (clean, same) = built_valid _ _ i e in
    let payers = identifier_errors "payer_id" r.payer_id in
    let payees = payee_errors r.payer_id r.payee_id in
    let amounts = amount_errors r.amount_minor in
    let currencies = currency_errors (or_default r.currency) in
    let four = nil_left (payers ++ payees ++ amounts ++ currencies) _ clean in
    let currency = nil_right (payers ++ payees ++ amounts) _ four in
    let three = nil_left (payers ++ payees ++ amounts) _ four in
    let amount = amount_of_errors r.amount_minor (nil_right (payers ++ payees) _ three) in
    let two = nil_left (payers ++ payees) _ three in
    let payee = nil_right payers _ two in
    let payer = identifier_of_errors "payer_id" r.payer_id (nil_left payers _ two) in
    CheckedInstruction-of_same _ i same (record {
      payer = payer;
      payee = payee_of_errors r.payer_id r.payee_id payee;
      distinct = distinct_of_errors r.payer_id r.payee_id payee payer;
      positive = amount.0;
      bounded = amount.1;
      currency = currency_of_errors (or_default r.currency) currency;
    })

-- ===== src/Settlement/System/Kept.antt =====
-- services/settlement, with its broker: no published message is lost. A consumer acknowledges only
-- what is decided for good.
use mesh_settle.Prelude.{
  ℕ, ◌+◌, ◌≡◌, refl, subst, inl, inr, Bool, true, false, not, ◌&&◌, List, [], ◌∷◌, text_eq, ◌==◌,
  if◌then◌else◌, All, tally, Bool-cases,
}
use mesh_settle.Crypto.Primitives.{Primitives}
use mesh_settle.Models.Wire.{Wire}
use mesh_settle.Settlement.Db.{Settlement, count_settlements}
use mesh_settle.Settlement.Db.Rows.{Sound}
use mesh_settle.Settlement.Effects.{Result, ok, err, World}
use mesh_settle.Settlement.Outcome.{SettlementOutcome, is_settled}
use mesh_settle.Settlement.Processor.{Processor}
use mesh_settle.Settlement.Processor.Authority.{Authorised}
use mesh_settle.Settlement.Redis.{Keys}
use mesh_settle.Settlement.System.{Answer, System, Reach, started}
use mesh_settle.Settlement.System.Delivery.{
  copies, copies_held, copies_acked, published_kept, Final, acked-Final,
}
use mesh_settle.Settlement.System.ExactlyOnce.{ReportedRow, reached, paid_once}

-- The result is decided for good: an outcome that is not to be retried and, if it is settled, that
-- has one row with its key.
abbrev pub is_decided : List Settlement → Result SettlementOutcome → Bool
is_decided rows (ok o) =
    not o.retryable
    && (if is_settled o then count_settlements o.idempotency_key rows == 1 else true)
is_decided rows (err e) = false

-- How often the message was acknowledged with a result that is decided for good.
abbrev pub copies_decided : List ℕ → List Settlement → List Answer → ℕ
copies_decided b rows =
    tally (λ (a : Answer). if text_eq b a.body && is_decided rows a.result then 1 else 0)

module _ (c : Primitives) (wire : Wire) (p : Processor) where
  module _ (w : World) (sound : Sound (Authorised c wire p) w.tables.settlements) where
    outcome_decided :
        (o : SettlementOutcome)
        → o.retryable ≡ false
        → ReportedRow w (ok o)
        → is_decided w.tables.settlements (ok o) ≡ true
    unfolding is_settled
    outcome_decided o final reported = elim (Bool-cases (is_settled o)) [
      | inl yes_settled ↦
          let (k, named, row) = reported yes_settled in
          let one = paid_once c wire p w k sound row in
          rw final (rw yes_settled (rw named (rw one refl)))
      | inr not_settled ↦ rw final (rw not_settled refl)
    ]

    decided :
        (body : List ℕ) (r : Result SettlementOutcome)
        → Final (record { body = body; result = r })
        → ReportedRow w r
        → is_decided w.tables.settlements r ≡ true
    decided body r (o, e, final) reported =
        rw e (outcome_decided o final (subst (ReportedRow w) e reported))

    copies_decided-acked :
        (b : List ℕ) (acked : List Answer)
        → All Final acked
        → All (λ (a : Answer). ReportedRow w a.result) acked
        → copies_decided b w.tables.settlements acked ≡ copies_acked b acked
    unfolding tally
    copies_decided-acked b [] f r = refl
    copies_decided-acked b (a ∷ rest) f r =
        let yes_decided = decided a.body a.result f.0 r.0 in
        let same = copies_decided-acked b rest f.1 r.1 in
        elim (Bool-cases (text_eq b a.body)) [
          | inl hit ↦ rw hit (rw yes_decided (rw same refl))
          | inr miss ↦ rw miss (rw same refl)
        ]

  -- In every state that the consumers reach from empty tables, each message that was published is,
  -- as often as it was published, in the queue, in the hands of a consumer, or acknowledged with
  -- an outcome that is not to be retried and that, if it is settled, has exactly one settlement
  -- with its key.
  pub nothing_lost :
      (clock : ℕ) (keys : Keys) (s : System)
      → Reach c wire p (started clock keys) s
      → (b : List ℕ)
      → copies b s.published
        ≡ copies b s.ready
          + copies_held b s.flights
          + copies_decided b s.world.tables.settlements s.acked
  nothing_lost clock keys s r b =
      let h = reached c wire p clock keys s r in
      let same =
        copies_decided-acked s.world h.sound b s.acked (acked-Final c wire p clock keys s r)
          h.reported in
      rw same (published_kept c wire p clock keys s r b)

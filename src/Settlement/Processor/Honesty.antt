-- ===== src/Settlement/Processor/Honesty.antt =====
-- services/settlement/processor.py: outcomes that report a settlement only under a key that is
-- committed, and the parts of the pipeline that write no settlement.
use mesh_settle.Prelude.{
  ℕ, ◌≡◌, ◌⊎◌, Bool, true, false, Option, some, List, [], ◌∷◌, Text, take, if◌then◌else◌,
}
use mesh_settle.Models.Codes.{ErrorCode, code_value}
use mesh_settle.Models.Moment.{Moment}
use mesh_settle.Settlement.Db.{NewSettlement}
use mesh_settle.Settlement.Dedupe.{
  DedupeStore, outcome_of_marker, ClaimOutcome, claimed, claim, mark_settled, release_claim,
}
use mesh_settle.Settlement.Effects.{
  Result, ok, err, now, add_rejection, redis_get, Prog, ret, ◌>>=◌, perform,
}
use mesh_settle.Settlement.Effects.Follows.{
  Follows, BindFollows, TryFollows, Follows-bind, Follows-try, Follows-perform,
}
use mesh_settle.Settlement.Outcome.{SettlementOutcome, is_settled}
use mesh_settle.Settlement.Processor.{record_rejection, persist_rejection}

abbrev pub Member : Text → List Text → Type 0
Member k [] = ⊥
Member k (j ∷ ks) = (j ≡ k) ⊎ Member k ks

-- A settlement is reported only under a committed key.
abbrev pub Honest : List Text → Result SettlementOutcome → Type 0
Honest ks (ok o) = is_settled o ≡ true → (k : Text) × (o.idempotency_key ≡ some k) × Member k ks
Honest ks (err e) = Unit

-- Programs that write no settlement, followed by a program that is honest.
module _ (P : NewSettlement → Type 0) (ks : List Text) where
  module _ (f : Unit {0} → Prog SettlementOutcome) (h : Follows P Honest ks (f tt)) where
    go_on : (r : Result (Unit {0})) → BindFollows P f Honest ks r
    go_on (ok u) = h
    go_on (err e) = tt

    ignored : (r : Result (Unit {0})) → TryFollows P (λ e. ret tt) (BindFollows P f Honest) ks r
    ignored (ok u) = h
    ignored (err e) = h

    abbrev record_at : ErrorCode → Text → Option Text → Option ℕ → Moment → Prog (Unit {0})
    record_at code detail key packet_id t = perform (
        add_rejection (record {
          idempotency_key = key;
          packet_id = packet_id;
          reason = code_value code;
          detail = take 256 detail;
          rejected_at = t;
        }))

    after_now :
        (code : ErrorCode) (detail : Text) (key : Option Text) (packet_id : Option ℕ)
        (r : Result Moment)
        → BindFollows P
            (record_at code detail key packet_id)
            (TryFollows P (λ e. ret tt) (BindFollows P f Honest))
            ks
            r
    after_now code detail key packet_id (ok t) =
        Follows-perform P _ (TryFollows P (λ e. ret tt) (BindFollows P f Honest)) ks tt ignored
    after_now code detail key packet_id (err e) = h

    pub persist_then :
        (code : ErrorCode) (detail : Text) (key : Option Text) (packet_id : Option ℕ)
        → Follows P Honest ks (persist_rejection code detail key packet_id >>= f)
    unfolding persist_rejection record_rejection
    persist_then code detail key packet_id = Follows-bind P _ f Honest ks (
        Follows-try P _ _ (BindFollows P f Honest) ks (
          Follows-bind P _ (record_at code detail key packet_id)
            (TryFollows P (λ e. ret tt) (BindFollows P f Honest)) ks
            (Follows-perform P now
              (BindFollows P (record_at code detail key packet_id)
                (TryFollows P (λ e. ret tt) (BindFollows P f Honest)))
              ks tt (after_now code detail key packet_id))))

    pub release_then : (k : Text) → Follows P Honest ks (release_claim k >>= f)
    unfolding release_claim
    release_then k =
        Follows-bind P _ f Honest ks (Follows-perform P _ (BindFollows P f Honest) ks tt go_on)

    pub mark_then : (d : DedupeStore) (k : Text) → Follows P Honest ks (mark_settled d k >>= f)
    unfolding mark_settled
    mark_then d k =
        Follows-bind P _ f Honest ks (Follows-perform P _ (BindFollows P f Honest) ks tt go_on)

  module _ (f : ClaimOutcome → Prog SettlementOutcome)
      (h : (o : ClaimOutcome) → Follows P Honest ks (f o)) where
    after_get :
        (r : Result (Option Text))
        → BindFollows P (λ current. ret (outcome_of_marker current)) (BindFollows P f Honest) ks r
    after_get (ok m) = h (outcome_of_marker m)
    after_get (err e) = tt

    abbrev after_won : Text → Bool → Prog ClaimOutcome
    after_won k won =
        if won
        then ret claimed
        else (perform (redis_get k) >>= λ current. ret (outcome_of_marker current))

    after_set :
        (k : Text) (r : Result Bool) → BindFollows P (after_won k) (BindFollows P f Honest) ks r
    after_set k (ok true) = h claimed
    after_set k (ok false) = Follows-bind P _ _ (BindFollows P f Honest) ks (
        Follows-perform P (redis_get k)
          (BindFollows P (λ current. ret (outcome_of_marker current)) (BindFollows P f Honest)) ks
          tt after_get)
    after_set k (err e) = tt

    pub claim_then : (d : DedupeStore) (k : Text) → Follows P Honest ks (claim d k >>= f)
    unfolding claim
    claim_then d k = Follows-bind P _ f Honest ks (
        Follows-bind P _ (after_won k) (BindFollows P f Honest) ks (
          Follows-perform P _ (BindFollows P (after_won k) (BindFollows P f Honest)) ks tt
            (after_set k)))

-- ===== src/Settlement/System/Holding.antt =====
-- services/settlement: what a consumer may still do with the message that it holds.
use mesh_settle.Prelude.{ℕ, refl, inl, inr, ◌⊎◌, List, [], ◌∷◌, Text, Among}
use mesh_settle.Crypto.Primitives.{Primitives}
use mesh_settle.Models.Moment.{Moment}
use mesh_settle.Models.Wire.{Wire}
use mesh_settle.Settlement.Effects.{
  Result, ok, err, Call, now, redis_set_nx, redis_set, redis_get, redis_delete, add_settlement,
  add_rejection, Reply, Prog, call,
}
use mesh_settle.Settlement.Effects.Dated.{Dated}
use mesh_settle.Settlement.Effects.Follows.{Follows, Follows-weaken, Allowed, known_after}
use mesh_settle.Settlement.Outcome.{SettlementOutcome}
use mesh_settle.Settlement.Processor.{Processor}
use mesh_settle.Settlement.Processor.Authority.{AuthorisedBy}
use mesh_settle.Settlement.Processor.Honesty.{Honest}
use mesh_settle.Settlement.System.{Flight}
use mesh_settle.Settlement.System.Attested.{Attested, Attested-of, Attested-later}
use mesh_settle.Settlement.System.Readings.{Reading, noted}

module _ (c : Primitives) (wire : Wire) (p : Processor) where
  -- A consumer holds a published message; its program has not read the clock yet, or goes on as the
  -- readings allow.
  abbrev pub Holds : List (List ℕ) → List Reading → Flight → Type 0
  Holds published rs f =
      Among f.body published
      × (Dated (AuthorisedBy c wire p f.body) Honest f.left
          ⊎ ((ks : List Text) × Follows (Attested c wire p published rs) Honest ks f.left))

pub noted-Among :
    (body : List ℕ) (k : Call) (r : Result (Reply k)) (rs : List Reading) (x : Reading)
    → Among x rs
    → Among x (noted body k r rs)
noted-Among body now (ok t) rs x h = inr h
noted-Among body now (err e) rs x h = h
noted-Among body (redis_set_nx n v ttl) r rs x h = h
noted-Among body (redis_set n v ttl) r rs x h = h
noted-Among body (redis_get n) r rs x h = h
noted-Among body (redis_delete n) r rs x h = h
noted-Among body (add_settlement v) r rs x h = h
noted-Among body (add_rejection v) r rs x h = h

module _ (c : Primitives) (wire : Wire) (p : Processor) where
  module _ (published : List (List ℕ)) (rs : List Reading) (body : List ℕ)
      (sent : Among body published) where
    -- What a held program does by its next call.
    abbrev pub Goes : (k : Call) → (Result (Reply k) → Prog SettlementOutcome) → Type 0
    Goes k next =
        Allowed (Attested c wire p published rs) k
        × ((r : Result (Reply k))
            → (ks : List Text) × Follows (Attested c wire p published (noted body k r rs)) Honest ks
                (next r))

    Follows-Goes :
        (ks : List Text) (k : Call) (next : Result (Reply k) → Prog SettlementOutcome)
        → Follows (Attested c wire p published rs) Honest ks (call k next)
        → Goes k next
    Follows-Goes ks k next (allowed, follows) = (
      allowed,
      λ r. (
        known_after k r ks,
        Follows-weaken (Attested c wire p published rs)
            (Attested c wire p published (noted body k r rs))
            (Attested-later c wire p published published rs (noted body k r rs) (λ b h. h)
              (noted-Among body k r rs))
            (next r) Honest (known_after k r ks) (follows r),
      ),
    )

    idle-Goes :
        (k : Call) (next : Result (Reply k) → Prog SettlementOutcome)
        → Follows (λ v. ⊥) Honest [] (call k next)
        → Goes k next
    idle-Goes k next h = Follows-Goes [] k next (
        Follows-weaken (λ v. ⊥) (Attested c wire p published rs) (λ v x. absurd x) (call k next)
          Honest [] h)

    now-Goes :
        (next : Result Moment → Prog SettlementOutcome)
        → Dated (AuthorisedBy c wire p body) Honest (call now next)
        → (r : Result Moment)
        → (ks : List Text) × Follows
            (Attested c wire p published (noted body now r rs))
            Honest
            ks
            (next r)
    now-Goes next h (ok t) = (
      [],
      Follows-weaken (AuthorisedBy c wire p body t) (Attested c wire p published ((body, t) ∷ rs))
          (Attested-of c wire p published ((body, t) ∷ rs) body t sent (inl refl)) (next (ok t))
          Honest [] (h.0 t),
    )
    now-Goes next h (err e) = (
      [],
      Follows-weaken (λ v. ⊥) (Attested c wire p published rs) (λ v x. absurd x) (next (err e))
          Honest [] (h.1 e),
    )

    Dated-Goes :
        (k : Call) (next : Result (Reply k) → Prog SettlementOutcome)
        → Dated (AuthorisedBy c wire p body) Honest (call k next)
        → Goes k next
    Dated-Goes now next h = (tt, now-Goes next h)
    Dated-Goes (redis_set_nx n v ttl) next h = idle-Goes (redis_set_nx n v ttl) next h
    Dated-Goes (redis_set n v ttl) next h = idle-Goes (redis_set n v ttl) next h
    Dated-Goes (redis_get n) next h = idle-Goes (redis_get n) next h
    Dated-Goes (redis_delete n) next h = idle-Goes (redis_delete n) next h
    Dated-Goes (add_settlement v) next h = idle-Goes (add_settlement v) next h
    Dated-Goes (add_rejection r) next h = idle-Goes (add_rejection r) next h

  pub Holds-Goes :
      (published : List (List ℕ)) (rs : List Reading) (body : List ℕ) (k : Call)
      (next : Result (Reply k) → Prog SettlementOutcome)
      (held : Holds c wire p published rs (record { body = body; left = call k next }))
      → Goes published rs body held.0 k next
  Holds-Goes published rs body k next (sent, inl dated) =
      Dated-Goes published rs body sent k next dated
  Holds-Goes published rs body k next (sent, inr (ks, follows)) =
      Follows-Goes published rs body sent ks k next follows

  pub Holds-later :
      (published later : List (List ℕ)) (rs more : List Reading)
      → ((b : List ℕ) → Among b published → Among b later)
      → ((r : Reading) → Among r rs → Among r more)
      → (f : Flight) → Holds c wire p published rs f
      → Holds c wire p later more f
  Holds-later published later rs more g h f (sent, inl dated) = (g f.body sent, inl dated)
  Holds-later published later rs more g h f (sent, inr (ks, follows)) = (
    g f.body sent,
    inr (
      ks,
      Follows-weaken (Attested c wire p published rs) (Attested c wire p later more)
          (Attested-later c wire p published later rs more g h) f.left Honest ks follows,
    ),
  )

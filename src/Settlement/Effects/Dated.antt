-- ===== src/Settlement/Effects/Dated.antt =====
-- Programs that may read the clock first, and whose settlements are allowed for the time that this
-- call returned; without such a time they write none.
use mesh_settle.Prelude.{List, [], Text}
use mesh_settle.Models.Moment.{Moment}
use mesh_settle.Settlement.Db.{NewSettlement}
use mesh_settle.Settlement.Effects.{
  Exn, Result, ok, err, now, redis_set_nx, redis_set, redis_get, redis_delete, add_settlement,
  add_rejection, Prog, ret, raise, call,
}
use mesh_settle.Settlement.Effects.Follows.{Follows, Follows-weaken}

abbrev pub Dated :
    {A : Type 0}
    → (Moment → NewSettlement → Type 0)
    → (List Text → Result A → Type 0)
    → Prog A
    → Type 0
Dated P Q (ret a) = Q [] (ok a)
Dated P Q (raise e) = Q [] (err e)
Dated P Q (call now k) =
    ((t : Moment) → Follows (P t) Q [] (k (ok t))) × ((e : Exn) → Follows (λ v. ⊥) Q [] (k (err e)))
Dated P Q (call c k) = Follows (λ v. ⊥) Q [] (call c k)

module _ {A : Type 0} (P : Moment → NewSettlement → Type 0)
    (Q : List Text → Result A → Type 0) where
  pub Follows-Dated : (m : Prog A) → Follows (λ v. ⊥) Q [] m → Dated P Q m
  Follows-Dated (ret a) h = h
  Follows-Dated (raise e) h = h
  Follows-Dated (call now k) (a, h) = (
    λ t. Follows-weaken (λ v. ⊥) (P t) (λ v x. absurd x) (k (ok t)) Q [] (h (ok t)),
    λ e. h (err e),
  )
  Follows-Dated (call (redis_set_nx n v ttl) k) h = h
  Follows-Dated (call (redis_set n v ttl) k) h = h
  Follows-Dated (call (redis_get n) k) h = h
  Follows-Dated (call (redis_delete n) k) h = h
  Follows-Dated (call (add_settlement v) k) h = h
  Follows-Dated (call (add_rejection r) k) h = h

  module _ (R : NewSettlement → Type 0) (f : (t : Moment) (v : NewSettlement) → P t v → R v) where
    idle-Follows : (m : Prog A) → Follows (λ v. ⊥) Q [] m → Follows R Q [] m
    idle-Follows m h = Follows-weaken (λ v. ⊥) R (λ v x. absurd x) m Q [] h

    answered :
        (k : Result Moment → Prog A)
        → Dated P Q (call now k)
        → (r : Result Moment) → Follows R Q [] (k r)
    answered k h (ok t) = Follows-weaken (P t) R (f t) (k (ok t)) Q [] (h.0 t)
    answered k h (err e) = idle-Follows (k (err e)) (h.1 e)

    pub Dated-Follows : (m : Prog A) → Dated P Q m → Follows R Q [] m
    Dated-Follows (ret a) h = h
    Dated-Follows (raise e) h = h
    Dated-Follows (call now k) h = (tt, answered k h)
    Dated-Follows (call (redis_set_nx n v ttl) k) h = idle-Follows (call (redis_set_nx n v ttl) k) h
    Dated-Follows (call (redis_set n v ttl) k) h = idle-Follows (call (redis_set n v ttl) k) h
    Dated-Follows (call (redis_get n) k) h = idle-Follows (call (redis_get n) k) h
    Dated-Follows (call (redis_delete n) k) h = idle-Follows (call (redis_delete n) k) h
    Dated-Follows (call (add_settlement v) k) h = idle-Follows (call (add_settlement v) k) h
    Dated-Follows (call (add_rejection r) k) h = idle-Follows (call (add_rejection r) k) h

-- ===== src/Settlement/Effects/Follows.antt =====
-- Programs whose every settlement is allowed, whatever the replies, with the keys that are known to
-- be committed at each point: a rule for each way to build a program.
use mesh_settle.Prelude.{List, ◌∷◌, Text}
use mesh_settle.Settlement.Db.{NewSettlement}
use mesh_settle.Settlement.Effects.{
  Exn, Result, ok, err, Call, now, redis_set_nx, redis_set, redis_get, redis_delete, add_settlement,
  add_rejection, Reply, Prog, ret, raise, call, ◌>>=◌, perform, finish, try_except, attempt,
}

abbrev pub Allowed : (NewSettlement → Type 0) → Call → Type 0
Allowed P (add_settlement v) = P v
Allowed P _ = Unit

-- The keys that are known to be committed after a reply.
abbrev pub known_after : (c : Call) → Result (Reply c) → List Text → List Text
known_after (add_settlement v) (ok id) ks = v.idempotency_key ∷ ks
known_after _ r ks = ks

abbrev pub Follows :
    {A : Type 0}
    → (NewSettlement → Type 0)
    → (List Text → Result A → Type 0)
    → List Text
    → Prog A
    → Type 0
Follows P Q ks (ret a) = Q ks (ok a)
Follows P Q ks (raise e) = Q ks (err e)
Follows P Q ks (call c k) =
    Allowed P c × ((r : Result (Reply c)) → Follows P Q (known_after c r ks) (k r))

abbrev pub BindFollows :
    {A B : Type 0}
    → (NewSettlement → Type 0)
    → (A → Prog B)
    → (List Text → Result B → Type 0)
    → List Text
    → Result A
    → Type 0
BindFollows P f Q ks (ok a) = Follows P Q ks (f a)
BindFollows P f Q ks (err e) = Q ks (err e)

abbrev pub TryFollows :
    {A : Type 0}
    → (NewSettlement → Type 0)
    → (Exn → Prog A)
    → (List Text → Result A → Type 0)
    → List Text
    → Result A
    → Type 0
TryFollows P h Q ks (ok a) = Q ks (ok a)
TryFollows P h Q ks (err e) = Follows P Q ks (h e)

module _ (P : NewSettlement → Type 0) where
  pub Follows-mono :
      {A : Type 0} (m : Prog A) (Q R : List Text → Result A → Type 0) (ks : List Text)
      → ((ls : List Text) (r : Result A) → Q ls r → R ls r)
      → Follows P Q ks m
      → Follows P R ks m
  Follows-mono (ret a) Q R ks f h = f ks (ok a) h
  Follows-mono (raise e) Q R ks f h = f ks (err e) h
  Follows-mono (call c k) Q R ks f (a, h) =
      (a, λ r. Follows-mono (k r) Q R (known_after c r ks) f (h r))

  pub Follows-bind :
      {A B : Type 0} (m : Prog A) (f : A → Prog B) (Q : List Text → Result B → Type 0)
      (ks : List Text)
      → Follows P (BindFollows P f Q) ks m
      → Follows P Q ks (m >>= f)
  unfolding ◌>>=◌
  Follows-bind (ret a) f Q ks h = h
  Follows-bind (raise e) f Q ks h = h
  Follows-bind (call c k) f Q ks (a, h) =
      (a, λ r. Follows-bind (k r) f Q (known_after c r ks) (h r))

  pub Follows-try :
      {A : Type 0} (m : Prog A) (f : Exn → Prog A) (Q : List Text → Result A → Type 0)
      (ks : List Text)
      → Follows P (TryFollows P f Q) ks m
      → Follows P Q ks (try_except m f)
  unfolding try_except
  Follows-try (ret a) f Q ks h = h
  Follows-try (raise e) f Q ks h = h
  Follows-try (call c k) f Q ks (a, h) = (a, λ r. Follows-try (k r) f Q (known_after c r ks) (h r))

  pub Follows-attempt :
      {A : Type 0} (m : Prog A) (Q : List Text → Result (Result A) → Type 0) (ks : List Text)
      → Follows P (λ ls r. Q ls (ok r)) ks m
      → Follows P Q ks (attempt m)
  unfolding attempt
  Follows-attempt (ret a) Q ks h = h
  Follows-attempt (raise e) Q ks h = h
  Follows-attempt (call c k) Q ks (a, h) =
      (a, λ r. Follows-attempt (k r) Q (known_after c r ks) (h r))

  Follows-finish :
      {A : Type 0} (r : Result A) (Q : List Text → Result A → Type 0) (ks : List Text)
      → Q ks r
      → Follows P Q ks (finish r)
  Follows-finish (ok a) Q ks h = h
  Follows-finish (err e) Q ks h = h

  pub Follows-perform :
      (c : Call) (Q : List Text → Result (Reply c) → Type 0) (ks : List Text)
      → Allowed P c
      → ((r : Result (Reply c)) → Q (known_after c r ks) r)
      → Follows P Q ks (perform c)
  unfolding perform
  Follows-perform c Q ks a h = (a, λ r. Follows-finish r Q (known_after c r ks) (h r))

Allowed-weaken :
    (P R : NewSettlement → Type 0)
    → ((v : NewSettlement) → P v → R v)
    → (c : Call) → Allowed P c
    → Allowed R c
Allowed-weaken P R h now a = tt
Allowed-weaken P R h (redis_set_nx k v ttl) a = tt
Allowed-weaken P R h (redis_set k v ttl) a = tt
Allowed-weaken P R h (redis_get k) a = tt
Allowed-weaken P R h (redis_delete k) a = tt
Allowed-weaken P R h (add_settlement v) a = h v a
Allowed-weaken P R h (add_rejection r) a = tt

pub Follows-weaken :
    {A : Type 0} (P R : NewSettlement → Type 0)
    → ((v : NewSettlement) → P v → R v)
    → (m : Prog A) (Q : List Text → Result A → Type 0) (ks : List Text) → Follows P Q ks m
    → Follows R Q ks m
Follows-weaken P R h (ret a) Q ks x = x
Follows-weaken P R h (raise e) Q ks x = x
Follows-weaken P R h (call c k) Q ks (a, x) =
    (Allowed-weaken P R h c a, λ r. Follows-weaken P R h (k r) Q (known_after c r ks) (x r))

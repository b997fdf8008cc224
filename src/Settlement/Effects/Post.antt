-- ===== src/Settlement/Effects/Post.antt =====
-- Postconditions of programs, whatever the environment does at each call within its bounds: a rule
-- for each way to build a program, and what a postcondition says of a run.
use mesh_settle.Prelude.{ℕ, suc, ◌≢◌, refl}
use mesh_settle.Models.Moment.{Moment}
use mesh_settle.Settlement.Effects.{
  Exn, Result, ok, err, Call, Reply, Prog, ret, raise, call, ◌>>=◌, finish, perform, try_except,
  attempt, World, Event, take_call, Schedule, run, now, pass, Fate, delivered, request_lost,
  reply_lost, is_local, deliver, serve, other,
}

-- A call whose reply did not arrive.
pub record Lost (ev : Event) : Type 0 where
  pub undelivered : ev.fate ≢ delivered

undelivered_of_local : (c : Call) (f : Fate) → is_local c f ≢ delivered → f ≢ delivered
undelivered_of_local now f h = absurd (h refl)
undelivered_of_local _ f h = h

-- The three ways that a call ends.
pub take_call_cases :
    (c : Call) (ev : Event) (w : World) (P : Result (Reply c) → World → Type 0)
    → P (serve ev c (pass ev.elapsed w)).0 (serve ev c (pass ev.elapsed w)).1
    → (Lost ev → P (err other) (pass ev.elapsed w))
    → (Lost ev → P (err other) (serve ev c (pass ev.elapsed w)).1)
    → P (take_call ev c w).0 (take_call ev c w).1
unfolding take_call
take_call_cases c ev w P served before after =
    by_fate (is_local c ev.fate) (λ h. record { undelivered = undelivered_of_local c ev.fate h })
  where
    by_fate :
        (f : Fate)
        → (f ≢ delivered → Lost ev)
        → P
            (deliver c f (serve ev c (pass ev.elapsed w)) (pass ev.elapsed w)).0
            (deliver c f (serve ev c (pass ev.elapsed w)) (pass ev.elapsed w)).1
    by_fate delivered l = served
    by_fate request_lost l = before (l (λ e. cc))
    by_fate reply_lost l = after (l (λ e. cc))

-- `E` bounds the events; `Q` holds of how the program ends, and of the stores then.
abbrev pub Post :
    {A : Type 0} → (Event → Type 0) → Prog A → World → (Result A → World → Type 0) → Type 0
Post E (ret a) w Q = Q (ok a) w
Post E (raise e) w Q = Q (err e) w
Post E (call c k) w Q = (ev : Event) → E ev → Post E (k (take_call ev c w).0) (take_call ev c w).1 Q

-- After the first part of a sequence, after the body of a `try`, and after an attempt.
abbrev pub BindPost :
    {A B : Type 0}
    → (Event → Type 0)
    → (A → Prog B)
    → (Result B → World → Type 0)
    → Result A
    → World
    → Type 0
BindPost E f Q (ok a) w = Post E (f a) w Q
BindPost E f Q (err e) w = Q (err e) w

abbrev pub TryPost :
    {A : Type 0}
    → (Event → Type 0)
    → (Exn → Prog A)
    → (Result A → World → Type 0)
    → Result A
    → World
    → Type 0
TryPost E h Q (ok a) w = Q (ok a) w
TryPost E h Q (err e) w = Post E (h e) w Q

module _ (E : Event → Type 0) where
  pub Post-mono :
      {A : Type 0} (m : Prog A) (w : World) (Q R : Result A → World → Type 0)
      → ((r : Result A) (v : World) → Q r v → R r v)
      → Post E m w Q
      → Post E m w R
  Post-mono (ret a) w Q R f h = f (ok a) w h
  Post-mono (raise e) w Q R f h = f (err e) w h
  Post-mono (call c k) w Q R f h =
      λ ev b. Post-mono (k (take_call ev c w).0) (take_call ev c w).1 Q R f (h ev b)

  pub Post-bind :
      {A B : Type 0} (m : Prog A) (f : A → Prog B) (w : World) (Q : Result B → World → Type 0)
      → Post E m w (BindPost E f Q)
      → Post E (m >>= f) w Q
  unfolding ◌>>=◌
  Post-bind (ret a) f w Q h = h
  Post-bind (raise e) f w Q h = h
  Post-bind (call c k) f w Q h =
      λ ev b. Post-bind (k (take_call ev c w).0) f (take_call ev c w).1 Q (h ev b)

  pub Post-try :
      {A : Type 0} (m : Prog A) (f : Exn → Prog A) (w : World) (Q : Result A → World → Type 0)
      → Post E m w (TryPost E f Q)
      → Post E (try_except m f) w Q
  unfolding try_except
  Post-try (ret a) f w Q h = h
  Post-try (raise e) f w Q h = h
  Post-try (call c k) f w Q h =
      λ ev b. Post-try (k (take_call ev c w).0) f (take_call ev c w).1 Q (h ev b)

  pub Post-attempt :
      {A : Type 0} (m : Prog A) (w : World) (Q : Result (Result A) → World → Type 0)
      → Post E m w (λ r v. Q (ok r) v)
      → Post E (attempt m) w Q
  unfolding attempt
  Post-attempt (ret a) w Q h = h
  Post-attempt (raise e) w Q h = h
  Post-attempt (call c k) w Q h =
      λ ev b. Post-attempt (k (take_call ev c w).0) (take_call ev c w).1 Q (h ev b)

  Post-finish :
      {A : Type 0} (r : Result A) (w : World) (Q : Result A → World → Type 0)
      → Q r w
      → Post E (finish r) w Q
  Post-finish (ok a) w Q h = h
  Post-finish (err e) w Q h = h

  pub Post-perform :
      (c : Call) (w : World) (Q : Result (Reply c) → World → Type 0)
      → ((ev : Event) → E ev → Q (take_call ev c w).0 (take_call ev c w).1)
      → Post E (perform c) w Q
  unfolding perform
  Post-perform c w Q h = λ ev b. Post-finish (take_call ev c w).0 (take_call ev c w).1 Q (h ev b)

  -- A postcondition holds of every run under events within the bounds.
  pub Post-run :
      {A : Type 0} (m : Prog A) (w : World) (Q : Result A → World → Type 0)
      → Post E m w Q
      → (s : Schedule) → ((i : ℕ) → E (s i))
      → (n : ℕ) → Q (run s n m w).0 (run s n m w).1
  unfolding run
  Post-run (ret a) w Q h s b n = h
  Post-run (raise e) w Q h s b n = h
  Post-run (call c k) w Q h s b n =
      Post-run (k (take_call (s n) c w).0) (take_call (s n) c w).1 Q (h (s n) (b n)) s b (suc n)

  -- The clock is always read.
  pub Post-now :
      {B : Type 0} (f : Moment → Prog B) (w : World) (Q : Result B → World → Type 0)
      → ((ev : Event) → E ev → Post E (f ev.wall) (pass ev.elapsed w) Q)
      → Post E (perform now >>= f) w Q
  unfolding perform ◌>>=◌ take_call
  Post-now f w Q h = h

  -- A handler that makes up for every exception.
  pub Post-ignore :
      (r : Result (Unit {0})) (w : World) (Q : Result (Unit {0}) → World → Type 0)
      → Q (ok tt) w
      → TryPost E (λ e. ret tt) Q r w
  Post-ignore (ok u) w Q h = h
  Post-ignore (err e) w Q h = h

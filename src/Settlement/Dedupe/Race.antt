-- ===== src/Settlement/Dedupe/Race.antt =====
-- services/settlement/dedupe.py: consumers that race for the claim of one key. A step is one command
-- of one consumer, which Redis answers, after some time.
pub mod Standing
pub mod Exclusive
use mesh_settle.Prelude.{
  ℕ, zero, suc, ◌+◌, ◌*◌, ◌≤◌, ◌<◌, ◌≡◌, refl, sym, ap, ◌∙◌, subst, inl, inr, ◌⊎◌, Bool, true,
  false, Option, none, some, List, [], ◌∷◌, ◌++◌, Text, text_eq, All, All-at, All-with, All-without,
  All-map, tally, tally-insert, leb, if◌then◌else◌, arith, replicate,
}
use mesh_settle.Settlement.Dedupe.{
  ClaimOutcome, claimed, in_flight, already_settled, DedupeStore, claim, claimed_marker,
  outcome_of_marker, settled_marker,
}
use mesh_settle.Settlement.Effects.{
  Result, ok, err, Call, now, redis_set_nx, redis_set, redis_get, redis_delete, add_settlement,
  add_rejection, Reply, Prog, ret, raise, call, perform, ◌>>=◌, World, Event, delivered, take_call,
  serve, pass,
}
use mesh_settle.Settlement.Redis.{Keys, Entry, get, live, set, set_nx}
use mesh_settle.Settlement.Redis.Laws.{set_self}

pub record Race : Type 0 where
  pub world : World
  pub racers : List (Prog ClaimOutcome)

pub data RaceStep : Race → Race → Type 0 where
  command :
      (before : List (Prog ClaimOutcome)) (c : Call) (next : Result (Reply c) → Prog ClaimOutcome)
      (after : List (Prog ClaimOutcome)) (ev : Event) (w : World)
      → ev.fate ≡ delivered
      → RaceStep
          (record { world = w; racers = before ++ call c next ∷ after })
          (record {
            world = (take_call ev c w).1;
            racers = before ++ next (take_call ev c w).0 ∷ after;
          })

pub data Raced (start : Race) : Race → Type 0 where
  at_start : Raced start start
  then_step : (s t : Race) → Raced start s → RaceStep s t → Raced start t

-- Whether a consumer has won.
unfoldable pub wins : Prog ClaimOutcome → ℕ
wins (ret claimed) = 1
wins _ = 0

pub live-later : (o : Option Entry) (clock n : ℕ) → live clock o ≡ none → live (clock + n) o ≡ none
unfolding live
live-later none clock n h = refl
live-later (some e) clock n h = ground (arith, h)

pub live-now : (e : Entry) (clock : ℕ) → clock < e.expires → live clock (some e) ≡ some e.value
unfolding live
live-now e clock h = ground (arith, h)

pub set_nx-free :
    (clock : ℕ) (k v : Text) (ttl : ℕ) (r : Keys)
    → get clock k r ≡ none
    → set_nx clock k v ttl r ≡ (true, set clock k v ttl r)
unfolding set_nx
set_nx-free clock k v ttl r h = rw (set_nx, h) refl

pub set_nx-held :
    (clock : ℕ) (k v m : Text) (ttl : ℕ) (r : Keys)
    → get clock k r ≡ some m
    → set_nx clock k v ttl r ≡ (false, r)
unfolding set_nx
set_nx-held clock k v m ttl r h = rw (set_nx, h) refl

-- A command that Redis answers.
pub take_call-delivered :
    (ev : Event) (c : Call) (w : World)
    → ev.fate ≡ delivered
    → take_call ev c w ≡ serve ev c (pass ev.elapsed w)
unfolding take_call
take_call-delivered ev now w h = refl
take_call-delivered ev (redis_set_nx k v ttl) w h = rw h refl
take_call-delivered ev (redis_set k v ttl) w h = rw h refl
take_call-delivered ev (redis_get k) w h = rw h refl
take_call-delivered ev (redis_delete k) w h = rw h refl
take_call-delivered ev (add_settlement v) w h = rw h refl
take_call-delivered ev (add_rejection r) w h = rw h refl

serve-clock : (ev : Event) (c : Call) (w : World) → (serve ev c w).1.clock ≡ w.clock
unfolding serve
serve-clock ev now w = refl
serve-clock ev (redis_set_nx k v ttl) w = refl
serve-clock ev (redis_set k v ttl) w = refl
serve-clock ev (redis_get k) w = refl
serve-clock ev (redis_delete k) w = refl
serve-clock ev (add_settlement v) w = refl
serve-clock ev (add_rejection r) w = refl

pub take_call-later :
    (ev : Event) (c : Call) (w : World)
    → ev.fate ≡ delivered
    → (take_call ev c w).1.clock ≡ w.clock + ev.elapsed
take_call-later ev c w h =
    ap (λ (r : Result (Reply c) × World). r.1.clock) (take_call-delivered ev c w h)
    ∙ serve-clock ev c (pass ev.elapsed w)

pub RaceStep-later : (s t : Race) → RaceStep s t → s.world.clock ≤ t.world.clock
RaceStep-later _ _ (command before c next after ev w h) = omega (arith, take_call-later ev c w h)

module _ (d : DedupeStore) (k : Text) where
  -- `n` consumers that each claim the key, in a world.
  abbrev pub racing : ℕ → World → Race
  racing n w = record { world = w; racers = replicate n (claim d k) }

-- ===== src/Settlement/Effects.antt =====
-- The calls that the settlement service makes on the clock, on Redis and on Postgres, programs that
-- make them, and their effect on the two stores. A program is a tree: what it returns, what it
-- raises, or a call with a program for each way that the call may end. So one program serves for a
-- run from start to end and for steps between which other consumers act.
pub mod Post
pub mod Follows
pub mod Dated
use mesh_settle.Prelude.{ℕ, suc, ◌+◌, Bool, Option, Text}
use mesh_settle.Models.Moment.{Moment}
use mesh_settle.Settlement.Db.{
  NewSettlement, RejectedPacket, Tables, Inserted, inserted, integrity_error, data_error,
  insert_settlement, insert_rejection,
}
use mesh_settle.Settlement.Redis.{Keys, get, set, set_nx, delete}

-- The exceptions: SQLAlchemy's `IntegrityError`, and all others.
pub data Exn : Type 0 where
  integrity other : Exn

pub data Result (A : Type 0) : Type 0 where
  ok : A → Result A
  err : Exn → Result A

pub data Call : Type 0 where
  now : Call
  redis_set_nx : Text → Text → ℕ → Call
  redis_set : Text → Text → ℕ → Call
  redis_get : Text → Call
  redis_delete : Text → Call
  add_settlement : NewSettlement → Call
  add_rejection : RejectedPacket → Call

abbrev pub Reply : Call → Type 0
Reply now = Moment
Reply (redis_set_nx k v ttl) = Bool
Reply (redis_set k v ttl) = Unit
Reply (redis_get k) = Option Text
Reply (redis_delete k) = Unit
Reply (add_settlement v) = ℕ
Reply (add_rejection r) = Unit

pub data Prog (A : Type 0) : Type 0 where
  ret : A → Prog A
  raise : Exn → Prog A
  call : (c : Call) → (Result (Reply c) → Prog A) → Prog A

infixl 5 ◌>>=◌ ◌>>◌
unfoldable pub ◌>>=◌ : {A B : Type 0} → Prog A → (A → Prog B) → Prog B
ret a >>= f = f a
raise e >>= f = raise e
call c k >>= f = call c (λ r. k r >>= f)

abbrev pub ◌>>◌ : {B : Type 0} → Prog (Unit {0}) → Prog B → Prog B
m >> k = m >>= λ _. k

-- One call, whose exception is raised.
abbrev pub finish : {A : Type 0} → Result A → Prog A
finish (ok a) = ret a
finish (err e) = raise e

unfoldable pub perform : (c : Call) → Prog (Reply c)
perform c = call c finish

-- `try: ... except Exception: handler`
unfoldable pub try_except : {A : Type 0} → Prog A → (Exn → Prog A) → Prog A
try_except (ret a) h = ret a
try_except (raise e) h = h e
try_except (call c k) h = call c (λ r. try_except (k r) h)

-- The result of a block as a value, for handlers of one exception among several.
unfoldable pub attempt : {A : Type 0} → Prog A → Prog (Result A)
attempt (ret a) = ret (ok a)
attempt (raise e) = ret (err e)
attempt (call c k) = call c (λ r. attempt (k r))

-- The two stores. The clock is the servers', in milliseconds.
pub record World : Type 0 where
  pub clock : ℕ
  pub keys : Keys
  pub tables : Tables

-- How a call ends: its reply arrives, or the connection fails before or after the server acted.
pub data Fate : Type 0 where
  delivered request_lost reply_lost : Fate

-- What the environment does at a call: the time that has passed since the last one, the wall clock
-- of the consumer, and the fate of the call.
pub record Event : Type 0 where
  pub elapsed : ℕ
  pub wall : Moment
  pub fate : Fate

abbrev pub reply_of_insert : Inserted → Result ℕ
reply_of_insert (inserted id) = ok id
reply_of_insert integrity_error = err integrity
reply_of_insert data_error = err other

-- A call as the servers carry it out.
unfoldable pub serve : Event → (c : Call) → World → Result (Reply c) × World
serve ev now w = (ok ev.wall, w)
serve ev (redis_set_nx k v ttl) w =
    let (won, keys) = set_nx w.clock k v ttl w.keys in (ok won, record w { keys = keys })
serve ev (redis_set k v ttl) w = (ok tt, record w { keys = set w.clock k v ttl w.keys })
serve ev (redis_get k) w = (ok (get w.clock k w.keys), w)
serve ev (redis_delete k) w = (ok tt, record w { keys = delete k w.keys })
serve ev (add_settlement v) w =
    let (result, tables) = insert_settlement w.clock v w.tables in
    (reply_of_insert result, record w { tables = tables })
serve ev (add_rejection r) w = (ok tt, record w { tables = insert_rejection r w.tables })

abbrev pub pass : ℕ → World → World
pass elapsed w = record w { clock = w.clock + elapsed }

-- The clock of the consumer is read without a connection.
abbrev pub is_local : Call → Fate → Fate
is_local now fate = delivered
is_local _ fate = fate

abbrev pub deliver : (c : Call) → Fate → Result (Reply c) × World → World → Result (Reply c) × World
deliver c delivered served before = served
deliver c request_lost served before = (err other, before)
deliver c reply_lost served before = (err other, served.1)

-- A call under an event.
unfoldable pub take_call : Event → (c : Call) → World → Result (Reply c) × World
unfolding serve
take_call ev c w =
    let before = pass ev.elapsed w in deliver c (is_local c ev.fate) (serve ev c before) before

-- The events at the calls of a run.
abbrev pub Schedule : Type 0
Schedule = ℕ → Event

-- A run from start to end, from the call of that number on.
unfoldable pub run : {A : Type 0} → Schedule → ℕ → Prog A → World → Result A × World
unfolding take_call
run s n (ret a) w = (ok a, w)
run s n (raise e) w = (err e, w)
run s n (call c k) w = let (r, w') = take_call (s n) c w in run s (suc n) (k r) w'

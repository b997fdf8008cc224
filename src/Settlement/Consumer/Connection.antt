-- ===== src/Settlement/Consumer/Connection.antt =====
-- services/settlement/consumer.py: the connection of `SettlementConsumer`. A call of aio_pika returns
-- or raises, which is an argument.
use mesh_settle.Prelude.{
  ◌≡◌, refl, ℕ, Bool, true, false, not, ◌&&◌, Option, none, some, if◌then◌else◌, arith,
}

-- The attributes that `start` and `stop` set: the connection, and whether it is closed; whether there
-- are a queue and a tag; and whether `stop` has run.
pub record Link : Type 0 where
  pub connection : Option Bool
  pub queue : Bool
  pub consumer_tag : Bool
  pub stopped : Bool

abbrev pub new_link : Link
new_link = record { connection = none; queue = false; consumer_tag = false; stopped = false }

-- The calls of aio_pika.
pub data BrokerCall : Type 0 where
  connect_robust open_channel set_qos declare_queue consume cancel close_connection : BrokerCall

pub data Finished : Type 0 where
  returned raised : Finished

abbrev open_of : Option Bool → Bool
open_of none = false
open_of (some closed) = not closed

abbrev disconnected : Link → Finished × Link
disconnected link = (returned, record link { connection = none; queue = false; stopped = true })

-- `wait_closed` returns.
abbrev pub is_closed : Link → Bool
is_closed link = link.stopped

module _ (answers : BrokerCall → Bool) where
  -- `start`
  unfoldable pub start : Link → Finished × Link
  start link =
      let connected = record link { connection = some false } in
      let declared = record connected { queue = true } in
      if answers connect_robust
      then (if answers open_channel && answers set_qos && answers declare_queue
          then (if answers consume
              then (returned, record declared { consumer_tag = true })
              else (raised, declared))
          else (raised, connected))
      else (raised, link)

  -- The rest of `stop`, after the tag is cancelled.
  abbrev close : Link → Finished × Link
  close link =
      if open_of link.connection && not (answers close_connection)
      then (raised, link)
      else disconnected link

  -- `stop`
  unfoldable pub stop : Link → Finished × Link
  stop link =
      if link.queue && link.consumer_tag
      then (if answers cancel then close (record link { consumer_tag = false }) else (raised, link))
      else close link

abbrev depth_of : Option Bool → ℕ → Option ℕ
depth_of (some false) count = some count
depth_of _ count = none

-- `queue_depth`, with what the broker counts.
unfoldable pub queue_depth : Link → ℕ → Option ℕ
queue_depth link count = depth_of link.connection count

-- What holds once `stop` has returned, whatever was before.
pub record Stopped (link : Link) : Type 0 where
  pub no_connection : link.connection ≡ none
  pub no_queue : link.queue ≡ false
  pub closed : is_closed link ≡ true
  pub no_depth : (count : ℕ) → queue_depth link count ≡ none

-- If it returned, what it left is stopped.
abbrev StoppedIfReturned : Finished × Link → Type 0
StoppedIfReturned r = r.0 ≡ returned → Stopped r.1

either-Stopped :
    (b : Bool) (x y : Finished × Link)
    → StoppedIfReturned x
    → StoppedIfReturned y
    → StoppedIfReturned (if b then x else y)
either-Stopped true x y hx hy = hx
either-Stopped false x y hx hy = hy

raised-Stopped : (link : Link) → StoppedIfReturned (raised, link)
raised-Stopped link h = ground arith

module _ (answers : BrokerCall → Bool) where
  close-Stopped : (link : Link) → StoppedIfReturned (close answers link)
  unfolding queue_depth
  close-Stopped link = either-Stopped _ _ _ (raised-Stopped link) (λ h. record {
    no_connection = refl;
    no_queue = refl;
    closed = refl;
    no_depth = λ count. refl;
  })

  pub stop-Stopped : (link : Link) → StoppedIfReturned (stop answers link)
  unfolding stop
  stop-Stopped link =
      either-Stopped (link.queue && link.consumer_tag) _ _
        (either-Stopped (answers cancel) _ _ (close-Stopped (record link { consumer_tag = false }))
          (raised-Stopped link))
        (close-Stopped link)

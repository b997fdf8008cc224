-- ===== src/Mesh/Bridge/Connection.antt =====
-- services/bridge/publisher.py: `connect` and `close` of `RabbitMQPublisher`. A call of aio_pika
-- returns or raises, which is an argument.
use mesh_settle.Prelude.{
  ◌≡◌, refl, ap, ℕ, Bool, true, false, not, ◌&&◌, Option, none, some, List, Text, codes,
  if◌then◌else◌, arith,
}
use mesh_settle.Mesh.Bridge.{RabbitMqPublisher, Message, Confirmation, publish, publish_error}

-- The attributes: the connection, and whether it is closed, and whether there is a channel.
pub record Link : Type 0 where
  pub connection : Option Bool
  pub channel : Bool

pub data BrokerCall : Type 0 where
  connect_robust open_channel declare_queue close_connection : BrokerCall

pub data Finished : Type 0 where
  returned raised : Finished

abbrev is_open : Option Bool → Bool
is_open none = false
is_open (some closed) = not closed

abbrev pub closed_link : Link
closed_link = record { connection = none; channel = false }

abbrev closed_unless : Bool → Link → Finished × Link
closed_unless true link = (raised, link)
closed_unless false link = (returned, closed_link)

module _ (answers : BrokerCall → Bool) where
  -- `connect`
  unfoldable pub connect : Link → Finished × Link
  connect link =
      if answers connect_robust
      then (if answers open_channel && answers declare_queue
          then (returned, record { connection = some false; channel = true })
          else (raised, record link { connection = some false }))
      else (raised, link)

  -- `close`
  unfoldable pub close : Link → Finished × Link
  close link = closed_unless (is_open link.connection && not (answers close_connection)) link

-- The publisher of such attributes, as `publish` sees it.
abbrev pub publisher_of : Text → Link → RabbitMqPublisher
publisher_of queue link = record { queue = queue; connected = link.channel }

closed_unless-closed_link :
    (b : Bool) (link : Link)
    → (closed_unless b link).0 ≡ returned
    → (closed_unless b link).1 ≡ closed_link
closed_unless-closed_link true link h = ground arith
closed_unless-closed_link false link h = refl

module _ (answers : BrokerCall → Bool) where
  close-closed_link :
      (link : Link) → (close answers link).0 ≡ returned → (close answers link).1 ≡ closed_link
  unfolding close
  close-closed_link link =
      closed_unless-closed_link (is_open link.connection && not (answers close_connection)) link

  -- After `close` has returned, `publish` refuses every message and leaves the queue as it is.
  pub publish-close :
      (link : Link) (queue : Text) (fate : Confirmation) (body : List ℕ) (id : Text)
      (messages : List Message)
      → (close answers link).0 ≡ returned
      → publish (publisher_of queue (close answers link).1) fate body id messages
        ≡ (publish_error (codes "publisher is not connected"), messages)
  unfolding publish
  publish-close link queue fate body id messages h =
      ap (λ l. publish (publisher_of queue l) fate body id messages) (close-closed_link link h)

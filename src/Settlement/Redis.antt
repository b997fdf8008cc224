-- ===== src/Settlement/Redis.antt =====
-- The commands of Redis that services/settlement/dedupe.py sends, on one database: a key holds a
-- value until its time of expiry, in milliseconds of the server's clock.
pub mod Laws
use mesh_settle.Prelude.{
  ℕ, ◌+◌, ◌*◌, Bool, true, false, Option, none, some, Text, text_eq, leb, if◌then◌else◌,
}

pub record Entry : Type 0 where
  pub value : Text
  pub expires : ℕ

abbrev pub Keys : Type 0
Keys = Text → Option Entry

-- What is there at a time: an entry counts until it expires.
unfoldable pub live : ℕ → Option Entry → Option Text
live clock none = none
live clock (some e) = if leb e.expires clock then none else some e.value

-- `GET key`
unfoldable pub get : ℕ → Text → Keys → Option Text
unfolding live
get clock k r = live clock (r k)

-- `SET key value EX seconds`, for a lifetime of one second or more: Redis refuses `EX 0`, which the
-- settings allow for the marker of a settlement.
unfoldable pub set : ℕ → Text → Text → ℕ → Keys → Keys
set clock k v seconds r j =
    if text_eq k j then some (record { value = v; expires = clock + seconds * 1000 }) else r j

-- `DEL key`
unfoldable pub delete : Text → Keys → Keys
delete k r j = if text_eq k j then none else r j

-- `SET key value NX EX seconds`, for the same lifetimes: whether it was set, and the keys afterwards.
unfoldable pub set_nx : ℕ → Text → Text → ℕ → Keys → Bool × Keys
set_nx clock k v seconds r = elim (get clock k r) [
  | none ↦ (true, set clock k v seconds r)
  | some _ ↦ (false, r)
]

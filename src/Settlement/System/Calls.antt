-- ===== src/Settlement/System/Calls.antt =====
-- services/settlement: what one call does to the rows, when the settlement that it may add is
-- allowed, and to the keys that are known to be committed.
use mesh_settle.Prelude.{◌≡◌, refl, List, [], ◌∷◌, Text, All}
use mesh_settle.Settlement.Db.{
  insert_rejection, NewSettlement, Inserted, inserted, integrity_error, data_error,
  insert_settlement,
}
use mesh_settle.Settlement.Db.Rows.{Sound, HasRow, insert-Sound, insert-HasRow, insert_adds}
use mesh_settle.Settlement.Effects.{
  Exn, Result, err, other, Call, now, redis_set_nx, redis_set, redis_get, redis_delete,
  add_settlement, add_rejection, Reply, World, Event, pass, serve, take_call, reply_of_insert,
}
use mesh_settle.Settlement.Effects.Follows.{Allowed, known_after}
use mesh_settle.Settlement.Effects.Post.{take_call_cases}

abbrev pub Rows : World → List Text → Type 0
Rows w ks = All (HasRow w.tables.settlements) ks

pub record Advanced (P : NewSettlement → Type 0) (w : World) (c : Call) (r : Result (Reply c))
    (u : World) : Type 0 where
  pub sound : Sound P u.tables.settlements
  pub stay : (k : Text) → HasRow w.tables.settlements k → HasRow u.tables.settlements k
  pub known : (ks : List Text) → Rows w ks → Rows u (known_after c r ks)

pub Rows-stay :
    (w u : World) (ks : List Text)
    → ((k : Text) → HasRow w.tables.settlements k → HasRow u.tables.settlements k)
    → Rows w ks
    → Rows u ks
Rows-stay w u [] h r = tt
Rows-stay w u (k ∷ ks) h (x, r) = (h k x, Rows-stay w u ks h r)

known_after_failure : (c : Call) (e : Exn) (ks : List Text) → known_after c (err e) ks ≡ ks
known_after_failure now e ks = refl
known_after_failure (redis_set_nx k v ttl) e ks = refl
known_after_failure (redis_set k v ttl) e ks = refl
known_after_failure (redis_get k) e ks = refl
known_after_failure (redis_delete k) e ks = refl
known_after_failure (add_settlement v) e ks = refl
known_after_failure (add_rejection r) e ks = refl

module _ (P : NewSettlement → Type 0) (w : World) (sound : Sound P w.tables.settlements) where
  failed :
      (c : Call) (e : Exn) (u : World)
      → Sound P u.tables.settlements
      → ((k : Text) → HasRow w.tables.settlements k → HasRow u.tables.settlements k)
      → Advanced P w c (err e) u
  failed c e u s h = record {
    sound = s;
    stay = h;
    known = λ ks r. rw (known_after_failure c e ks) (Rows-stay w u ks h r);
  }

  served-Sound : (c : Call) (ev : Event) → Allowed P c → Sound P (serve ev c w).1.tables.settlements
  unfolding serve
  served-Sound now ev a = sound
  served-Sound (redis_set_nx k v ttl) ev a = sound
  served-Sound (redis_set k v ttl) ev a = sound
  served-Sound (redis_get k) ev a = sound
  served-Sound (redis_delete k) ev a = sound
  served-Sound (add_settlement v) ev a = insert-Sound P v a w.clock w.tables sound
  served-Sound (add_rejection r) ev a = unfold insert_rejection in sound

  served_stay :
      (c : Call) (ev : Event) (k : Text)
      → HasRow w.tables.settlements k
      → HasRow (serve ev c w).1.tables.settlements k
  unfolding serve
  served_stay now ev k h = h
  served_stay (redis_set_nx j v ttl) ev k h = h
  served_stay (redis_set j v ttl) ev k h = h
  served_stay (redis_get j) ev k h = h
  served_stay (redis_delete j) ev k h = h
  served_stay (add_settlement v) ev k h = insert-HasRow w.clock v w.tables k h
  served_stay (add_rejection r) ev k h = unfold insert_rejection in h

  insert_known :
      (ev : Event) (v : NewSettlement) (i : Inserted) (ks : List Text)
      → (insert_settlement w.clock v w.tables).0 ≡ i
      → Rows w ks
      → Rows
          (serve ev (add_settlement v) w).1
          (known_after (add_settlement v) (reply_of_insert i) ks)
  unfolding serve
  insert_known ev v (inserted id) ks e r = (
    insert_adds w.clock v w.tables id e,
    Rows-stay w (serve ev (add_settlement v) w).1 ks (insert-HasRow w.clock v w.tables) r,
  )
  insert_known ev v integrity_error ks e r =
      Rows-stay w (serve ev (add_settlement v) w).1 ks (insert-HasRow w.clock v w.tables) r
  insert_known ev v data_error ks e r =
      Rows-stay w (serve ev (add_settlement v) w).1 ks (insert-HasRow w.clock v w.tables) r

  served_known :
      (c : Call) (ev : Event) (ks : List Text)
      → Rows w ks
      → Rows (serve ev c w).1 (known_after c (serve ev c w).0 ks)
  unfolding serve
  served_known now ev ks r = r
  served_known (redis_set_nx j v ttl) ev ks r = r
  served_known (redis_set j v ttl) ev ks r = r
  served_known (redis_get j) ev ks r = r
  served_known (redis_delete j) ev ks r = r
  served_known (add_settlement v) ev ks r = insert_known ev v _ ks refl r
  served_known (add_rejection x) ev ks r = unfold insert_rejection in r

-- A call adds only a row that is allowed and new, and takes none away.
pub take_call-Advanced :
    (P : NewSettlement → Type 0) (c : Call) (ev : Event) (w : World)
    → Allowed P c
    → Sound P w.tables.settlements
    → Advanced P w c (take_call ev c w).0 (take_call ev c w).1
take_call-Advanced P c ev w a s =
    take_call_cases c ev w (Advanced P w c)
      (record {
        sound = served-Sound P (pass ev.elapsed w) s c ev a;
        stay = served_stay P (pass ev.elapsed w) s c ev;
        known = served_known P (pass ev.elapsed w) s c ev;
      })
      (λ l. failed P w s c other (pass ev.elapsed w) s (λ k h. h))
      (λ l.
        failed P w s c other _ (served-Sound P (pass ev.elapsed w) s c ev a)
          (served_stay P (pass ev.elapsed w) s c ev))

-- ===== src/Settlement/Redis/Laws.antt =====
-- Redis: what is read after a write.
use mesh_settle.Prelude.{ℕ, ◌+◌, ◌*◌, ◌≡◌, some, none, Text, text_eq_refl}
use mesh_settle.Settlement.Redis.{Keys, set, delete}

pub set_self :
    (clock : ℕ) (k v : Text) (ttl : ℕ) (r : Keys)
    → set clock k v ttl r k ≡ some (record { value = v; expires = clock + ttl * 1000 })
unfolding set
set_self clock k v ttl r = rw (text_eq_refl k)

pub delete_self : (k : Text) (r : Keys) → delete k r k ≡ none
unfolding delete
delete_self k r = rw (text_eq_refl k)

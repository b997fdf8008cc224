-- ===== src/Crypto/Json/Members.antt =====
-- What `dumps` prints of a mapping with texts for values determines the mapping.
use mesh_settle.Prelude.{◌≡◌, ◌≢◌, refl, ap, sym, ◌∙◌, List, [], ◌∷◌, ◌++◌, append_assoc, Text}
use mesh_settle.Crypto.Utf8.Decoding.{utf8_encode_injective}
use mesh_settle.Crypto.Json.{
  str, Items, quote, dump_value, dump_member, dump_members, sort_items, dumps, canonical_json,
}
use mesh_settle.Crypto.Json.Reading.{quote-append_injective, drop_one}

-- The mapping that has these texts for values.
abbrev pub texts : List (Text × Text) → Items
texts [] = []
texts ((k, v) ∷ m) = (k, str v) ∷ texts m

-- A member can be told from what follows it.
dump_member-append_injective :
    (k v l w r r' : Text)
    → dump_member (k, str v) ++ r ≡ dump_member (l, str w) ++ r'
    → (k ≡ l) × (v ≡ w) × (r ≡ r')
unfolding dump_member dump_value
dump_member-append_injective k v l w r r' e =
    let a = quote-append_injective k l (b':' ∷ (quote v ++ r)) (b':' ∷ (quote w ++ r')) (
      sym (append_assoc (quote k) (b':' ∷ quote v) r)
      ∙ e
      ∙ append_assoc (quote l) (b':' ∷ quote w) r') in
    let b = quote-append_injective v w r r' (ap drop_one a.1) in (a.0, b.0, b.1)

-- What stands behind a member: the others, each after a comma, and the closing brace.
behind : List (Text × Text) → Text → Text
behind [] r = b'}' ∷ r
behind ((k, v) ∷ m) r = b',' ∷ (dump_member (k, str v) ++ behind m r)

dump_members-behind :
    (k v : Text) (m : List (Text × Text)) (r : Text)
    → dump_members (texts ((k, v) ∷ m)) ++ b'}' ∷ r ≡ dump_member (k, str v) ++ behind m r
unfolding dump_members behind
dump_members-behind k v [] r = refl
dump_members-behind k v ((l, w) ∷ m) r =
    append_assoc (dump_member (k, str v)) _ (b'}' ∷ r)
    ∙ ap (λ (t : Text). dump_member (k, str v) ++ b',' ∷ t) (dump_members-behind l w m r)

behind_injective : (m n : List (Text × Text)) (r r' : Text) → behind m r ≡ behind n r' → m ≡ n
unfolding behind
behind_injective [] [] r r' e = refl
behind_injective [] (y ∷ n) r r' e = cc
behind_injective (x ∷ m) [] r r' e = cc
behind_injective ((k, v) ∷ m) ((l, w) ∷ n) r r' e =
    let a = dump_member-append_injective k v l w (behind m r) (behind n r') (ap drop_one e) in
    let b = behind_injective m n r r' a.2 in λ i. (a.0 i, a.1 i) ∷ b i

-- A member begins with a quotation mark, so it is no closing brace.
brace-ne-member : (k v r : Text) → b'}' ∷ [] ≢ dump_member (k, str v) ++ r
unfolding dump_member quote
brace-ne-member k v r e = cc

closed_injective :
    (m n : List (Text × Text))
    → dump_members (texts m) ++ b'}' ∷ [] ≡ dump_members (texts n) ++ b'}' ∷ []
    → m ≡ n
unfolding dump_members
closed_injective [] [] e = refl
closed_injective [] ((l, w) ∷ n) e =
    absurd (brace-ne-member l w (behind n []) (e ∙ dump_members-behind l w n []))
closed_injective ((k, v) ∷ m) [] e =
    absurd (brace-ne-member k v (behind m []) (sym e ∙ dump_members-behind k v m []))
closed_injective ((k, v) ∷ m) ((l, w) ∷ n) e =
    let a =
      dump_member-append_injective k v l w (behind m []) (behind n [])
        (sym (dump_members-behind k v m []) ∙ e ∙ dump_members-behind l w n []) in
    let b = behind_injective m n [] [] a.2 in λ i. (a.0 i, a.1 i) ∷ b i

-- The canonical bytes of two mappings with texts for values are the same only if the mappings are,
-- in the order of their keys.
pub canonical_json_injective :
    (m n m' n' : List (Text × Text))
    → sort_items (texts m) ≡ texts m'
    → sort_items (texts n) ≡ texts n'
    → canonical_json (texts m) ≡ canonical_json (texts n)
    → m' ≡ n'
unfolding canonical_json dumps
canonical_json_injective m n m' n' p q e =
    let same = utf8_encode_injective (dumps (texts m)) (dumps (texts n)) e in
    closed_injective m' n' (rw (← p, ← q) (ap drop_one same))

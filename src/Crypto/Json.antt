-- ===== src/Crypto/Json.antt =====
-- shared/crypto.py: `canonical_json`, and what it uses of the standard library's json module. The
-- values in the mappings that the program serialises are texts and non-negative integers.
pub mod Reading
pub mod Members
use mesh_settle.Prelude.{
  ℕ, zero, suc, ◌+◌, ◌/◌, ◌%◌, Bool, true, false, List, [], ◌∷◌, ◌++◌, Text, codes, ltb, ◌==◌,
  if◌then◌else◌,
}
use mesh_settle.Crypto.Utf8.{utf8_encode}

-- A lower-case hexadecimal digit.
unfoldable pub hex_char : ℕ → ℕ
hex_char d = if ltb d 10 then d + 48 else d + 87

-- What stands for a character inside a JSON string: `json.encoder.encode_basestring`.
unfoldable pub escape_char : ℕ → Text
escape_char c =
    if c == 34
    then 92 ∷ 34 ∷ []
    else if c == 92
    then 92 ∷ 92 ∷ []
    else if c == 10
    then 92 ∷ b'n' ∷ []
    else if c == 13
    then 92 ∷ b'r' ∷ []
    else if c == 9
    then 92 ∷ b't' ∷ []
    else if c == 12
    then 92 ∷ b'f' ∷ []
    else if c == 8
    then 92 ∷ b'b' ∷ []
    else if ltb c 32
    then 92 ∷ b'u' ∷ b'0' ∷ b'0' ∷ hex_char (c / 16) ∷ hex_char (c % 16) ∷ []
    else c ∷ []

unfoldable pub escape : Text → Text
unfolding escape_char hex_char
escape [] = []
escape (c ∷ s) = escape_char c ++ escape s

unfoldable pub quote : Text → Text
unfolding escape
quote s = 34 ∷ (escape s ++ 34 ∷ [])

-- The decimal digits of a number, put in front of `rest`; the fuel exceeds the number of digits.
unfoldable pub decimal_from : ℕ → ℕ → Text → Text
decimal_from zero n rest = rest
decimal_from (suc fuel) n rest =
    let more = decimal_from fuel (n / 10) ((n % 10 + 48) ∷ rest) in
    if ltb n 10 then (n + 48) ∷ rest else more

unfoldable pub decimal : ℕ → Text
unfolding decimal_from
decimal n = decimal_from (suc n) n []

pub data Value : Type 0 where
  str : Text → Value
  int : ℕ → Value

unfoldable pub dump_value : Value → Text
unfolding quote decimal
dump_value (str s) = quote s
dump_value (int n) = decimal n

-- The order of `sort_keys`: by code points.
unfoldable pub text_le : Text → Text → Bool
text_le [] t = true
text_le (a ∷ s) [] = false
text_le (a ∷ s) (b ∷ t) = if a == b then text_le s t else ltb a b

abbrev pub Items : Type 0
Items = List (Text × Value)

unfoldable pub insert_item : Text × Value → Items → Items
insert_item m [] = m ∷ []
insert_item m (n ∷ rest) = if text_le m.0 n.0 then m ∷ n ∷ rest else n ∷ insert_item m rest

unfoldable pub sort_items : Items → Items
unfolding insert_item text_le
sort_items [] = []
sort_items (m ∷ rest) = insert_item m (sort_items rest)

unfoldable pub dump_member : Text × Value → Text
unfolding quote dump_value
dump_member (k, v) = quote k ++ b':' ∷ dump_value v

-- The members, with the separators (",", ":").
unfoldable pub dump_members : Items → Text
unfolding dump_member
dump_members [] = []
dump_members (m ∷ []) = dump_member m
dump_members (m ∷ n ∷ rest) = dump_member m ++ b',' ∷ dump_members (n ∷ rest)

unfoldable pub dumps : Items → Text
unfolding sort_items dump_members
dumps items = b'{' ∷ (dump_members (sort_items items) ++ b'}' ∷ [])

unfoldable pub canonical_json : Items → List ℕ
unfolding dumps utf8_encode
canonical_json payload = utf8_encode (dumps payload)

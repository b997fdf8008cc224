-- ===== src/Tests/Pem.antt =====
-- A library of PEM texts that keeps what it is required to keep: a key is a line with a letter for
-- its type and its numbers in unary.
use mesh_settle.Prelude.{
  ℕ, zero, suc, ◌+◌, ◌≡◌, refl, sym, ap, ◌∙◌, Bool, true, ◌||◌, Option, none, some, List, [], ◌∷◌,
  ◌++◌, Text, codes, ◌==◌, if◌then◌else◌, arith,
}
use mathlib.Core.List.{cons≢nil}
use mesh_settle.Crypto.Primitives.{Key}
use mesh_settle.Keys.Library.{
  AnyKey, ed25519, rsa, other, is_pem_char, PemLibrary, PemLaws, Written,
}
use mesh_settle.Keys.Pem.{normal_pem}
use mesh_settle.Keys.Strings.{newline, is_space, lstrip, rstrip, strip, before_stripped}
use mesh_settle.Models.Fields.{all_chars}

-- The letters of such lines.
is_letter : ℕ → Bool
is_letter c = c == b'a' || c == b'b' || c == b'e' || c == b'o' || c == b'r'

unary : ℕ → Text → Text
unary zero rest = b'b' ∷ rest
unary (suc n) rest = b'a' ∷ unary n rest

write_key : Key → Text → Text
unfolding unary
write_key [] rest = rest
write_key (n ∷ key) rest = unary n (write_key key rest)

read_key : ℕ → Text → Key
read_key n [] = []
read_key n (c ∷ s) =
    let counted = read_key (suc n) s in
    let ended = read_key 0 s in if c == b'a' then counted else if c == b'b' then n ∷ ended else []

read_key-unary : (m n : ℕ) (rest : Text) → read_key m (unary n rest) ≡ (m + n) ∷ read_key 0 rest
unfolding read_key unary
read_key-unary m zero rest = ap (λ k. k ∷ read_key 0 rest) (omega arith)
read_key-unary m (suc n) rest =
    read_key-unary (suc m) n rest ∙ ap (λ k. k ∷ read_key 0 rest) (omega arith)

read_key-write : (key : Key) → read_key 0 (write_key key (newline ∷ [])) ≡ key
unfolding read_key write_key
read_key-write [] = refl
read_key-write (n ∷ key) =
    read_key-unary 0 n (write_key key (newline ∷ []))
    ∙ ap (λ m. m ∷ read_key 0 (write_key key (newline ∷ []))) (omega arith)
    ∙ ap (λ k. n ∷ k) (read_key-write key)

letter_of : AnyKey → ℕ
letter_of (ed25519 key) = b'e'
letter_of (rsa key) = b'r'
letter_of (other name) = b'o'

numbers_of : AnyKey → List ℕ
numbers_of (ed25519 key) = key
numbers_of (rsa key) = key
numbers_of (other name) = name

toy_pem : AnyKey → Text
unfolding write_key letter_of numbers_of
toy_pem k = letter_of k ∷ write_key (numbers_of k) (newline ∷ [])

toy_load : List ℕ → Option AnyKey
unfolding read_key
toy_load [] = none
toy_load (c ∷ s) =
    if c == b'e'
    then some (ed25519 (read_key 0 s))
    else if c == b'r'
    then some (rsa (read_key 0 s))
    else some (other (read_key 0 s))

toy_load-pem : (k : AnyKey) → toy_load (toy_pem k) ≡ some k
unfolding toy_load toy_pem letter_of numbers_of
toy_load-pem (ed25519 key) = ap (λ x. some (ed25519 x)) (read_key-write key)
toy_load-pem (rsa key) = ap (λ x. some (rsa x)) (read_key-write key)
toy_load-pem (other name) = ap (λ x. some (other x)) (read_key-write name)

-- The text of a key without its line break.
unary-letters :
    (n : ℕ) (rest : Text)
    → all_chars is_letter rest ≡ true
    → all_chars is_letter (unary n rest) ≡ true
unfolding all_chars is_letter unary
unary-letters zero rest h = h
unary-letters (suc n) rest h = unary-letters n rest h

write_key-letters : (key : Key) → all_chars is_letter (write_key key []) ≡ true
unfolding all_chars is_letter write_key
write_key-letters [] = refl
write_key-letters (n ∷ key) = unary-letters n (write_key key []) (write_key-letters key)

unary-append : (n : ℕ) (s t : Text) → unary n (s ++ t) ≡ unary n s ++ t
unfolding unary
unary-append zero s t = refl
unary-append (suc n) s t = ap (λ x. b'a' ∷ x) (unary-append n s t)

write_key-append : (key : Key) (t : Text) → write_key key t ≡ write_key key [] ++ t
unfolding write_key
write_key-append [] t = refl
write_key-append (n ∷ key) t =
    ap (unary n) (write_key-append key t) ∙ unary-append n (write_key key []) t

before-letter : (c : ℕ) (s : Text) → is_letter c ≡ true → before_stripped c s ≡ c ∷ s
unfolding before_stripped is_letter is_space
before-letter c [] h = ground (arith, h)
before-letter c (d ∷ s) h = refl

rstrip-line : (s : Text) → all_chars is_letter s ≡ true → rstrip (s ++ newline ∷ []) ≡ s
unfolding rstrip all_chars is_space
rstrip-line [] h = refl
rstrip-line (c ∷ s) h =
    ap (before_stripped c) (rstrip-line s (ground (arith, h)))
    ∙ before-letter c s (ground (arith, h))

letters-pem :
    (s : Text) → all_chars is_letter s ≡ true → all_chars is_pem_char (s ++ newline ∷ []) ≡ true
unfolding all_chars is_letter is_pem_char
letters-pem [] h = refl
letters-pem (c ∷ s) h = let rest = letters-pem s (ground (arith, h)) in ground (arith, h, rest)

lstrip-letter : (c : ℕ) (s : Text) → is_letter c ≡ true → lstrip (c ∷ s) ≡ c ∷ s
unfolding lstrip is_letter is_space
lstrip-letter c s h = ground (arith, h)

strip-line :
    (c : ℕ) (s : Text) → all_chars is_letter (c ∷ s) ≡ true → strip (c ∷ s ++ newline ∷ []) ≡ c ∷ s
unfolding strip all_chars
strip-line c s h =
    ap rstrip (lstrip-letter c (s ++ newline ∷ []) (ground (arith, h))) ∙ rstrip-line (c ∷ s) h

line-Written :
    (c : ℕ) (s : Text) → all_chars is_letter (c ∷ s) ≡ true → Written (c ∷ s ++ newline ∷ [])
unfolding normal_pem
line-Written c s h = record {
  chars = letters-pem (c ∷ s) h;
  lines = ap (λ t. t ++ newline ∷ []) (strip-line c s h);
  some_text = λ e. cons≢nil (sym (strip-line c s h) ∙ e);
}

letter_of-letter : (k : AnyKey) → is_letter (letter_of k) ≡ true
unfolding is_letter letter_of
letter_of-letter (ed25519 key) = refl
letter_of-letter (rsa key) = refl
letter_of-letter (other name) = refl

toy_pem-Written : (k : AnyKey) → Written (toy_pem k)
unfolding toy_pem all_chars
toy_pem-Written k =
    let letters = write_key-letters (numbers_of k) in
    let first = letter_of-letter k in
    rw (write_key-append (numbers_of k) (newline ∷ []))
      (line-Written (letter_of k) (write_key (numbers_of k) []) (ground (arith, letters, first)))

abbrev type_name : AnyKey → Text
type_name (ed25519 key) = codes "Ed25519Key"
type_name (rsa key) = codes "RSAKey"
type_name (other name) = name

unfoldable pub toy_pem_library : PemLibrary
unfolding toy_pem toy_load
toy_pem_library = record {
  private_type_name = type_name;
  public_type_name = type_name;
  private_pem = toy_pem;
  public_pem = toy_pem;
  load_pem_private_key = toy_load;
  load_pem_public_key = toy_load;
}

pub toy-PemLaws : PemLaws toy_pem_library
unfolding toy_pem_library
toy-PemLaws = record {
  private-Written = toy_pem-Written;
  public-Written = toy_pem-Written;
  load_pem_private_key-pem = toy_load-pem;
  load_pem_public_key-pem = toy_load-pem;
}

-- ===== src/Prelude/Lists.antt =====
-- Lists measured by native numbers, predicates on every element, and code points of a literal.
use Prim.Native.Char.{code}
use Prim.Native.Nat.{ℕ, zero, suc, ◌+◌}
use Prim.Native.String.{String}
use mathlib.Core.Path.{◌≡◌, refl}
use mathlib.Core.Logic.{◌⊎◌, inl, inr}
use mathlib.Core.List.{List, [], ◌∷◌, ◌++◌}
use native.Mathlib.Omega.{arith}

module _ {ℓ} {A : Type ℓ} where
  abbrev pub length : List A → ℕ
  length [] = 0
  length (x ∷ xs) = suc (length xs)

  abbrev pub take : ℕ → List A → List A
  take zero xs = []
  take (suc n) [] = []
  take (suc n) (x ∷ xs) = x ∷ take n xs

  abbrev pub replicate : ℕ → A → List A
  replicate zero a = []
  replicate (suc n) a = a ∷ replicate n a

  pub length-append : (xs ys : List A) → length (xs ++ ys) ≡ length xs + length ys
  length-append [] ys = omega arith
  length-append (x ∷ xs) ys = omega (arith, length-append xs ys)

-- A predicate at every element.
abbrev pub All {ℓ κ} : {A : Type ℓ} → (A → Type κ) → List A → Type κ
All P [] = Unit
All P (x ∷ xs) = P x × All P xs

pub All-append {ℓ κ} :
    {A : Type ℓ} (P : A → Type κ) (xs ys : List A) → All P xs → All P ys → All P (xs ++ ys)
All-append P [] ys hx hy = hy
All-append P (x ∷ xs) ys hx hy = (hx.0, All-append P xs ys hx.1 hy)

-- The element between two parts of a list, and the list without it or with it.
module _ {ℓ κ} {A : Type ℓ} (P : A → Type κ) where
  pub All-at : (xs : List A) (y : A) (ys : List A) → All P (xs ++ y ∷ ys) → P y
  All-at [] y ys h = h.0
  All-at (x ∷ xs) y ys h = All-at xs y ys h.1

  pub All-without : (xs : List A) (y : A) (ys : List A) → All P (xs ++ y ∷ ys) → All P (xs ++ ys)
  All-without [] y ys h = h.1
  All-without (x ∷ xs) y ys h = (h.0, All-without xs y ys h.1)

  pub All-with : (xs : List A) (y : A) (ys : List A) → P y → All P (xs ++ ys) → All P (xs ++ y ∷ ys)
  All-with [] y ys p h = (p, h)
  All-with (x ∷ xs) y ys p h = (h.0, All-with xs y ys p h.1)

  pub All-map {κ'} : (Q : A → Type κ') (xs : List A) → ((x : A) → P x → Q x) → All P xs → All Q xs
  All-map Q [] f h = tt
  All-map Q (x ∷ xs) f h = (f x h.0, All-map Q xs f h.1)

-- One of the elements.
abbrev pub Among : {A : Type 0} → A → List A → Type 0
Among x [] = ⊥
Among x (y ∷ ys) = (y ≡ x) ⊎ Among x ys

pub All-Among : {A : Type 0} (xs : List A) → All (λ x. Among x xs) xs
All-Among [] = tt
All-Among (x ∷ xs) = (inl refl, All-map (λ y. Among y xs) _ xs (λ y h. inr h) (All-Among xs))

-- The sum of a number at each element.
unfoldable pub tally {ℓ} : {A : Type ℓ} → (A → ℕ) → List A → ℕ
tally f [] = 0
tally f (x ∷ xs) = f x + tally f xs

pub tally-insert {ℓ} :
    {A : Type ℓ} (f : A → ℕ) (xs : List A) (y : A) (ys : List A)
    → tally f (xs ++ y ∷ ys) ≡ f y + tally f (xs ++ ys)
unfolding tally
tally-insert f [] y ys = refl
tally-insert f (x ∷ xs) y ys = omega (arith, tally-insert f xs y ys)

-- The code points of a literal.
abbrev pub codes : String → List ℕ
codes String.[] = []
codes (String.◌∷◌ c s) = code c ∷ codes s

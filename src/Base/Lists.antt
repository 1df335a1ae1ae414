-- ===== src/Base/Lists.antt =====
-- Lists measured, indexed and counted by native numbers.
use Prim.Native.Nat.{ℕ, zero, suc, ◌+◌}
use mathlib.Core.Path.{◌≡◌, refl}
use mathlib.Core.Bool.{Bool, false, ◌||◌}
use mathlib.Core.List.{List, [], ◌∷◌, ◌++◌}
use mathlib.Core.Option.{Option, none, some}
use native.Mathlib.Omega.{arith}
use cluster_power_manager.Base.Tests.{◌==◌, if◌then◌else◌}

module _ {ℓ} {A : Type ℓ} where
  abbrev pub length : List A → ℕ
  length [] = 0
  length (x ∷ xs) = suc (length xs)

  abbrev pub get_elem? : List A → ℕ → Option A
  get_elem? [] i = none
  get_elem? (x ∷ xs) zero = some x
  get_elem? (x ∷ xs) (suc i) = get_elem? xs i

  abbrev pub take : ℕ → List A → List A
  take zero xs = []
  take (suc n) [] = []
  take (suc n) (x ∷ xs) = x ∷ take n xs

  abbrev pub drop : ℕ → List A → List A
  drop zero xs = xs
  drop (suc n) [] = []
  drop (suc n) (x ∷ xs) = drop n xs

  -- A write out of bounds changes nothing.
  abbrev pub set : List A → ℕ → A → List A
  set [] i v = []
  set (x ∷ xs) zero v = v ∷ xs
  set (x ∷ xs) (suc i) v = x ∷ set xs i v

  pub length-append : (xs ys : List A) → length (xs ++ ys) ≡ length xs + length ys
  length-append [] ys = omega arith
  length-append (x ∷ xs) ys = omega (arith, length-append xs ys)

-- The statement holds of every element.
abbrev pub All {ℓ κ} : {A : Type ℓ} → (A → Type κ) → List A → Type κ
All P [] = Unit
All P (x ∷ xs) = P x × All P xs

abbrev pub contains : ℕ → List ℕ → Bool
contains a [] = false
contains a (x ∷ xs) = x == a || contains a xs

abbrev pub suc_index : Option ℕ → Option ℕ
suc_index none = none
suc_index (some i) = some (suc i)

-- How many elements pass a test, and where the first one stands.
module _ {ℓ} {A : Type ℓ} where
  abbrev pub count_if : (A → Bool) → List A → ℕ
  count_if p [] = 0
  count_if p (x ∷ xs) = (if p x then 1 else 0) + count_if p xs

  abbrev pub index_where : (A → Bool) → List A → Option ℕ
  index_where p [] = none
  index_where p (x ∷ xs) = if p x then some 0 else suc_index (index_where p xs)

  -- Go's `size := len(l)-1; l[i] = l[size]; l = l[:size]`. (`none` is an index out of range.)
  abbrev pub swap_remove : ℕ → List A → Option (List A)
  swap_remove i [] = none
  swap_remove i (x ∷ xs) = elim (get_elem? (x ∷ xs) (length xs)) [
    | none ↦ none
    | some last ↦ some (take (length xs) (set (x ∷ xs) i last))
  ]

module _ {ℓ} {A : Type ℓ} where
  pub count_if-append :
      (p : A → Bool) (xs ys : List A) → count_if p (xs ++ ys) ≡ count_if p xs + count_if p ys
  count_if-append p [] ys = omega arith
  count_if-append p (x ∷ xs) ys = omega (arith, count_if-append p xs ys)

  -- Two tests that agree on what fails a third count alike where nothing passes the third.
  pub count_if-agree :
      (p q r : A → Bool) (xs : List A)
      → count_if p xs ≡ 0
      → ((x : A) → p x ≡ false → q x ≡ r x)
      → count_if q xs ≡ count_if r xs
  count_if-agree p q r [] e h = refl
  count_if-agree p q r (x ∷ xs) e h = ground (arith, h x, count_if-agree p q r xs (ground arith) h)

abbrev pub count : ℕ → List ℕ → ℕ
count a = count_if λ x. x == a

pub count-append : (c : ℕ) (l m : List ℕ) → count c (l ++ m) ≡ count c l + count c m
count-append c = count_if-append λ x. x == c

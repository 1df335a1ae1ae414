-- ===== src/Base/SwapRemove.antt =====
-- Removal by swapping with the last element: what is left, counted.
use Prim.Native.Nat.{ℕ, zero, suc, ◌+◌, ◌<◌}
use mathlib.Core.Path.{◌≡◌, refl, subst}
use mathlib.Core.Logic.{inl, inr}
use mathlib.Core.Bool.{Bool, true}
use mathlib.Core.List.{List, [], ◌∷◌}
use mathlib.Core.Option.{none, some}
use native.Mathlib.Omega.{arith}
use cluster_power_manager.Base.Tests.{if◌then◌else◌, Bool-cases, Option-cases}
use cluster_power_manager.Base.Lists.{
  length, get_elem?, take, set, count_if, index_where, swap_remove,
}

module _ {ℓ} {A : Type ℓ} (q : A → Bool) where
  -- Dropping the last element.
  count_if-init :
      (k : ℕ) (xs : List A) (last : A)
      → length xs ≡ suc k
      → get_elem? xs k ≡ some last
      → count_if q (take k xs) + (if q last then 1 else 0) ≡ count_if q xs
  count_if-init k [] last n h = absurd (cc)
  count_if-init zero (x ∷ []) last n h = ground arith
  count_if-init zero (x ∷ y ∷ xs) last n h = absurd (omega arith)
  count_if-init (suc k) (x ∷ xs) last n h = omega (arith, count_if-init k xs last (omega arith) h)

  count_if-set_last :
      (k i : ℕ) (xs : List A) (x last : A)
      → length xs ≡ suc k
      → get_elem? xs i ≡ some x
      → get_elem? xs k ≡ some last
      → count_if q (take k (set xs i last)) + (if q x then 1 else 0) ≡ count_if q xs
  count_if-set_last k i [] x last n e h = absurd (cc)
  count_if-set_last zero zero (y ∷ []) x last n e h = ground arith
  count_if-set_last zero (suc i) (y ∷ []) x last n e h = absurd (cc)
  count_if-set_last zero i (y ∷ z ∷ xs) x last n e h = absurd (omega arith)
  count_if-set_last (suc k) zero (y ∷ xs) x last n e h =
      ground (arith, count_if-init k xs last (omega arith) h)
  count_if-set_last (suc k) (suc i) (y ∷ xs) x last n e h =
      omega (arith, count_if-set_last k i xs x last (omega arith) e h)

  pub count_if-swap_remove :
      (i : ℕ) (xs : List A) (x : A) {ys : List A}
      → get_elem? xs i ≡ some x
      → swap_remove i xs ≡ some ys
      → count_if q ys + (if q x then 1 else 0) ≡ count_if q xs
  count_if-swap_remove i [] x e h = absurd (cc)
  count_if-swap_remove i (y ∷ xs) x {ys} e h =
      elim (Option-cases (get_elem? (y ∷ xs) (length xs))) [
        | inl m ↦ absurd (cc)
        | inr (last, m) ↦
            let c = count_if-set_last (length xs) i (y ∷ xs) x last refl e m in
            let r : take (length xs) (set (y ∷ xs) i last) ≡ ys = cc in
            subst (λ l. count_if q l + (if q x then 1 else 0) ≡ count_if q (y ∷ xs)) r c
      ]

module _ {ℓ} {A : Type ℓ} (p : A → Bool) where
  -- The index found is that of an element that passes.
  pub index_where_sound :
      (xs : List A) {i : ℕ}
      → index_where p xs ≡ some i
      → (x : A) × (get_elem? xs i ≡ some x) × (p x ≡ true)
  index_where_sound [] h = absurd (cc)
  index_where_sound (x ∷ xs) {i} h = elim (Bool-cases (p x)) [
    | inl hit ↦ (x, ground arith, hit)
    | inr miss ↦ elim (Option-cases (index_where p xs)) [
      | inl e ↦ absurd (ground arith)
      | inr (j, e) ↦ let (y, g, py) = index_where_sound xs e in (y, ground arith, py)
    ]
  ]

  -- An element that passes is found, and its removal does not run out of range.
  pub index_where-total : (xs : List A) → 0 < count_if p xs → (i : ℕ) × (index_where p xs ≡ some i)
  index_where-total [] h = absurd (omega arith)
  index_where-total (x ∷ xs) h = elim (Bool-cases (p x)) [
    | inl hit ↦ (0, rw hit)
    | inr miss ↦ let (i, e) = index_where-total xs (ground arith) in (suc i, ground arith)
  ]

get_elem?-last {ℓ} :
    {A : Type ℓ} (y : A) (xs : List A) → (last : A) × (get_elem? (y ∷ xs) (length xs) ≡ some last)
get_elem?-last y [] = (y, refl)
get_elem?-last y (x ∷ xs) = get_elem?-last x xs

pub swap_remove-total {ℓ} :
    {A : Type ℓ} (i : ℕ) (xs : List A) (x : A)
    → get_elem? xs i ≡ some x
    → (ys : List A) × (swap_remove i xs ≡ some ys)
swap_remove-total i [] x e = absurd (cc)
swap_remove-total i (y ∷ xs) x e =
    let (last, m) = get_elem?-last y xs in
    (take (length xs) (set (y ∷ xs) i last), rw (m, swap_remove))

-- Nothing found, nothing there.
pub index_where-none {ℓ} :
    {A : Type ℓ} (p : A → Bool) (xs : List A) → index_where p xs ≡ none → count_if p xs ≡ 0
index_where-none p [] h = refl
index_where-none p (x ∷ xs) h = elim (Option-cases (index_where p xs)) [
  | inl e ↦ ground (arith, index_where-none p xs e)
  | inr (i, e) ↦ absurd (ground arith)
]

-- ===== src/Agent/CoreList/RoundTrip.antt =====
-- Printing a list of cores and reading it again (controllers/common.go,
-- controllers/powerpod_controller.go).
use cluster_power_manager.Base.{
  ℕ, zero, suc, ◌+◌, ◌-◌, ◌^◌, ◌≡◌, ◌≤◌, ◌<◌, refl, ap, sym, ◌∙◌, ◌==◌, true, false, Bool-cases,
  inl, inr, List, [], ◌∷◌, ◌++◌, some, arith, leb, All, sub64,
}
use cluster_power_manager.Agent.CoreList.{
  split, show, parse_uint32, count_up, range, parse_hyphenated, parse_parts, or_empty,
  get_clean_core_list, insert, sort, segment, is_digit, pretty_runs, pretty_sorted,
  prettify_core_list,
}
use cluster_power_manager.Agent.CoreList.Digits.{
  show-Digits, parse_uint32-show, atoi-show, Without, Digits-Without, split-Without, split-append,
}

-- Every number is below 2^32, and at least the one before it.
abbrev pub AscendingFrom : ℕ → List ℕ → Type 0
AscendingFrom a [] = Unit {0}
AscendingFrom a (x ∷ xs) = (a ≤ x) × (x < 2 ^ 32) × AscendingFrom x xs

count_up-snoc : (a k : ℕ) (xs : List ℕ) → count_up a (suc k) ++ xs ≡ count_up a k ++ ((a + k) ∷ xs)
count_up-snoc a zero xs = ap (λ n. n ∷ xs) (omega arith)
count_up-snoc a (suc k) xs =
    ap (λ l. a ∷ l)
      (count_up-snoc (a + 1) k xs ∙ ap (λ n. count_up (a + 1) k ++ (n ∷ xs)) (omega arith))

range-snoc :
    (a b : ℕ) (xs : List ℕ) → a ≤ b + 1 → range a (b + 1) ++ xs ≡ range a b ++ ((b + 1) ∷ xs)
range-snoc a b xs h =
    let k : b + 1 + 1 - a ≡ suc (b + 1 - a) = omega arith in
    ap (λ n. count_up a n ++ xs) k
    ∙ count_up-snoc a (b + 1 - a) xs
    ∙ ap (λ n. count_up a (b + 1 - a) ++ (n ∷ xs))
        (let e : a + (b + 1 - a) ≡ b + 1 = omega arith in e)

range_one : (a : ℕ) → range a a ≡ a ∷ []
range_one a = let e : a + 1 - a ≡ 1 = omega arith in ap (count_up a) e

show-Without : (sep n : ℕ) → is_digit sep ≡ false → Without sep (show n)
show-Without sep n h = Digits-Without sep (show n) h (show-Digits n)

Without-append : (sep : ℕ) (l m : List ℕ) → Without sep l → Without sep m → Without sep (l ++ m)
Without-append sep [] m h k = k
Without-append sep (x ∷ l) m h k = (h.0, Without-append sep l m h.1 k)

segment-Without : (a b : ℕ) → Without b',' (segment a b)
segment-Without a b = elim (Bool-cases (a == b)) [
  | inl e ↦ rw e (show-Without b',' a refl)
  | inr e ↦ rw e (
      Without-append b',' (show a) (b'-' ∷ show b) (show-Without b',' a refl)
        (refl, show-Without b',' b refl))
]

parse-segment :
    (a b : ℕ) → a ≤ b → b < 2 ^ 32 → parse_hyphenated (split b'-' (segment a b)) ≡ some (range a b)
parse-segment a b h k = elim (Bool-cases (a == b)) [
  | inl e ↦ rw e (
      rw (split-Without b'-' (show a) (show-Without b'-' a refl)) (
        rw (parse_uint32-show a (omega arith))
          (ap some (sym (range_one a) ∙ ap (range a) (the_same e)))))
  | inr e ↦ rw e (
      rw (split-append b'-' (show a) (show b) (show-Without b'-' a refl)) (
        rw (split-Without b'-' (show b) (show-Without b'-' b refl))
          (rw (atoi-show a (omega arith)) (rw (atoi-show b (omega arith)) refl))))
]
  where
    the_same : a == b ≡ true → a ≡ b
    the_same e = ground arith

parse_parts-segment :
    (a b : ℕ) (rest : List ℕ) (found : List ℕ)
    → a ≤ b
    → b < 2 ^ 32
    → parse_parts (split b',' rest) ≡ some found
    → parse_parts (split b',' (segment a b ++ (b',' ∷ rest))) ≡ some (range a b ++ found)
unfolding parse_parts
parse_parts-segment a b rest found h k e =
    rw (split-append b',' (segment a b) rest (segment-Without a b))
      (rw (parse-segment a b h k) (rw e refl))

parse-pretty_runs :
    (a b : ℕ) (xs : List ℕ)
    → a ≤ b
    → b < 2 ^ 32
    → AscendingFrom b xs
    → parse_parts (split b',' (pretty_runs a b xs)) ≡ some (range a b ++ xs)
unfolding parse_parts pretty_runs
parse-pretty_runs a b [] h k u =
    rw (split-Without b',' (segment a b) (segment-Without a b)) (rw (parse-segment a b h k) refl)
parse-pretty_runs a b (x ∷ xs) h k u = elim (Bool-cases (sub64 x b == 1)) [
  | inl e ↦ rw e (
      parse-pretty_runs a x xs (omega arith) u.1 u.2
      ∙ ap some (
          ap (λ n. range a n ++ xs) (next e)
          ∙ range-snoc a b xs (omega arith)
          ∙ ap (λ n. range a b ++ (n ∷ xs)) (sym (next e))))
  | inr e ↦ rw e (
      parse_parts-segment a b (pretty_runs x x xs) (x ∷ xs) h k
        (parse-pretty_runs x x xs (omega arith) u.1 u.2 ∙ ap (λ l. some (l ++ xs)) (range_one x)))
]
  where
    next : sub64 x b == 1 ≡ true → x ≡ b + 1
    next e = ground (arith, u.0, u.1)

insert-AscendingFrom :
    (a x : ℕ) (xs : List ℕ)
    → a ≤ x
    → x < 2 ^ 32
    → AscendingFrom a xs
    → AscendingFrom a (insert x xs)
unfolding insert
insert-AscendingFrom a x [] h k u = (h, k, tt)
insert-AscendingFrom a x (y ∷ ys) h k u = elim (Bool-cases (leb x y)) [
  | inl e ↦ rw e (h, k, (ground arith, u.1, u.2))
  | inr e ↦ rw e (u.0, u.1, insert-AscendingFrom y x ys (ground arith) k u.2)
]

sort-AscendingFrom : (xs : List ℕ) → All (λ x. x < 2 ^ 32) xs → AscendingFrom 0 (sort xs)
unfolding sort
sort-AscendingFrom [] h = tt
sort-AscendingFrom (x ∷ xs) h =
    insert-AscendingFrom 0 x (sort xs) (omega arith) h.0 (sort-AscendingFrom xs h.1)

pretty_sorted-parse :
    (l : List ℕ) → AscendingFrom 0 l → or_empty (parse_parts (split b',' (pretty_sorted l))) ≡ l
unfolding split parse_parts parse_uint32
pretty_sorted-parse [] u = refl
pretty_sorted-parse (x ∷ xs) u =
    ap or_empty
      (parse-pretty_runs x x xs (omega arith) u.1 u.2 ∙ ap (λ l. some (l ++ xs)) (range_one x))

-- Reading the text that is printed for a list of cores, each below 2^32, gives the cores in ascending
-- order, with their repetitions.
pub prettify_core_list-read :
    (cores : List ℕ)
    → All (λ x. x < 2 ^ 32) cores
    → get_clean_core_list (prettify_core_list cores) ≡ sort cores
unfolding get_clean_core_list prettify_core_list
prettify_core_list-read cores h = pretty_sorted-parse (sort cores) (sort-AscendingFrom cores h)

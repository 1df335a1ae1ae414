-- ===== src/Agent/CoreList/Digits.antt =====
-- Numbers and parts, printed and read (controllers/common.go, controllers/powerpod_controller.go).
use cluster_power_manager.Base.{
  ℕ, zero, suc, ◌+◌, ◌/◌, ◌%◌, ◌^◌, ◌≡◌, ◌<◌, refl, ap, sym, ◌∙◌, ◌==◌, true, false, List, [], ◌∷◌,
  ◌++◌, some, arith, ltb, All, Bool-cases, inl, inr, subst,
}
use cluster_power_manager.Agent.CoreList.{
  split, show_digits, show, is_digit, read_digits, parse_uint32, atoi,
}

show_digits-read :
    (f n : ℕ) (acc : List ℕ) → n < f → read_digits 0 (show_digits f n acc) ≡ read_digits n acc
unfolding show_digits read_digits
show_digits-read zero n acc h = absurd (omega arith)
show_digits-read (suc f) n acc h =
    ground (arith, show_digits-read f (n / 10) ((b'0' + n % 10) ∷ acc))

-- A printed number is a text of digits, at least one.
abbrev pub Digits : List ℕ → Type 0
Digits = All λ c. is_digit c ≡ true

show_digits-Digits : (f n : ℕ) (acc : List ℕ) → Digits acc → Digits (show_digits f n acc)
unfolding show_digits
show_digits-Digits zero n acc h = h
show_digits-Digits (suc f) n acc h =
    ground (arith, show_digits-Digits f (n / 10) ((b'0' + n % 10) ∷ acc))

pub show-Digits : (n : ℕ) → Digits (show n)
unfolding show
show-Digits n = show_digits-Digits (n + 1) n [] tt

show_digits_keep :
    (f n c : ℕ) (cs : List ℕ) → (d : ℕ) × (ds : List ℕ) × (show_digits f n (c ∷ cs) ≡ d ∷ ds)
unfolding show_digits
show_digits_keep zero n c cs = (c, cs, refl)
show_digits_keep (suc f) n c cs = elim (Bool-cases (ltb n 10)) [
  | inl e ↦ (b'0' + n, c ∷ cs, rw e refl)
  | inr e ↦ rw e (show_digits_keep f (n / 10) (b'0' + n % 10) (c ∷ cs))
]

pub show_digits-cons : (f n : ℕ) → (d : ℕ) × (ds : List ℕ) × (show_digits (suc f) n [] ≡ d ∷ ds)
unfolding show_digits
show_digits-cons f n = elim (Bool-cases (ltb n 10)) [
  | inl e ↦ (b'0' + n, [], rw e refl)
  | inr e ↦ rw e (show_digits_keep f (n / 10) (b'0' + n % 10) [])
]

show-suc : (n : ℕ) → show n ≡ show_digits (suc n) n []
unfolding show
show-suc n = ap (λ k. show_digits k n []) (omega arith)

read_digits-show : (n : ℕ) → read_digits 0 (show n) ≡ some n
unfolding show read_digits
read_digits-show n = show_digits-read (n + 1) n [] (omega arith)

pub show_cons : (n : ℕ) → (d : ℕ) × (ds : List ℕ) × (show n ≡ d ∷ ds)
show_cons n = rw (show-suc n) (show_digits-cons n n)

pub parse_uint32-show : (n : ℕ) → n < 2 ^ 32 → parse_uint32 (show n) ≡ some n
unfolding parse_uint32
parse_uint32-show n h = go (show n) (show_cons n) (read_digits-show n)
  where
    go :
        (l : List ℕ)
        → (d : ℕ) × (ds : List ℕ) × (l ≡ d ∷ ds)
        → read_digits 0 l ≡ some n
        → parse_uint32 l ≡ some n
    go l (d, ds, e) r = rw e (rw (sym (ap (read_digits 0) e) ∙ r) (ground arith))

digits_atoi :
    (n d : ℕ) (ds : List ℕ)
    → n < 2 ^ 63
    → is_digit d ≡ true
    → read_digits 0 (d ∷ ds) ≡ some n
    → atoi (d ∷ ds) ≡ some n
unfolding atoi
digits_atoi n d ds h i r = let e : (d == b'+') ≡ false = ground arith in rw e (rw r (ground arith))

pub atoi-show : (n : ℕ) → n < 2 ^ 63 → atoi (show n) ≡ some n
atoi-show n h = go (show_cons n)
  where
    go : (d : ℕ) × (ds : List ℕ) × (show n ≡ d ∷ ds) → atoi (show n) ≡ some n
    go (d, ds, e) = rw e (
        digits_atoi n d ds h (subst Digits e (show-Digits n)).0
          (sym (ap (read_digits 0) e) ∙ read_digits-show n))

-- Texts without a separator, and `split` on them.
abbrev pub Without : ℕ → List ℕ → Type 0
Without sep = All λ c. (c == sep) ≡ false

pub Digits-Without : (sep : ℕ) (l : List ℕ) → is_digit sep ≡ false → Digits l → Without sep l
Digits-Without sep [] h d = tt
Digits-Without sep (c ∷ cs) h d = (ground arith, Digits-Without sep cs h d.1)

pub split-Without : (sep : ℕ) (l : List ℕ) → Without sep l → split sep l ≡ l ∷ []
unfolding split
split-Without sep [] w = refl
split-Without sep (c ∷ cs) w = rw w.0 (rw (split-Without sep cs w.1) refl)

pub split-append :
    (sep : ℕ) (l rest : List ℕ) → Without sep l → split sep (l ++ (sep ∷ rest)) ≡ l ∷ split sep rest
unfolding split
split-append sep [] rest w = ground arith
split-append sep (c ∷ cs) rest w = rw w.0 (rw (split-append sep cs rest w.1) refl)

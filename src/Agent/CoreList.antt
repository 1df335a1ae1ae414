-- ===== src/Agent/CoreList.antt =====
-- Lists of cores as text (prettifyCoreList of controllers/common.go, getCleanCoreList of
-- controllers/powerpod_controller.go). A text is a list of its characters' codes.
-- The proofs stand in the child modules.
pub mod Digits
pub mod RoundTrip
use cluster_power_manager.Base.{
  ℕ, zero, suc, ◌+◌, ◌-◌, ◌*◌, ◌/◌, ◌%◌, ◌^◌, ◌==◌, ◌&&◌, Bool, List, [], ◌∷◌, ◌++◌, Option, none,
  some, if◌then◌else◌, ltb, leb, sub64,
}

-- `strings.Split` at one character.
abbrev pub prepend : ℕ → List (List ℕ) → List (List ℕ)
prepend x [] = (x ∷ []) ∷ []
prepend x (p ∷ ps) = (x ∷ p) ∷ ps

unfoldable pub split : ℕ → List ℕ → List (List ℕ)
split sep [] = [] ∷ []
split sep (x ∷ xs) = let rest = split sep xs in if x == sep then [] ∷ rest else prepend x rest

-- `fmt.Sprintf("%d", n)`: the digits before those in `acc`. A number has fewer digits than its value
-- and one.
unfoldable pub show_digits : ℕ → ℕ → List ℕ → List ℕ
show_digits zero n acc = acc
show_digits (suc f) n acc =
    let more = show_digits f (n / 10) ((b'0' + n % 10) ∷ acc) in
    if ltb n 10 then (b'0' + n) ∷ acc else more

unfoldable pub show : ℕ → List ℕ
show n = show_digits (n + 1) n []

abbrev pub is_digit : ℕ → Bool
is_digit c = leb b'0' c && leb c b'9'

-- The number that decimal digits after `n` make.
unfoldable pub read_digits : ℕ → List ℕ → Option ℕ
read_digits n [] = some n
read_digits n (c ∷ cs) =
    let rest = read_digits (n * 10 + (c - b'0')) cs in if is_digit c then rest else none

abbrev pub below : ℕ → Option ℕ → Option ℕ
below limit none = none
below limit (some n) = if ltb n limit then some n else none

-- `strconv.ParseUint(s, 10, 32)`.
unfoldable pub parse_uint32 : List ℕ → Option ℕ
parse_uint32 [] = none
parse_uint32 (c ∷ cs) = below (2 ^ 32) (read_digits 0 (c ∷ cs))

-- `strconv.Atoi` of a text without `-`.
abbrev pub nonempty_digits : List ℕ → Option ℕ
nonempty_digits [] = none
nonempty_digits (c ∷ cs) = below (2 ^ 63) (read_digits 0 (c ∷ cs))

unfoldable pub atoi : List ℕ → Option ℕ
atoi [] = none
atoi (c ∷ cs) = if c == b'+' then nonempty_digits cs else nonempty_digits (c ∷ cs)

-- `for i := start; i <= end; i++`.
abbrev pub count_up : ℕ → ℕ → List ℕ
count_up a zero = []
count_up a (suc k) = a ∷ count_up (a + 1) k

abbrev pub range : ℕ → ℕ → List ℕ
range a b = count_up a (b + 1 - a)

abbrev pub last_of : List ℕ → List (List ℕ) → List ℕ
last_of p [] = p
last_of p (q ∷ qs) = last_of q qs

abbrev pub one_core : Option ℕ → Option (List ℕ)
one_core none = none
one_core (some n) = some (n ∷ [])

abbrev pub core_range : Option ℕ → Option ℕ → Option (List ℕ)
core_range (some a) (some b) = some (range a b)
core_range _ _ = none

-- One part between commas, split at its hyphens.
abbrev pub parse_hyphenated : List (List ℕ) → Option (List ℕ)
parse_hyphenated [] = none
parse_hyphenated (p ∷ []) = one_core (parse_uint32 p)
parse_hyphenated (p ∷ q ∷ qs) = core_range (atoi p) (atoi (last_of q qs))

abbrev pub join : Option (List ℕ) → Option (List ℕ) → Option (List ℕ)
join (some a) (some b) = some (a ++ b)
join _ _ = none

unfoldable pub parse_parts : List (List ℕ) → Option (List ℕ)
parse_parts [] = some []
parse_parts (p ∷ ps) = join (parse_hyphenated (split b'-' p)) (parse_parts ps)

-- An error anywhere gives the empty list.
abbrev pub or_empty : Option (List ℕ) → List ℕ
or_empty none = []
or_empty (some cores) = cores

unfoldable pub get_clean_core_list : List ℕ → List ℕ
get_clean_core_list text = or_empty (parse_parts (split b',' text))

-- `sort.Slice` by `<` on numbers.
unfoldable pub insert : ℕ → List ℕ → List ℕ
insert x [] = x ∷ []
insert x (y ∷ ys) = if leb x y then x ∷ y ∷ ys else y ∷ insert x ys

unfoldable pub sort : List ℕ → List ℕ
sort [] = []
sort (x ∷ xs) = insert x (sort xs)

abbrev pub segment : ℕ → ℕ → List ℕ
segment a b = if a == b then show a else show a ++ (b'-' ∷ show b)

-- The loop, in the run from `a` to `b`: a core that is next to `b` extends the run, any other begins
-- the next run after a comma.
unfoldable pub pretty_runs : ℕ → ℕ → List ℕ → List ℕ
pretty_runs a b [] = segment a b
pretty_runs a b (x ∷ xs) =
    let longer = pretty_runs a x xs in
    let next = pretty_runs x x xs in if sub64 x b == 1 then longer else segment a b ++ (b',' ∷ next)

abbrev pub pretty_sorted : List ℕ → List ℕ
pretty_sorted [] = []
pretty_sorted (x ∷ xs) = pretty_runs x x xs

unfoldable pub prettify_core_list : List ℕ → List ℕ
prettify_core_list cores = pretty_sorted (sort cores)

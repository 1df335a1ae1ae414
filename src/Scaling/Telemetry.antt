-- ===== src/Scaling/Telemetry.antt =====
-- The usage of CPUs from DPDK's cycle counters (internal/scaling/dpdk_client.go). A `sync.Map` is a
-- function of the CPU. A sample carries 64-bit counters, and arithmetic on them wraps.
use cluster_power_manager.Base.{
  ℕ, zero, suc, ◌/◌, ◌≡◌, ◌≤◌, ◌<◌, refl, ◌∙◌, ap, subst, length, ◌==◌, ◌&&◌, Bool, true, false,
  List, [], ◌∷◌, Option, none, some, arith, if◌then◌else◌, ltb, leb, get_elem?, Bool-cases, inl,
  inr, sub64, mul64,
}

-- `percent` and whether `err` is set.
pub record TelemetryResult : Type 0 where
  pub percent : ℕ
  pub failed : Bool

pub record CycleCounters : Type 0 where
  pub total : ℕ
  pub busy : ℕ

pub record UsageData : Type 0 where
  pub lcore_ids : List ℕ
  pub total_cycles : List ℕ
  pub busy_cycles : List ℕ

pub record Metrics : Type 0 where
  pub prev_usage_cycles : ℕ → Option CycleCounters
  pub delta_usage : ℕ → Option TelemetryResult

abbrev not_provided : TelemetryResult
not_provided = record { percent = 0; failed = true }

-- `map[cpuID] = index`: the last index of an id stays.
abbrev pub later : Option ℕ → Option ℕ → Option ℕ
later none first = first
later (some i) first = some (suc i)

abbrev pub last_index : ℕ → List ℕ → Option ℕ
last_index c [] = none
last_index c (x ∷ xs) = later (last_index c xs) (if x == c then some 0 else none)

-- The share of a window, from the counters before and after it.
unfoldable pub window_result : CycleCounters → CycleCounters → TelemetryResult
window_result prev curr =
    if leb prev.total curr.total && leb prev.busy curr.busy
    then (let delta_total = sub64 curr.total prev.total in
        let delta_busy = sub64 curr.busy prev.busy in
        if delta_total == 0
        then record { percent = 0; failed = false }
        else (let percent = mul64 delta_busy 100 / delta_total in
            record { percent = percent; failed = ltb 100 percent }))
    else not_provided

-- The first sample of a CPU is only the baseline.
abbrev pub with_baseline : Option CycleCounters → CycleCounters → TelemetryResult
with_baseline none curr = not_provided
with_baseline (some prev) curr = window_result prev curr

abbrev at {ℓ} : {A : Type ℓ} → (ℕ → A) → ℕ → A → ℕ → A
at f c v x = if c == x then v else f x

-- The counters of an index; `none` is an index out of range, on which Go panics.
abbrev pub counters_at : UsageData → ℕ → Option CycleCounters
counters_at d i = elim (get_elem? d.total_cycles i) [
  | none ↦ none
  | some total ↦ elim (get_elem? d.busy_cycles i) [
    | none ↦ none
    | some busy ↦ some (record { total = total; busy = busy })
  ]
]

abbrev pub observe : ℕ → CycleCounters → Metrics → Metrics
observe c curr m = record {
  prev_usage_cycles = at m.prev_usage_cycles c (some curr);
  delta_usage = at m.delta_usage c (some (with_baseline (m.prev_usage_cycles c) curr));
}

abbrev pub miss : ℕ → Metrics → Metrics
miss c m = record m { delta_usage = at m.delta_usage c (some not_provided) }

-- One watched CPU. (`none` is a panic.)
abbrev pub on_counters : ℕ → Option CycleCounters → Metrics → Option Metrics
on_counters c none m = none
on_counters c (some curr) m = some (observe c curr m)

abbrev pub on_index : UsageData → ℕ → Option ℕ → Metrics → Option Metrics
on_index d c none m = some (miss c m)
on_index d c (some i) m = on_counters c (counters_at d i) m

abbrev pub and_then : Option Metrics → (Metrics → Option Metrics) → Option Metrics
and_then none f = none
and_then (some m) f = f m

-- The loop of `handleUsage`, on an answer that was read.
unfoldable pub handle_usage : UsageData → List ℕ → Metrics → Option Metrics
handle_usage d [] m = some m
handle_usage d (c ∷ cs) m = and_then (on_index d c (last_index c d.lcore_ids) m) (handle_usage d cs)

unfoldable pub clear_metrics : List ℕ → Metrics → Metrics
clear_metrics [] m = m
clear_metrics (c ∷ cs) m = clear_metrics cs (record {
  prev_usage_cycles = at m.prev_usage_cycles c none;
  delta_usage = at m.delta_usage c none;
})

-- `GetUsagePercent`: the percentage, where there is one without an error.
abbrev percent_of : Option TelemetryResult → Option ℕ
percent_of none = none
percent_of (some r) = if r.failed then none else some r.percent

unfoldable pub get_usage_percent : Metrics → ℕ → Option ℕ
get_usage_percent m c = percent_of (m.delta_usage c)

-- No stored percentage without an error exceeds 100.
abbrev pub IsBounded : Metrics → Type 0
IsBounded m = (c p : ℕ) → get_usage_percent m c ≡ some p → p ≤ 100

some-injective : {A : Type 0} {a b : A} → some a ≡ some b → a ≡ b
some-injective h = cc

window_result-bound :
    (prev curr : CycleCounters) (p : ℕ)
    → percent_of (some (window_result prev curr)) ≡ some p
    → p ≤ 100
unfolding window_result
window_result-bound prev curr p h = ground arith

with_baseline-bound :
    (prev : Option CycleCounters) (curr : CycleCounters) (p : ℕ)
    → percent_of (some (with_baseline prev curr)) ≡ some p
    → p ≤ 100
with_baseline-bound none curr p h = absurd (cc)
with_baseline-bound (some prev) curr p h = window_result-bound prev curr p h

observe-IsBounded :
    (c : ℕ) (curr : CycleCounters) (m : Metrics) → IsBounded m → IsBounded (observe c curr m)
unfolding get_usage_percent
observe-IsBounded c curr m b x p h = elim (Bool-cases (c == x)) [
  | inl e ↦ with_baseline-bound (m.prev_usage_cycles c) curr p (ground (arith, e))
  | inr e ↦ b x p (ground (arith, e))
]

miss-IsBounded : (c : ℕ) (m : Metrics) → IsBounded m → IsBounded (miss c m)
unfolding get_usage_percent
miss-IsBounded c m b x p h = elim (Bool-cases (c == x)) [
  | inl e ↦ absurd (ground arith)
  | inr e ↦ b x p (ground (arith, e))
]

and_then_some :
    {P : Type 0} (o : Option Metrics) (f : Metrics → Option Metrics) {k : Metrics}
    → and_then o f ≡ some k
    → ((n : Metrics) → o ≡ some n → f n ≡ some k → P)
    → P
and_then_some none f e h = absurd (cc)
and_then_some (some n) f e h = h n refl e

-- What holds of the metrics after one CPU holds after all.
module _ (P : Metrics → Type 0) (d : UsageData)
    (observed : (c : ℕ) (curr : CycleCounters) (m : Metrics) → P m → P (observe c curr m))
    (missed : (c : ℕ) (m : Metrics) → P m → P (miss c m)) where
  on_counters-keeps :
      (c : ℕ) (o : Option CycleCounters) (m : Metrics) {k : Metrics}
      → P m
      → on_counters c o m ≡ some k
      → P k
  on_counters-keeps c none m h e = absurd (cc)
  on_counters-keeps c (some curr) m {k} h e = subst P (some-injective e) (observed c curr m h)

  on_index-keeps :
      (c : ℕ) (o : Option ℕ) (m : Metrics) {k : Metrics} → P m → on_index d c o m ≡ some k → P k
  on_index-keeps c none m h e = subst P (some-injective e) (missed c m h)
  on_index-keeps c (some i) m h e = on_counters-keeps c (counters_at d i) m h e

  handle_usage-keeps :
      (cs : List ℕ) (m : Metrics) {k : Metrics} → P m → handle_usage d cs m ≡ some k → P k
  unfolding handle_usage
  handle_usage-keeps [] m h e = subst P (some-injective e) h
  handle_usage-keeps (c ∷ cs) m h e =
      and_then_some (on_index d c (last_index c d.lcore_ids) m) (handle_usage d cs) e
        λ n f g. handle_usage-keeps cs n (on_index-keeps c (last_index c d.lcore_ids) m h f) g

-- Whatever an answer holds, `handleUsage` that comes back keeps every percentage that `GetUsagePercent`
-- reports without an error at 100 or below.
pub handle_usage-IsBounded :
    (d : UsageData) (cs : List ℕ) (m k : Metrics)
    → IsBounded m
    → handle_usage d cs m ≡ some k
    → IsBounded k
handle_usage-IsBounded d cs m k b e =
    handle_usage-keeps IsBounded d observe-IsBounded miss-IsBounded cs m b e

later-bound :
    (o : Option ℕ) (b : Bool) (n i : ℕ)
    → ((j : ℕ) → o ≡ some j → j < n)
    → later o (if b then some 0 else none) ≡ some i
    → i < suc n
later-bound none b n i h e = ground arith
later-bound (some j) b n i h e = ground (arith, h j refl)

last_index-bound : (c : ℕ) (l : List ℕ) (i : ℕ) → last_index c l ≡ some i → i < length l
last_index-bound c [] i h = absurd (cc)
last_index-bound c (x ∷ l) i h =
    later-bound (last_index c l) (x == c) (length l) i (last_index-bound c l) h

get_elem?-total : (l : List ℕ) (i : ℕ) → i < length l → (x : ℕ) × (get_elem? l i ≡ some x)
get_elem?-total [] i h = absurd (omega arith)
get_elem?-total (x ∷ l) zero h = (x, refl)
get_elem?-total (x ∷ l) (suc i) h = get_elem?-total l i (omega arith)

counters_at-total :
    (d : UsageData) (i : ℕ)
    → i < length d.total_cycles
    → i < length d.busy_cycles
    → (k : CycleCounters) × (counters_at d i ≡ some k)
counters_at-total d i a b =
    let (t, e) = get_elem?-total d.total_cycles i a in
    let (y, f) = get_elem?-total d.busy_cycles i b in
    (record { total = t; busy = y }, ground (arith, e, f))

module _ (d : UsageData) (totals : length d.lcore_ids ≤ length d.total_cycles)
    (busies : length d.lcore_ids ≤ length d.busy_cycles) where
  on_index-total :
      (c : ℕ) (o : Option ℕ) (m : Metrics)
      → last_index c d.lcore_ids ≡ o
      → (k : Metrics) × (on_index d c o m ≡ some k)
  on_index-total c none m e = (miss c m, refl)
  on_index-total c (some i) m e =
      let b = last_index-bound c d.lcore_ids i e in
      let (k, f) = counters_at-total d i (omega arith) (omega arith) in
      (observe c k m, ap (λ o. on_counters c o m) f)

  -- On an answer with counters for each of its lcore ids, `handleUsage` comes back, whatever CPUs are
  -- watched: it does not index out of range.
  pub handle_usage-total :
      (cs : List ℕ) (m : Metrics) → (k : Metrics) × (handle_usage d cs m ≡ some k)
  unfolding handle_usage
  handle_usage-total [] m = (m, refl)
  handle_usage-total (c ∷ cs) m =
      let (n, e) = on_index-total c (last_index c d.lcore_ids) m refl in
      let (k, f) = handle_usage-total cs n in (k, ap (λ o. and_then o (handle_usage d cs)) e ∙ f)

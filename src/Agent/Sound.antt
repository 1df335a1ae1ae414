-- ===== src/Agent/Sound.antt =====
-- Steps of the node agent that come back and leave its state good, on calls of the power library that
-- also make and remove pools.
use cluster_power_manager.Base.{
  ℕ, ◌+◌, ◌≡◌, ◌≢◌, ◌<◌, refl, sym, ap, subst, ◌∙◌, Bool, true, false, List, [], ◌∷◌, ◌++◌, Option,
  none, some, String, arith, if◌then◌else◌, inl, inr, Option-cases, count_if-append,
}
use cluster_power_manager.Power.Sysfs.{
  Error, pool_exists, Result, ok, err, panic, deadlock, Action, bind_result, ◌>>=◌,
}
use cluster_power_manager.Power.Host.{
  Pool, reserved, shared, exclusive, same_pool, same_pool_iff, Profile, Host, at_pool,
  with_host_mutex,
}
use cluster_power_manager.Power.Cpu.Moves.{returns}
use cluster_power_manager.Power.Pool.{
  get_exclusive_pool, with_new_pool, set_power_profile, apply_power_profile, remove_call,
  remove_locked, add_locked, add_exclusive_pool,
}
use cluster_power_manager.Power.Pool.Invariant.{
  IsOnHost, IsWellFormed, listings, for_each-consolidate, apply_power_profile-IsWellFormed,
}
use cluster_power_manager.Power.Pool.Members.{with_host_mutex_run}
use cluster_power_manager.Power.Pool.Registry.{remove_locked-IsWellFormed, add_locked-IsWellFormed}
use cluster_power_manager.Power.Pool.Calls.{Call, removes, set_profile, run_call, run_call_releases}
use cluster_power_manager.Power.Pool.Reach.{
  IsValidCall, run_call-IsWellFormed, under_mutex, relocked,
}
use cluster_power_manager.Agent.Machine.{Setup, Agent, on_host, attempt, caught, ask}
use cluster_power_manager.Agent.After.{IsGood}

abbrev pub IsSound : {A : Type 0} → Result A × Agent → Type 0
IsSound r = IsGood r.1 × (returns r.0 ≡ true)

pub bind-IsSound :
    {A B : Type 0} (a : Result A) (t : Agent) (k : A → Action Agent B)
    → IsSound (a, t)
    → ((v : A) → IsGood t → IsSound (k v t))
    → IsSound (bind_result a t k)
bind-IsSound (ok v) t k f h = h v f.0
bind-IsSound (err x) t k f h = (f.0, refl)
bind-IsSound panic t k f h = absurd (let g = f.1 in cc)
bind-IsSound deadlock t k f h = absurd (let g = f.1 in cc)

pub then-IsSound :
    {A B : Type 0} (m : Action Agent A) (k : A → Action Agent B) (s : Agent)
    → IsSound (m s)
    → ((v : A) (t : Agent) → IsGood t → IsSound (k v t))
    → IsSound ((m >>= k) s)
then-IsSound m k s f h = bind-IsSound (m s).0 (m s).1 k f (λ v. h v (m s).1)

pub attempt-IsSound :
    {A : Type 0} (m : Action Agent A) (s : Agent) → IsSound (m s) → IsSound (attempt m s)
attempt-IsSound m s f = (f.0, kept (m s).0 f.1)
  where
    kept : {A : Type 0} (a : Result A) → returns a ≡ true → returns (caught a) ≡ true
    kept (ok v) b = refl
    kept (err x) b = refl
    kept panic b = b
    kept deadlock b = b

-- A read of the server.
pub ask-IsSound :
    {A B : Type 0} (f : ℕ → A) (k : A → Action Agent B) (s : Agent)
    → IsGood s
    → ((a : A) (t : Agent) → IsGood t → IsSound (k a t))
    → IsSound ((ask f >>= k) s)
ask-IsSound f k s g h = h (f s.calls) (record s { calls = s.calls + 1 }) g

pub if-IsSound :
    {A : Type 0} (b : Bool) (m n : Action Agent A) (s : Agent)
    → IsSound (m s)
    → IsSound (n s)
    → IsSound ((if b then m else n) s)
if-IsSound true m n s f g = f
if-IsSound false m n s f g = g

-- What `AddExclusivePool` comes back with.
abbrev added : Pool → Option Error → Result (Pool × Option Error)
added pool x = ok (pool, x)

module _ (e : Setup) (known : e.platform.freq.core_types ≢ []) where
  -- A valid call of the library.
  pub call-IsSound :
      (c : Call) (s : Agent)
      → IsGood s
      → IsValidCall s.host c
      → IsSound (on_host (run_call e.platform c) s)
  call-IsSound c s g v =
      let r = run_call_releases e.platform c s.host known g.1 in
      ((run_call-IsWellFormed e.platform known c s.host v g.1 g.0, r.1, g.2), r.0)

  -- `Remove` and `SetPowerProfile`, also of a pool that is not on the host any more.
  remove_call-IsWellFormed :
      (pool : Pool) (h : Host)
      → h.locked ≡ false
      → IsWellFormed h
      → IsWellFormed (remove_call e.platform pool h).1
  unfolding remove_call
  remove_call-IsWellFormed reserved h f w = w
  remove_call-IsWellFormed shared h f w = w
  remove_call-IsWellFormed (exclusive n) h f w = under_mutex (remove_locked e.platform n) h f (
      remove_locked-IsWellFormed e.platform known n (record h { locked = true })
        (relocked h true w))

  pub remove_call-IsSound :
      (pool : Pool) (s : Agent) → IsGood s → IsSound (on_host (remove_call e.platform pool) s)
  unfolding run_call
  remove_call-IsSound pool s g =
      let r = run_call_releases e.platform (removes pool) s.host known g.1 in
      ((remove_call-IsWellFormed pool s.host g.1 g.0, r.1, g.2), r.0)

  pools_kept :
      (pool : Pool) (profile : Option Profile) (h : Host)
      → (apply_power_profile e.platform pool profile h).1.exclusive_pools ≡ h.exclusive_pools
  unfolding apply_power_profile
  pools_kept pool profile h =
      ap (λ k. k.exclusive_pools)
        (for_each-consolidate e.platform (h.cpus pool)
          (record h { power_profile = at_pool h.power_profile pool profile }))

  under_apply :
      (pool : Pool) (profile : Option Profile) (h : Host)
      → h.locked ≡ false
      → IsWellFormed h
      → let r = with_host_mutex (apply_power_profile e.platform pool profile) h in
        IsWellFormed r.1 × (r.1.exclusive_pools ≡ h.exclusive_pools)
  under_apply pool profile h f w = (
    under_mutex (apply_power_profile e.platform pool profile) h f (
        apply_power_profile-IsWellFormed e.platform pool profile (record h { locked = true })
          (relocked h true w)),
    ap (λ r. r.1.exclusive_pools)
          (with_host_mutex_run (apply_power_profile e.platform pool profile) h f)
        ∙ pools_kept pool profile (record h { locked = true }),
  )

  pub set_power_profile-IsWellFormed :
      (pool : Pool) (profile : Option Profile) (h : Host)
      → h.locked ≡ false
      → IsWellFormed h
      → IsWellFormed (set_power_profile e.platform pool profile h).1
        × ((set_power_profile e.platform pool profile h).1.exclusive_pools ≡ h.exclusive_pools)
  unfolding set_power_profile
  set_power_profile-IsWellFormed reserved profile h f w = (w, refl)
  set_power_profile-IsWellFormed shared profile h f w = under_apply shared profile h f w
  set_power_profile-IsWellFormed (exclusive n) profile h f w =
      under_apply (exclusive n) profile h f w

  pub set_power_profile-IsSound :
      (pool : Pool) (profile : Option Profile) (s : Agent)
      → IsGood s
      → IsSound (on_host (set_power_profile e.platform pool profile) s)
  unfolding run_call
  set_power_profile-IsSound pool profile s g =
      let r = run_call_releases e.platform (set_profile pool profile) s.host known g.1 in
      (((set_power_profile-IsWellFormed pool profile s.host g.1 g.0).0, r.1, g.2), r.0)

  added_locked :
      (name : String) (h : Host) {pool : Pool}
      → (add_locked name h).0 ≡ ok (pool, none)
      → IsOnHost (add_locked name h).1 pool
  unfolding add_locked
  added_locked name h {pool} a = elim (Option-cases (get_exclusive_pool h name)) [
    | inr (q, e) ↦ absurd (
        let g : added q (some pool_exists) ≡ added pool none = rw (e, add_locked) at a in
        no_error g)
    | inl e ↦
        rw (e, add_locked)
          (subst (IsOnHost (with_new_pool h name)) (made (rw (e, add_locked) at a))
            (listed_last h.created h.exclusive_pools))
  ]
    where
      no_error : {q : Pool} → added q (some pool_exists) ≡ added pool none → ⊥
      no_error g = cc

      made : added (exclusive h.created) none ≡ added pool none → exclusive h.created ≡ pool
      made g = ap (λ r. elim r [ ok v ↦ v.0 | _ ↦ pool ]) g

      listed_last : (n : ℕ) (l : List Pool) → 0 < listings (exclusive n) (l ++ exclusive n ∷ [])
      listed_last n l = ground (
        arith,
        count_if-append (λ q. same_pool q (exclusive n)) l (exclusive n ∷ []),
        (same_pool_iff (exclusive n) (exclusive n)).1 refl,
      )

  add_returns : (name : String) (h : Host) → returns (add_locked name h).0 ≡ true
  unfolding add_locked
  add_returns name h = elim (Option-cases (get_exclusive_pool h name)) [
    | inl e ↦ rw (e, add_locked) refl
    | inr (q, e) ↦ rw (e, add_locked) refl
  ]

  pub add-IsSound :
      (name : String) (s : Agent) → IsGood s → IsSound (on_host (add_exclusive_pool name) s)
  unfolding add_exclusive_pool
  add-IsSound name s g =
      let run = with_host_mutex_run (add_locked name) s.host g.1 in
      (
        (
          under_mutex (add_locked name) s.host g.1 (
              add_locked-IsWellFormed name (record s.host { locked = true })
                (relocked s.host true g.0)),
          ap (λ r. r.1.locked) run,
          g.2,
        ),
        ap (λ r. returns r.0) run ∙ add_returns name (record s.host { locked = true }),
      )

  -- A pool that was just made is on the host.
  pub added-IsOnHost :
      (name : String) (h : Host) {pool : Pool}
      → h.locked ≡ false
      → (add_exclusive_pool name h).0 ≡ ok (pool, none)
      → IsOnHost (add_exclusive_pool name h).1 pool
  unfolding add_exclusive_pool
  added-IsOnHost name h {pool} f a =
      let run = with_host_mutex_run (add_locked name) h f in
      subst (λ r. IsOnHost r.1 pool) (sym run)
        (freed pool (added_locked name (record h { locked = true }) (ap (λ r. r.0) (sym run) ∙ a)))
    where
      freed :
          (q : Pool)
          → IsOnHost (add_locked name (record h { locked = true })).1 q
          → IsOnHost (record (add_locked name (record h { locked = true })).1 { locked = false }) q
      freed reserved o = tt
      freed shared o = tt
      freed (exclusive n) o = o

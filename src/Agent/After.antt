-- ===== src/Agent/After.antt =====
-- What a step of the node agent leaves as it should be, and how that composes.
use cluster_power_manager.Base.{
  ℕ, ◌+◌, ◌≡◌, ◌≢◌, refl, sym, ap, subst, ◌∙◌, Bool, true, false, List, [], if◌then◌else◌, inl, inr,
  ◌⊎◌, contains,
}
use cluster_power_manager.Power.Sysfs.{
  Error, Result, ok, err, panic, deadlock, Action, pure, lift, bind_result, ◌>>=◌,
}
use cluster_power_manager.Power.Host.{Pool}
use cluster_power_manager.Power.Cpu.Moves.{returns, Keeps, Keeps-refl, admits}
use cluster_power_manager.Power.Pool.{move_cpu_ids}
use cluster_power_manager.Power.Pool.Loops.{Keeps-trans, Looped}
use cluster_power_manager.Power.Pool.Invariant.{IsOnHost, IsWellFormed, Looped-IsWellFormed}
use cluster_power_manager.Power.Pool.Outside.{move_cpu_ids-Looped}
use cluster_power_manager.Power.Pool.Calls.{run_call_releases, move_ids_to, run_call}
use cluster_power_manager.State.Deletion.{HasUniquePods}
use cluster_power_manager.Agent.Requests.{is_some}
use cluster_power_manager.Agent.Machine.{Setup, Agent, on_host, caught, ask}

-- The pools are well formed, the host's mutex is free, and no two remembered pods have one name.
abbrev pub IsGood : Agent → Type 0
IsGood s = IsWellFormed s.host × (s.host.locked ≡ false) × HasUniquePods s.pods

-- The control plane's socket answers whenever it is asked.
abbrev pub Answers : Setup → Type 0
Answers e = (n : ℕ) → is_some (e.server.list_control_plane n) ≡ true

module _ (may : Pool → Pool → Bool)
    (chain : (p q r : Pool) → may p q ≡ true → may q r ≡ true → may p r ≡ true) (e : Setup) where
  -- From `s`, a step that came back with this result: each CPU is where it was or has made a move that
  -- `may` allows.
  pub record After {A : Type 0} (s : Agent) (r : Result A × Agent) : Type 0 where
    pub good : IsGood r.1
    pub keeps : Keeps s.host r.1.host
    pub moves :
        (x : ℕ)
        → (r.1.host.pool_of x ≡ s.host.pool_of x)
          ⊎ (may (s.host.pool_of x) (r.1.host.pool_of x) ≡ true)
    pub comes_back : Answers e → returns r.0 ≡ true

  -- A step that leaves the host alone.
  pub After-quiet :
      {A : Type 0} (a : Result A) (s t : Agent)
      → t.host ≡ s.host
      → HasUniquePods t.pods
      → IsGood s
      → (Answers e → returns a ≡ true)
      → After s (a, t)
  After-quiet a s t h u g b = record {
    good = (rw h g.0, rw h g.1, u);
    keeps = rw h (Keeps-refl s.host);
    moves = λ x. inl (ap (λ k. k.pool_of x) h);
    comes_back = b;
  }

  After-trans :
      {A B : Type 0} (s t : Agent) (a : Result A) (r : Result B × Agent)
      → After s (a, t)
      → After t r
      → After s r
  After-trans s t a r f g = record {
    good = g.good;
    keeps = Keeps-trans s.host t.host r.1.host f.keeps g.keeps;
    moves = λ x. both x (f.moves x) (g.moves x);
    comes_back = g.comes_back;
  }
    where
      both :
          (x : ℕ)
          → (t.host.pool_of x ≡ s.host.pool_of x)
            ⊎ (may (s.host.pool_of x) (t.host.pool_of x) ≡ true)
          → (r.1.host.pool_of x ≡ t.host.pool_of x)
            ⊎ (may (t.host.pool_of x) (r.1.host.pool_of x) ≡ true)
          → (r.1.host.pool_of x ≡ s.host.pool_of x)
            ⊎ (may (s.host.pool_of x) (r.1.host.pool_of x) ≡ true)
      both x (inl a) (inl b) = inl (b ∙ a)
      both x (inl a) (inr b) = inr (subst (λ q. may q (r.1.host.pool_of x) ≡ true) a b)
      both x (inr a) (inl b) = inr (subst (λ q. may (s.host.pool_of x) q ≡ true) (sym b) a)
      both x (inr a) (inr b) =
          inr (chain (s.host.pool_of x) (t.host.pool_of x) (r.1.host.pool_of x) a b)

  pub bind-After :
      {A B : Type 0} (s t : Agent) (a : Result A) (f : A → Action Agent B)
      → After s (a, t)
      → ((v : A) → IsGood t → After t (f v t))
      → After s (bind_result a t f)
  bind-After s t (ok v) f m k = After-trans s t (ok v) (f v t) m (k v m.good)
  bind-After s t (err d) f m k = record {
    good = m.good;
    keeps = m.keeps;
    moves = m.moves;
    comes_back = λ w. refl;
  }
  bind-After s t panic f m k = record {
    good = m.good;
    keeps = m.keeps;
    moves = m.moves;
    comes_back = λ w. absurd (let f = m.comes_back w in cc);
  }
  bind-After s t deadlock f m k = record {
    good = m.good;
    keeps = m.keeps;
    moves = m.moves;
    comes_back = λ w. absurd (let f = m.comes_back w in cc);
  }

  -- A step and what follows it.
  pub then-After :
      {A B : Type 0} (m : Action Agent A) (k : A → Action Agent B) (s : Agent)
      → After s (m s)
      → ((v : A) (t : Agent) → IsGood t → After t (k v t))
      → After s ((m >>= k) s)
  then-After m k s f h = bind-After s (m s).1 (m s).0 k f (λ v. h v (m s).1)

  pub attempt-After :
      {A : Type 0} (s : Agent) (r : Result A × Agent) → After s r → After s (caught r.0, r.1)
  attempt-After s (a, t) m = record {
    good = m.good;
    keeps = m.keeps;
    moves = m.moves;
    comes_back = λ w. caught-returns a (m.comes_back w);
  }
    where
      caught-returns : {A : Type 0} (a : Result A) → returns a ≡ true → returns (caught a) ≡ true
      caught-returns (ok v) b = refl
      caught-returns (err d) b = refl
      caught-returns panic b = b
      caught-returns deadlock b = b

  -- `MoveCPUIDs` to a pool of the host, of CPUs that may all go there.
  pub move-After :
      (s : Agent) (pool : Pool) (ids : List ℕ)
      → e.platform.freq.core_types ≢ []
      → IsGood s
      → IsOnHost s.host pool
      → ((x : ℕ) → contains x ids ≡ true → may (s.host.pool_of x) pool ≡ true)
      → After s (on_host (move_cpu_ids e.platform pool ids) s)
  move-After s pool ids known g o allowed = record {
    good = (
      Looped-IsWellFormed s.host ids (λ c q. pool) (λ c q. admits q pool)
          (move_cpu_ids e.platform pool ids s.host) (λ x q m. o) g.0 moved,
      moved.keeps.locked_kept ∙ g.1,
      g.2,
    );
    keeps = moved.keeps;
    moves = λ x. goes x (moved.partly x);
    comes_back = λ w. back;
  }
    where
      moved :
          Looped s.host ids
            (λ c q. pool)
            (λ c q. admits q pool)
            (move_cpu_ids e.platform pool ids s.host)
      moved = move_cpu_ids-Looped e.platform pool ids s.host known g.0.consistent g.1

      back : returns (move_cpu_ids e.platform pool ids s.host).0 ≡ true
      back =
          unfold run_call in
          (run_call_releases e.platform (move_ids_to pool ids) s.host known g.1).0

      goes :
          (x : ℕ)
          → ((move_cpu_ids e.platform pool ids s.host).1.pool_of x ≡ s.host.pool_of x)
            ⊎ ((contains x ids ≡ true)
                × ((move_cpu_ids e.platform pool ids s.host).1.pool_of x ≡ pool))
          → ((move_cpu_ids e.platform pool ids s.host).1.pool_of x ≡ s.host.pool_of x)
            ⊎ (may (s.host.pool_of x) ((move_cpu_ids e.platform pool ids s.host).1.pool_of x)
                ≡ true)
      goes x (inl a) = inl a
      goes x (inr (m, b)) = inr (subst (λ q. may (s.host.pool_of x) q ≡ true) (sym b) (allowed x m))

  pub pure-After : {A : Type 0} (a : A) (s : Agent) → IsGood s → After s (pure a s)
  pure-After a s g = After-quiet (ok a) s s refl g.2 g (λ w. refl)

  pub err-After : {A : Type 0} (x : Error) (s : Agent) → IsGood s → After {A = A} s (lift (err x) s)
  err-After x s g = After-quiet (err x) s s refl g.2 g (λ w. refl)

  -- A read of the server, or a change of the agent's state that leaves the pools and pods alone.
  pub ask-After :
      {A B : Type 0} (f : ℕ → A) (k : A → Action Agent B) (s : Agent)
      → IsGood s
      → ((a : A) (t : Agent) → IsGood t → After t (k a t))
      → After s ((ask f >>= k) s)
  ask-After f k s g h =
      let t = record s { calls = s.calls + 1 } in
      bind-After s t (ok (f s.calls)) k (After-quiet (ok (f s.calls)) s t refl g.2 g (λ w. refl))
        (λ a. h a t)

  -- Both branches of a test.
  pub if-After :
      {A : Type 0} (b : Bool) (m n : Action Agent A) (s : Agent)
      → After s (m s)
      → After s (n s)
      → After s ((if b then m else n) s)
  if-After true m n s f g = f
  if-After false m n s f g = g

-- What every step of a kind of moves does, a step of fewer kinds does.
pub After-weaken :
    (may wider : Pool → Pool → Bool)
    (chain : (p q r : Pool) → may p q ≡ true → may q r ≡ true → may p r ≡ true)
    (chain' : (p q r : Pool) → wider p q ≡ true → wider q r ≡ true → wider p r ≡ true) (e : Setup)
    {A : Type 0} (s : Agent) (r : Result A × Agent)
    → ((p q : Pool) → may p q ≡ true → wider p q ≡ true)
    → After may chain e s r
    → After wider chain' e s r
After-weaken may wider chain chain' e s r h m = record {
  good = m.good;
  keeps = m.keeps;
  moves = λ x. go x (m.moves x);
  comes_back = m.comes_back;
}
  where
    go :
        (x : ℕ)
        → (r.1.host.pool_of x ≡ s.host.pool_of x)
          ⊎ (may (s.host.pool_of x) (r.1.host.pool_of x) ≡ true)
        → (r.1.host.pool_of x ≡ s.host.pool_of x)
          ⊎ (wider (s.host.pool_of x) (r.1.host.pool_of x) ≡ true)
    go x (inl a) = inl a
    go x (inr b) = inr (h (s.host.pool_of x) (r.1.host.pool_of x) b)

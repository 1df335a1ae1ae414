-- ===== src/Power/Pool/Loops.antt =====
-- The loops of internal/power/pool.go over CPUs: from what one round does to what the loop does.
use cluster_power_manager.Base.{
  ℕ, ◌≡◌, refl, ap, sym, subst, ◌∙◌, ◌⊎◌, inl, Bool, true, false, List, [], ◌∷◌, arith,
  if◌then◌else◌, contains,
}
use cluster_power_manager.Power.Sysfs.{Result, ok, err, panic, deadlock, Action, bind_result}
use cluster_power_manager.Power.Host.{Pool, Host}
use cluster_power_manager.Power.Cpu.Moves.{IsConsistent, succeeds, Keeps, Keeps-refl, Moved}
use cluster_power_manager.Power.Cpu.Returns.{Returns, bind-Returns}
use cluster_power_manager.Power.Pool.{for_each}

abbrev pub Managed : Host → List ℕ → Type 0
Managed h cpus = (x : ℕ) → contains x cpus ≡ true → contains x h.all_cpus ≡ true

-- A round for the CPU moves it from its pool to the one that `dest` names, or leaves it; it succeeds
-- only where `may` holds of the CPU and its pool.
abbrev pub IsRound : (ℕ → Action Host (Unit {0})) → (ℕ → Pool → Pool) → (ℕ → Pool → Bool) → Type 0
IsRound f dest may =
    (c : ℕ) (h : Host)
    → IsConsistent h
    → contains c h.all_cpus ≡ true
    → Moved h c (dest c (h.pool_of c)) (f c h)
      × (succeeds (f c h).0 ≡ true → may c (h.pool_of c) ≡ true)

-- What the loop over the CPUs leaves: after a success each of them is where `dest` puts it and no other
-- has moved; after an error each of them is where `dest` puts it or where it was.
pub record Looped (h : Host) (cpus : List ℕ) (dest : ℕ → Pool → Pool) (may : ℕ → Pool → Bool)
    (r : Result (Unit {0}) × Host) : Type 0 where
  pub keeps : Keeps h r.1
  pub consistent : IsConsistent r.1
  pub placed :
      succeeds r.0 ≡ true
      → (x : ℕ) → r.1.pool_of x ≡ (if contains x cpus then dest x (h.pool_of x) else h.pool_of x)
  pub allowed : succeeds r.0 ≡ true → (x : ℕ) → contains x cpus ≡ true → may x (h.pool_of x) ≡ true
  pub partly :
      (x : ℕ)
      → (r.1.pool_of x ≡ h.pool_of x)
        ⊎ ((contains x cpus ≡ true) × (r.1.pool_of x ≡ dest x (h.pool_of x)))

pub Keeps-trans : (h k l : Host) → Keeps h k → Keeps k l → Keeps h l
Keeps-trans h k l a b = record {
  all_cpus_kept = b.all_cpus_kept ∙ a.all_cpus_kept;
  power_profile_kept = b.power_profile_kept ∙ a.power_profile_kept;
  pool_name_kept = b.pool_name_kept ∙ a.pool_name_kept;
  exclusive_pools_kept = b.exclusive_pools_kept ∙ a.exclusive_pools_kept;
  created_kept = b.created_kept ∙ a.created_kept;
  locked_kept = b.locked_kept ∙ a.locked_kept;
}

module _ (f : ℕ → Action Host (Unit {0})) (dest : ℕ → Pool → Pool)
    (settled : (c : ℕ) (q : Pool) → dest c (dest c q) ≡ dest c q) (may : ℕ → Pool → Bool)
    (round : IsRound f dest may) where
  -- One round that succeeded, and the rest.
  Looped-cons :
      (h k : Host) (c : ℕ) (cpus : List ℕ) (r : Result (Unit {0}) × Host)
      → Moved h c (dest c (h.pool_of c)) (ok tt, k)
      → may c (h.pool_of c) ≡ true
      → Looped k cpus dest may r
      → Looped h (c ∷ cpus) dest may r
  Looped-cons h k c cpus r m fits l = record {
    keeps = Keeps-trans h k r.1 m.keeps l.keeps;
    consistent = l.consistent;
    placed = λ e x.
        ground (arith, l.placed e x, m.placed x, settled c (h.pool_of c), settled x (h.pool_of x));
    allowed = λ e x y. ground (arith, l.allowed e x, m.placed x, fits);
    partly = λ x. ground (arith, l.partly x, m.placed x, settled c (h.pool_of c));
  }

  Looped-stop :
      (h k : Host) (c : ℕ) (cpus : List ℕ) (r : Result (Unit {0}))
      → succeeds r ≡ false
      → Moved h c (dest c (h.pool_of c)) (r, k)
      → Looped h (c ∷ cpus) dest may (r, k)
  Looped-stop h k c cpus r e m = record {
    keeps = m.keeps;
    consistent = m.consistent;
    placed = λ s x. absurd (cc);
    allowed = λ s x y. absurd (cc);
    partly = λ x. inl (ground (arith, m.placed x));
  }

  Looped-bind :
      (h : Host) (c : ℕ) (cpus : List ℕ) (rest : Action Host (Unit {0}))
      → IsConsistent h
      → Managed h (c ∷ cpus)
      → ((k : Host) → IsConsistent k → Managed k cpus → Looped k cpus dest may (rest k))
      → (r : Result (Unit {0})) → (f c h).0 ≡ r
      → Looped h (c ∷ cpus) dest may (bind_result r (f c h).1 (λ _. rest))
  Looped-bind h c cpus rest i m ih r e = go r e (rw e at moved)
    where
      known : contains c h.all_cpus ≡ true
      known = m c (ground arith)

      moved : Moved h c (dest c (h.pool_of c)) ((f c h).0, (f c h).1)
      moved = (round c h i known).0

      go :
          (r : Result (Unit {0}))
          → (f c h).0 ≡ r
          → Moved h c (dest c (h.pool_of c)) (r, (f c h).1)
          → Looped h (c ∷ cpus) dest may (bind_result r (f c h).1 (λ _. rest))
      go (ok u) e w =
          Looped-cons h (f c h).1 c cpus (rest (f c h).1) w ((round c h i known).1 (ap succeeds e))
            (ih (f c h).1 w.consistent λ x y.
              subst (λ l. contains x l ≡ true) (sym w.keeps.all_cpus_kept) (m x (ground arith)))
      go (err d) e w = Looped-stop h (f c h).1 c cpus (err d) refl w
      go panic e w = Looped-stop h (f c h).1 c cpus panic refl w
      go deadlock e w = Looped-stop h (f c h).1 c cpus deadlock refl w

  pub for_each-Looped :
      (cpus : List ℕ) (h : Host)
      → IsConsistent h
      → Managed h cpus
      → Looped h cpus dest may (for_each f cpus h)
  unfolding for_each
  for_each-Looped [] h i m = record {
    keeps = Keeps-refl h;
    consistent = i;
    placed = λ e x. refl;
    allowed = λ e x y. absurd (cc);
    partly = λ x. inl refl;
  }
  for_each-Looped (c ∷ cpus) h i m =
      Looped-bind h c cpus (for_each f cpus) i m (for_each-Looped cpus) (f c h).0 refl

pub for_each-Returns :
    (f : ℕ → Action Host (Unit {0})) (cpus : List ℕ)
    → ((c : ℕ) → Returns (f c))
    → Returns (for_each f cpus)
unfolding for_each
for_each-Returns f [] back h = refl
for_each-Returns f (c ∷ cpus) back h =
    bind-Returns (f c) (λ _. for_each f cpus) (back c) (λ _. for_each-Returns f cpus back) h

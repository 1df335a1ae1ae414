-- ===== src/Agent/Placement/Destinations.antt =====
-- Where the loop over the containers leaves their CPUs (controllers/powerpod_controller.go).
use cluster_power_manager.Base.{
  ℕ, ◌≡◌, ◌≢◌, sym, ap, ◌∙◌, Bool, true, false, List, [], ◌∷◌, some, String, inl, inr, ◌⊎◌,
}
use cluster_power_manager.Power.Sysfs.{
  Error, api_failed, Result, ok, err, panic, deadlock, pure, bind_result,
}
use cluster_power_manager.Power.Host.{
  Pool, reserved, shared, exclusive, is_exclusive, same_pool, Host,
}
use cluster_power_manager.Power.Pool.Invariant.{IsWellFormed}
use cluster_power_manager.Power.Pool.Outside.{get_exclusive_pool_lem}
use cluster_power_manager.Agent.Cluster.{PowerContainer}
use cluster_power_manager.Agent.Machine.{Setup, Agent}
use cluster_power_manager.Agent.Profiles.{is_empty}
use cluster_power_manager.State.Deletion.{HasUniquePods}
use cluster_power_manager.Agent.After.{IsGood, After}
use cluster_power_manager.Agent.Placement.{
  Step, waits, goes_on, place_container, Placed, waiting, placed_all, append_placed, on_step,
  place_containers,
}
use cluster_power_manager.Agent.Placement.Steps.{
  IsPlaced, IsSame, IsBlocked, IsStepPlaced, same_pools, place_container-Placed,
}
use cluster_power_manager.Agent.Placement.Running.{
  enters, enters_chain, place_container-Runs, place_containers-Runs,
}

abbrev pub IsOneBlocked : Host → List PowerContainer → Type 0
IsOneBlocked h [] = true ≡ false
IsOneBlocked h (c ∷ cs) = IsBlocked h c ⊎ IsOneBlocked h cs

abbrev pub ArePlaced : Host → List PowerContainer → List PowerContainer → Type 0
ArePlaced h [] [] = Unit {0}
ArePlaced h (c ∷ cs) (d ∷ ds) =
    IsSame d c × (is_empty d.errors ≡ true → IsPlaced h d) × ArePlaced h cs ds
ArePlaced h _ _ = true ≡ false

-- The loop's result: where it did not stop, all its containers; where it waits, one that is blocked; and
-- its only error is that of the API server.
abbrev pub AllPlaced : List PowerContainer → Result Placed → Host → Type 0
AllPlaced cs (ok waiting) h = IsOneBlocked h cs
AllPlaced cs (err x) h = x ≡ api_failed
AllPlaced cs (ok (placed_all ds es)) h = ArePlaced h cs ds
AllPlaced cs _ h = Unit {0}

module _ (e : Setup) (known : e.platform.freq.core_types ≢ []) where
  no_entry : (p q : Pool) → is_exclusive p ≡ true → enters p q ≡ true → ⊥
  unfolding same_pool
  no_entry reserved q a b = absurd (cc)
  no_entry shared q a b = absurd (cc)
  no_entry (exclusive n) q a b = absurd (cc)

  -- What is placed stays there while CPUs only enter exclusive pools.
  stays :
      {A : Type 0} (d : PowerContainer) (s : Agent) (r : Result A × Agent)
      → IsGood s
      → After enters enters_chain e s r
      → IsPlaced s.host d
      → IsPlaced r.1.host d
  stays d s r g a p x m =
      same_pools e known s.host r.1.host d.power_profile a.keeps
      ∙ p x m
      ∙ ap some (sym (still (a.moves x)))
    where
      still :
          (r.1.host.pool_of x ≡ s.host.pool_of x)
            ⊎ (enters (s.host.pool_of x) (r.1.host.pool_of x) ≡ true)
          → r.1.host.pool_of x ≡ s.host.pool_of x
      still (inl same) = same
      still (inr entered) =
          let w = get_exclusive_pool_lem s.host d.power_profile (s.host.pool_of x) g.0 (p x m) in
          absurd (no_entry (s.host.pool_of x) (r.1.host.pool_of x) w.1 entered)

  append_placed-AllPlaced :
      (c d : PowerContainer) (es : List Error) (cs : List PowerContainer) (r : Result Placed)
      (t : Agent)
      → IsSame d c
      → (is_empty d.errors ≡ true → IsPlaced t.host d)
      → AllPlaced cs r t.host
      → let q = bind_result r t (λ placed. pure (append_placed d es placed)) in
        AllPlaced (c ∷ cs) q.0 q.1.host
  append_placed-AllPlaced c d es cs (ok waiting) t a b h = inr h
  append_placed-AllPlaced c d es cs (ok (placed_all ds more)) t a b h = (a, b, h)
  append_placed-AllPlaced c d es cs (err x) t a b h = h
  append_placed-AllPlaced c d es cs panic t a b h = tt
  append_placed-AllPlaced c d es cs deadlock t a b h = tt

  pub place_containers-AllPlaced :
      (uid : String) (assigned : Bool) (cs : List PowerContainer) (s : Agent)
      → IsGood s
      → let r = place_containers e uid assigned cs s in AllPlaced cs r.0 r.1.host
  unfolding place_containers
  place_containers-AllPlaced uid assigned [] s g = tt
  place_containers-AllPlaced uid assigned (c ∷ cs) s g =
      go (place_container e uid assigned c s).0 (place_container-Placed e known uid assigned c s g)
        (place_container-Runs e known uid assigned c s g).good
        (λ now t h. place_containers-AllPlaced uid now cs t h)
    where
      t : Agent
      t = (place_container e uid assigned c s).1

      go :
          (a : Result Step)
          → IsStepPlaced c a t.host
          → IsGood t
          → ((now : Bool) (u : Agent)
              → IsGood u
              → let r = place_containers e uid now cs u in AllPlaced cs r.0 r.1.host)
          → let r = bind_result a t (on_step λ now. place_containers e uid now cs) in
            AllPlaced (c ∷ cs) r.0 r.1.host
      go (ok waits) p h ih = inl p
      go (ok (goes_on d es now)) p h ih =
          let r = place_containers e uid now cs t in
          append_placed-AllPlaced c d es cs r.0 r.1 p.0
            (λ n. stays d t r h (place_containers-Runs e known uid now cs t h) (p.1 n)) (ih now t h)
      go (err x) p h ih = p
      go panic p h ih = tt
      go deadlock p h ih = tt

-- With the core types known, well-formed pools, a free mutex and remembered pods under names of their
-- own: when the loop over the containers has gone through them all, they are the containers that it
-- was given, each as it was or with one more error at the end, and every CPU of a container without
-- errors is in the exclusive pool of the container's profile. When it stops to wait, one of the
-- containers, without errors, has a CPU that is listed neither in that pool nor in the shared one; and
-- its only error is that of the API server. However the loop ends, a CPU that is in another pool than
-- before has gone from the shared pool to an exclusive one.
pub place_containers_lem :
    (e : Setup) (uid : String) (assigned : Bool) (cs : List PowerContainer) (s : Agent)
    → e.platform.freq.core_types ≢ []
    → IsWellFormed s.host
    → s.host.locked ≡ false
    → HasUniquePods s.pods
    → let r = place_containers e uid assigned cs s in
      AllPlaced cs r.0 r.1.host
      × ((x : ℕ)
          → (r.1.host.pool_of x ≡ s.host.pool_of x)
            ⊎ (enters (s.host.pool_of x) (r.1.host.pool_of x) ≡ true))
place_containers_lem e uid assigned cs s known w free u = (
  place_containers-AllPlaced e known uid assigned cs s (w, free, u),
  (place_containers-Runs e known uid assigned cs s (w, free, u)).moves,
)

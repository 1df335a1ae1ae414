-- ===== src/Scaling/Manager.antt =====
-- The workers, one for each scaled CPU (internal/scaling/manager.go, worker.go). `sync.Map` is a
-- function of the CPU; `events` are the starts and stops of the workers' goroutines, newest first.
use cluster_power_manager.Base.{
  ℕ, ◌+◌, ◌≡◌, refl, ◌==◌, ◌||◌, Bool, true, false, List, [], ◌∷◌, Option, none, some, arith,
  if◌then◌else◌, contains, count_if,
}
use cluster_power_manager.Scaling.Updater.{CpuScalingOpts}

pub data Event : Type 0 where
  started stopped : ℕ → Event

pub record Manager : Type 0 where
  pub workers : ℕ → Option CpuScalingOpts
  pub events : List Event

abbrev at : (ℕ → Option CpuScalingOpts) → ℕ → Option CpuScalingOpts → ℕ → Option CpuScalingOpts
at f c v x = if c == x then v else f x

-- A worker that is there gets the new options; `UpdateOpts` stores them.
abbrev store_worker : CpuScalingOpts → Option CpuScalingOpts → Manager → Manager
store_worker o none m = record {
  workers = at m.workers o.cpu (some o);
  events = started o.cpu ∷ m.events;
}
store_worker o (some old) m = record m { workers = at m.workers o.cpu (some o) }

unfoldable pub add_cpu_scaling : List CpuScalingOpts → Manager → Manager
add_cpu_scaling [] m = m
add_cpu_scaling (o ∷ os) m = add_cpu_scaling os (store_worker o (m.workers o.cpu) m)

abbrev drop_worker : ℕ → Option CpuScalingOpts → Manager → Manager
drop_worker c none m = m
drop_worker c (some o) m = record { workers = at m.workers c none; events = stopped c ∷ m.events }

-- `RemoveCPUScaling`; `stop` is this on the CPUs that `getManagedCPUIDs` listed.
unfoldable pub remove_cpu_scaling : List ℕ → Manager → Manager
remove_cpu_scaling [] m = m
remove_cpu_scaling (c ∷ cs) m = remove_cpu_scaling cs (drop_worker c (m.workers c) m)

abbrev starts_of : ℕ → Event → Bool
starts_of c (started x) = x == c
starts_of c (stopped x) = false

abbrev stops_of : ℕ → Event → Bool
stops_of c (started x) = false
stops_of c (stopped x) = x == c

abbrev pub is_managed : ℕ → Manager → Bool
is_managed c m = elim (m.workers c) [ none ↦ false | some o ↦ true ]

-- A CPU has one running goroutine if it has a worker, and none if not.
abbrev pub IsTracked : Manager → Type 0
IsTracked m =
    (c : ℕ)
    → count_if (starts_of c) m.events
      ≡ count_if (stops_of c) m.events + (if is_managed c m then 1 else 0)

-- Some options in the list are for the CPU.
abbrev pub names_cpu : ℕ → List CpuScalingOpts → Bool
names_cpu c [] = false
names_cpu c (o ∷ os) = o.cpu == c || names_cpu c os

-- The last options in the list for the CPU, or those it had.
abbrev pub last_opts : ℕ → List CpuScalingOpts → Option CpuScalingOpts → Option CpuScalingOpts
last_opts c [] old = old
last_opts c (o ∷ os) old = last_opts c os (if o.cpu == c then some o else old)

store_worker-IsTracked :
    (o : CpuScalingOpts) (w : Option CpuScalingOpts) (m : Manager)
    → m.workers o.cpu ≡ w
    → IsTracked m
    → IsTracked (store_worker o w m)
store_worker-IsTracked o none m e t c = ground (arith, t c)
store_worker-IsTracked o (some old) m e t c = ground (arith, t c)

store_worker-workers :
    (o : CpuScalingOpts) (w : Option CpuScalingOpts) (m : Manager) (c : ℕ)
    → (store_worker o w m).workers c ≡ (if o.cpu == c then some o else m.workers c)
store_worker-workers o none m c = refl
store_worker-workers o (some old) m c = refl

add-IsTracked :
    (os : List CpuScalingOpts) (m : Manager) → IsTracked m → IsTracked (add_cpu_scaling os m)
unfolding add_cpu_scaling
add-IsTracked [] m t = t
add-IsTracked (o ∷ os) m t =
    add-IsTracked os (store_worker o (m.workers o.cpu) m)
      (store_worker-IsTracked o (m.workers o.cpu) m refl t)

add-workers :
    (os : List CpuScalingOpts) (m : Manager) (c : ℕ)
    → (add_cpu_scaling os m).workers c ≡ last_opts c os (m.workers c)
unfolding add_cpu_scaling
add-workers [] m c = refl
add-workers (o ∷ os) m c =
    rw
      (
        add-workers os (store_worker o (m.workers o.cpu) m) c,
        store_worker-workers o (m.workers o.cpu) m c,
      )
      refl

-- `AddCPUScaling` leaves every CPU in the list with a worker under the last options that the list has
-- for it, and every other CPU as it was; it starts a goroutine just for the CPUs that had none, so
-- that each managed CPU still has exactly one running.
pub add_cpu_scaling-IsTracked :
    (os : List CpuScalingOpts) (m : Manager) (c : ℕ)
    → IsTracked m
    → ((add_cpu_scaling os m).workers c ≡ last_opts c os (m.workers c))
      × IsTracked (add_cpu_scaling os m)
add_cpu_scaling-IsTracked os m c t = (add-workers os m c, add-IsTracked os m t)

drop_worker-IsTracked :
    (x : ℕ) (w : Option CpuScalingOpts) (m : Manager)
    → m.workers x ≡ w
    → IsTracked m
    → IsTracked (drop_worker x w m)
drop_worker-IsTracked x none m e t c = t c
drop_worker-IsTracked x (some o) m e t c = ground (arith, t c)

drop_worker-workers :
    (x : ℕ) (w : Option CpuScalingOpts) (m : Manager) (c : ℕ)
    → m.workers x ≡ w
    → (drop_worker x w m).workers c ≡ (if x == c then none else m.workers c)
drop_worker-workers x none m c e = ground arith
drop_worker-workers x (some o) m c e = refl

remove-IsTracked : (cs : List ℕ) (m : Manager) → IsTracked m → IsTracked (remove_cpu_scaling cs m)
unfolding remove_cpu_scaling
remove-IsTracked [] m t = t
remove-IsTracked (x ∷ cs) m t =
    remove-IsTracked cs (drop_worker x (m.workers x) m)
      (drop_worker-IsTracked x (m.workers x) m refl t)

pub remove-workers :
    (cs : List ℕ) (m : Manager) (c : ℕ)
    → (remove_cpu_scaling cs m).workers c ≡ (if contains c cs then none else m.workers c)
unfolding remove_cpu_scaling
remove-workers [] m c = refl
remove-workers (x ∷ cs) m c =
    rw
      (
        remove-workers cs (drop_worker x (m.workers x) m) c,
        drop_worker-workers x (m.workers x) m c refl,
      )
      (ground arith)

-- `RemoveCPUScaling` leaves the CPUs in the list without a worker and every other CPU as it was, and
-- stops each goroutine whose worker it took away, so that each managed CPU still has exactly one
-- running and no other CPU has any.
pub remove_cpu_scaling-IsTracked :
    (cs : List ℕ) (m : Manager) (c : ℕ)
    → IsTracked m
    → ((remove_cpu_scaling cs m).workers c ≡ (if contains c cs then none else m.workers c))
      × IsTracked (remove_cpu_scaling cs m)
remove_cpu_scaling-IsTracked cs m c t = (remove-workers cs m c, remove-IsTracked cs m t)

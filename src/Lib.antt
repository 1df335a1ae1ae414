-- ===== src/Lib.antt =====
-- The power manager, modelled from its sources: the power library (internal/power), by which the node
-- agent moves CPUs between pools and writes a pool's profile to sysfs, the scaling of single CPUs by
-- their usage (internal/scaling), and the reconcilers of pods and of node configs (controllers).
--
-- Parts and how they interact. A host (internal/power/host.go) has the CPUs that were discovered, a
-- reserved pool, a shared pool, and exclusive pools that controllers add and remove. A pool
-- (internal/power/pool.go) holds CPUs and a profile. A call on a pool takes the host's mutex and
-- moves CPUs one after another (`setPool` in internal/power/cpu.go); a CPU that has moved is
-- consolidated: the profile of its new pool goes to its cpufreq files (internal/power/p_states.go)
-- and its cpuidle files (internal/power/c_states.go).
--
-- Files. Base has the shared helpers: Boolean tests, lists and integers over the native numbers,
-- 64-bit arithmetic. Power/Sysfs has the files, errors and the way a Go call ends (a value, an error,
-- a panic or a lock that is never free); Power/PStates is p_states.go (setDriverValues and what it
-- calls); Power/CStates is c_states.go (updateCStates); Power/Host is the state of host.go; Power/Cpu
-- is cpu.go (CPUList, setPool, doSetPool, consolidate); Power/Pool is pool.go and the pool calls of
-- host.go (MoveCpus, MoveCPUIDs, SetCPUIDs, SetPowerProfile, Remove, AddExclusivePool).
--
-- Power/NewProfile is power_profile.go, Power/Uncore is uncore.go, and Power/Topology is topology.go
-- with newCPU of cpu.go. Scaling/Updater, Scaling/Manager and Scaling/Telemetry are updater.go,
-- manager.go and dpdk_client.go of internal/scaling: workers that read a CPU's usage and write its
-- frequency by the power library. Api/Reserved is a check of api/v1alpha1/powernodeconfig_webhook.go,
-- Api/Profiles is the admission of changes and deletions by api/v1alpha1/powerprofile_webhook.go,
-- Api/Conflicts is findNodeSelectorConflicts of api/v1alpha1/webhook_helpers.go, and State/Pods and
-- State/Deletion are pkg/podstate/podstate.go. The modules under Tests run the definitions on small
-- inputs.
--
-- Agent is the node agent (controllers), a client of the power library and of the scaling manager.
-- Agent/Cluster is what it reads: API objects, and a server whose answers are functions of the number
-- of the call. Agent/Machine is its state: the host, the remembered pods, the telemetry connections,
-- the workers, and the status patches that the server took. Agent/CoreList is prettifyCoreList and
-- getCleanCoreList; Agent/Profiles and Agent/Selection are common.go; Agent/Requests,
-- Agent/PowerContainers, Agent/ScalingOpts, Agent/Placement and Agent/PowerPod are
-- powerpod_controller.go with pkg/podresourcesclient and the connections of dpdk_client.go;
-- Agent/NodeConfigs is powernodeconfig_controller.go. Agent/After and Agent/Sound are the invariants
-- of a step and their composition. State/Deletion is the deletion loop of pkg/podstate and pkg/state,
-- on the array behind the slice.
--
-- State. A Go object that is shared by pointer is named by a number or a kind, and its fields are
-- functions of that name in the one Host record, so every holder sees a change. A call is a function
-- from the host to a result and the next host. Loops run over lists and need no fuel, except that the
-- printer of numbers has one step more than the number, which has fewer digits, and the retries of
-- the control plane are the three of the source. `uint` is 64 bits wide, and arithmetic on it wraps
-- as written in Base/Word. Sysfs is the log of the writes; which writes fail is an arbitrary
-- function, so every theorem covers every pattern of failures unless it says otherwise.
--
-- Not modelled: the discovery of features from files, sockets and timers, the reconcilers of uncore
-- settings and of the power config, the set-up of the reconcilers and their event filters, logging,
-- the texts of errors (an error text is the error that it describes), and the vendored libraries.
-- `intstr.GetScaledValueFromIntOrPercent` of Kubernetes is a parameter (`scaled`), as are
-- `strconv.Atoi` (`atoi`), the floating-point formula of a scaling step (`next`), what files hold
-- when they are read, the match of a label selector (`selects`), and the text of a CPU set
-- (`cpuset_string`, pkg/cpuset, a copy of a Kubernetes library).
pub mod Base
pub mod Power
pub mod Scaling
pub mod Api
pub mod State
pub mod Agent

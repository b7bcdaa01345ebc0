-- ===== src/Lib.antt =====
-- whaleshell-driver: the drivers that run agent sandboxes on container engines. Modelled is the core of
-- the docker driver, the podman driver's networks and container requests, the configuration of both, the
-- policy on mounts and the registry of backends.
--
-- Parts, and how they interact. A client opens a backend by its kind (driver/open.go). The docker driver
-- (internal/docker) then creates a sandbox: it checks the request (names, ports, GPUs, the host
-- workspace by internal/mounts), pulls the images, makes a network, volumes and the egress sidecar, and
-- asks the Engine for the container; a deferred function cleans up where a step fails. Other operations
-- run commands, list, inspect, stop and delete. The podman driver (internal/podman) is the docker driver
-- with three callbacks: its networks, and with a user namespace its containers, go through Libpod's
-- native API. Each driver reads its settings from a map (ConfigFromMap), and a sandbox brings settings
-- of its own as JSON (driver_config).
--
-- Files.
--   Base          strings as lists of code points, Boolean tests on native numbers, results, maps as
--                 association lists, decimal numbers; the text functions of Go's strings package.
--   Defaults      the constants of the module cauteum-core/defaults and the host (environment
--                 variables, file system): parameters, since their code is not in the repository.
--   GoPath        path.Clean, Dir, Base and Join of Go.
--   Spec          the request types of driver/driver.go.
--   Registry      driver/open.go: register, register_engine, open_driver (Open), open_engine,
--                 open_engine_with_config. Registry/Dispatch: its properties.
--   Name          sanitizeName of internal/docker/docker.go. Name/Shape: its results.
--   Env           mergeEnv and filterIdentityEnv of the same file. Env/Merge, Keys, Identity: which entry
--                 a key finds.
--   Mounts        internal/mounts/reserved.go; Mounts/Workspace internal/mounts/mounts.go. Overlap,
--                 Reserved and Workspace/Denied: what they let through.
--   Gpu           internal/docker/gpu.go. Gpu/Request: validation against the devices given.
--   Limits        internal/docker/resources.go, logconfig.go and two functions of runtime_config.go.
--   Sidecar       the environments of internal/sidecar/sidecar.go.
--   Runtime       RuntimeConfig, and internal/docker/runtime_config.go. Runtime/Quote: shellQuote.
--   Config        what the two ConfigFromMap functions share: values, the checks of paths, files and the
--                 upstream proxy.
--   Json          JSON as encoding/json decodes it, and rejectDuplicateJSONKeys.
--   Errors        the errors of the docker driver.
--   Engine        the requests to the Docker API, as data, and a monad that keeps the history of
--                 requests and asks the daemon for each answer. Engine/Keeps: rules for invariants and for
--                 triples. Engine/Resources: which volumes, networks and containers a history leaves
--                 where every removal is taken to succeed. Engine/Leftovers: the same where only a removal
--                 that was accepted counts.
--   Docker        internal/docker/docker.go: Network (ensureNetwork), Volume (ensureVolume), Image
--                 (ensureImage, pullImage, pullAs, defaultSandboxImage), Exec (Exec, rawExec, the waits),
--                 Proxy (createProxySidecar), Create (Create, its parts in the order of the code),
--                 Create/Container (the request for the container, with its settings, environment,
--                 labels and command in files of their own), Lifecycle (Delete, Stop, List,
--                 Inspect, ContainerIP, EnsureSSHDaemon), PolicyPath (PolicyHostPath), Start (Start,
--                 ensureGuestLayout). Proxy/Within, Create/Native, Create/Rollback, Create/Isolation, Create/Refusal, Start/Outcome,
--                 Create/Container/Identity, Network/Isolation, Lifecycle/Removal, Lifecycle/Lookup,
--                 Exec/Waiting and Exec/Environment: what they guarantee. Keeping: actions that make no
--                 resource keep every invariant that such requests keep.
--   Docker/Config ConfigFromMap of internal/docker/config.go. Docker/DriverConfig
--                 internal/docker/driver_config.go, whose Mount is parseDockerMount; Targets and
--                 Accepted: what it lets through.
--                 Docker/Copy: CopyFrom with extractCopyTar and safeArchiveName; Copy/Inside, Extracted and
--                 Written: which paths it changes, by the rules of Copy/Ends.
--   Podman        internal/podman: Address (the addresses of net/netip and prefixesOverlap; Overlap and
--                 Print: their meaning and their text), Service (the connection, and the calls of
--                 Libpod as a monad), Network (nativeNetworkCallbacks, availableNetworkSubnet; Subnets,
--                 Choice, Creation, Verified and Kept: what a network has), Userns (canonicalUsernsMode,
--                 ID maps; Modes: the canonical forms), Container (the types of libpod_create.go; Storage
--                 and Build: buildNativeSpec; Counts, Kept, Faithful and Sandbox: what the request keeps),
--                 Create (nativeCreate; Request and Sandbox: what it has sent), Credentials
--                 (podmanRegistryAuth and internal/docker/registry_auth.go; Origin: whose they are),
--                 Config (ConfigFromMap), Sockets (ResolveHost, DiscoverSocket), New (NewWithConfig;
--                 Accepted, Files, Proxy and Consistent: the configurations that pass).
--   Tests         concrete inputs.
--
-- State. The daemon is a parameter: functions that answer a request from the whole history before it,
-- so it may behave in any way. `World` is that history, newest first, with the three variables that the
-- deferred function of Create reads. An action returns a result or an error with the world after it.
-- An event is a call of the client: one that failed may never have been sent, as after the caller's
-- context has ended. A call that failed is taken to have made nothing, except the creation of a
-- container through the native API. Where the code reads a field of a null pointer, the result is the
-- error `nil_dereference`, for the panic. The calls of
-- Libpod have a history of their own in the same way, in Podman/Service, and so have the changes of the
-- host's file system in Docker/Copy.
--
-- Bounds and fuel. A wait for readiness makes `rounds` attempts before its deadline, any number; a round in
-- which the context ends is named by `cancelled`. The search for a subnet has 4096
-- candidates and the creation of a native network 32 attempts, as the code has; both end with an error
-- after that. All other functions recurse on their input. Go's
-- integers are ℤ where the code takes the sign, and the conversions to a port are guarded by the checks
-- of Create. Time, map order and float quantities are simplified: an amount of CPU is a number of
-- billionths, and a Go map is a list in one order.
--
-- Parameters, since their code is not in the repository: the answers of the services, cauteum-core, the
-- file system and the environment, the Docker CLI's configuration, the parsers of URLs, image references,
-- IP addresses of version 6, JSON text, base64 and certificates, and SHA-256.
--
-- Not modelled: CopyTo, logs, probes and health, terminal resizing, the building of Linux binaries
-- (internal/sidecar), the stub backends, and all streaming of input and output. The options of a request
-- that do not change in the code, such as Force, are left out of the requests, and so is the stop timeout.
pub mod Base
pub mod Env
pub mod Name
pub mod Defaults
pub mod GoPath
pub mod Mounts
pub mod Spec
pub mod Gpu
pub mod Limits
pub mod Registry
pub mod Errors
pub mod Engine
pub mod Runtime
pub mod Sidecar
pub mod Json
pub mod Config
pub mod Docker
pub mod Podman
pub mod Tests

-- ===== src/Manager.antt =====
-- cmd/manager/main.go: the flags, and the start of the program up to the run of the manager. The
-- libraries (flag, controller-runtime) are parameters: what they are asked is kept in order.
pub mod Following
pub mod Plan
pub mod SettingUp
use argora.Base.{
  ℕ, ◌*◌, String, Bool, true, false, not, List, [], ◌∷◌, ◌++◌, if◌then◌else◌, Option, none, some, ℤ,
  pos,
}
use SettingUp.{
  RateLimiter, Registration, set_up_iron_core, set_up_metal3, set_up_update, set_up_ip_pool_import,
  set_up_ip_update,
}
use argora.Errors.{Error, is_not_found, Result, ok, err, panic}

abbrev second : ℕ
second = 1000000000

abbrev pub rate_limiter_burst_default : ℕ
rate_limiter_burst_default = 200

abbrev pub rate_limiter_frequency_default : ℕ
rate_limiter_frequency_default = 30

-- A `time.Duration` is a number of nanoseconds.
abbrev pub failure_base_delay_default : ℕ
failure_base_delay_default = 1 * second

abbrev pub failure_max_delay_default : ℕ
failure_max_delay_default = 1000 * second

abbrev pub reconcile_interval_default : ℕ
reconcile_interval_default = 5 * (60 * second)

-- `FlagVariables`
pub record FlagVariables : Type 0 where
  pub metrics_addr : String
  pub probe_addr : String
  pub leader_election_namespace : String
  pub netbox_url : String
  pub enable_leader_election : Bool
  pub secure_metrics : Bool
  pub enable_http2 : Bool
  pub enable_iron_core : Bool
  pub failure_base_delay : ℤ
  pub failure_max_delay : ℤ
  pub rate_limiter_frequency : ℤ
  pub rate_limiter_burst : ℤ
  pub reconcile_interval : ℤ

-- What the options of the manager say: the metrics server, the probes and the election of a leader.
-- `next_protos` has the protocols that each TLS option sets.
pub record ManagerOptions : Type 0 where
  pub bind_address : String
  pub secure_serving : Bool
  pub next_protos : List (List String)
  pub health_probe_bind_address : String
  pub leader_election : Bool
  pub leader_election_id : String
  pub leader_election_namespace : String

-- What a reconciler is made with: the URL of NetBox and, but for that of addresses, the interval
pub record Reconciler : Type 0 where
  pub netbox_url : String
  pub interval : Option ℤ

-- What the libraries are asked to do
pub data Request : Type 0 where
  creates_manager : ManagerOptions → Request
  gets_definition : String → Request
  sets_up : Reconciler → Registration → Request
  adds_healthz_check adds_readyz_check : String → Request
  starts : Request

-- The libraries: the value of a flag on the command line, and the reply to a request.
pub record Runtime : Type 1 where
  pub State : Type 0
  pub string_flag : String → String → String
  pub bool_flag : String → Bool → Bool
  pub int_flag : String → ℤ → ℤ
  pub duration_flag : String → ℤ → ℤ
  pub answer : Request → State → Result (Unit {0}) × State

-- `getFlagVariables` and `flag.Parse`
unfoldable pub get_flag_variables : Runtime → FlagVariables
get_flag_variables M = record {
  metrics_addr = M.string_flag "metrics-bind-address" "0";
  probe_addr = M.string_flag "health-probe-bind-address" ":8081";
  leader_election_namespace = M.string_flag "leader-elect-ns" "kube-system";
  netbox_url = M.string_flag "netbox-url" "https://netbox-url";
  enable_leader_election = M.bool_flag "leader-elect" false;
  secure_metrics = M.bool_flag "metrics-secure" true;
  enable_http2 = M.bool_flag "enable-http2" false;
  enable_iron_core = M.bool_flag "enable-ironcore" true;
  rate_limiter_burst = M.int_flag "rate-limiter-burst" (pos rate_limiter_burst_default);
  rate_limiter_frequency = M.int_flag "rate-limiter-frequency" (pos rate_limiter_frequency_default);
  failure_base_delay = M.duration_flag "failure-base-delay" (pos failure_base_delay_default);
  failure_max_delay = M.duration_flag "failure-max-delay" (pos failure_max_delay_default);
  reconcile_interval = M.duration_flag "reconcile-interval" (pos reconcile_interval_default);
}

-- The options that `main` makes of the flags
unfoldable pub manager_options : FlagVariables → ManagerOptions
manager_options f = record {
  bind_address = f.metrics_addr;
  secure_serving = f.secure_metrics;
  next_protos = if f.enable_http2 then [] else ("http/1.1" ∷ []) ∷ [];
  health_probe_bind_address = f.probe_addr;
  leader_election = f.enable_leader_election;
  leader_election_id = "849e53e1.cloud.sap";
  leader_election_namespace = f.leader_election_namespace;
}

unfoldable pub rate_limiter_of : FlagVariables → RateLimiter
rate_limiter_of f = record {
  burst = f.rate_limiter_burst;
  frequency = f.rate_limiter_frequency;
  base_delay = f.failure_base_delay;
  failure_max_delay = f.failure_max_delay;
}

-- The program goes on with a value, has called `os.Exit(1)` with a message in the log, or has panicked.
pub data Progress (A : Type 0) : Type 0 where
  goes_on : A → Progress A
  exited : String → Progress A
  panicked : Progress A

-- The libraries' state, and what they were asked, the first request first
pub record Running (M : Runtime) : Type 0 where
  pub state : M.State
  pub requests : List Request

abbrev pub Boot : Runtime → Type 0 → Type 0
Boot M A = Running M → Progress A × Running M

module _ {M : Runtime} where
  abbrev pub after : {A B : Type 0} → Progress A → (A → Boot M B) → Boot M B
  after (goes_on a) f s = f a s
  after (exited t) f s = (exited t, s)
  after panicked f s = (panicked, s)

  infixl 5 ◌>>=◌ ◌>>◌
  unfoldable pub ◌>>=◌ : {A B : Type 0} → Boot M A → (A → Boot M B) → Boot M B
  (m >>= f) s = let (r, s') = m s in after r f s'

  abbrev pub ◌>>◌ : {A B : Type 0} → Boot M A → Boot M B → Boot M B
  m >> k = m >>= λ _. k

  unfoldable pub pure : {A : Type 0} → A → Boot M A
  pure a s = (goes_on a, s)

  unfoldable pub exit : {A : Type 0} → String → Boot M A
  exit t s = (exited t, s)

  -- The reply to a request
  unfoldable pub request : Request → Boot M (Result (Unit {0}))
  request q s =
      let (r, state) = M.answer q s.state in
      (goes_on r, record { state = state; requests = s.requests ++ q ∷ [] })

  abbrev pub or_exit : String → Result (Unit {0}) → Boot M (Unit {0})
  or_exit t (ok u) = pure u
  or_exit t (err e) = exit t
  or_exit t panic = λ s. (panicked, s)

  -- `if err := …; err != nil { os.Exit(1) }`
  unfoldable pub must : String → Request → Boot M (Unit {0})
  must t q = request q >>= or_exit t

  -- `capiCRDExists` after the reply: an error that says that nothing was found is none.
  abbrev pub found_definition : Result (Unit {0}) → Boot M Bool
  found_definition (ok u) = pure true
  found_definition (err e) =
      if is_not_found e then pure false else exit "unable to check if CAPI CRD exists"
  found_definition panic = λ s. (panicked, s)

  -- `capiCRDExists`, with the exit of `main` on its error
  unfoldable pub capi_crd_exists : Boot M Bool
  capi_crd_exists = request (gets_definition "clusters.cluster.x-k8s.io") >>= found_definition

  -- The controller that makes hosts: one of the two.
  unfoldable pub set_up_hosts : Bool → Reconciler → RateLimiter → Boot M (Unit {0})
  set_up_hosts true r limiter =
      must "unable to create controller" (sets_up r (set_up_iron_core limiter))
  set_up_hosts false r limiter = do
    exists ← capi_crd_exists
    if exists then pure tt else exit "unable to start Metal3 controller as CAPI CRD is missing"
    must "unable to create controller" (sets_up r (set_up_metal3 limiter))

-- `main`
unfoldable pub main : (M : Runtime) → Boot M (Unit {0})
main M =
    let flags = get_flag_variables M in
    let limiter = rate_limiter_of flags in
    let r : Reconciler = record {
      netbox_url = flags.netbox_url;
      interval = some flags.reconcile_interval;
    } in
    do
      must "unable to start manager" (creates_manager (manager_options flags))
      set_up_hosts flags.enable_iron_core r limiter
      must "unable to create controller" (sets_up r (set_up_update limiter))
      must "unable to create controller" (sets_up r (set_up_ip_pool_import limiter))
      must "unable to create controller" (sets_up (record r { interval = none }) set_up_ip_update)
      must "unable to set up health check" (adds_healthz_check "healthz")
      must "unable to set up ready check" (adds_readyz_check "readyz")
      must "problem running manager" starts

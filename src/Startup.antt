-- ===== src/Startup.antt =====
-- cmd/main.go and internal/version/version.go: the flags, what is made of them, and the start of
-- the manager. The flags are read by the package flag; the manager, its servers and the registration
-- of a controller are calls of controller-runtime, the parameter `Runtime`. A duration is as
-- in Engine. The flags of the logger and its messages other than errors are left out.
pub mod Namespaces
pub mod Order
use keycloak_operator.Base.{
  ℕ, String, ◌<>◌, Bool, true, false, Option, none, some, List, [], ◌∷◌, ◌==◌, if◌then◌else◌,
}
use keycloak_operator.Errors.{Error, ok, err}
use keycloak_operator.World.{Act, Op, pure, ◌>>=◌, ◌>>◌}
use keycloak_operator.Strings.{split, trim_space}
use keycloak_operator.Drivers.Sets.{put}
use keycloak_operator.Drivers.Scopes.{Names, is_empty}
use keycloak_operator.Engine.{default_resync, resync_or_default}

-- The build information that the linker sets, and `runtime.Version()`.
pub record Build : Type 0 where
  pub version : String
  pub commit : String
  pub date : String
  pub go_version : String

abbrev pub development_build : String → Build
development_build go_version = record {
  version = "dev";
  commit = "unknown";
  date = "unknown";
  go_version = go_version;
}

-- `String` of version.go
unfoldable pub banner : Build → String
banner b =
    "keycloak-operator " <> b.version <> " (commit " <> b.commit <> ", built " <> b.date <> ", "
    <> b.go_version <> ")"

-- The directory and the file names of a certificate.
pub record Certificate : Type 0 where
  pub path : String
  pub name : String
  pub key : String

pub record Flags : Type 0 where
  pub metrics_addr : String
  pub probe_addr : String
  pub enable_leader_election : Bool
  pub secure_metrics : Bool
  pub webhook_cert : Certificate
  pub metrics_cert : Certificate
  pub enable_http2 : Bool
  pub resync_period : ℕ
  pub watch_namespace_list : String
  pub show_version : Bool

abbrev default_cert : Certificate
default_cert = record { path = ""; name = "tls.crt"; key = "tls.key" }

-- The values of the flags that the command line does not give.
abbrev pub default_flags : Flags
default_flags = record {
  metrics_addr = "0";
  probe_addr = ":8081";
  enable_leader_election = false;
  secure_metrics = true;
  webhook_cert = default_cert;
  metrics_cert = default_cert;
  enable_http2 = false;
  resync_period = default_resync;
  watch_namespace_list = "";
  show_version = false;
}

-- tls.Config, as far as the options change it
pub record TlsConfig : Type 0 where
  pub next_protos : List String

abbrev pub disable_http2 : TlsConfig → TlsConfig
disable_http2 c = record c { next_protos = "http/1.1" ∷ [] }

unfoldable pub tls_opts : Flags → List (TlsConfig → TlsConfig)
tls_opts flags = if flags.enable_http2 then [] else disable_http2 ∷ []

-- `CertDir`, `CertName` and `KeyName`, empty where they are not set
abbrev no_cert : Certificate
no_cert = record { path = ""; name = ""; key = "" }

abbrev given_cert : Certificate → Certificate
given_cert c = if c.path == "" then no_cert else c

-- webhook.Options
pub record WebhookOptions : Type 0 where
  pub tls_opts : List (TlsConfig → TlsConfig)
  pub cert : Certificate

-- metricsserver.Options; `filtered` says that the filter with authentication and authorization is
-- set.
pub record MetricsOptions : Type 0 where
  pub bind_address : String
  pub secure_serving : Bool
  pub tls_opts : List (TlsConfig → TlsConfig)
  pub filtered : Bool
  pub cert : Certificate

unfoldable pub webhook_options : Flags → WebhookOptions
webhook_options flags = record { tls_opts = tls_opts flags; cert = given_cert flags.webhook_cert }

unfoldable pub metrics_options : Flags → MetricsOptions
metrics_options flags = record {
  bind_address = flags.metrics_addr;
  secure_serving = flags.secure_metrics;
  tls_opts = tls_opts flags;
  filtered = flags.secure_metrics;
  cert = given_cert flags.metrics_cert;
}

abbrev add_namespace : String → Names → Names
add_namespace ns out = if ns == "" then out else put ns tt out

-- The loop over the parts of the list.
unfoldable pub collect : List String → Names → Names
unfolding trim_space
collect [] out = out
collect (ns ∷ parts) out = collect parts (add_namespace (trim_space ns) out)

abbrev pub comma : ℕ
comma = b','

-- `managerOptions.Cache`; without it the cache is for all namespaces.
unfoldable pub default_namespaces : String → Option Names
unfolding collect split
default_namespaces watched =
    if watched == ""
    then none
    else let namespaces = collect (split comma watched) [] in
      if is_empty namespaces then none else some namespaces

-- ctrl.Options
pub record ManagerOptions : Type 0 where
  pub metrics : MetricsOptions
  pub webhook_server : WebhookOptions
  pub health_probe_bind_address : String
  pub leader_election : Bool
  pub leader_election_id : String
  pub default_namespaces : Option Names

unfoldable pub manager_options : Flags → ManagerOptions
unfolding webhook_options metrics_options
manager_options flags = record {
  metrics = metrics_options flags;
  webhook_server = webhook_options flags;
  health_probe_bind_address = flags.probe_addr;
  leader_election = flags.enable_leader_election;
  leader_election_id = "44c9846b.ctn-solutions.io";
  default_namespaces = default_namespaces flags.watch_namespace_list;
}

-- What is registered with the manager before it starts.
pub data Part : Type 0 where
  controller healthz_check readyz_check : String → Part

-- The message with which a failure is logged.
abbrev pub complaint : Part → String
complaint (controller name) = "Failed to create controller"
complaint (healthz_check name) = "Failed to set up health check"
complaint (readyz_check name) = "Failed to set up ready check"

-- In the order of the code.
abbrev pub parts : List Part
parts =
    controller "keycloakconnection"
    ∷ controller "realm"
    ∷ controller "client"
    ∷ controller "clientscope"
    ∷ controller "realmrole"
    ∷ controller "identityprovider"
    ∷ controller "group"
    ∷ healthz_check "healthz"
    ∷ readyz_check "readyz"
    ∷ []

-- The calls of controller-runtime, of the process and of the logger. `register` is given the
-- period of the engine, which the controllers of the six kinds share; `new_manager` includes
-- ctrl.GetConfigOrDie.
pub record Runtime (W : Type 0) : Type 0 where
  pub print : String → Act W (Unit {0})
  pub new_manager : ManagerOptions → Op W (Unit {0})
  pub register : ℕ → Part → Op W (Unit {0})
  pub start : Op W (Unit {0})
  pub log_error : String → Error → Act W (Unit {0})

abbrev pub exit_ok : ℕ
exit_ok = 0

module _ {W : Type 0} (runtime : Runtime W) where
  -- `setupLog.Error(err, message); os.Exit(1)` after a call that failed, and the rest.
  unfoldable pub or_exit : String → Op W (Unit {0}) → Act W ℕ → Act W ℕ
  or_exit message call rest =
      call >>= λ r. elim r [ ok _ ↦ rest | err e ↦ runtime.log_error message e >> pure 1 ]

  unfoldable pub register_all : ℕ → List Part → Act W ℕ → Act W ℕ
  unfolding or_exit
  register_all resync [] rest = rest
  register_all resync (p ∷ ps) rest =
      or_exit (complaint p) (runtime.register resync p) (register_all resync ps rest)

  unfoldable pub run_manager : Flags → Act W ℕ
  unfolding register_all
  run_manager flags =
      or_exit "Failed to start manager" (runtime.new_manager (manager_options flags)) (
        register_all (resync_or_default flags.resync_period) parts
          (or_exit "Failed to run manager" runtime.start (pure exit_ok)))

  -- The exit code of the process.
  unfoldable pub main : Build → Flags → Act W ℕ
  unfolding run_manager
  main build flags =
      if flags.show_version
      then (runtime.print (banner build) >> pure exit_ok)
      else run_manager flags

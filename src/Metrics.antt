-- ===== src/Metrics.antt =====
-- internal/metrics/metrics.go: the metrics of the operator and their registration. The vectors of
-- Prometheus and the registry are calls of client_golang, of which a vector keeps the options it is
-- made with; the buckets of a histogram are the arguments of `ExponentialBuckets`, its float64 ones
-- as their texts. The values of the label "outcome" are `class_name` in Engine.
use keycloak_operator.Base.{ℕ, String, List, [], ◌∷◌}
use keycloak_operator.World.{Op}

pub record Buckets : Type 0 where
  pub start : String
  pub factor : String
  pub count : ℕ

pub data Collector : Type 0 where
  counter gauge : Collector
  histogram : Buckets → Collector

pub record Vector : Type 0 where
  pub name : String
  pub help : String
  pub collector : Collector
  pub labels : List String

abbrev pub duration_buckets : Buckets
duration_buckets = record { start = "0.005"; factor = "2"; count = 14 }

abbrev pub reconciliations_total : Vector
reconciliations_total = record {
  name = "keycloak_operator_reconciliations_total";
  help = "Reconciliations by resource kind and outcome (success, error, terminal).";
  collector = counter;
  labels = "kind" ∷ "outcome" ∷ [];
}

abbrev pub reconcile_duration : Vector
reconcile_duration = record {
  name = "keycloak_operator_reconcile_duration_seconds";
  help = "Duration of resource reconciliations by kind.";
  collector = histogram duration_buckets;
  labels = "kind" ∷ [];
}

abbrev pub drift_corrections_total : Vector
drift_corrections_total = record {
  name = "keycloak_operator_drift_corrections_total";
  help = "Server-side updates issued to correct drift, by resource kind.";
  collector = counter;
  labels = "kind" ∷ [];
}

abbrev pub connection_up : Vector
connection_up = record {
  name = "keycloak_operator_connection_up";
  help = "Whether the operator can authenticate against the Keycloak server (1 = up, 0 = down).";
  collector = gauge;
  labels = "namespace" ∷ "connection" ∷ [];
}

abbrev pub server_info : Vector
server_info = record {
  name = "keycloak_operator_server_info";
  help = "Keycloak server version per connection, always 1.";
  collector = gauge;
  labels = "namespace" ∷ "connection" ∷ "version" ∷ [];
}

abbrev pub admin_requests_total : Vector
admin_requests_total = record {
  name = "keycloak_operator_admin_requests_total";
  help = "Keycloak Admin API requests by connection, method and status class.";
  collector = counter;
  labels = "connection" ∷ "method" ∷ "code" ∷ [];
}

abbrev pub admin_request_duration : Vector
admin_request_duration = record {
  name = "keycloak_operator_admin_request_duration_seconds";
  help = "Keycloak Admin API request duration by connection and method.";
  collector = histogram duration_buckets;
  labels = "connection" ∷ "method" ∷ [];
}

-- The vectors in the order in which `init` registers them.
abbrev pub vectors : List Vector
vectors =
    reconciliations_total ∷ reconcile_duration ∷ drift_corrections_total ∷ connection_up
    ∷ server_info ∷ admin_requests_total ∷ admin_request_duration ∷ []

-- `init`, with `MustRegister` of the registry, the panic of which is the error
unfoldable pub register_vectors : {W : Type 0} → (List Vector → Op W (Unit {0})) → Op W (Unit {0})
register_vectors must_register = must_register vectors

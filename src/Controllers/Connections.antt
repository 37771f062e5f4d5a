-- ===== src/Controllers/Connections.antt =====
-- keycloakconnection_controller.go: the check of a connection.
use keycloak_operator.Base.{
  ℕ, ◌*◌, String, ◌<>◌, none, some, List, ◌≡◌, ◌∙◌, ◌==◌, arith, inl, inr, if◌then◌else◌,
}
use keycloak_operator.Errors.{Error, Result, ok, err, is_auth, is_object_not_found, Result-cases}
use keycloak_operator.World.{Act, Op, pure, ◌>>=◌, ◌>>◌}
use keycloak_operator.Json.{Fields, lookup, as_object, as_string}
use keycloak_operator.Api.{
  Condition, ConditionStatus, status_true, status_false, condition_ready, reason_succeeded,
  reason_retrying, reason_connection_unavailable,
}
use keycloak_operator.Engine.{Outcome, requeue, failed, second, connection_retry}
use keycloak_operator.Controllers.Kinds.{ignore_not_found}

abbrev pub connection_retry_interval : ℕ
connection_retry_interval = 300 * second

-- A KeycloakConnection, as far as its status goes.
pub record ConnectionObject : Type 0 where
  pub generation : ℕ
  pub conditions : List Condition
  pub server_version : String

-- A client of the provider: `Token` and `ServerInfo`.
pub record Login (W : Type 0) : Type 0 where
  pub token : Op W String
  pub server_info : Op W Fields

-- What the controller calls. The metrics are ConnectionUp, and the two uses of ServerInfo.
pub record Services (W : Type 0) : Type 0 where
  pub read : String → String → Op W ConnectionObject
  pub connect : String → String → Op W (Login W)
  pub patch_status : ConnectionObject → ConnectionObject → Op W ConnectionObject
  pub set_status_condition : List Condition → Condition → List Condition
  pub set_connection_up : String → String → ℕ → Act W (Unit {0})
  pub drop_server_info : String → String → Act W (Unit {0})
  pub set_server_info : String → String → String → Act W (Unit {0})

unfoldable pub server_version : Fields → String
server_version info = elim (as_object (lookup "systemInfo" info)) [
  | none ↦ ""
  | some system_info ↦ elim (as_string (lookup "version" system_info)) [ none ↦ "" | some v ↦ v ]
]

module _ {W : Type 0} (services : Services W) (namespace name : String) where
  open services use {
    read, connect, patch_status, set_status_condition, set_connection_up, drop_server_info,
    set_server_info,
  }

  unfoldable pub set_connection_condition :
      ConnectionObject → ConditionStatus → String → String → ConnectionObject
  set_connection_condition conn status reason message = record conn {
    conditions = set_status_condition conn.conditions (record {
      condition_type = condition_ready;
      status = status;
      observed_generation = conn.generation;
      reason = reason;
      message = message;
    });
  }

  -- The two early returns: the error of the patch is ignored.
  unfoldable pub report_down : ConnectionObject → String → Error → Act W Outcome
  report_down conn reason e = do
    patched ← patch_status (set_connection_condition conn status_false reason e.message) conn
    set_connection_up namespace name 0
    pure (requeue connection_retry)

  abbrev pub version_or_empty : Result Fields → String
  version_or_empty (ok info) = server_version info
  version_or_empty (err e) = ""

  unfoldable pub show_version : String → Act W (Unit {0})
  show_version version = if version == "" then pure tt else set_server_info namespace name version

  -- From the condition on.
  unfoldable pub patch_up : ConnectionObject → String → Act W Outcome
  patch_up conn version = do
    patched ←
        patch_status
          (set_connection_condition (record conn { server_version = version }) status_true
            reason_succeeded ("Connected to Keycloak " <> version))
          conn
    elim patched [
      | ok conn' ↦ pure (requeue connection_retry_interval)
      | err e ↦
          if is_object_not_found e
          then pure (requeue connection_retry_interval)
          else pure (failed e)
    ]

  -- From the look-up of the version on.
  unfoldable pub report_up : ConnectionObject → Login W → Act W Outcome
  report_up conn kc = do
    info ← kc.server_info
    let version = version_or_empty info
    set_connection_up namespace name 1
    drop_server_info namespace name
    show_version version
    patch_up conn version

  abbrev pub refusal_reason : Error → String
  refusal_reason e = if is_auth e then reason_connection_unavailable else reason_retrying

  -- From the provider on.
  unfoldable pub check_connection : ConnectionObject → Act W Outcome
  check_connection conn = do
    connected ← connect namespace name
    elim connected [
      | err e ↦ report_down conn reason_connection_unavailable e
      | ok kc ↦ do
        granted ← kc.token
        elim granted [ err e ↦ report_down conn (refusal_reason e) e | ok t ↦ report_up conn kc ]
    ]

  -- `Reconcile`
  unfoldable pub reconcile_connection : Act W Outcome
  reconcile_connection = do
    r ← read namespace name
    elim r [ err e ↦ pure (ignore_not_found e) | ok conn ↦ check_connection conn ]

  -- A gauge that the metric sets and that nothing else changes.
  pub record IsGauge (up : W → ℕ) : Type 0 where
    pub set_connection_up :
        (k : ℕ) (w : W) → up (services.set_connection_up namespace name k w).1 ≡ k
    pub drop_server_info : (w : W) → up (services.drop_server_info namespace name w).1 ≡ up w
    pub set_server_info :
        (v : String) (w : W) → up (services.set_server_info namespace name v w).1 ≡ up w
    pub patch_status : (c b : ConnectionObject) (w : W) → up (services.patch_status c b w).1 ≡ up w

  module _ (up : W → ℕ) (gauge : IsGauge up) where
    report_down-up :
        (conn : ConnectionObject) (reason : String) (e : Error) (w : W)
        → up (report_down conn reason e w).1 ≡ 0
    unfolding report_down
    report_down-up conn reason e w = gauge.set_connection_up 0 _

    show_version-up : (v : String) (w : W) → up (show_version v w).1 ≡ up w
    unfolding show_version
    show_version-up v w = ground (arith, gauge.set_server_info v w)

    patch_up-up : (conn : ConnectionObject) (v : String) (w : W) → up (patch_up conn v w).1 ≡ up w
    unfolding patch_up
    patch_up-up conn v w =
        let now =
          set_connection_condition (record conn { server_version = v }) status_true reason_succeeded
            ("Connected to Keycloak " <> v) in
        elim (Result-cases (services.patch_status now conn w).0) [
          | inl (c, e) ↦ ground (arith, gauge.patch_status now conn w)
          | inr (x, e) ↦ ground (arith, gauge.patch_status now conn w)
        ]

    report_up-up : (conn : ConnectionObject) (kc : Login W) (w : W) → up (report_up conn kc w).1 ≡ 1
    unfolding report_up
    report_up-up conn kc w =
        patch_up-up conn _ _
        ∙ show_version-up _ _
        ∙ gauge.drop_server_info _
        ∙ gauge.set_connection_up 1 _

    -- A connection counts as up exactly if it grants a token: where the connection is read, the
    -- gauge ends at 1 if the provider has a client and that client gets a token, and at 0 if not,
    -- whatever comes of the look-up of the version and of the patch of the status.
    pub reconcile_connection-up :
        (conn : ConnectionObject) (w v : W)
        → read namespace name w ≡ (ok conn, v)
        → up (reconcile_connection w).1 ≡ elim (connect namespace name v).0 [
          | err e ↦ 0
          | ok kc ↦ elim (kc.token (connect namespace name v).1).0 [ err e ↦ 0 | ok t ↦ 1 ]
        ]
    unfolding reconcile_connection check_connection
    reconcile_connection-up conn w v h = elim (Result-cases (connect namespace name v).0) [
      | inr (x, e) ↦ ground (
        arith,
        h,
        report_down-up conn reason_connection_unavailable x (connect namespace name v).1,
      )
      | inl (kc, e) ↦
          let granted = kc.token (connect namespace name v).1 in
          elim (Result-cases granted.0) [
            | inr (x, g) ↦ ground (arith, h, report_down-up conn (refusal_reason x) x granted.1)
            | inl (t, g) ↦ ground (arith, h, report_up-up conn kc granted.1)
          ]
    ]

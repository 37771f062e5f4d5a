-- ===== src/Tests/Controls.antt =====
-- The check of a connection at concrete data.
use keycloak_operator.Base.{ℕ, String, ◌≡◌, refl, [], ◌∷◌}
use keycloak_operator.Errors.{failure, other, Result, ok, err}
use keycloak_operator.World.{pure}
use keycloak_operator.Json.{string, object, end, field, lookup}
use keycloak_operator.Controllers.Connections.{
  Services, server_version, reconcile_connection, IsGauge, reconcile_connection-up,
}

-- The world is the gauge.
abbrev services : Result String → Services ℕ
services granted = record {
  read =
      λ namespace name. pure (ok (record { generation = 1; conditions = []; server_version = "" }));
  connect = λ namespace name.
      pure (
        ok (record { token = pure granted; server_info = pure (err (failure other "forbidden")) }));
  patch_status = λ c b. pure (ok c);
  set_status_condition = λ cs c. c ∷ cs;
  set_connection_up = λ namespace name k w. (tt, k);
  drop_server_info = λ namespace name. pure tt;
  set_server_info = λ namespace name v. pure tt;
}

gauge : (granted : Result String) → IsGauge (services granted) "apps" "main" (λ w. w)
gauge granted = record {
  set_connection_up = λ k w. refl;
  drop_server_info = λ w. refl;
  set_server_info = λ v w. refl;
  patch_status = λ c b w. refl;
}

-- An account that may not read the version is up all the same.
reconcile_connection-up_example : (reconcile_connection (services (ok "t")) "apps" "main" 0).1 ≡ 1
reconcile_connection-up_example =
    reconcile_connection-up (services (ok "t")) "apps" "main" (λ w. w) (gauge (ok "t"))
      (record { generation = 1; conditions = []; server_version = "" }) 0 0 refl

version_run :
    server_version (field "systemInfo" (object (field "version" (string "26.0") end)) end) ≡ "26.0"
unfolding server_version lookup
version_run = refl

-- ===== src/Tests/Assignments.antt =====
-- A scope assigned to a client through the client of the operator.
use keycloak_operator.Base.{◌&&◌, true, false, [], ◌∷◌, ◌≡◌, refl, ◌==◌, if◌then◌else◌}
use keycloak_operator.Errors.{ok}
use keycloak_operator.Json.{end}
use keycloak_operator.Keycloak.Resources.{realm_path}
use keycloak_operator.Keycloak.Escape.{path_escape}
use keycloak_operator.Keycloak.Fake.State.{Server}
use keycloak_operator.Keycloak.Fake.Clients.{scope_ids}
use keycloak_operator.Keycloak.Fake.Router.Paths.{after_prefix}
use keycloak_operator.Keycloak.Fake.Settling.{kc}
use keycloak_operator.Keycloak.Fake.Reach.{is_in}
use keycloak_operator.Keycloak.Fake.Assignments.{IsPlainFor, KeepsOthers, assign_lem}
use keycloak_operator.Drivers.Scopes.{assign}
use keycloak_operator.Drivers.Sets
use keycloak_operator.Tests.Servers.{net, codec, decodes, config, session, stored, demo_stored}

-- The client c1 has the scope s1 as a default scope, and the realm has s2 beside it.
abbrev two_scopes : Server
two_scopes = record demo_stored {
  scopes = ("demo", ("s1", stored) ∷ ("s2", stored) ∷ []) ∷ [];
  default_scopes = ("demo", ("c1", "s1" ∷ []) ∷ []) ∷ [];
}

s2-IsPlainFor : IsPlainFor net (codec end) 0 config session false "demo" "c1" "s2"
unfolding realm_path path_escape after_prefix
s2-IsPlainFor = (refl, refl, refl)

assign_lem_example :
    let done =
      assign
        (kc net (codec end) 0 config session)
        "demo"
        "c1"
        false
        "s2"
        true
        (session, two_scopes) in
    (done.0 ≡ ok tt)
    × (is_in "s2" (scope_ids false "demo" "c1" done.1.1) ≡ (
        if "demo" == "demo" && ("c1" == "c1" && "s2" == "s2")
        then true
        else is_in "s2" (scope_ids false "demo" "c1" two_scopes)))
    × KeepsOthers false two_scopes done.1.1
    × (done.1.0 ≡ session)
unfolding Sets.get
assign_lem_example =
    assign_lem net (codec end) 0 config session (decodes end) (refl, refl) "demo" "c1" "s2"
      two_scopes false true "demo" "c1" "s2" s2-IsPlainFor refl refl

-- ===== src/Tests/Requests.antt =====
-- Requests to the fake server as steps, and a state that they reach.
use keycloak_operator.Base.{String, false, none, some, [], ◌∷◌, ◌≡◌, refl}
use keycloak_operator.Json.{string, object, Fields, end, field}
use keycloak_operator.Json.Text.{marshal}
use keycloak_operator.Platform.{put, post}
use keycloak_operator.Keycloak.Fake.State.{Server, new_server}
use keycloak_operator.Keycloak.Fake.Router.{
  handle_admin, handle_rest, handle_realm_scoped, handle_resource, serve,
}
use keycloak_operator.Keycloak.Fake.Router.Paths.{after_prefix}
use keycloak_operator.Keycloak.Fake.Clients.{scope_ids, handle_clients}
use keycloak_operator.Keycloak.Fake.Scopes.{handle_client_scopes}
use keycloak_operator.Keycloak.Fake.Realms as Handlers
use keycloak_operator.Keycloak.Fake.Steps.{Step, is_refused}
use keycloak_operator.Keycloak.Fake.Steps.Routes.{handle_resource-Steps}
use keycloak_operator.Keycloak.Fake.Steps.Requests.{serve_never_refuses}
use keycloak_operator.Keycloak.Fake.Steps.Realms.{view, other_realms_untouched}
use keycloak_operator.Keycloak.Fake.Reach.{Reach, started, served, AssignsOnce, reached-AssignsOnce}
use keycloak_operator.Drivers.Sets
use keycloak_operator.Tests.Servers.{net, payload, nothing_stored, demo_stored}

serve_never_refuses_example :
    is_refused (serve net put "https://sso/admin/realms/demo" none demo_stored).0 ≡ false
unfolding after_prefix
serve_never_refuses_example =
    serve_never_refuses net put "https://sso/admin/realms/demo" "realms/demo" none demo_stored refl

other_realms_untouched_example :
    view "prod"
      (handle_resource net put
        (λ key. "")
        "demo"
        []
        (some (marshal (object payload)))
        demo_stored).1
    ≡ view "prod" demo_stored
other_realms_untouched_example =
    other_realms_untouched net put (λ key. "") "demo" "prod" [] (some (marshal (object payload)))
      demo_stored refl

handle_resource-Steps_example :
    Step "demo" demo_stored
      (handle_resource net put
        (λ key. "")
        "demo"
        []
        (some (marshal (object payload)))
        demo_stored).0
      (handle_resource net put
        (λ key. "")
        "demo"
        []
        (some (marshal (object payload)))
        demo_stored).1
handle_resource-Steps_example =
    handle_resource-Steps "demo" net put (λ key. "") [] (some (marshal (object payload)))
      demo_stored

-- A realm and a scope are created, and the scope is assigned to a client twice.
abbrev scope_payload : Fields
scope_payload = field "name" (string "email") end

abbrev assign_url : String
assign_url = "https://sso/admin/realms/demo/clients/c1/default-client-scopes/scope-email"

abbrev with_realm : Server
with_realm =
    (serve net post "https://sso/admin/realms" (some (marshal (object payload))) nothing_stored).1

abbrev with_scope : Server
with_scope =
    (serve net post "https://sso/admin/realms/demo/client-scopes"
      (some (marshal (object scope_payload))) with_realm).1

abbrev assigned_once : Server
assigned_once = (serve net put assign_url none with_scope).1

abbrev assigned_twice : Server
assigned_twice = (serve net put assign_url none assigned_once).1

assigned-Reach : Reach net "admin" "pw" assigned_twice
unfolding after_prefix
assigned-Reach =
    served assigned_once put assign_url "realms/demo/clients/c1/default-client-scopes/scope-email"
      none refl
      (served with_scope put assign_url "realms/demo/clients/c1/default-client-scopes/scope-email"
        none refl
        (served with_realm post "https://sso/admin/realms/demo/client-scopes"
          "realms/demo/client-scopes" (some (marshal (object scope_payload))) refl
          (served nothing_stored post "https://sso/admin/realms" "realms"
            (some (marshal (object payload))) refl started)))

reached-AssignsOnce_example : AssignsOnce assigned_twice
reached-AssignsOnce_example = reached-AssignsOnce net "admin" "pw" assigned_twice assigned-Reach

scope_assigned_once : scope_ids false "demo" "c1" assigned_twice ≡ "scope-email" ∷ []
unfolding Sets.get serve handle_admin handle_rest handle_realm_scoped handle_resource handle_clients
    handle_client_scopes Handlers.create_realm marshal new_server Sets.put
scope_assigned_once = refl

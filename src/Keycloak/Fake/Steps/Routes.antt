-- ===== src/Keycloak/Fake/Steps/Routes.antt =====
-- Every request for a realm is a step.
use keycloak_operator.Base.{String, ◌==◌, ◌&&◌, true, false, Option, List, [], ◌∷◌, refl}
use keycloak_operator.Json.Text.{Text}
use keycloak_operator.Platform.{Method}
use keycloak_operator.Keycloak.Fake.State.{page_not_found}
use keycloak_operator.Keycloak.Fake.Scopes.{handle_client_scopes}
use keycloak_operator.Keycloak.Fake.Clients.{is_last, client_part, handle_clients}
use keycloak_operator.Keycloak.Fake.Roles.{handle_roles}
use keycloak_operator.Keycloak.Fake.Providers.{handle_identity_providers}
use keycloak_operator.Keycloak.Fake.Groups.{handle_groups}
use keycloak_operator.Keycloak.Fake.Router.{Net, handle_instances, handle_resource}
use keycloak_operator.Keycloak.Fake.Steps.{Steps, answer-Steps, if-Steps, in_realm-Steps}
use keycloak_operator.Keycloak.Fake.Steps.Clients.{
  handle_realm-Steps, clients-Steps, client_role-Steps, seed_client_role-Steps, client_secret-Steps,
  client-Steps, scope_assignments-Steps,
}
use keycloak_operator.Keycloak.Fake.Steps.Kinds.{
  client_scopes-Steps, client_scope-Steps, roles-Steps, role_part-Steps, identity_providers-Steps,
  identity_provider-Steps, groups-Steps, group_part-Steps,
}

module _ (realm : String) where
  client_part-Steps :
      (unescape : String → Option String) (method : Method) (id : String) (sub : List String)
      (body : Option Text)
      → Steps realm (client_part unescape method realm id sub body)
  unfolding client_part
  client_part-Steps unescape method id [] body = client-Steps realm method id body
  client_part-Steps unescape method id (part ∷ []) body =
      if-Steps realm (part == "roles") _ _ (seed_client_role-Steps realm method id body) (
        if-Steps realm (part == "client-secret") _ _ (client_secret-Steps realm method id) (
          if-Steps realm (part == "default-client-scopes") _ _
            (scope_assignments-Steps realm method false id [])
            (if-Steps realm (part == "optional-client-scopes") _ _
              (scope_assignments-Steps realm method true id [])
              (client-Steps realm method id body))))
  client_part-Steps unescape method id (part ∷ x ∷ sub) body =
      if-Steps realm (part == "roles" && is_last sub) _ _ (client_role-Steps realm id (unescape x))
        (if-Steps realm (part == "default-client-scopes") _ _
          (scope_assignments-Steps realm method false id (x ∷ sub))
          (if-Steps realm (part == "optional-client-scopes") _ _
            (scope_assignments-Steps realm method true id (x ∷ sub))
            (client-Steps realm method id body)))

  handle_clients-Steps :
      (unescape : String → Option String) (method : Method) (asked : String) (sub : List String)
      (body : Option Text)
      → Steps realm (handle_clients unescape method realm asked sub body)
  unfolding handle_clients
  handle_clients-Steps unescape method asked [] body =
      in_realm-Steps realm _ (clients-Steps realm method asked body)
  handle_clients-Steps unescape method asked (id ∷ sub) body =
      in_realm-Steps realm _ (client_part-Steps unescape method id sub body)

  handle_client_scopes-Steps :
      (method : Method) (sub : List String) (body : Option Text)
      → Steps realm (handle_client_scopes method realm sub body)
  unfolding handle_client_scopes
  handle_client_scopes-Steps method [] body =
      in_realm-Steps realm _ (client_scopes-Steps realm method body)
  handle_client_scopes-Steps method (id ∷ sub) body =
      in_realm-Steps realm _ (client_scope-Steps realm method id body)

  handle_roles-Steps :
      (method : Method) (sub : List String) (body : Option Text)
      → Steps realm (handle_roles method realm sub body)
  unfolding handle_roles
  handle_roles-Steps method [] body = in_realm-Steps realm _ (roles-Steps realm method body)
  handle_roles-Steps method (name ∷ sub) body =
      in_realm-Steps realm _ (role_part-Steps realm method name sub body)

  handle_identity_providers-Steps :
      (method : Method) (sub : List String) (body : Option Text)
      → Steps realm (handle_identity_providers method realm sub body)
  unfolding handle_identity_providers
  handle_identity_providers-Steps method [] body =
      in_realm-Steps realm _ (identity_providers-Steps realm method body)
  handle_identity_providers-Steps method (alias ∷ sub) body =
      in_realm-Steps realm _ (identity_provider-Steps realm method alias body)

  handle_groups-Steps :
      (method : Method) (search : String) (sub : List String) (body : Option Text)
      → Steps realm (handle_groups method realm search sub body)
  unfolding handle_groups
  handle_groups-Steps method search [] body =
      in_realm-Steps realm _ (groups-Steps realm method search body)
  handle_groups-Steps method search (id ∷ sub) body =
      in_realm-Steps realm _ (group_part-Steps realm method id sub body)

  handle_instances-Steps :
      (method : Method) (sub : List String) (body : Option Text)
      → Steps realm (handle_instances method realm sub body)
  handle_instances-Steps method [] body = answer-Steps realm page_not_found refl
  handle_instances-Steps method (x ∷ rest) body =
      if-Steps realm (x == "instances") _ _ (handle_identity_providers-Steps method rest body)
        (answer-Steps realm page_not_found refl)

  -- A request for a realm, whatever its method, query, path and body, is a step at that realm: its
  -- answer is never 401 or 403, it leaves the state or writes one of its maps at that realm, and it
  -- changes the scopes assigned to a client by adding one that the realm has or removing one.
  pub handle_resource-Steps :
      (net : Net) (method : Method) (query : String → String) (sub : List String)
      (body : Option Text)
      → Steps realm (handle_resource net method query realm sub body)
  unfolding handle_resource
  handle_resource-Steps net method query [] body = handle_realm-Steps realm method body
  handle_resource-Steps net method query (kind ∷ sub) body =
      if-Steps realm (kind == "clients") _ _
        (handle_clients-Steps net.path_unescape method (query "clientId") sub body)
        (if-Steps realm (kind == "client-scopes") _ _ (handle_client_scopes-Steps method sub body) (
          if-Steps realm (kind == "roles") _ _ (handle_roles-Steps method sub body) (
            if-Steps realm (kind == "identity-provider") _ _
              (handle_instances-Steps method sub body)
              (if-Steps realm (kind == "groups") _ _
                (handle_groups-Steps method (query "search") sub body)
                (answer-Steps realm page_not_found refl)))))

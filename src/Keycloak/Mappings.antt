-- ===== src/Keycloak/Mappings.antt =====
-- internal/keycloak/resources.go, continued: scope assignments, roles, identity providers, groups
-- and their role mappings.
use keycloak_operator.Base.{String, ◌<>◌, Bool, Option, none, some, List, ◌==◌, if◌then◌else◌}
use keycloak_operator.Errors.{failure, not_found, quote}
use keycloak_operator.World.{Op, fail_with, ◌>>?◌}
use keycloak_operator.Json.{Value, list, Fields, object, lookup, as_string}
use keycloak_operator.Platform.{Admin, post, put, delete}
use keycloak_operator.Keycloak.Escape.{path_escape, query_escape}
use keycloak_operator.Keycloak.Resources.{
  realm_path, list_value, first_with, get_map, get_maps, send, client_path,
}

-- `s, _ := rep[key].(string)`
abbrev pub text_at : String → Fields → String
text_at key rep = elim (as_string (lookup key rep)) [ none ↦ "" | some s ↦ s ]

module _ {W : Type 0} (kc : Admin W) where
  unfoldable pub list_client_scope_assignments : String → String → String → Op W (List Fields)
  unfolding realm_path
  list_client_scope_assignments realm client_id kind =
      get_maps kc (client_path kc realm client_id <> "/" <> kind)

  unfoldable pub assign_client_scope : String → String → String → String → Bool → Op W (Unit {0})
  unfolding realm_path
  assign_client_scope realm client_id kind scope_id add =
      send kc (if add then put else delete)
        (client_path kc realm client_id <> "/" <> kind <> "/" <> path_escape scope_id) none

  unfoldable pub client_default_scope_assignments : String → String → Op W (List Fields)
  client_default_scope_assignments realm client_id =
      list_client_scope_assignments realm client_id "default-client-scopes"

  unfoldable pub assign_client_default_scope : String → String → String → Bool → Op W (Unit {0})
  assign_client_default_scope realm client_id scope_id add =
      assign_client_scope realm client_id "default-client-scopes" scope_id add

  unfoldable pub client_optional_scope_assignments : String → String → Op W (List Fields)
  client_optional_scope_assignments realm client_id =
      list_client_scope_assignments realm client_id "optional-client-scopes"

  unfoldable pub assign_client_optional_scope : String → String → String → Bool → Op W (Unit {0})
  assign_client_optional_scope realm client_id scope_id add =
      assign_client_scope realm client_id "optional-client-scopes" scope_id add

  abbrev role_path : String → String → String
  role_path realm name = realm_path realm <> "/roles/" <> path_escape name

  unfoldable pub get_role : String → String → Op W Fields
  get_role realm name = get_map kc (role_path realm name)

  unfoldable pub create_role : String → Fields → Op W (Unit {0})
  create_role realm payload = send kc post (realm_path realm <> "/roles") (some (object payload))

  unfoldable pub update_role : String → String → Fields → Op W (Unit {0})
  update_role realm name payload = send kc put (role_path realm name) (some (object payload))

  unfoldable pub delete_role : String → String → Op W (Unit {0})
  delete_role realm name = send kc delete (role_path realm name) none

  unfoldable pub get_role_composites : String → String → Op W (List Fields)
  get_role_composites realm name = get_maps kc (role_path realm name <> "/composites")

  -- A list of representations as a body.
  abbrev reps : List Fields → Option Value
  reps roles = some (list (list_value roles))

  unfoldable pub add_role_composites : String → String → List Fields → Op W (Unit {0})
  add_role_composites realm name roles =
      send kc post (role_path realm name <> "/composites") (reps roles)

  unfoldable pub remove_role_composites : String → String → List Fields → Op W (Unit {0})
  remove_role_composites realm name roles =
      send kc delete (role_path realm name <> "/composites") (reps roles)

  unfoldable pub get_client_role : String → String → String → Op W Fields
  get_client_role realm uuid name =
      get_map kc (client_path kc realm uuid <> "/roles/" <> path_escape name)

  abbrev provider_path : String → String → String
  provider_path realm alias =
      realm_path realm <> "/identity-provider/instances/" <> path_escape alias

  unfoldable pub get_identity_provider : String → String → Op W Fields
  get_identity_provider realm alias = get_map kc (provider_path realm alias)

  unfoldable pub create_identity_provider : String → Fields → Op W (Unit {0})
  create_identity_provider realm payload =
      send kc post (realm_path realm <> "/identity-provider/instances") (some (object payload))

  unfoldable pub update_identity_provider : String → String → Fields → Op W (Unit {0})
  update_identity_provider realm alias payload =
      send kc put (provider_path realm alias) (some (object payload))

  unfoldable pub list_identity_provider_mappers : String → String → Op W (List Fields)
  list_identity_provider_mappers realm alias = get_maps kc (provider_path realm alias <> "/mappers")

  unfoldable pub create_identity_provider_mapper : String → String → Fields → Op W (Unit {0})
  create_identity_provider_mapper realm alias payload =
      send kc post (provider_path realm alias <> "/mappers") (some (object payload))

  abbrev mapper_path : String → String → String → String
  mapper_path realm alias id = provider_path realm alias <> "/mappers/" <> path_escape id

  unfoldable pub update_identity_provider_mapper :
      String → String → String → Fields → Op W (Unit {0})
  update_identity_provider_mapper realm alias id payload =
      send kc put (mapper_path realm alias id) (some (object payload))

  unfoldable pub delete_identity_provider_mapper : String → String → String → Op W (Unit {0})
  delete_identity_provider_mapper realm alias id = send kc delete (mapper_path realm alias id) none

  unfoldable pub delete_identity_provider : String → String → Op W (Unit {0})
  delete_identity_provider realm alias = send kc delete (provider_path realm alias) none

  abbrev group_path : String → String → String
  group_path realm id = realm_path realm <> "/groups/" <> path_escape id

  unfoldable pub get_group : String → String → Op W Fields
  get_group realm id = get_map kc (group_path realm id)

  -- The search returns slim representations, so the full one is fetched by the id found.
  unfoldable pub find_group : String → String → Op W Fields
  unfolding get_group first_with
  find_group realm name =
      get_maps kc
        (realm_path realm <> "/groups?search=" <> query_escape name <> "&exact=true&max=2")
      >>? λ out. elim (first_with "name" name out) [
        | none ↦ fail_with (failure not_found ("resource not found: group " <> quote name))
        | some rep ↦
            if text_at "id" rep == ""
            then fail_with
                (failure not_found ("resource not found: group " <> quote name <> " has no id"))
            else get_group realm (text_at "id" rep)
      ]

  unfoldable pub create_group : String → Fields → Op W (Unit {0})
  create_group realm payload = send kc post (realm_path realm <> "/groups") (some (object payload))

  unfoldable pub update_group : String → String → Fields → Op W (Unit {0})
  update_group realm id payload = send kc put (group_path realm id) (some (object payload))

  unfoldable pub delete_group : String → String → Op W (Unit {0})
  delete_group realm id = send kc delete (group_path realm id) none

  unfoldable pub get_group_role_mappings : String → String → Op W Fields
  get_group_role_mappings realm id = get_map kc (group_path realm id <> "/role-mappings")

  unfoldable pub add_group_realm_roles : String → String → List Fields → Op W (Unit {0})
  add_group_realm_roles realm id roles =
      send kc post (group_path realm id <> "/role-mappings/realm") (reps roles)

  unfoldable pub remove_group_realm_roles : String → String → List Fields → Op W (Unit {0})
  remove_group_realm_roles realm id roles =
      send kc delete (group_path realm id <> "/role-mappings/realm") (reps roles)

  abbrev client_mapping_path : String → String → String → String
  client_mapping_path realm id uuid =
      group_path realm id <> "/role-mappings/clients/" <> path_escape uuid

  unfoldable pub add_group_client_roles : String → String → String → List Fields → Op W (Unit {0})
  add_group_client_roles realm id uuid roles =
      send kc post (client_mapping_path realm id uuid) (reps roles)

  unfoldable pub remove_group_client_roles :
      String → String → String → List Fields → Op W (Unit {0})
  remove_group_client_roles realm id uuid roles =
      send kc delete (client_mapping_path realm id uuid) (reps roles)

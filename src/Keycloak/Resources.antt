-- ===== src/Keycloak/Resources.antt =====
-- internal/keycloak/resources.go: the endpoints of the Admin API, over `Do`.
pub mod Answers
use keycloak_operator.Base.{
  String, ◌<>◌, Bool, false, Option, none, some, List, [], ◌∷◌, ◌==◌, if◌then◌else◌,
}
use keycloak_operator.Errors.{failure, not_found, quote}
use keycloak_operator.World.{Op, return, fail_with, ◌>>?◌}
use keycloak_operator.Json.{Value, object, list, Items, nil, cons, Fields, end, lookup, as_string}
use keycloak_operator.Platform.{
  Admin, Method, get, post, put, delete, discard, one_map, list_of_maps, secret_value,
}
use keycloak_operator.Keycloak.Escape.{path_escape, query_escape}

-- `realmPath`
unfoldable pub realm_path : String → String
unfolding path_escape
realm_path realm = "/admin/realms/" <> path_escape realm

-- What `var out map[string]any` holds after a successful call.
abbrev pub map_of : Option Value → Fields
map_of (some (object m)) = m
map_of _ = end

abbrev pub maps_of_items : Items → List Fields
maps_of_items nil = []
maps_of_items (cons v l) = map_of (some v) ∷ maps_of_items l

-- The same for `var out []map[string]any`.
abbrev pub maps_of : Option Value → List Fields
maps_of (some (list l)) = maps_of_items l
maps_of _ = []

abbrev pub list_value : List Fields → Items
list_value [] = nil
list_value (m ∷ ms) = cons (object m) (list_value ms)

-- `rep[key] == s`
abbrev pub has_string : String → String → Fields → Bool
has_string key s rep = elim (as_string (lookup key rep)) [ none ↦ false | some t ↦ t == s ]

-- The first representation of a list with the text at the key.
unfoldable pub first_with : String → String → List Fields → Option Fields
unfolding lookup
first_with key s [] = none
first_with key s (rep ∷ reps) = if has_string key s rep then some rep else first_with key s reps

module _ {W : Type 0} (kc : Admin W) where
  abbrev pub get_map : String → Op W Fields
  get_map path = kc.request get path none one_map >>? λ out. return (map_of out)

  abbrev pub get_maps : String → Op W (List Fields)
  get_maps path = kc.request get path none list_of_maps >>? λ out. return (maps_of out)

  abbrev pub send : Method → String → Option Value → Op W (Unit {0})
  send method path body = kc.request method path body discard >>? λ _. return tt

  unfoldable pub server_info : Op W Fields
  server_info = get_map "/admin/serverinfo"

  unfoldable pub get_realm : String → Op W Fields
  unfolding realm_path
  get_realm realm = get_map (realm_path realm)

  unfoldable pub create_realm : Fields → Op W (Unit {0})
  create_realm payload = send post "/admin/realms" (some (object payload))

  unfoldable pub update_realm : String → Fields → Op W (Unit {0})
  unfolding realm_path
  update_realm realm payload = send put (realm_path realm) (some (object payload))

  unfoldable pub delete_realm : String → Op W (Unit {0})
  unfolding realm_path
  delete_realm realm = send delete (realm_path realm) none

  unfoldable pub find_client : String → String → Op W Fields
  unfolding realm_path query_escape first_with
  find_client realm client_id =
      get_maps (realm_path realm <> "/clients?clientId=" <> query_escape client_id) >>? λ out.
      elim (first_with "clientId" client_id out) [
        | some rep ↦ return rep
        | none ↦ fail_with (failure not_found ("resource not found: client " <> quote client_id))
      ]

  abbrev pub client_path : String → String → String
  client_path realm id = realm_path realm <> "/clients/" <> path_escape id

  unfoldable pub create_client : String → Fields → Op W (Unit {0})
  unfolding realm_path
  create_client realm payload = send post (realm_path realm <> "/clients") (some (object payload))

  unfoldable pub update_client : String → String → Fields → Op W (Unit {0})
  unfolding realm_path
  update_client realm id payload = send put (client_path realm id) (some (object payload))

  unfoldable pub delete_client : String → String → Op W (Unit {0})
  unfolding realm_path
  delete_client realm id = send delete (client_path realm id) none

  abbrev pub value_of : Option Value → String
  value_of out = elim (as_string (lookup "value" (map_of out))) [ none ↦ "" | some s ↦ s ]

  unfoldable pub get_client_secret : String → String → Op W String
  unfolding realm_path lookup
  get_client_secret realm id =
      kc.request get (client_path realm id <> "/client-secret") none secret_value >>? λ out.
      return (value_of out)

  unfoldable pub list_client_scopes : String → Op W (List Fields)
  unfolding realm_path
  list_client_scopes realm = get_maps (realm_path realm <> "/client-scopes")

  unfoldable pub find_client_scope : String → String → Op W Fields
  unfolding list_client_scopes first_with
  find_client_scope realm name = list_client_scopes realm >>? λ scopes.
      elim (first_with "name" name scopes) [
        | some scope ↦ return scope
        | none ↦ fail_with (failure not_found ("resource not found: client scope " <> quote name))
      ]

  abbrev pub scope_path : String → String → String
  scope_path realm id = realm_path realm <> "/client-scopes/" <> path_escape id

  unfoldable pub create_client_scope : String → Fields → Op W (Unit {0})
  unfolding realm_path
  create_client_scope realm payload =
      send post (realm_path realm <> "/client-scopes") (some (object payload))

  unfoldable pub update_client_scope : String → String → Fields → Op W (Unit {0})
  unfolding realm_path
  update_client_scope realm id payload = send put (scope_path realm id) (some (object payload))

  unfoldable pub delete_client_scope : String → String → Op W (Unit {0})
  unfolding realm_path
  delete_client_scope realm id = send delete (scope_path realm id) none

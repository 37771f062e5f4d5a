-- ===== src/Keycloak/Fake/Inspect.antt =====
-- fake/server.go: what a test reads of the server and writes past its API. A loop over a map takes
-- the first entry of the model's order; ids and names of a realm's entries are written once each.
use keycloak_operator.Base.{String, Bool, Option, none, some, List, [], ◌∷◌, if◌then◌else◌}
use keycloak_operator.Json.{
  Value, list, object, Items, nil, cons, Fields, end, insert, lookup, as_string, as_object,
}
use keycloak_operator.Json.Text.{marshal, unmarshal_map}
use keycloak_operator.Keycloak.Fake.State.{Map, Server, inner, is_text_at}
use keycloak_operator.Keycloak.Fake.Clients.{scopes_with_ids, scope_ids}
use keycloak_operator.Keycloak.Fake.Roles.{role_fields, reps_or_nil}
use keycloak_operator.Drivers.Sets

-- `clone`
unfoldable pub clone : Fields → Fields
unfolding unmarshal_map marshal
clone rep = elim (unmarshal_map (marshal (object rep))) [ none ↦ end | some out ↦ out ]

abbrev pub cloned : Option Fields → Option Fields
cloned none = none
cloned (some rep) = some (clone rep)

-- The first entry of a map whose representation has the text at the key.
unfoldable pub entry_with : String → String → Map Fields → Option (String × Fields)
unfolding lookup
entry_with key s [] = none
entry_with key s ((id, rep) ∷ m) =
    let rest = entry_with key s m in if is_text_at key s rep then some (id, rep) else rest

abbrev pub rep_of : Option (String × Fields) → Option Fields
rep_of none = none
rep_of (some (id, rep)) = some rep

abbrev pub id_of : Option (String × Fields) → String
id_of none = ""
id_of (some (id, rep)) = id

-- The names that are texts.
unfoldable pub rep_names : List Fields → List String
unfolding lookup
rep_names [] = []
rep_names (rep ∷ reps) =
    let rest = rep_names reps in
    elim (as_string (lookup "name" rep)) [ none ↦ rest | some n ↦ n ∷ rest ]

-- `rep["name"].(string)` of every one, which panics where it is no text.
abbrev pub names_or_panic : List Fields → Option (List String)
names_or_panic [] = some []
names_or_panic (rep ∷ reps) = elim (as_string (lookup "name" rep)) [
  | none ↦ none
  | some n ↦ elim (names_or_panic reps) [ none ↦ none | some names ↦ some (n ∷ names) ]
]

abbrev pub object_items : Items → List Fields
object_items nil = []
object_items (cons v l) = elim (as_object (some v)) [
  | none ↦ object_items l
  | some m ↦ m ∷ object_items l
]

abbrev pub object_items_at : Option Value → List Fields
object_items_at (some (list l)) = object_items l
object_items_at _ = []

module _ (s : Server) where
  unfoldable pub realm_rep : String → Option Fields
  unfolding clone
  realm_rep name = cloned (Sets.get name s.realms)

  unfoldable pub client_rep : String → String → Option Fields
  unfolding clone entry_with
  client_rep realm client_id =
      cloned (rep_of (entry_with "clientId" client_id (inner realm s.clients)))

  unfoldable pub client_scope_rep : String → String → Option Fields
  unfolding clone entry_with
  client_scope_rep realm name = cloned (rep_of (entry_with "name" name (inner realm s.scopes)))

  unfoldable pub identity_provider_rep : String → String → Option Fields
  unfolding clone
  identity_provider_rep realm alias = cloned (Sets.get alias (inner realm s.idps))

  unfoldable pub group_rep : String → String → Option Fields
  unfolding clone entry_with
  group_rep realm name = cloned (rep_of (entry_with "name" name (inner realm s.groups)))

  unfoldable pub role_rep : String → String → Option Fields
  unfolding clone role_fields
  role_rep realm name = elim (Sets.get name (inner realm s.roles)) [
    | none ↦ none
    | some role ↦ some (clone (role_fields role))
  ]

  -- The names of the roles that a role includes, typed or decoded.
  unfoldable pub role_composite_names : String → String → List String
  unfolding rep_names lookup
  role_composite_names realm name = elim (Sets.get name (inner realm s.roles)) [
    | none ↦ []
    | some role ↦ elim role.composites [
      | some reps ↦ rep_names reps
      | none ↦ rep_names (object_items_at (lookup "composites" role.rep))
    ]
  ]

  -- `groupIDLocked` and `clientIDLocked`
  unfoldable pub group_id_locked : String → String → String
  unfolding entry_with
  group_id_locked realm name = id_of (entry_with "name" name (inner realm s.groups))

  unfoldable pub client_id_locked : String → String → String
  unfolding entry_with
  client_id_locked realm client_id = id_of (entry_with "clientId" client_id (inner realm s.clients))

  unfoldable pub group_realm_role_names : String → String → List String
  unfolding group_id_locked rep_names
  group_realm_role_names realm name =
      rep_names
        (reps_or_nil (Sets.get (group_id_locked realm name) (inner realm s.group_realm_roles)))

  unfoldable pub group_client_role_names : String → String → String → List String
  unfolding group_id_locked rep_names
  group_client_role_names realm name uuid = rep_names (
      reps_or_nil
        (Sets.get uuid (inner (group_id_locked realm name) (inner realm s.group_client_roles))))

  -- `scopeNames` of the scopes assigned to a client, default or optional; none if it panics at a
  -- scope whose name is no text.
  unfoldable pub client_scope_names : Bool → String → String → Option (List String)
  unfolding client_id_locked scopes_with_ids lookup
  client_scope_names optional realm client_id = names_or_panic (
      scopes_with_ids (inner realm s.scopes)
        (scope_ids optional realm (client_id_locked realm client_id) s))

  -- `SetRealmField`
  unfoldable pub set_realm_field : String → String → Value → Server
  set_realm_field realm key value = elim (Sets.get realm s.realms) [
    | none ↦ s
    | some rep ↦ record s { realms = Sets.put realm (insert key value rep) s.realms }
  ]

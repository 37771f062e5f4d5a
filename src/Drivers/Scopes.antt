-- ===== src/Drivers/Scopes.antt =====
-- driver_helpers.go: the default and optional scopes of a client.
use keycloak_operator.Base.{
  String, ◌<>◌, Bool, true, false, ◌&&◌, Option, none, some, List, [], ◌∷◌, if◌then◌else◌,
}
use keycloak_operator.Errors.{failure, other, quote}
use keycloak_operator.World.{Op, return, fail_with, ◌>>?◌}
use keycloak_operator.Json.{Fields, lookup, as_string}
use keycloak_operator.Platform.{Admin}
use keycloak_operator.Keycloak.Resources.{list_client_scopes}
use keycloak_operator.Keycloak.Mappings.{
  client_default_scope_assignments, assign_client_default_scope, client_optional_scope_assignments,
  assign_client_optional_scope,
}
use keycloak_operator.Drivers.Sets.{get, put, without}

-- A `map[string]struct{}`
abbrev pub Names : Type 0
Names = List (String × Unit {0})

unfoldable pub name_set : List String → Names → Names
name_set [] out = out
name_set (name ∷ names) out = name_set names (put name tt out)

unfoldable pub names_of : List Fields → Names → Names
names_of [] out = out
names_of (rep ∷ reps) out =
    names_of reps
      (elim (as_string (lookup "name" rep)) [ none ↦ out | some name ↦ put name tt out ])

abbrev add_id : Option String → Option String → List (String × String) → List (String × String)
add_id (some name) (some id) out = put name id out
add_id _ _ out = out

unfoldable pub ids_by_name : List Fields → List (String × String) → List (String × String)
ids_by_name [] out = out
ids_by_name (rep ∷ reps) out =
    ids_by_name reps (add_id (as_string (lookup "name" rep)) (as_string (lookup "id" rep)) out)

abbrev pub is_empty {ℓ} : {A : Type ℓ} → List A → Bool
is_empty [] = true
is_empty (a ∷ l) = false

module _ {W : Type 0} (kc : Admin W) (realm client_id : String) where
  abbrev pub assignments : Bool → Op W (List Fields)
  assignments optional =
      if optional
      then client_optional_scope_assignments kc realm client_id
      else client_default_scope_assignments kc realm client_id

  abbrev pub assign : Bool → String → Bool → Op W (Unit {0})
  assign optional id add =
      if optional
      then assign_client_optional_scope kc realm client_id id add
      else assign_client_default_scope kc realm client_id id add

  unfoldable pub add_scopes : Bool → List (String × String) → Names → Op W (Unit {0})
  add_scopes optional ids [] = return tt
  add_scopes optional ids ((name, _) ∷ names) = elim (get name ids) [
    | none ↦ fail_with (
        failure other ("client scope " <> quote name <> " does not exist in realm " <> quote realm))
    | some id ↦ assign optional id true >>? λ _. add_scopes optional ids names
  ]

  -- A scope that the realm no longer lists is passed over.
  unfoldable pub remove_scopes : Bool → List (String × String) → Names → Op W (Unit {0})
  remove_scopes optional ids [] = return tt
  remove_scopes optional ids ((name, _) ∷ names) = elim (get name ids) [
    | none ↦ remove_scopes optional ids names
    | some id ↦ assign optional id false >>? λ _. remove_scopes optional ids names
  ]

  -- From the differences on.
  unfoldable pub correct_scopes : Bool → Names → Names → Op W Bool
  correct_scopes optional to_add to_remove =
      if is_empty to_add && is_empty to_remove
      then return false
      else (list_client_scopes kc realm >>? λ scopes.
          let ids = ids_by_name scopes [] in
          add_scopes optional ids to_add >>? λ _.
          remove_scopes optional ids to_remove >>? λ _. return true)

  unfoldable pub enforce_scope_assignments : List String → Bool → Op W Bool
  enforce_scope_assignments desired optional = assignments optional >>? λ current.
      let wanted = name_set desired [] in
      let assigned = names_of current [] in
      correct_scopes optional (without assigned wanted) (without wanted assigned)

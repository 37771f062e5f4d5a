-- ===== src/Drivers/Roles.antt =====
-- Role representations by name and by id, and the correction of role mappings: driver_helpers.go
-- and `applyRoleDiff` of driver_role_idp_group.go.
use keycloak_operator.Base.{
  String, ◌<>◌, Bool, true, false, ◌&&◌, none, some, List, [], ◌∷◌, ◌++◌, if◌then◌else◌,
}
use keycloak_operator.Errors.{quote, wrap, ok, err}
use keycloak_operator.World.{Op, return, fail_with, ◌>>=◌, ◌>>?◌}
use keycloak_operator.Json.{Fields, lookup, as_string}
use keycloak_operator.Platform.{Admin}
use keycloak_operator.Keycloak.Resources.{find_client}
use keycloak_operator.Keycloak.Mappings.{text_at, get_role, get_client_role}
use keycloak_operator.Drivers.Sets.{put, without}
use keycloak_operator.Drivers.Scopes.{is_empty}

-- A call whose error gets a prefix.
abbrev pub labelled : {W A : Type 0} → String → Op W A → Op W A
labelled prefix m = m >>= λ r. elim r [ ok a ↦ return a | err e ↦ fail_with (wrap prefix e) ]

module _ {W : Type 0} (kc : Admin W) (realm : String) where
  unfoldable pub resolve_realm_roles : List String → List Fields → Op W (List Fields)
  resolve_realm_roles [] out = return out
  resolve_realm_roles (name ∷ names) out =
      labelled ("realm role " <> quote name) (get_role kc realm name) >>? λ rep.
      resolve_realm_roles names (out ++ rep ∷ [])

  unfoldable pub resolve_roles_of : String → String → List String → List Fields → Op W (List Fields)
  resolve_roles_of client_id uuid [] out = return out
  resolve_roles_of client_id uuid (name ∷ names) out =
      labelled ("role " <> quote name <> " of client " <> quote client_id)
        (get_client_role kc realm uuid name)
      >>? λ rep. resolve_roles_of client_id uuid names (out ++ rep ∷ [])

  unfoldable pub client_uuid : String → Op W String
  client_uuid client_id =
      labelled ("client " <> quote client_id) (find_client kc realm client_id) >>? λ client.
      return (text_at "id" client)

  unfoldable pub resolve_client_roles : String → List String → Op W (List Fields)
  resolve_client_roles client_id names =
      labelled ("client " <> quote client_id) (find_client kc realm client_id) >>? λ client.
      resolve_roles_of client_id (text_at "id" client) names []

-- The representations by their ids; those without an id are passed over.
unfoldable pub by_id : List Fields → List (String × Fields) → List (String × Fields)
by_id [] out = out
by_id (rep ∷ reps) out =
    by_id reps (elim (as_string (lookup "id" rep)) [ none ↦ out | some id ↦ put id rep out ])

abbrev pub values {ℓ} : {A : Type ℓ} → List (String × A) → List A
values [] = []
values ((k, a) ∷ m) = a ∷ values m

-- A call that is made only for a list that is not empty.
abbrev pub unless_empty :
    {W : Type 0} → (List Fields → Op W (Unit {0})) → List Fields → Op W (Unit {0})
unless_empty f [] = return tt
unless_empty f (rep ∷ reps) = f (rep ∷ reps)

-- The two results say that roles were added and removed, together if there was any difference.
unfoldable pub apply_role_diff :
    {W : Type 0}
    → List Fields
    → List Fields
    → (List Fields → Op W (Unit {0}))
    → (List Fields → Op W (Unit {0}))
    → Op W (Bool × Bool)
apply_role_diff desired current add remove =
    let desired_ids = by_id desired [] in
    let current_ids = by_id current [] in
    let to_add = values (without current_ids desired_ids) in
    let to_remove = values (without desired_ids current_ids) in
    if is_empty to_add && is_empty to_remove
    then return (false, false)
    else (unless_empty add to_add >>? λ _.
        unless_empty remove to_remove >>? λ _. return (true, true))

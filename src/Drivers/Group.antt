-- ===== src/Drivers/Group.antt =====
-- driver_role_idp_group.go: groups and their role mappings.
use keycloak_operator.Base.{
  String, Bool, true, false, ◌||◌, Option, none, some, List, [], ◌∷◌, ◌==◌, is_some, if◌then◌else◌,
}
use keycloak_operator.World.{Op, return, fail_with, ◌>>?◌}
use keycloak_operator.Json.{
  object, Items, nil, cons, Fields, end, field, lookup, as_object, as_list,
}
use keycloak_operator.Api.{Object, managed_annotation, managed_value}
use keycloak_operator.Api.Policy.{accessors}
use keycloak_operator.Platform.{Admin}
use keycloak_operator.Driver.{Driver}
use keycloak_operator.Engine.{call}
use keycloak_operator.Keycloak.Mappings.{
  text_at, find_group, create_group, update_group, delete_group, get_group_role_mappings,
  add_group_realm_roles, remove_group_realm_roles, add_group_client_roles,
  remove_group_client_roles,
}
use keycloak_operator.Drivers.Marker.{stamp_slice_attribute, managed_by_slice_attribute}
use keycloak_operator.Drivers.Sets.{get, put}
use keycloak_operator.Drivers.Scopes.{is_empty}
use keycloak_operator.Drivers.Roles.{
  resolve_realm_roles, resolve_client_roles, client_uuid, apply_role_diff,
}
use keycloak_operator.Drivers.Clients.{with_id, no_id}
use keycloak_operator.Json.Structs.{struct}
use keycloak_operator.Api.Specs.{GroupSpec}
use keycloak_operator.Api.Specs.Tags.{group_fields}

-- The maps of a list, the other elements passed over.
abbrev pub objects_of : Items → List Fields
objects_of nil = []
objects_of (cons (object m) l) = m ∷ objects_of l
objects_of (cons v l) = objects_of l

abbrev pub objects_at : String → Fields → List Fields
objects_at key m = elim (as_list (lookup key m)) [ none ↦ [] | some l ↦ objects_of l ]

pub record ClientMapping : Type 0 where
  pub uuid : String
  pub mappings : List Fields

-- The mappings of the document by client ID.
unfoldable pub mappings_by_client :
    Fields → List (String × ClientMapping) → List (String × ClientMapping)
mappings_by_client end out = out
mappings_by_client (field uuid entry rest) out =
    mappings_by_client rest (elim (as_object (some entry)) [
      | none ↦ out
      | some m ↦
          put (text_at "client" m) (record { uuid = uuid; mappings = objects_at "mappings" m }) out
    ])

abbrev pub current_by_client : Fields → List (String × ClientMapping)
current_by_client mappings = elim (as_object (lookup "clientMappings" mappings)) [
  | none ↦ []
  | some m ↦ mappings_by_client m []
]

abbrev mappings_of : Option ClientMapping → List Fields
mappings_of none = []
mappings_of (some m) = m.mappings

module _ {W : Type 0} (kc : Admin W) (realm id : String) where
  unfoldable pub enforce_realm_roles : Option (List String) → List Fields → Op W Bool
  enforce_realm_roles none current = return false
  enforce_realm_roles (some names) current = resolve_realm_roles kc realm names [] >>? λ desired.
      apply_role_diff desired current (add_group_realm_roles kc realm id)
        (remove_group_realm_roles kc realm id)
      >>? λ changes. return (changes.0 || changes.1)

  -- Clients that are not desired lose their mappings.
  unfoldable pub clear_clients :
      List (String × List String) → List (String × ClientMapping) → Bool → Op W Bool
  clear_clients desired [] changed = return changed
  clear_clients desired ((client_id, mapping) ∷ rest) changed =
      if is_some (get client_id desired) || is_empty mapping.mappings
      then clear_clients desired rest changed
      else (remove_group_client_roles kc realm id mapping.uuid mapping.mappings >>? λ _.
          clear_clients desired rest true)

  unfoldable pub enforce_client_roles :
      List (String × ClientMapping) → List (String × List String) → Bool → Op W Bool
  enforce_client_roles current [] changed = return changed
  enforce_client_roles current ((client_id, roles) ∷ rest) changed =
      resolve_client_roles kc realm client_id roles >>? λ desired.
      client_uuid kc realm client_id >>? λ uuid.
      apply_role_diff desired (mappings_of (get client_id current))
        (add_group_client_roles kc realm id uuid) (remove_group_client_roles kc realm id uuid)
      >>? λ changes. enforce_client_roles current rest (changed || changes.0 || changes.1)

  -- Client roles that the spec does not mention are left as they are.
  unfoldable pub enforce_all_client_roles :
      Option (List (String × List String)) → List (String × ClientMapping) → Bool → Op W Bool
  enforce_all_client_roles none current changed = return changed
  enforce_all_client_roles (some desired) current changed =
      clear_clients desired current changed >>? λ c. enforce_client_roles current desired c

unfoldable pub group_post_apply : {W : Type 0} → Admin W → GroupSpec → Fields → Op W Bool
group_post_apply kc spec remote =
    if text_at "id" remote == ""
    then fail_with no_id
    else (get_group_role_mappings kc spec.head.realm (text_at "id" remote) >>? λ mappings.
        enforce_realm_roles kc spec.head.realm (text_at "id" remote) spec.realm_roles
          (objects_at "realmMappings" mappings)
        >>? λ changed.
            enforce_all_client_roles kc spec.head.realm (text_at "id" remote) spec.client_roles
              (current_by_client mappings) changed)

unfoldable pub group_delete : {W : Type 0} → Admin W → Object GroupSpec → Op W (Unit {0})
group_delete kc o = find_group kc o.spec.head.realm o.spec.name >>? λ remote.
    with_id remote (delete_group kc o.spec.head.realm)

unfoldable pub group_driver : (W : Type 0) → Driver GroupSpec W
group_driver W = record {
  get = λ kc o. find_group kc o.spec.head.realm o.spec.name;
  id = text_at "id";
  create = λ kc o payload. create_group kc o.spec.head.realm payload;
  update = λ kc o id payload. update_group kc o.spec.head.realm id payload;
  delete = group_delete;
  managed_marker = λ payload. stamp_slice_attribute payload managed_annotation managed_value;
  is_managed = managed_by_slice_attribute;
  prepare_payload = λ o payload. return payload;
  post_apply = λ kc remote. call (λ o. group_post_apply kc o.spec remote);
  protected = λ o. none;
  spec = λ s. accessors s.head;
  spec_json = λ s. object (struct (group_fields s));
  operator_fields = "keycloakRef" ∷ "adoptionPolicy" ∷ "deletionPolicy" ∷ "realm" ∷ [];
}

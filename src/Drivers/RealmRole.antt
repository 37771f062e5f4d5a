-- ===== src/Drivers/RealmRole.antt =====
-- driver_role_idp_group.go: realm roles and their composites.
use keycloak_operator.Base.{String, Bool, true, Option, none, some, List, [], ◌∷◌, ◌++◌}
use keycloak_operator.World.{Op, return, ◌>>?◌}
use keycloak_operator.Json.{object, Fields}
use keycloak_operator.Api.{managed_annotation, managed_value}
use keycloak_operator.Api.Policy.{accessors}
use keycloak_operator.Platform.{Admin}
use keycloak_operator.Driver.{Driver}
use keycloak_operator.Keycloak.Mappings.{
  text_at, get_role, create_role, update_role, delete_role, get_role_composites,
  add_role_composites, remove_role_composites,
}
use keycloak_operator.Drivers.Marker.{stamp_slice_attribute, managed_by_slice_attribute}
use keycloak_operator.Drivers.Roles.{resolve_realm_roles, resolve_client_roles, apply_role_diff}
use keycloak_operator.Json.Structs.{struct}
use keycloak_operator.Api.Specs.{RoleComposites, RealmRoleSpec}
use keycloak_operator.Api.Specs.Tags.{realm_role_fields}
use keycloak_operator.Engine.{call}

module _ {W : Type 0} (kc : Admin W) (realm : String) where
  -- The loop over the client roles, in the order in which the map is visited.
  unfoldable pub resolve_all_client_roles :
      List (String × List String) → List Fields → Op W (List Fields)
  resolve_all_client_roles [] out = return out
  resolve_all_client_roles ((client_id, roles) ∷ rest) out =
      resolve_client_roles kc realm client_id roles >>? λ reps.
      resolve_all_client_roles rest (out ++ reps)

  abbrev composites_of : RoleComposites → Op W (List Fields)
  composites_of c = resolve_realm_roles kc realm c.realm_roles [] >>? λ reps.
      resolve_all_client_roles c.client_roles reps

  -- No composites are desired unless the spec says that the role is composite and lists some.
  unfoldable pub desired_composites : Option Bool → Option RoleComposites → Op W (List Fields)
  desired_composites (some true) (some c) = composites_of c
  desired_composites _ _ = return []

-- The differences by id are those of `applyRoleDiff`, whose text the source repeats here.
unfoldable pub enforce_composites : {W : Type 0} → Admin W → RealmRoleSpec → Op W Bool
enforce_composites kc spec = get_role_composites kc spec.head.realm spec.name >>? λ current.
    desired_composites kc spec.head.realm spec.composite spec.composites >>? λ desired.
    apply_role_diff desired current (add_role_composites kc spec.head.realm spec.name)
      (remove_role_composites kc spec.head.realm spec.name)
    >>? λ changes. return changes.0

unfoldable pub realm_role_driver : (W : Type 0) → Driver RealmRoleSpec W
realm_role_driver W = record {
  get = λ kc o. get_role kc o.spec.head.realm o.spec.name;
  id = text_at "id";
  create = λ kc o payload. create_role kc o.spec.head.realm payload;
  update = λ kc o id payload. update_role kc o.spec.head.realm o.spec.name payload;
  delete = λ kc o. delete_role kc o.spec.head.realm o.spec.name;
  managed_marker = λ payload. stamp_slice_attribute payload managed_annotation managed_value;
  is_managed = managed_by_slice_attribute;
  prepare_payload = λ o payload. return payload;
  post_apply = λ kc remote. call (λ o. enforce_composites kc o.spec);
  protected = λ o. none;
  spec = λ s. accessors s.head;
  spec_json = λ s. object (struct (realm_role_fields s));
  operator_fields =
      "keycloakRef" ∷ "adoptionPolicy" ∷ "deletionPolicy" ∷ "realm" ∷ "composites" ∷ [];
}

-- ===== src/Drivers/IdentityProvider.antt =====
-- driver_role_idp_group.go: identity providers and their mappers.
use keycloak_operator.Base.{
  String, Bool, true, false, not, ◌&&◌, ◌||◌, Option, none, some, List, [], ◌∷◌, ◌==◌, is_some,
  if◌then◌else◌,
}
use keycloak_operator.World.{Op, pure, return, ◌>>?◌}
use keycloak_operator.Json.{Value, string, object, Fields, end, field, lookup, insert, as_string}
use keycloak_operator.LastApplied.{json_equal}
use keycloak_operator.Api.{Object}
use keycloak_operator.Api.Policy.{accessors}
use keycloak_operator.Platform.{Admin, Cluster}
use keycloak_operator.Driver.{Driver}
use keycloak_operator.Engine.{to_json_map, call}
use keycloak_operator.Keycloak.Mappings.{
  text_at, get_identity_provider, create_identity_provider, update_identity_provider,
  delete_identity_provider, list_identity_provider_mappers, create_identity_provider_mapper,
  update_identity_provider_mapper, delete_identity_provider_mapper,
}
use keycloak_operator.Drivers.Sets.{get, put}
use keycloak_operator.Drivers.Secrets.{read_secret_values}
use keycloak_operator.Drivers.Realm.{inject_values}
use keycloak_operator.Json.Structs.{struct}
use keycloak_operator.Api.Specs.{IdentityProviderMapper, IdentityProviderSpec, mapper_fields}
use keycloak_operator.Api.Specs.Tags.{identity_provider_fields}

abbrev agrees : Value → Option Value → Bool
agrees want none = false
agrees want (some got) = json_equal want got

-- Compares on the keys of the payload, but for the alias of the provider.
unfoldable pub mappers_differ : Fields → Fields → Bool
mappers_differ current end = false
mappers_differ current (field k want payload) =
    (not (k == "identityProviderAlias") && not (agrees want (lookup k current)))
    || mappers_differ current payload

-- The present mappers by name; those without a name are passed over.
unfoldable pub by_name : List Fields → List (String × Fields) → List (String × Fields)
by_name [] out = out
by_name (rep ∷ reps) out =
    by_name reps
      (elim (as_string (lookup "name" rep)) [ none ↦ out | some name ↦ put name rep out ])

unfoldable pub mappers_by_name :
    List IdentityProviderMapper
    → List (String × IdentityProviderMapper)
    → List (String × IdentityProviderMapper)
mappers_by_name [] out = out
mappers_by_name (m ∷ ms) out = mappers_by_name ms (put m.name m out)

-- The id of a mapper that is there.
abbrev id_of : Option Fields → Option String
id_of none = none
id_of (some rep) = as_string (lookup "id" rep)

abbrev rep_of : Option Fields → Fields
rep_of none = end
rep_of (some rep) = rep

module _ {W : Type 0} (kc : Admin W) (realm alias : String) where
  -- One desired mapper: updated where it differs, created where there is none with an id.
  unfoldable pub apply_mapper : List (String × Fields) → String → IdentityProviderMapper → Op W Bool
  apply_mapper current name mapper = pure (to_json_map (object (mapper_fields mapper))) >>? λ m.
      let payload = insert "identityProviderAlias" (string alias) m in
      elim (id_of (get name current)) [
        | none ↦ create_identity_provider_mapper kc realm alias payload >>? λ _. return true
        | some id ↦
            if mappers_differ (rep_of (get name current)) payload
            then (update_identity_provider_mapper kc realm alias id payload >>? λ _. return true)
            else return false
      ]

  unfoldable pub apply_mappers :
      List (String × Fields) → List (String × IdentityProviderMapper) → Bool → Op W Bool
  apply_mappers current [] changed = return changed
  apply_mappers current ((name, mapper) ∷ desired) changed =
      apply_mapper current name mapper >>? λ c. apply_mappers current desired (changed || c)

  unfoldable pub delete_mappers :
      List (String × IdentityProviderMapper) → List (String × Fields) → Bool → Op W Bool
  delete_mappers desired [] changed = return changed
  delete_mappers desired ((name, rep) ∷ current) changed =
      elim (if is_some (get name desired) then none else as_string (lookup "id" rep)) [
        | none ↦ delete_mappers desired current changed
        | some id ↦ delete_identity_provider_mapper kc realm alias id >>? λ _.
            delete_mappers desired current true
      ]

  unfoldable pub enforce_mappers : List IdentityProviderMapper → Op W Bool
  enforce_mappers mappers = list_identity_provider_mappers kc realm alias >>? λ reps.
      let current = by_name reps [] in
      let desired = mappers_by_name mappers [] in
      apply_mappers current desired false >>? λ changed. delete_mappers desired current changed

module _ {W : Type 0} (cluster : Cluster IdentityProviderSpec W) where
  unfoldable pub provider_prepare_payload : Object IdentityProviderSpec → Fields → Op W Fields
  unfolding inject_values
  provider_prepare_payload o payload = elim o.spec.config_secret_ref [
    | none ↦ return payload
    | some selector ↦ read_secret_values cluster o.namespace selector >>? λ values.
        return (inject_values "config" values payload)
  ]

  unfoldable pub identity_provider_driver : Driver IdentityProviderSpec W
  identity_provider_driver = record {
    get = λ kc o. get_identity_provider kc o.spec.head.realm o.spec.alias;
    id = text_at "alias";
    create = λ kc o payload. create_identity_provider kc o.spec.head.realm payload;
    update = λ kc o id payload. update_identity_provider kc o.spec.head.realm o.spec.alias payload;
    delete = λ kc o. delete_identity_provider kc o.spec.head.realm o.spec.alias;
    managed_marker = λ payload. payload;
    is_managed = λ remote. false;
    prepare_payload = provider_prepare_payload;
    post_apply =
        λ kc remote. call (λ o. enforce_mappers kc o.spec.head.realm o.spec.alias o.spec.mappers);
    protected = λ o. none;
    spec = λ s. accessors s.head;
    spec_json = λ s. object (struct (identity_provider_fields s));
    operator_fields =
        "keycloakRef" ∷ "adoptionPolicy" ∷ "deletionPolicy" ∷ "realm" ∷ "configSecretRef"
        ∷ "mappers" ∷ [];
  }

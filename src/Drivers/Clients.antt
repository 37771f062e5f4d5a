-- ===== src/Drivers/Clients.antt =====
-- driver_client.go: clients and client scopes.
use keycloak_operator.Base.{
  String, Bool, true, false, ◌||◌, Option, none, some, List, [], ◌∷◌, ◌==◌, if◌then◌else◌,
}
use keycloak_operator.Errors.{failure, other, Error}
use keycloak_operator.World.{Op, return, fail_with, ◌>>=◌, ◌>>?◌}
use keycloak_operator.Json.{string, object, Fields, lookup, insert, as_string}
use keycloak_operator.Api.{
  Object, SecretKeySelector, managed_annotation, managed_value, client_secret_key,
}
use keycloak_operator.Api.Policy.{accessors}
use keycloak_operator.Platform.{Admin, Cluster}
use keycloak_operator.Driver.{Driver}
use keycloak_operator.Keycloak.Resources.{
  find_client, create_client, update_client, delete_client, get_client_secret, find_client_scope,
  create_client_scope, update_client_scope, delete_client_scope,
}
use keycloak_operator.Keycloak.Mappings.{text_at}
use keycloak_operator.Drivers.Marker.{stamp_string_attribute, managed_by_string_attribute}
use keycloak_operator.Drivers.Secrets.{read_secret_value, ensure_output_secret}
use keycloak_operator.Drivers.Scopes.{enforce_scope_assignments}
use keycloak_operator.Json.Structs.{struct}
use keycloak_operator.Api.Specs.{ClientSpec, ClientScopeSpec}
use keycloak_operator.Api.Specs.Tags.{client_fields, client_scope_fields}
use keycloak_operator.Engine.{State, call, modify, current}

-- `remote["id"].(string)`, which panics if there is no text
abbrev pub with_id : {W : Type 0} → Fields → (String → Op W (Unit {0})) → Op W (Unit {0})
with_id remote f = elim (as_string (lookup "id" remote)) [
  | none ↦ fail_with (failure other "panic: interface conversion")
  | some id ↦ f id
]

abbrev pub no_id : Error
no_id = failure other "server representation has no id"

module _ {W : Type 0} (cluster : Cluster ClientSpec W) where
  unfoldable pub client_delete : Admin W → Object ClientSpec → Op W (Unit {0})
  client_delete kc o = find_client kc o.spec.head.realm o.spec.client_id >>? λ remote.
      with_id remote (delete_client kc o.spec.head.realm)

  unfoldable pub client_prepare_payload : Object ClientSpec → Fields → Op W Fields
  client_prepare_payload o payload = elim o.spec.secret_ref [
    | none ↦ return payload
    | some selector ↦ read_secret_value cluster o.namespace selector client_secret_key >>? λ value.
        return (insert "secret" (string value) payload)
  ]

  abbrev output_key : SecretKeySelector → String
  output_key output = if output.key == "" then client_secret_key else output.key

  -- The export of the secret; the status names the Secret once it is written.
  unfoldable pub export_secret : Admin W → String → Op (State ClientSpec W) Bool
  export_secret kc id = current >>= λ o'. elim o'.spec.secret_output [
    | none ↦ return false
    | some output ↦ call (λ o. get_client_secret kc o.spec.head.realm id) >>? λ value.
        call (λ o. ensure_output_secret cluster o output.name (output_key output) value)
        >>? λ wrote.
            modify (λ o. record o { status = record o.status { secret_name = output.name } })
            >>= λ _. return wrote
  ]

  -- One of the two lists of scopes, where the spec manages it.
  abbrev enforce_scopes :
      Admin W → String → Option (List String) → Bool → Op (State ClientSpec W) Bool
  enforce_scopes kc id desired optional = elim desired [
    | none ↦ return false
    | some names ↦ call (λ o. enforce_scope_assignments kc o.spec.head.realm id names optional)
  ]

  unfoldable pub client_post_apply : Admin W → Fields → Op (State ClientSpec W) Bool
  client_post_apply kc remote s =
      (if text_at "id" remote == ""
          then fail_with no_id
          else (export_secret kc (text_at "id" remote) >>? λ exported.
              enforce_scopes kc (text_at "id" remote) s.0.spec.default_client_scopes false
              >>? λ default_changed.
                  enforce_scopes kc (text_at "id" remote) s.0.spec.optional_client_scopes true
                  >>? λ optional_changed. return (exported || default_changed || optional_changed)))
        s

  unfoldable pub client_driver : Driver ClientSpec W
  client_driver = record {
    get = λ kc o. find_client kc o.spec.head.realm o.spec.client_id;
    id = text_at "id";
    create = λ kc o payload. create_client kc o.spec.head.realm payload;
    update = λ kc o id payload. update_client kc o.spec.head.realm id payload;
    delete = client_delete;
    managed_marker = λ payload. stamp_string_attribute payload managed_annotation managed_value;
    is_managed = managed_by_string_attribute;
    prepare_payload = client_prepare_payload;
    post_apply = client_post_apply;
    protected = λ o. none;
    spec = λ s. accessors s.head;
    spec_json = λ s. object (struct (client_fields s));
    operator_fields =
        "keycloakRef" ∷ "adoptionPolicy" ∷ "deletionPolicy" ∷ "realm" ∷ "secretRef" ∷ "secretOutput"
        ∷ [];
  }

unfoldable pub client_scope_delete :
    {W : Type 0} → Admin W → Object ClientScopeSpec → Op W (Unit {0})
client_scope_delete kc o = find_client_scope kc o.spec.head.realm o.spec.name >>? λ remote.
    with_id remote (delete_client_scope kc o.spec.head.realm)

unfoldable pub client_scope_driver : (W : Type 0) → Driver ClientScopeSpec W
client_scope_driver W = record {
  get = λ kc o. find_client_scope kc o.spec.head.realm o.spec.name;
  id = text_at "id";
  create = λ kc o payload. create_client_scope kc o.spec.head.realm payload;
  update = λ kc o id payload. update_client_scope kc o.spec.head.realm id payload;
  delete = client_scope_delete;
  managed_marker = λ payload. stamp_string_attribute payload managed_annotation managed_value;
  is_managed = managed_by_string_attribute;
  prepare_payload = λ o payload. return payload;
  post_apply = λ kc remote. return false;
  protected = λ o. none;
  spec = λ s. accessors s.head;
  spec_json = λ s. object (struct (client_scope_fields s));
  operator_fields = "keycloakRef" ∷ "adoptionPolicy" ∷ "deletionPolicy" ∷ "realm" ∷ [];
}

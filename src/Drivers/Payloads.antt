-- ===== src/Drivers/Payloads.antt =====
-- The six kinds, each with its spec, the fields of that spec and its driver: what of a spec the
-- payload and the annotation hold.
use keycloak_operator.Base.{
  ℕ, String, true, Option, none, some, List, [], ◌∷◌, ◌≡◌, refl, ◌∙◌, if◌then◌else◌,
}
use keycloak_operator.Errors.{ok}
use keycloak_operator.Json.{Value, string, object, Fields, lookup}
use keycloak_operator.Json.Structs.{Slot, struct, encode, find, distinct_tags}
use keycloak_operator.Json.Structs.Laws.{HaveMaps, lookup-struct, struct-IsWell}
use keycloak_operator.Json.Text.{sort_keys}
use keycloak_operator.Api.{Object}
use keycloak_operator.Api.Specs.{
  ClientSpec, ClientScopeSpec, RealmRoleSpec, IdentityProviderSpec, GroupSpec,
}
use keycloak_operator.Api.Specs.Realm.{RealmSpec}
use keycloak_operator.Api.Specs.RealmTags.{realm_fields}
use keycloak_operator.Api.Specs.Tags.{
  client_fields, client_scope_fields, realm_role_fields, identity_provider_fields, group_fields,
}
use keycloak_operator.Platform.{Cluster}
use keycloak_operator.Driver.{Driver}
use keycloak_operator.Drivers.Secrets.{contains}
use keycloak_operator.Drivers.Realm.{realm_driver}
use keycloak_operator.Drivers.Clients.{client_driver, client_scope_driver}
use keycloak_operator.Drivers.RealmRole.{realm_role_driver}
use keycloak_operator.Drivers.IdentityProvider.{identity_provider_driver}
use keycloak_operator.Drivers.Group.{group_driver}
use keycloak_operator.Engine.Lifecycle.{spec_map_of}
use keycloak_operator.Engine.Encoding.{lookup-spec_map_of}
use mathlib.Core.Option

pub data SpecKind : Type 0 where
  realm client client_scope realm_role identity_provider group : SpecKind

abbrev pub SpecOf : SpecKind → Type 0
SpecOf realm = RealmSpec
SpecOf client = ClientSpec
SpecOf client_scope = ClientScopeSpec
SpecOf realm_role = RealmRoleSpec
SpecOf identity_provider = IdentityProviderSpec
SpecOf group = GroupSpec

abbrev pub fields_of : (k : SpecKind) → SpecOf k → List (String × Slot)
fields_of realm s = realm_fields s
fields_of client s = client_fields s
fields_of client_scope s = client_scope_fields s
fields_of realm_role s = realm_role_fields s
fields_of identity_provider s = identity_provider_fields s
fields_of group s = group_fields s

abbrev pub driver_of : {W : Type 0} (k : SpecKind) → Cluster (SpecOf k) W → Driver (SpecOf k) W
driver_of realm cluster = realm_driver cluster
driver_of client cluster = client_driver cluster
driver_of {W} client_scope cluster = client_scope_driver W
driver_of {W} realm_role cluster = realm_role_driver W
driver_of identity_provider cluster = identity_provider_driver cluster
driver_of {W} group cluster = group_driver W

pub fields_of-distinct : (k : SpecKind) (s : SpecOf k) → distinct_tags (fields_of k s) ≡ true
unfolding distinct_tags realm_fields client_fields client_scope_fields realm_role_fields
    identity_provider_fields group_fields
fields_of-distinct realm s = refl
fields_of-distinct client s = refl
fields_of-distinct client_scope s = refl
fields_of-distinct realm_role s = refl
fields_of-distinct identity_provider s = refl
fields_of-distinct group s = refl

-- The natural key of each kind, as the README lists them, and the name that a spec gives.
abbrev pub natural_key : SpecKind → String
natural_key realm = "realm"
natural_key client = "clientId"
natural_key client_scope = "name"
natural_key realm_role = "name"
natural_key identity_provider = "alias"
natural_key group = "name"

abbrev pub name_of : (k : SpecKind) → SpecOf k → String
name_of realm s = s.head.realm
name_of client s = s.client_id
name_of client_scope s = s.name
name_of realm_role s = s.name
name_of identity_provider s = s.alias
name_of group s = s.name

-- The settings that only the operator understands: references to connections and Secrets, and the
-- policies. The realm of what stands in a realm is a part of the URL.
abbrev operator_settings : List String
operator_settings =
    "keycloakRef" ∷ "adoptionPolicy" ∷ "deletionPolicy" ∷ "secretRef" ∷ "secretOutput"
    ∷ "configSecretRef" ∷ "smtpServerSecretRef" ∷ []

abbrev pub kept_back : SpecKind → List String
kept_back realm = operator_settings
kept_back client = "realm" ∷ operator_settings
kept_back client_scope = "realm" ∷ operator_settings
kept_back realm_role = "realm" ∷ operator_settings
kept_back identity_provider = "realm" ∷ operator_settings
kept_back group = "realm" ∷ operator_settings

abbrev pub HasNoneOf : List String → (String → Option Value) → Type 0
HasNoneOf [] at = Unit {0}
HasNoneOf (key ∷ keys) at = (at key ≡ none) × HasNoneOf keys at

HasNoneOf-same :
    (keys : List String) (f g : String → Option Value)
    → ((j : String) → f j ≡ g j)
    → HasNoneOf keys g
    → HasNoneOf keys f
HasNoneOf-same [] f g same h = tt
HasNoneOf-same (key ∷ keys) f g same h = (same key ∙ h.0, HasNoneOf-same keys f g same h.1)

module _ {W : Type 0} where
  pub spec_json-fields :
      (k : SpecKind) (cluster : Cluster (SpecOf k) W) (s : SpecOf k)
      → (driver_of k cluster).spec_json s ≡ object (struct (fields_of k s))
  unfolding realm_driver client_driver client_scope_driver realm_role_driver
      identity_provider_driver group_driver
  spec_json-fields realm cluster s = refl
  spec_json-fields client cluster s = refl
  spec_json-fields client_scope cluster s = refl
  spec_json-fields realm_role cluster s = refl
  spec_json-fields identity_provider cluster s = refl
  spec_json-fields group cluster s = refl

  -- What the operator enforces of a spec. Whatever the kind, where the maps of a spec have no key
  -- twice, the spec has a payload; it holds under each key the JSON form of the field with that
  -- tag, with the keys inside sorted, and nothing where the field is left out, where no field has
  -- the tag, and under the fields of the operator.
  pub payload-fields :
      (k : SpecKind) (cluster : Cluster (SpecOf k) W) (resync : ℕ) (base : Object (SpecOf k))
      → HaveMaps (fields_of k base.spec)
      → (n : Fields) × (spec_map_of cluster (driver_of k cluster) resync base ≡ ok n)
        × ((j : String)
            → lookup j n ≡ (
                if contains j (driver_of k cluster).operator_fields
                then none
                else Option.map sort_keys (find j (fields_of k base.spec))))
  payload-fields k cluster resync base maps =
      let d = fields_of-distinct k base.spec in
      let (n, e, at) =
        lookup-spec_map_of cluster (driver_of k cluster) resync base
          (struct (fields_of k base.spec)) (spec_json-fields k cluster base.spec)
          (struct-IsWell (fields_of k base.spec) d maps) in
      (n, e, λ j. at j ∙ rw (lookup-struct j (fields_of k base.spec) d))

  -- What stands under a key of the payload by `payload-fields`.
  abbrev entry : (k : SpecKind) → Cluster (SpecOf k) W → SpecOf k → String → Option Value
  entry k cluster s j =
      if contains j (driver_of k cluster).operator_fields
      then none
      else Option.map sort_keys (find j (fields_of k s))

  entry-HasNoneOf :
      (k : SpecKind) (cluster : Cluster (SpecOf k) W) (s : SpecOf k)
      → HasNoneOf (kept_back k) (entry k cluster s)
  unfolding realm_driver client_driver client_scope_driver realm_role_driver
      identity_provider_driver group_driver realm_fields client_fields client_scope_fields
      realm_role_fields identity_provider_fields group_fields find encode sort_keys
  entry-HasNoneOf realm cluster s = (refl, (refl, (refl, (refl, (refl, (refl, (refl, tt)))))))
  entry-HasNoneOf client cluster s =
      (refl, (refl, (refl, (refl, (refl, (refl, (refl, (refl, tt))))))))
  entry-HasNoneOf client_scope cluster s =
      (refl, (refl, (refl, (refl, (refl, (refl, (refl, (refl, tt))))))))
  entry-HasNoneOf realm_role cluster s =
      (refl, (refl, (refl, (refl, (refl, (refl, (refl, (refl, tt))))))))
  entry-HasNoneOf identity_provider cluster s =
      (refl, (refl, (refl, (refl, (refl, (refl, (refl, (refl, tt))))))))
  entry-HasNoneOf group cluster s =
      (refl, (refl, (refl, (refl, (refl, (refl, (refl, (refl, tt))))))))

  entry-natural_key :
      (k : SpecKind) (cluster : Cluster (SpecOf k) W) (s : SpecOf k)
      → entry k cluster s (natural_key k) ≡ some (string (name_of k s))
  unfolding realm_driver client_driver client_scope_driver realm_role_driver
      identity_provider_driver group_driver realm_fields client_fields client_scope_fields
      realm_role_fields identity_provider_fields group_fields find encode sort_keys
  entry-natural_key realm cluster s = refl
  entry-natural_key client cluster s = refl
  entry-natural_key client_scope cluster s = refl
  entry-natural_key realm_role cluster s = refl
  entry-natural_key identity_provider cluster s = refl
  entry-natural_key group cluster s = refl

  -- The payload names its resource and keeps back what concerns the operator alone. Whatever the
  -- kind, where the maps of a spec have no key twice, the spec has a payload; under the natural key
  -- of the kind it holds the name that the spec gives, and it has no reference to a connection or a
  -- Secret, no policy, and, but for a realm, no "realm".
  pub payload_keeps_back :
      (k : SpecKind) (cluster : Cluster (SpecOf k) W) (resync : ℕ) (base : Object (SpecOf k))
      → HaveMaps (fields_of k base.spec)
      → (n : Fields) × (spec_map_of cluster (driver_of k cluster) resync base ≡ ok n)
        × (lookup (natural_key k) n ≡ some (string (name_of k base.spec)))
        × HasNoneOf (kept_back k) (λ j. lookup j n)
  payload_keeps_back k cluster resync base maps =
      let (n, e, at) = payload-fields k cluster resync base maps in
      (
        n,
        e,
        at (natural_key k) ∙ entry-natural_key k cluster base.spec,
        HasNoneOf-same (kept_back k) (λ j. lookup j n) (entry k cluster base.spec) at
            (entry-HasNoneOf k cluster base.spec),
      )

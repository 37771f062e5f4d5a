-- ===== src/Api/Specs.antt =====
-- The specs of the five kinds other than Realm (api/v1alpha1), and the structs inside a spec with
-- their JSON form. `head` holds the four fields that every spec starts with. A slice or a map is its
-- entries, with none for nil; behind a pointer it is an option.
pub mod Realm
pub mod RealmTags
pub mod Tags
use keycloak_operator.Base.{String, Bool, Option, List, [], ◌∷◌}
use keycloak_operator.Json.{Fields}
use keycloak_operator.Json.Structs.{
  Integer, struct, required, flag, text, texts, text_map, texts_map, nonempty, map_of,
}
use keycloak_operator.Api.{SecretKeySelector, SecretKeysSelector}
use keycloak_operator.Api.Policy.{SpecHead}

pub record ProtocolMapper : Type 0 where
  pub name : Option String
  pub protocol : Option String
  pub protocol_mapper : Option String
  pub consent_required : Option Bool
  pub config : List (String × String)

pub record IdentityProviderMapper : Type 0 where
  pub name : String
  pub identity_provider_mapper : Option String
  pub config : List (String × String)

pub record ClientSpec : Type 0 where
  pub head : SpecHead
  pub client_id : String
  pub secret_ref : Option SecretKeySelector
  pub secret_output : Option SecretKeySelector
  pub name : Option String
  pub description : Option String
  pub enabled : Option Bool
  pub protocol : Option String
  pub public_client : Option Bool
  pub bearer_only : Option Bool
  pub standard_flow_enabled : Option Bool
  pub implicit_flow_enabled : Option Bool
  pub direct_access_grants_enabled : Option Bool
  pub service_accounts_enabled : Option Bool
  pub authorization_services_enabled : Option Bool
  pub frontchannel_logout : Option Bool
  pub full_scope_allowed : Option Bool
  pub consent_required : Option Bool
  pub display_on_consent_screen : Option Bool
  pub consent_screen_text : Option String
  pub always_display_in_console : Option Bool
  pub surrogate_auth_required : Option Bool
  pub root_url : Option String
  pub base_url : Option String
  pub admin_url : Option String
  pub redirect_uris : List String
  pub web_origins : List String
  pub node_re_registration_timeout : Option Integer
  pub client_authenticator_type : Option String
  pub protocol_mappers : List ProtocolMapper
  pub default_client_scopes : Option (List String)
  pub optional_client_scopes : Option (List String)
  pub attributes : List (String × String)
  pub authentication_flow_binding_overrides : List (String × String)

pub record ClientScopeSpec : Type 0 where
  pub head : SpecHead
  pub name : String
  pub description : Option String
  pub protocol : Option String
  pub attributes : List (String × String)
  pub protocol_mappers : List ProtocolMapper
  pub display_on_consent_screen : Option Bool
  pub consent_screen_text : Option String

pub record RoleComposites : Type 0 where
  pub realm_roles : List String
  pub client_roles : List (String × List String)

pub record RealmRoleSpec : Type 0 where
  pub head : SpecHead
  pub name : String
  pub description : Option String
  pub composite : Option Bool
  pub composites : Option RoleComposites
  pub attributes : List (String × List String)

pub record IdentityProviderSpec : Type 0 where
  pub head : SpecHead
  pub alias : String
  pub provider_id : String
  pub display_name : Option String
  pub enabled : Option Bool
  pub trust_email : Option Bool
  pub store_token : Option Bool
  pub add_read_token_role_on_create : Option Bool
  pub link_only : Option Bool
  pub first_broker_login_flow_alias : Option String
  pub post_broker_login_flow_alias : Option String
  pub config : List (String × String)
  pub config_secret_ref : Option SecretKeysSelector
  pub mappers : List IdentityProviderMapper

pub record GroupSpec : Type 0 where
  pub head : SpecHead
  pub name : String
  pub attributes : List (String × List String)
  pub realm_roles : Option (List String)
  pub client_roles : Option (List (String × List String))

-- `KeycloakRef`, whose one field is its name
abbrev pub ref_fields : String → Fields
ref_fields name = struct (("name", required name) ∷ [])

abbrev pub selector_fields : SecretKeySelector → Fields
selector_fields s = struct (("name", required s.name) ∷ ("key", nonempty s.key) ∷ [])

abbrev pub keys_fields : SecretKeysSelector → Fields
keys_fields s = struct (("name", required s.name) ∷ ("keys", map_of s.keys) ∷ [])

abbrev pub protocol_mapper_fields : ProtocolMapper → Fields
protocol_mapper_fields s = struct (
    ("name", text s.name)
    ∷ ("protocol", text s.protocol)
    ∷ ("protocolMapper", text s.protocol_mapper)
    ∷ ("consentRequired", flag s.consent_required)
    ∷ ("config", text_map s.config)
    ∷ [])

abbrev pub mapper_fields : IdentityProviderMapper → Fields
mapper_fields s = struct (
    ("name", required s.name)
    ∷ ("identityProviderMapper", text s.identity_provider_mapper)
    ∷ ("config", text_map s.config)
    ∷ [])

abbrev pub composites_fields : RoleComposites → Fields
composites_fields s =
    struct (("realmRoles", texts s.realm_roles) ∷ ("clientRoles", texts_map s.client_roles) ∷ [])

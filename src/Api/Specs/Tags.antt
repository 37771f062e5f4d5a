-- ===== src/Api/Specs/Tags.antt =====
-- api/v1alpha1: the fields of the specs other than that of a realm under their JSON tags.
use keycloak_operator.Base.{String, some, List, [], ◌∷◌, map}
use keycloak_operator.Json.Structs.{
  Slot, required, flag, text, integer, texts, texts_pointer, text_map, texts_map, texts_map_pointer,
  structure, structures,
}
use keycloak_operator.Api.Specs.{
  ClientSpec, ClientScopeSpec, RealmRoleSpec, IdentityProviderSpec, GroupSpec, ref_fields,
  selector_fields, keys_fields, protocol_mapper_fields, mapper_fields, composites_fields,
}
use mathlib.Core.Option

unfoldable pub client_fields : ClientSpec → List (String × Slot)
client_fields s =
    ("keycloakRef", structure (some (ref_fields s.head.keycloak_ref)))
    ∷ ("realm", required s.head.realm)
    ∷ ("clientId", required s.client_id)
    ∷ ("adoptionPolicy", text s.head.adoption_policy)
    ∷ ("deletionPolicy", text s.head.deletion_policy)
    ∷ ("secretRef", structure (Option.map selector_fields s.secret_ref))
    ∷ ("secretOutput", structure (Option.map selector_fields s.secret_output))
    ∷ ("name", text s.name)
    ∷ ("description", text s.description)
    ∷ ("enabled", flag s.enabled)
    ∷ ("protocol", text s.protocol)
    ∷ ("publicClient", flag s.public_client)
    ∷ ("bearerOnly", flag s.bearer_only)
    ∷ ("standardFlowEnabled", flag s.standard_flow_enabled)
    ∷ ("implicitFlowEnabled", flag s.implicit_flow_enabled)
    ∷ ("directAccessGrantsEnabled", flag s.direct_access_grants_enabled)
    ∷ ("serviceAccountsEnabled", flag s.service_accounts_enabled)
    ∷ ("authorizationServicesEnabled", flag s.authorization_services_enabled)
    ∷ ("frontchannelLogout", flag s.frontchannel_logout)
    ∷ ("fullScopeAllowed", flag s.full_scope_allowed)
    ∷ ("consentRequired", flag s.consent_required)
    ∷ ("displayOnConsentScreen", flag s.display_on_consent_screen)
    ∷ ("consentScreenText", text s.consent_screen_text)
    ∷ ("alwaysDisplayInConsole", flag s.always_display_in_console)
    ∷ ("surrogateAuthRequired", flag s.surrogate_auth_required)
    ∷ ("rootUrl", text s.root_url)
    ∷ ("baseUrl", text s.base_url)
    ∷ ("adminUrl", text s.admin_url)
    ∷ ("redirectUris", texts s.redirect_uris)
    ∷ ("webOrigins", texts s.web_origins)
    ∷ ("nodeReRegistrationTimeout", integer s.node_re_registration_timeout)
    ∷ ("clientAuthenticatorType", text s.client_authenticator_type)
    ∷ ("protocolMappers", structures (map protocol_mapper_fields s.protocol_mappers))
    ∷ ("defaultClientScopes", texts_pointer s.default_client_scopes)
    ∷ ("optionalClientScopes", texts_pointer s.optional_client_scopes)
    ∷ ("attributes", text_map s.attributes)
    ∷ ("authenticationFlowBindingOverrides", text_map s.authentication_flow_binding_overrides)
    ∷ []

unfoldable pub client_scope_fields : ClientScopeSpec → List (String × Slot)
client_scope_fields s =
    ("keycloakRef", structure (some (ref_fields s.head.keycloak_ref)))
    ∷ ("realm", required s.head.realm)
    ∷ ("name", required s.name)
    ∷ ("adoptionPolicy", text s.head.adoption_policy)
    ∷ ("deletionPolicy", text s.head.deletion_policy)
    ∷ ("description", text s.description)
    ∷ ("protocol", text s.protocol)
    ∷ ("attributes", text_map s.attributes)
    ∷ ("protocolMappers", structures (map protocol_mapper_fields s.protocol_mappers))
    ∷ ("displayOnConsentScreen", flag s.display_on_consent_screen)
    ∷ ("consentScreenText", text s.consent_screen_text)
    ∷ []

unfoldable pub realm_role_fields : RealmRoleSpec → List (String × Slot)
realm_role_fields s =
    ("keycloakRef", structure (some (ref_fields s.head.keycloak_ref)))
    ∷ ("realm", required s.head.realm)
    ∷ ("name", required s.name)
    ∷ ("adoptionPolicy", text s.head.adoption_policy)
    ∷ ("deletionPolicy", text s.head.deletion_policy)
    ∷ ("description", text s.description)
    ∷ ("composite", flag s.composite)
    ∷ ("composites", structure (Option.map composites_fields s.composites))
    ∷ ("attributes", texts_map s.attributes)
    ∷ []

unfoldable pub identity_provider_fields : IdentityProviderSpec → List (String × Slot)
identity_provider_fields s =
    ("keycloakRef", structure (some (ref_fields s.head.keycloak_ref)))
    ∷ ("realm", required s.head.realm)
    ∷ ("alias", required s.alias)
    ∷ ("providerId", required s.provider_id)
    ∷ ("adoptionPolicy", text s.head.adoption_policy)
    ∷ ("deletionPolicy", text s.head.deletion_policy)
    ∷ ("displayName", text s.display_name)
    ∷ ("enabled", flag s.enabled)
    ∷ ("trustEmail", flag s.trust_email)
    ∷ ("storeToken", flag s.store_token)
    ∷ ("addReadTokenRoleOnCreate", flag s.add_read_token_role_on_create)
    ∷ ("linkOnly", flag s.link_only)
    ∷ ("firstBrokerLoginFlowAlias", text s.first_broker_login_flow_alias)
    ∷ ("postBrokerLoginFlowAlias", text s.post_broker_login_flow_alias)
    ∷ ("config", text_map s.config)
    ∷ ("configSecretRef", structure (Option.map keys_fields s.config_secret_ref))
    ∷ ("mappers", structures (map mapper_fields s.mappers))
    ∷ []

unfoldable pub group_fields : GroupSpec → List (String × Slot)
group_fields s =
    ("keycloakRef", structure (some (ref_fields s.head.keycloak_ref)))
    ∷ ("realm", required s.head.realm)
    ∷ ("name", required s.name)
    ∷ ("adoptionPolicy", text s.head.adoption_policy)
    ∷ ("deletionPolicy", text s.head.deletion_policy)
    ∷ ("attributes", texts_map s.attributes)
    ∷ ("realmRoles", texts_pointer s.realm_roles)
    ∷ ("clientRoles", texts_map_pointer s.client_roles)
    ∷ []

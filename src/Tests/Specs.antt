-- ===== src/Tests/Specs.antt =====
-- Specs as payloads.
use keycloak_operator.Base.{String, false, none, some, [], ◌∷◌, ◌≡◌, refl, arith}
use keycloak_operator.Errors.{ok}
use keycloak_operator.Json.{string, boolean, number, object, Fields, end, field, lookup}
use keycloak_operator.Json.Structs.{struct, encode}
use keycloak_operator.Api.{Object, finalizer_name}
use keycloak_operator.Api.Specs.Realm.{RealmSpec}
use keycloak_operator.Api.Specs.RealmTags.{realm_fields}
use keycloak_operator.Drivers.Realm.{realm_driver}
use keycloak_operator.Drivers.Payloads.{SpecKind, HasNoneOf, kept_back, payload_keeps_back}
use keycloak_operator.Engine.Lifecycle.{spec_map_of}
use keycloak_operator.Tests.Fixture.{Log, cluster, realm_spec}

-- A realm that is switched off and leaves most settings open.
abbrev pub realm : String → RealmSpec
realm name = record {
  head = realm_spec name;
  enabled = some false;
  display_name = some "Demo";
  display_name_html = none;
  ssl_required = none;
  not_before = none;
  registration_allowed = none;
  registration_email_as_username = none;
  login_with_email_allowed = none;
  duplicate_emails_allowed = none;
  reset_password_allowed = none;
  remember_me = none;
  verify_email = none;
  user_managed_access_allowed = none;
  sso_session_idle_timeout = some "1800";
  sso_session_max_lifespan = none;
  sso_session_idle_timeout_remember_me = none;
  sso_session_max_lifespan_remember_me = none;
  client_session_idle_timeout = none;
  client_session_max_lifespan = none;
  client_offline_session_idle_timeout = none;
  client_offline_session_max_lifespan = none;
  access_token_lifespan = none;
  access_token_lifespan_for_implicit_flow = none;
  offline_session_idle_timeout = none;
  offline_session_max_lifespan_enabled = none;
  offline_session_max_lifespan = none;
  access_code_lifespan = none;
  access_code_lifespan_user_action = none;
  access_code_lifespan_login = none;
  action_token_generated_by_admin_lifespan = none;
  action_token_generated_by_user_lifespan = none;
  oauth2_device_code_lifespan = none;
  oauth2_device_polling_interval = none;
  revoke_refresh_token = none;
  refresh_token_max_reuse = none;
  login_theme = none;
  account_theme = none;
  admin_theme = none;
  email_theme = none;
  smtp_server = [];
  smtp_server_secret_ref = none;
  events_enabled = none;
  events_expiration = none;
  events_listeners = [];
  enabled_event_types = [];
  admin_events_enabled = none;
  admin_events_details_enabled = none;
  password_policy = none;
  brute_force_protected = none;
  permanent_lockout = none;
  max_failure_wait_seconds = none;
  minimum_quick_login_wait_seconds = none;
  wait_increment_seconds = none;
  quick_login_check_milli_seconds = none;
  max_delta_time_seconds = none;
  failure_factor = none;
  otp_policy_type = none;
  otp_policy_algorithm = none;
  otp_policy_initial_counter = none;
  otp_policy_digits = none;
  otp_policy_look_ahead_window = none;
  otp_policy_period = none;
  otp_policy_code_reusable = none;
  web_authn_policy_rp_entity_name = none;
  web_authn_policy_signature_algorithms = [];
  web_authn_policy_rp_id = none;
  web_authn_policy_attestation_conveyance_preference = none;
  web_authn_policy_authenticator_attachment = none;
  web_authn_policy_require_resident_key = none;
  web_authn_policy_user_verification_requirement = none;
  web_authn_policy_create_timeout = none;
  web_authn_policy_avoid_same_authenticator_register = none;
  web_authn_policy_acceptable_aaguids = [];
  web_authn_policy_passwordless_rp_entity_name = none;
  web_authn_policy_passwordless_signature_algorithms = [];
  web_authn_policy_passwordless_rp_id = none;
  web_authn_policy_passwordless_attestation_conveyance_preference = none;
  web_authn_policy_passwordless_authenticator_attachment = none;
  web_authn_policy_passwordless_require_resident_key = none;
  web_authn_policy_passwordless_user_verification_requirement = none;
  web_authn_policy_passwordless_create_timeout = none;
  web_authn_policy_passwordless_avoid_same_authenticator_register = none;
  web_authn_policy_passwordless_acceptable_aaguids = [];
  internationalization_enabled = none;
  supported_locales = [];
  default_locale = none;
  default_default_client_scopes = [];
  default_optional_client_scopes = [];
  default_signature_algorithm = none;
  attributes = ("team", "web") ∷ [];
  browser_security_headers = [];
  organizations_enabled = none;
}

realm_json :
    struct (realm_fields (realm "demo"))
    ≡ field "keycloakRef" (object (field "name" (string "main") end)) (
        field "realm" (string "demo") (
          field "enabled" (boolean false) (
            field "displayName" (string "Demo") (
              field "ssoSessionIdleTimeout"
                (number "1800")
                (field "attributes" (object (field "team" (string "web") end)) end)))))
unfolding struct encode realm_fields
realm_json = refl

abbrev pub demo : Object RealmSpec
demo = record {
  kind = "Realm";
  namespace = "apps";
  name = "demo";
  uid = "uid-1";
  generation = 1;
  deleting = false;
  finalizers = finalizer_name ∷ [];
  last_applied = [];
  allow_protected = "";
  spec = realm "demo";
  status = record { conditions = []; observed_generation = 0; secret_name = "" };
}

payload_keeps_back_example :
    (n : Fields) × (spec_map_of cluster (realm_driver cluster) 60 demo ≡ ok n)
    × (lookup "realm" n ≡ some (string "demo"))
    × HasNoneOf (kept_back SpecKind.realm) (λ j. lookup j n)
unfolding realm_driver realm_fields struct encode lookup
payload_keeps_back_example =
    payload_keeps_back {W = Log} SpecKind.realm cluster 60 demo (ground arith)

-- ===== src/Api/Specs/Realm.antt =====
-- realm_types.go: the spec of a realm.
use keycloak_operator.Base.{String, Bool, Option, List}
use keycloak_operator.Json.Structs.{Integer}
use keycloak_operator.Api.{SecretKeysSelector}
use keycloak_operator.Api.Policy.{SpecHead}

pub record RealmSpec : Type 0 where
  pub head : SpecHead
  pub enabled : Option Bool
  pub display_name : Option String
  pub display_name_html : Option String
  pub ssl_required : Option String
  pub not_before : Option Integer
  pub registration_allowed : Option Bool
  pub registration_email_as_username : Option Bool
  pub login_with_email_allowed : Option Bool
  pub duplicate_emails_allowed : Option Bool
  pub reset_password_allowed : Option Bool
  pub remember_me : Option Bool
  pub verify_email : Option Bool
  pub user_managed_access_allowed : Option Bool
  pub sso_session_idle_timeout : Option Integer
  pub sso_session_max_lifespan : Option Integer
  pub sso_session_idle_timeout_remember_me : Option Integer
  pub sso_session_max_lifespan_remember_me : Option Integer
  pub client_session_idle_timeout : Option Integer
  pub client_session_max_lifespan : Option Integer
  pub client_offline_session_idle_timeout : Option Integer
  pub client_offline_session_max_lifespan : Option Integer
  pub access_token_lifespan : Option Integer
  pub access_token_lifespan_for_implicit_flow : Option Integer
  pub offline_session_idle_timeout : Option Integer
  pub offline_session_max_lifespan_enabled : Option Bool
  pub offline_session_max_lifespan : Option Integer
  pub access_code_lifespan : Option Integer
  pub access_code_lifespan_user_action : Option Integer
  pub access_code_lifespan_login : Option Integer
  pub action_token_generated_by_admin_lifespan : Option Integer
  pub action_token_generated_by_user_lifespan : Option Integer
  pub oauth2_device_code_lifespan : Option Integer
  pub oauth2_device_polling_interval : Option Integer
  pub revoke_refresh_token : Option Bool
  pub refresh_token_max_reuse : Option Integer
  pub login_theme : Option String
  pub account_theme : Option String
  pub admin_theme : Option String
  pub email_theme : Option String
  pub smtp_server : List (String × String)
  pub smtp_server_secret_ref : Option SecretKeysSelector
  pub events_enabled : Option Bool
  pub events_expiration : Option Integer
  pub events_listeners : List String
  pub enabled_event_types : List String
  pub admin_events_enabled : Option Bool
  pub admin_events_details_enabled : Option Bool
  pub password_policy : Option String
  pub brute_force_protected : Option Bool
  pub permanent_lockout : Option Bool
  pub max_failure_wait_seconds : Option Integer
  pub minimum_quick_login_wait_seconds : Option Integer
  pub wait_increment_seconds : Option Integer
  pub quick_login_check_milli_seconds : Option Integer
  pub max_delta_time_seconds : Option Integer
  pub failure_factor : Option Integer
  pub otp_policy_type : Option String
  pub otp_policy_algorithm : Option String
  pub otp_policy_initial_counter : Option Integer
  pub otp_policy_digits : Option Integer
  pub otp_policy_look_ahead_window : Option Integer
  pub otp_policy_period : Option Integer
  pub otp_policy_code_reusable : Option Bool
  pub web_authn_policy_rp_entity_name : Option String
  pub web_authn_policy_signature_algorithms : List String
  pub web_authn_policy_rp_id : Option String
  pub web_authn_policy_attestation_conveyance_preference : Option String
  pub web_authn_policy_authenticator_attachment : Option String
  pub web_authn_policy_require_resident_key : Option String
  pub web_authn_policy_user_verification_requirement : Option String
  pub web_authn_policy_create_timeout : Option Integer
  pub web_authn_policy_avoid_same_authenticator_register : Option Bool
  pub web_authn_policy_acceptable_aaguids : List String
  pub web_authn_policy_passwordless_rp_entity_name : Option String
  pub web_authn_policy_passwordless_signature_algorithms : List String
  pub web_authn_policy_passwordless_rp_id : Option String
  pub web_authn_policy_passwordless_attestation_conveyance_preference : Option String
  pub web_authn_policy_passwordless_authenticator_attachment : Option String
  pub web_authn_policy_passwordless_require_resident_key : Option String
  pub web_authn_policy_passwordless_user_verification_requirement : Option String
  pub web_authn_policy_passwordless_create_timeout : Option Integer
  pub web_authn_policy_passwordless_avoid_same_authenticator_register : Option Bool
  pub web_authn_policy_passwordless_acceptable_aaguids : List String
  pub internationalization_enabled : Option Bool
  pub supported_locales : List String
  pub default_locale : Option String
  pub default_default_client_scopes : List String
  pub default_optional_client_scopes : List String
  pub default_signature_algorithm : Option String
  pub attributes : List (String × String)
  pub browser_security_headers : List (String × String)
  pub organizations_enabled : Option Bool

-- ===== src/Api/Specs/RealmTags.antt =====
-- realm_types.go: the fields of the spec of a realm under their JSON tags, in the groups of the source.
use keycloak_operator.Base.{String, some, List, [], ◌∷◌, ◌++◌}
use keycloak_operator.Json.Structs.{Slot, required, flag, text, integer, texts, text_map, structure}
use keycloak_operator.Api.Specs.{ref_fields, keys_fields}
use keycloak_operator.Api.Specs.Realm.{RealmSpec}
use mathlib.Core.Option

unfoldable pub realm_head_fields : RealmSpec → List (String × Slot)
realm_head_fields s =
    ("keycloakRef", structure (some (ref_fields s.head.keycloak_ref)))
    ∷ ("realm", required s.head.realm)
    ∷ ("adoptionPolicy", text s.head.adoption_policy)
    ∷ ("deletionPolicy", text s.head.deletion_policy)
    ∷ []

-- `--- Core ---`
unfoldable pub realm_core_fields : RealmSpec → List (String × Slot)
realm_core_fields s =
    ("enabled", flag s.enabled)
    ∷ ("displayName", text s.display_name)
    ∷ ("displayNameHtml", text s.display_name_html)
    ∷ ("sslRequired", text s.ssl_required)
    ∷ ("notBefore", integer s.not_before)
    ∷ []

-- `--- Login ---`
unfoldable pub realm_login_fields : RealmSpec → List (String × Slot)
realm_login_fields s =
    ("registrationAllowed", flag s.registration_allowed)
    ∷ ("registrationEmailAsUsername", flag s.registration_email_as_username)
    ∷ ("loginWithEmailAllowed", flag s.login_with_email_allowed)
    ∷ ("duplicateEmailsAllowed", flag s.duplicate_emails_allowed)
    ∷ ("resetPasswordAllowed", flag s.reset_password_allowed)
    ∷ ("rememberMe", flag s.remember_me)
    ∷ ("verifyEmail", flag s.verify_email)
    ∷ ("userManagedAccessAllowed", flag s.user_managed_access_allowed)
    ∷ []

-- `--- Sessions and tokens (seconds unless noted) ---`
unfoldable pub realm_session_fields : RealmSpec → List (String × Slot)
realm_session_fields s =
    ("ssoSessionIdleTimeout", integer s.sso_session_idle_timeout)
    ∷ ("ssoSessionMaxLifespan", integer s.sso_session_max_lifespan)
    ∷ ("ssoSessionIdleTimeoutRememberMe", integer s.sso_session_idle_timeout_remember_me)
    ∷ ("ssoSessionMaxLifespanRememberMe", integer s.sso_session_max_lifespan_remember_me)
    ∷ ("clientSessionIdleTimeout", integer s.client_session_idle_timeout)
    ∷ ("clientSessionMaxLifespan", integer s.client_session_max_lifespan)
    ∷ ("clientOfflineSessionIdleTimeout", integer s.client_offline_session_idle_timeout)
    ∷ ("clientOfflineSessionMaxLifespan", integer s.client_offline_session_max_lifespan)
    ∷ ("accessTokenLifespan", integer s.access_token_lifespan)
    ∷ ("accessTokenLifespanForImplicitFlow", integer s.access_token_lifespan_for_implicit_flow)
    ∷ ("offlineSessionIdleTimeout", integer s.offline_session_idle_timeout)
    ∷ ("offlineSessionMaxLifespanEnabled", flag s.offline_session_max_lifespan_enabled)
    ∷ ("offlineSessionMaxLifespan", integer s.offline_session_max_lifespan)
    ∷ ("accessCodeLifespan", integer s.access_code_lifespan)
    ∷ ("accessCodeLifespanUserAction", integer s.access_code_lifespan_user_action)
    ∷ ("accessCodeLifespanLogin", integer s.access_code_lifespan_login)
    ∷ ("actionTokenGeneratedByAdminLifespan", integer s.action_token_generated_by_admin_lifespan)
    ∷ ("actionTokenGeneratedByUserLifespan", integer s.action_token_generated_by_user_lifespan)
    ∷ ("oauth2DeviceCodeLifespan", integer s.oauth2_device_code_lifespan)
    ∷ ("oauth2DevicePollingInterval", integer s.oauth2_device_polling_interval)
    ∷ ("revokeRefreshToken", flag s.revoke_refresh_token)
    ∷ ("refreshTokenMaxReuse", integer s.refresh_token_max_reuse)
    ∷ []

-- `--- Themes ---`
unfoldable pub realm_theme_fields : RealmSpec → List (String × Slot)
realm_theme_fields s =
    ("loginTheme", text s.login_theme)
    ∷ ("accountTheme", text s.account_theme)
    ∷ ("adminTheme", text s.admin_theme)
    ∷ ("emailTheme", text s.email_theme)
    ∷ []

-- `--- Email ---`
unfoldable pub realm_email_fields : RealmSpec → List (String × Slot)
realm_email_fields s =
    ("smtpServer", text_map s.smtp_server)
    ∷ ("smtpServerSecretRef", structure (Option.map keys_fields s.smtp_server_secret_ref))
    ∷ []

-- `--- Events ---`
unfoldable pub realm_event_fields : RealmSpec → List (String × Slot)
realm_event_fields s =
    ("eventsEnabled", flag s.events_enabled)
    ∷ ("eventsExpiration", integer s.events_expiration)
    ∷ ("eventsListeners", texts s.events_listeners)
    ∷ ("enabledEventTypes", texts s.enabled_event_types)
    ∷ ("adminEventsEnabled", flag s.admin_events_enabled)
    ∷ ("adminEventsDetailsEnabled", flag s.admin_events_details_enabled)
    ∷ []

-- `--- Password and brute-force protection ---`
unfoldable pub realm_protection_fields : RealmSpec → List (String × Slot)
realm_protection_fields s =
    ("passwordPolicy", text s.password_policy)
    ∷ ("bruteForceProtected", flag s.brute_force_protected)
    ∷ ("permanentLockout", flag s.permanent_lockout)
    ∷ ("maxFailureWaitSeconds", integer s.max_failure_wait_seconds)
    ∷ ("minimumQuickLoginWaitSeconds", integer s.minimum_quick_login_wait_seconds)
    ∷ ("waitIncrementSeconds", integer s.wait_increment_seconds)
    ∷ ("quickLoginCheckMilliSeconds", integer s.quick_login_check_milli_seconds)
    ∷ ("maxDeltaTimeSeconds", integer s.max_delta_time_seconds)
    ∷ ("failureFactor", integer s.failure_factor)
    ∷ []

-- `--- One-time password policy ---`
unfoldable pub realm_otp_fields : RealmSpec → List (String × Slot)
realm_otp_fields s =
    ("otpPolicyType", text s.otp_policy_type)
    ∷ ("otpPolicyAlgorithm", text s.otp_policy_algorithm)
    ∷ ("otpPolicyInitialCounter", integer s.otp_policy_initial_counter)
    ∷ ("otpPolicyDigits", integer s.otp_policy_digits)
    ∷ ("otpPolicyLookAheadWindow", integer s.otp_policy_look_ahead_window)
    ∷ ("otpPolicyPeriod", integer s.otp_policy_period)
    ∷ ("otpPolicyCodeReusable", flag s.otp_policy_code_reusable)
    ∷ []

-- `--- WebAuthn (passwordless variants mirror the non-passwordless ones) ---`
unfoldable pub realm_webauthn_fields : RealmSpec → List (String × Slot)
realm_webauthn_fields s =
    ("webAuthnPolicyRpEntityName", text s.web_authn_policy_rp_entity_name)
    ∷ ("webAuthnPolicySignatureAlgorithms", texts s.web_authn_policy_signature_algorithms)
    ∷ ("webAuthnPolicyRpId", text s.web_authn_policy_rp_id)
    ∷ (
      "webAuthnPolicyAttestationConveyancePreference",
      text s.web_authn_policy_attestation_conveyance_preference,
    )
    ∷ ("webAuthnPolicyAuthenticatorAttachment", text s.web_authn_policy_authenticator_attachment)
    ∷ ("webAuthnPolicyRequireResidentKey", text s.web_authn_policy_require_resident_key)
    ∷ (
      "webAuthnPolicyUserVerificationRequirement",
      text s.web_authn_policy_user_verification_requirement,
    )
    ∷ ("webAuthnPolicyCreateTimeout", integer s.web_authn_policy_create_timeout)
    ∷ (
      "webAuthnPolicyAvoidSameAuthenticatorRegister",
      flag s.web_authn_policy_avoid_same_authenticator_register,
    )
    ∷ ("webAuthnPolicyAcceptableAaguids", texts s.web_authn_policy_acceptable_aaguids)
    ∷ (
      "webAuthnPolicyPasswordlessRpEntityName",
      text s.web_authn_policy_passwordless_rp_entity_name,
    )
    ∷ (
      "webAuthnPolicyPasswordlessSignatureAlgorithms",
      texts s.web_authn_policy_passwordless_signature_algorithms,
    )
    ∷ ("webAuthnPolicyPasswordlessRpId", text s.web_authn_policy_passwordless_rp_id)
    ∷ (
      "webAuthnPolicyPasswordlessAttestationConveyancePreference",
      text s.web_authn_policy_passwordless_attestation_conveyance_preference,
    )
    ∷ (
      "webAuthnPolicyPasswordlessAuthenticatorAttachment",
      text s.web_authn_policy_passwordless_authenticator_attachment,
    )
    ∷ (
      "webAuthnPolicyPasswordlessRequireResidentKey",
      text s.web_authn_policy_passwordless_require_resident_key,
    )
    ∷ (
      "webAuthnPolicyPasswordlessUserVerificationRequirement",
      text s.web_authn_policy_passwordless_user_verification_requirement,
    )
    ∷ (
      "webAuthnPolicyPasswordlessCreateTimeout",
      integer s.web_authn_policy_passwordless_create_timeout,
    )
    ∷ (
      "webAuthnPolicyPasswordlessAvoidSameAuthenticatorRegister",
      flag s.web_authn_policy_passwordless_avoid_same_authenticator_register,
    )
    ∷ (
      "webAuthnPolicyPasswordlessAcceptableAaguids",
      texts s.web_authn_policy_passwordless_acceptable_aaguids,
    )
    ∷ []

-- `--- Internationalization ---`
unfoldable pub realm_locale_fields : RealmSpec → List (String × Slot)
realm_locale_fields s =
    ("internationalizationEnabled", flag s.internationalization_enabled)
    ∷ ("supportedLocales", texts s.supported_locales)
    ∷ ("defaultLocale", text s.default_locale)
    ∷ []

-- `--- Defaults ---`
unfoldable pub realm_default_fields : RealmSpec → List (String × Slot)
realm_default_fields s =
    ("defaultDefaultClientScopes", texts s.default_default_client_scopes)
    ∷ ("defaultOptionalClientScopes", texts s.default_optional_client_scopes)
    ∷ ("defaultSignatureAlgorithm", text s.default_signature_algorithm)
    ∷ []

-- `--- Misc ---`
unfoldable pub realm_misc_fields : RealmSpec → List (String × Slot)
realm_misc_fields s =
    ("attributes", text_map s.attributes)
    ∷ ("browserSecurityHeaders", text_map s.browser_security_headers)
    ∷ ("organizationsEnabled", flag s.organizations_enabled)
    ∷ []

unfoldable pub realm_fields : RealmSpec → List (String × Slot)
unfolding realm_head_fields realm_core_fields realm_login_fields realm_session_fields
    realm_theme_fields realm_email_fields realm_event_fields realm_protection_fields
    realm_otp_fields realm_webauthn_fields realm_locale_fields realm_default_fields
    realm_misc_fields
realm_fields s =
    realm_head_fields s
    ++ (realm_core_fields s
        ++ (realm_login_fields s
            ++ (realm_session_fields s
                ++ (realm_theme_fields s
                    ++ (realm_email_fields s
                        ++ (realm_event_fields s
                            ++ (realm_protection_fields s
                                ++ (realm_otp_fields s
                                    ++ (realm_webauthn_fields s
                                        ++ (realm_locale_fields s
                                            ++ (realm_default_fields s
                                                ++ (realm_misc_fields s))))))))))))

-- ===== src/Tests/Revocations.antt =====
-- A request of a new client to a server that was revoked.
use keycloak_operator.Base.{◌+◌, ◌<>◌, true, false, none, ◌≡◌, refl}
use keycloak_operator.Errors.{ok}
use keycloak_operator.Json.{end}
use keycloak_operator.Platform.{get, one_map}
use keycloak_operator.Keycloak.Escape.{path_escape}
use keycloak_operator.Keycloak.Client.{no_session, expiry, grant_form, token_endpoint, request}
use keycloak_operator.Keycloak.Fake.State.{Server, new_server}
use keycloak_operator.Keycloak.Fake.Router.{Codec, digits, is_granted, serve}
use keycloak_operator.Keycloak.Fake.Router.Paths.{after_prefix}
use keycloak_operator.Keycloak.Fake.Served.{http, outcome}
use keycloak_operator.Keycloak.Fake.Revocation.{token_read, IsTokenUrl, revoked_once_retries}
use keycloak_operator.Drivers.Sets
use keycloak_operator.Tests.Servers.{net, codec, config, demo_stored}

abbrev grants : Codec
grants = record (codec end) { decode_token = λ s. ok (token_read 1) }

abbrev after_revocation : Server
after_revocation = record demo_stored { revoked = true }

abbrev served_state : Server
served_state = record demo_stored { revoked = false; issued = 0 + 1 }

url-IsTokenUrl : IsTokenUrl net grants 0 config
unfolding token_endpoint path_escape after_prefix
url-IsTokenUrl = ("master/protocol/openid-connect/token", refl, refl)

admin_is_granted : is_granted (grant_form config) after_revocation.creds ≡ true
unfolding is_granted grant_form Sets.get new_server
admin_is_granted = refl

revoked_once_retries_example :
    let served = serve net get "https://sso/admin/realms/demo" none served_state in
    request
      (http net grants 0 config)
      config
      get
      "/admin/realms/demo"
      none
      one_map
      (no_session, after_revocation)
    ≡ (
      outcome net grants 0 config get "/admin/realms/demo" one_map served.0,
      (
        record { access_token = "fake-token-" <> digits 1 1; token_expiry = expiry 0 300 },
        served.1,
      ),
    )
unfolding digits new_server
revoked_once_retries_example =
    revoked_once_retries net grants 0 config get "/admin/realms/demo" none one_map after_revocation
      url-IsTokenUrl refl admin_is_granted refl refl

-- A lifetime of -1 s.
expiry_negative : expiry 5000000000 18446744073709551615 ≡ 4000000000
unfolding expiry
expiry_negative = refl

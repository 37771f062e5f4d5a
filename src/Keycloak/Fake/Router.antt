-- ===== src/Keycloak/Fake/Router.antt =====
-- fake/server.go: `handleToken`, `handleAdmin` and `handleRealmScoped`, and the server as the HTTP
-- client of internal/keycloak/client.go sees it. What net/url and the text form of JSON do is a
-- parameter; the paths are clean, so that the mux redirects none.
pub mod Paths
use Prim.Native.Nat.{◌/◌, ◌%◌}
use Prim.Native.String.{len, slice}
use keycloak_operator.Base.{
  ℕ, zero, suc, ◌+◌, ◌-◌, String, ◌<>◌, Bool, true, false, not, ◌&&◌, Option, none, some, List, [],
  ◌∷◌, ◌==◌, ltb, leb, nat_eq, if◌then◌else◌,
}
use keycloak_operator.Errors.{Error, failure, other, Result, ok, err}
use keycloak_operator.World.{Act, Op}
use keycloak_operator.Json.{Value, number, string, object, end, field}
use keycloak_operator.Json.Text.{Text}
use keycloak_operator.Platform.{Method, get, post, put, delete, Output}
use keycloak_operator.Keycloak.Client.Protocol.{Response, TokenResponse, Http}
use keycloak_operator.Keycloak.Fake.State.{
  Server, Content, empty, plain, json, Reply, panicked, reply, Handler, answer, page_not_found,
  http_error, write_json, on_found,
}
use keycloak_operator.Keycloak.Fake.Realms.{create_realm, handle_realm}
use keycloak_operator.Keycloak.Fake.Clients.{handle_clients}
use keycloak_operator.Keycloak.Fake.Scopes.{handle_client_scopes}
use keycloak_operator.Keycloak.Fake.Roles.{handle_roles}
use keycloak_operator.Keycloak.Fake.Providers.{handle_identity_providers}
use keycloak_operator.Keycloak.Fake.Groups.{handle_groups}
use keycloak_operator.Keycloak.Fake.Router.Paths.{slash, after_prefix, trim_prefix}
use keycloak_operator.Strings.{split}
use keycloak_operator.Drivers.Sets

-- The decoded path of a URL, the first value of a key of its query, and url.PathUnescape.
pub record Net : Type 0 where
  pub path : String → String
  pub query : String → String → String
  pub path_unescape : String → Option String

-- The text form of JSON: what json.Encoder writes, and what json.Unmarshal makes of a text.
pub record Codec : Type 0 where
  pub encode : Value → String
  pub decode : Output → String → Result Value
  pub decode_token : String → Result TokenResponse

-- The digits of a number, with fuel above their count.
unfoldable pub digits : ℕ → ℕ → String
digits zero n = ""
digits (suc fuel) n =
    let front = digits fuel (n / 10) in
    (if ltb n 10 then "" else front) <> slice "0123456789" (n % 10) (n % 10 + 1)

abbrev pub text_or_empty : Option String → String
text_or_empty none = ""
text_or_empty (some s) = s

abbrev pub form_value : String → List (String × String) → String
form_value key form = text_or_empty (Sets.get key form)

abbrev pub invalid_grant : Reply
invalid_grant = http_error "{\"error\":\"invalid_grant\"}" 401

-- Whether the credentials of a form are those of the server; a user that it does not know has the
-- empty password.
unfoldable pub is_granted : List (String × String) → List (String × String) → Bool
is_granted form creds =
    let known = λ (user : String). text_or_empty (Sets.get user creds) in
    if not (form_value "username" form == "")
    then known (form_value "username" form) == form_value "password" form
    else not (form_value "client_id" form == "")
      && (known ("client:" <> form_value "client_id" form) == form_value "client_secret" form)

-- `strings.HasSuffix`
abbrev pub has_suffix : String → String → Bool
has_suffix s suffix = leb (len suffix) (len s) && (slice s (len s - len suffix) (len s) == suffix)

unfoldable pub handle_token : String → List (String × String) → Handler
unfolding is_granted digits
handle_token path form s =
    if not (has_suffix path "/protocol/openid-connect/token")
    then (page_not_found, s)
    else if s.revoked
    then (invalid_grant, record s { revoked = false })
    else if not (is_granted form s.creds)
    then (invalid_grant, s)
    else let issued = s.issued + 1 in
      (
        write_json (
            object (
              field "access_token" (string ("fake-token-" <> digits issued issued))
                (field "expires_in" (number "300") (field "token_type" (string "Bearer") end)))),
        record s { issued = issued },
      )

abbrev pub handle_instances : Method → String → List String → Option Text → Handler
handle_instances method realm [] body = answer page_not_found
handle_instances method realm (x ∷ rest) body =
    if x == "instances"
    then handle_identity_providers method realm rest body
    else answer page_not_found

module _ (net : Net) where
  -- The switch on what follows the realm; `query` is that of the request.
  unfoldable pub handle_resource :
      Method → (String → String) → String → List String → Option Text → Handler
  handle_resource method query realm [] body = handle_realm method realm body
  handle_resource method query realm (kind ∷ sub) body =
      if kind == "clients"
      then handle_clients net.path_unescape method realm (query "clientId") sub body
      else if kind == "client-scopes"
      then handle_client_scopes method realm sub body
      else if kind == "roles"
      then handle_roles method realm sub body
      else if kind == "identity-provider"
      then handle_instances method realm sub body
      else if kind == "groups"
      then handle_groups method realm (query "search") sub body
      else answer page_not_found

  abbrev pub scoped : Method → (String → String) → List String → Option Text → Handler
  scoped method query [] body = answer page_not_found
  scoped method query (realm ∷ sub) body =
      on_found (net.path_unescape realm) (λ name. handle_resource method query name sub body)

  unfoldable pub handle_realm_scoped : Method → (String → String) → String → Option Text → Handler
  unfolding split
  handle_realm_scoped method query rest body = scoped method query (split slash rest) body

  abbrev pub is_post : Method → Bool
  is_post post = true
  is_post _ = false

  -- What follows "/admin".
  unfoldable pub handle_rest : Method → (String → String) → String → Option Text → Handler
  unfolding after_prefix
  handle_rest method query rest body =
      if rest == "/serverinfo"
      then answer (
          write_json
            (object (field "systemInfo" (object (field "version" (string "26.3.5") end)) end)))
      else if (rest == "/realms") && is_post method
      then create_realm body
      else on_found (after_prefix "/realms/" rest)
          (λ path. handle_realm_scoped method query path body)

  unfoldable pub handle_admin : Bool → Method → (String → String) → String → Option Text → Handler
  unfolding after_prefix
  handle_admin authorized method query path body =
      if not authorized
      then answer (http_error "unauthorized" 401)
      else handle_rest method query (trim_prefix "/admin" path) body

  -- The mux, for a request with a token.
  unfoldable pub serve : Method → String → Option Text → Handler
  unfolding after_prefix
  serve method url body = elim (after_prefix "/admin/" (net.path url)) [
    | some rest ↦ handle_admin true method (net.query url) (net.path url) body
    | none ↦ elim (after_prefix "/realms/" (net.path url)) [
      | some rest ↦ handle_token (net.path url) []
      | none ↦ answer page_not_found
    ]
  ]

  unfoldable pub serve_form : String → List (String × String) → Handler
  unfolding after_prefix
  serve_form url form = elim (after_prefix "/realms/" (net.path url)) [
    | some rest ↦ handle_token (net.path url) form
    | none ↦ elim (after_prefix "/admin/" (net.path url)) [
      | some rest ↦ handle_admin false post (net.query url) (net.path url) none
      | none ↦ answer page_not_found
    ]
  ]

  module _ (codec : Codec) where
    abbrev pub content_text : Content → String
    content_text empty = ""
    content_text (plain s) = s
    content_text (json v) = codec.encode v

    -- A panic closes the connection.
    abbrev pub response : Reply → Result Response
    response panicked = err (failure other "EOF")
    response (reply status content) = ok (record { status = status; body = content_text content })

    abbrev respond : Handler → Op Server Response
    respond handler s = let (r, s') = handler s in (response r, s')

    -- The server behind the HTTP client; the clock stands still, and nothing is measured.
    unfoldable pub fake_http : ℕ → Http Server
    fake_http clock = record {
      url_error = λ url. none;
      post_form = λ url form. respond (serve_form url form);
      exchange = λ method url token body. respond (serve method url body);
      decode_token = codec.decode_token;
      decode = codec.decode;
      now = λ s. (clock, s);
      observe = λ connection method class s. (tt, s);
    }

-- ===== src/Keycloak/Client.antt =====
-- internal/keycloak/client.go: the administration token and the Admin API requests. The state of
-- a client is its cached token beside the world.
pub mod Protocol
pub mod Tokens
pub mod Requests
unfoldable pub use Protocol.*
use Prim.Native.Nat.{◌^◌, ◌%◌}
use Prim.Native.String.{len, slice}
use keycloak_operator.Base.{
  ℕ, ◌+◌, ◌-◌, ◌*◌, String, ◌<>◌, Bool, true, false, not, ◌&&◌, ◌||◌, Option, none, some, List, [],
  ◌∷◌, ◌==◌, ltb, leb, nat_eq, if◌then◌else◌,
}
use keycloak_operator.Errors.{
  Error, failure, not_found, conflict, auth, other, api, wrap, Result, ok, err, is_auth,
}
use keycloak_operator.World.{Act, Op, pure, ◌>>=◌, ◌>>◌, return, fail_with}
use keycloak_operator.Json.{Value}
use keycloak_operator.Json.Text.{Text, marshal}
use keycloak_operator.Platform.{Admin, Method, get, post, put, delete, Output, discard}
use keycloak_operator.Keycloak.Escape.{path_escape}

module _ {W : Type 0} (http : Http W) (cfg : Config) where
  -- A call of the world that leaves the session alone, and a write of the session.
  abbrev lift : {A : Type 0} → Act W A → Act (Session × W) A
  lift m s = let (a, w) = m s.1 in (a, (s.0, w))

  abbrev set_session : Session → Act (Session × W) (Unit {0})
  set_session session s = (tt, (session, s.1))

  unfoldable pub token_endpoint : String
  unfolding path_escape
  token_endpoint =
      cfg.url <> "/realms/" <> path_escape cfg.admin_realm <> "/protocol/openid-connect/token"

  -- The token of an answer is kept with the time at which it expires.
  unfoldable pub keep : TokenResponse → Op (Session × W) String
  keep parsed = do
    now ← lift http.now
    set_session
        (record { access_token = parsed.access_token; token_expiry = expiry now parsed.expires_in })
    return parsed.access_token

  -- From the request for a token on.
  unfoldable pub login : Op (Session × W) String
  login = elim (http.url_error token_endpoint) [
    | some e ↦ fail_with (wrap "build token request" e)
    | none ↦ lift (http.post_form token_endpoint (grant_form cfg)) >>= λ r. elim r [
      | err e ↦ fail_with (wrap "token request" e)
      | ok resp ↦ elim (token_of http resp) [ err e ↦ fail_with e | ok parsed ↦ keep parsed ]
    ]
  ]

  -- `time.Until` looks at the clock only where there is a token.
  unfoldable pub token : Op (Session × W) String
  token s =
      if s.0.access_token == ""
      then login s
      else (lift http.now >>= λ now.
            if ltb (now + 30 * second) s.0.token_expiry then return s.0.access_token else login)
          s

  unfoldable pub invalidate : Act (Session × W) (Unit {0})
  invalidate = set_session no_session

  -- Encoding a decoded body does not fail.
  unfoldable pub do_once : Method → String → Option Value → Output → Op (Session × W) (Option Value)
  do_once method path body out = token >>= λ r. elim r [
    | err e ↦ fail_with e
    | ok t ↦ elim (http.url_error (cfg.url <> path)) [
      | some e ↦ fail_with (wrap "build request" e)
      | none ↦ lift (http.exchange method (cfg.url <> path) t (encoded body)) >>= λ r'. elim r' [
        | err e ↦ fail_with (wrap (method_name method <> " " <> path) e)
        | ok resp ↦ pure (response_of http method path out resp)
      ]
    ]
  ]

  unfoldable pub observe_request : Method → Result (Option Value) → Act (Session × W) (Unit {0})
  observe_request method r =
      if cfg.connection_name == ""
      then pure tt
      else lift (http.observe cfg.connection_name method (status_class r))

  abbrev pub refused : Result (Option Value) → Bool
  refused (ok v) = false
  refused (err e) = is_auth e

  -- `Do`
  unfoldable pub request : Method → String → Option Value → Output → Op (Session × W) (Option Value)
  request method path body out = do
    first ← do_once method path body out
    if refused first
        then (do
          invalidate
          again ← do_once method path body out
          observe_request method again
          pure again)
        else (do observe_request method first; pure first)

  -- The client as the resource functions use it.
  unfoldable pub admin_of : Admin (Session × W)
  admin_of = record { request = request }

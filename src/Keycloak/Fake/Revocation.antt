-- ===== src/Keycloak/Fake/Revocation.antt =====
-- The retry of the client against a server whose tokens were revoked.
use keycloak_operator.Base.{
  ℕ, ◌+◌, String, ◌<>◌, Bool, true, false, Option, none, some, List, ◌≡◌, refl, ap, ◌∙◌, ◌==◌,
  arith, inl, inr,
}
use keycloak_operator.Errors.{Error, ok, err}
use keycloak_operator.Json.{Value, number, string, object, end, field}
use keycloak_operator.Platform.{Method, Output}
use keycloak_operator.Keycloak.Client.{
  Config, Response, TokenResponse, Http, Session, no_session, encoded, expiry, grant_form, token_of,
  keep, login, token, token_endpoint, do_once, invalidate, request, auth_error, truncate,
}
use keycloak_operator.Keycloak.Fake.State.{Server, Reply, write_json}
use keycloak_operator.Keycloak.Fake.Router.{
  Net, Codec, digits, is_granted, has_suffix, invalid_grant, handle_token, response, serve,
  serve_form, fake_http,
}
use keycloak_operator.Keycloak.Fake.Router.Paths.{after_prefix}
use keycloak_operator.Keycloak.Fake.Served.{http, outcome, observe_request_served, Reply-cases}

-- The answer to a grant, by the number of tokens that were issued.
abbrev pub token_value : ℕ → Value
token_value n = object (
    field "access_token" (string ("fake-token-" <> digits n n))
      (field "expires_in" (number "300") (field "token_type" (string "Bearer") end)))

abbrev pub token_read : ℕ → TokenResponse
token_read n = record {
  access_token = "fake-token-" <> digits n n;
  expires_in = 300;
  error = "";
  error_description = "";
}

abbrev pub is_token_path : String → Bool
is_token_path path = has_suffix path "/protocol/openid-connect/token"

handle_token-granted :
    (path : String) (form : List (String × String)) (s : Server)
    → is_token_path path ≡ true
    → s.revoked ≡ false
    → is_granted form s.creds ≡ true
    → handle_token path form s
      ≡ (write_json (token_value (s.issued + 1)), record s { issued = s.issued + 1 })
unfolding handle_token
handle_token-granted path form s p r g = rw (p, r, g)

handle_token-revoked :
    (path : String) (form : List (String × String)) (s : Server)
    → is_token_path path ≡ true
    → s.revoked ≡ true
    → handle_token path form s ≡ (invalid_grant, record s { revoked = false })
unfolding handle_token
handle_token-revoked path form s p r = rw (p, r)

token_of-read :
    {W : Type 0} (http : Http W) (body : String) (parsed : TokenResponse)
    → http.decode_token body ≡ ok parsed
    → (parsed.access_token == "") ≡ false
    → token_of http (record { status = 200; body = body }) ≡ ok parsed
unfolding token_of
token_of-read http body parsed d ne = rw (d, ne)

-- A login after the answer of the token endpoint.
module _ {W : Type 0} (http : Http W) (cfg : Config) (session : Session) (w w' : W)
    (resp : Response) (builds : http.url_error (token_endpoint http cfg) ≡ none)
    (answers : http.post_form (token_endpoint http cfg) (grant_form cfg) w ≡ (ok resp, w')) where
  login-ok :
      (parsed : TokenResponse) (n : ℕ)
      → token_of http resp ≡ ok parsed
      → http.now w' ≡ (n, w')
      → login http cfg (session, w) ≡ (
        ok parsed.access_token,
        (
          record { access_token = parsed.access_token; token_expiry = expiry n parsed.expires_in },
          w',
        ),
      )
  unfolding login keep
  login-ok parsed n t now = ground (arith, builds, answers, t, now)

  login-err :
      (e : Error)
      → token_of http resp ≡ err e
      → login http cfg (session, w) ≡ (err e, (session, w'))
  unfolding login
  login-err e t = ground (arith, builds, answers, t)

module _ (net : Net) (codec : Codec) (clock : ℕ) (cfg : Config) where
  abbrev endpoint : String
  endpoint = token_endpoint (http net codec clock cfg) cfg

  -- net/url decodes the URL of the token endpoint to its path.
  abbrev pub IsTokenUrl : Type 0
  IsTokenUrl =
      (rest : String) × (after_prefix "/realms/" (net.path endpoint) ≡ some rest)
      × (is_token_path (net.path endpoint) ≡ true)

  post_form_served :
      (s : Server)
      → IsTokenUrl
      → serve_form net endpoint (grant_form cfg) s
        ≡ handle_token (net.path endpoint) (grant_form cfg) s
  unfolding serve_form
  post_form_served s u = rw (serve_form, u.1)

  login-granted :
      (session : Session) (s : Server)
      → IsTokenUrl
      → s.revoked ≡ false
      → is_granted (grant_form cfg) s.creds ≡ true
      → codec.decode_token (codec.encode (token_value (s.issued + 1)))
        ≡ ok (token_read (s.issued + 1))
      → (("fake-token-" <> digits (s.issued + 1) (s.issued + 1)) == "") ≡ false
      → login (http net codec clock cfg) cfg (session, s) ≡ (
        ok ("fake-token-" <> digits (s.issued + 1) (s.issued + 1)),
        (
          record {
            access_token = "fake-token-" <> digits (s.issued + 1) (s.issued + 1);
            token_expiry = expiry clock 300;
          },
          record s { issued = s.issued + 1 },
        ),
      )
  unfolding fake_http
  login-granted session s u r g d ne =
      login-ok (http net codec clock cfg) cfg session s (record s { issued = s.issued + 1 })
        (record { status = 200; body = codec.encode (token_value (s.issued + 1)) }) refl
        (ap (λ (x : Reply × Server). (response net codec x.0, x.1))
          (post_form_served s u
            ∙ handle_token-granted (net.path endpoint) (grant_form cfg) s u.2 r g))
        (token_read (s.issued + 1)) clock
        (token_of-read (http net codec clock cfg) (codec.encode (token_value (s.issued + 1)))
          (token_read (s.issued + 1)) d ne)
        refl

  login-revoked :
      (session : Session) (s : Server)
      → IsTokenUrl
      → s.revoked ≡ true
      → login (http net codec clock cfg) cfg (session, s) ≡ (
        err (auth_error (truncate "{\"error\":\"invalid_grant\"}\n")),
        (session, record s { revoked = false }),
      )
  unfolding fake_http token_of
  login-revoked session s u r =
      login-err (http net codec clock cfg) cfg session s (record s { revoked = false })
        (record { status = 401; body = "{\"error\":\"invalid_grant\"}" <> "\n" }) refl
        (ap (λ (x : Reply × Server). (response net codec x.0, x.1))
          (post_form_served s u
            ∙ handle_token-revoked (net.path endpoint) (grant_form cfg) s u.2 r))
        (auth_error (truncate ("{\"error\":\"invalid_grant\"}" <> "\n"))) refl

  -- A request of a client that gets a token first.
  do_once_granted :
      (method : Method) (path t : String) (body : Option Value) (out : Output)
      (x : Session × Server) (session : Session) (s : Server)
      → token (http net codec clock cfg) cfg x ≡ (ok t, (session, s))
      → do_once (http net codec clock cfg) cfg method path body out x ≡ (
        outcome net codec clock cfg method path out
            (serve net method (cfg.url <> path) (encoded body) s).0,
        (session, (serve net method (cfg.url <> path) (encoded body) s).1),
      )
  unfolding do_once fake_http
  do_once_granted method path t body out x session s e =
      let served = serve net method (cfg.url <> path) (encoded body) s in
      elim (Reply-cases served.0) [
        | inl r ↦ ground (arith, e)
        | inr (status, content, r) ↦ ground (arith, e)
      ]

  do_once_denied :
      (method : Method) (path : String) (body : Option Value) (out : Output)
      (x y : Session × Server) (e : Error)
      → token (http net codec clock cfg) cfg x ≡ (err e, y)
      → do_once (http net codec clock cfg) cfg method path body out x ≡ (err e, y)
  unfolding do_once
  do_once_denied method path body out x y e h = ground (arith, h)

  token-no_session :
      (s : Server)
      → token (http net codec clock cfg) cfg (no_session, s)
        ≡ login (http net codec clock cfg) cfg (no_session, s)
  unfolding token
  token-no_session s = refl

  -- A revocation of the tokens costs a client without a token one refusal: if the server knows the
  -- credentials and was revoked since it last answered a grant, a request asks for a token, is
  -- refused, asks again, and is then answered as a server that is not revoked answers it, with the
  -- next token in the session. The URL of the token endpoint is decoded to its path, and the client
  -- decodes the grant as the server encodes it, to a token that is not empty.
  pub revoked_once_retries :
      (method : Method) (path : String) (body : Option Value) (out : Output) (s : Server)
      → IsTokenUrl
      → s.revoked ≡ true
      → is_granted (grant_form cfg) s.creds ≡ true
      → codec.decode_token (codec.encode (token_value (s.issued + 1)))
        ≡ ok (token_read (s.issued + 1))
      → (("fake-token-" <> digits (s.issued + 1) (s.issued + 1)) == "") ≡ false
      → (let s' = record s { revoked = false; issued = s.issued + 1 } in
          let served = serve net method (cfg.url <> path) (encoded body) s' in
          request (http net codec clock cfg) cfg method path body out (no_session, s) ≡ (
            outcome net codec clock cfg method path out served.0,
            (
              record {
                access_token = "fake-token-" <> digits (s.issued + 1) (s.issued + 1);
                token_expiry = expiry clock 300;
              },
              served.1,
            ),
          ))
  unfolding request invalidate
  revoked_once_retries method path body out s u r g d ne =
      let s1 : Server = record s { revoked = false } in
      let s2 : Server = record s { revoked = false; issued = s.issued + 1 } in
      let new : Session = record {
        access_token = "fake-token-" <> digits (s.issued + 1) (s.issued + 1);
        token_expiry = expiry clock 300;
      } in
      let served = serve net method (cfg.url <> path) (encoded body) s2 in
      let answer = outcome net codec clock cfg method path out served.0 in
      rw (
        do_once_denied method path body out (no_session, s) (no_session, s1) _
            (token-no_session s ∙ login-revoked no_session s u r),
        do_once_granted method path new.access_token body out (no_session, s1) new s2
            (token-no_session s1 ∙ login-granted no_session s1 u refl g d ne),
        observe_request_served net codec clock cfg method answer (new, served.1),
      )

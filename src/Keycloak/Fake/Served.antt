-- ===== src/Keycloak/Fake/Served.antt =====
-- The client of internal/keycloak/client.go against fake/server.go: with a token in its session, a
-- request is the handler of the server.
use keycloak_operator.Base.{
  ℕ, ◌+◌, ◌*◌, String, ◌<>◌, true, false, Option, some, List, ◌∷◌, ◌≡◌, refl, ap, ◌∙◌, ◌==◌, ◌⊎◌,
  ltb, arith, inl, inr,
}
use keycloak_operator.Errors.{Error, failure, other, wrap, Result, err}
use keycloak_operator.Json.{Value}
use keycloak_operator.Platform.{Method, Output}
use keycloak_operator.Keycloak.Client.{
  Config, Http, Session, second, encoded, method_name, response_of, do_once, observe_request,
  refused, request,
}
use keycloak_operator.Keycloak.Client.Tokens.{token_reused}
use keycloak_operator.Keycloak.Client.Requests.{response_of-kind}
use keycloak_operator.Keycloak.Fake.State.{Server, Content, Reply, panicked, reply}
use keycloak_operator.Keycloak.Fake.Router.{
  Net, Codec, content_text, handle_resource, serve, fake_http,
}
use keycloak_operator.Keycloak.Fake.Router.Paths.{after_prefix, after_prefix-append}
use keycloak_operator.Keycloak.Fake.Routing.{
  slashes, are_segments, join_admin, serve-handle_resource,
}
use keycloak_operator.Keycloak.Fake.Steps.{is_refused}
use keycloak_operator.Keycloak.Fake.Steps.Requests.{serve_never_refuses}

pub Reply-cases :
    (r : Reply) → (r ≡ panicked) ⊎ ((status : ℕ) × (content : Content) × (r ≡ reply status content))
Reply-cases panicked = inl refl
Reply-cases (reply status content) = inr (status, content, refl)

module _ (net : Net) (codec : Codec) (clock : ℕ) (cfg : Config) where
  -- The server as the HTTP client of the configuration.
  abbrev pub http : Http Server
  http = fake_http net codec clock

  -- What a call of the client makes of the answer of the server.
  abbrev pub outcome : Method → String → Output → Reply → Result (Option Value)
  outcome method path out panicked =
      err (wrap (method_name method <> " " <> path) (failure other "EOF"))
  outcome method path out (reply status content) =
      response_of http method path out
        (record { status = status; body = content_text net codec content })

  -- A session with a token that has more than 30 seconds to live.
  abbrev pub IsValid : Session → Type 0
  IsValid session =
      ((session.access_token == "") ≡ false)
      × (ltb (clock + 30 * second) session.token_expiry ≡ true)

  pub outcome-not-refused :
      (method : Method) (path : String) (out : Output) (r : Reply)
      → ((o : Output) (b : String) (e : Error) → codec.decode o b ≡ err e → e.kind ≡ other)
      → is_refused r ≡ false
      → refused http cfg (outcome method path out r) ≡ false
  unfolding fake_http
  outcome-not-refused method path out panicked plain e = refl
  outcome-not-refused method path out (reply status content) plain e = ground (
    arith,
    (response_of-kind http method path out
        (record { status = status; body = content_text net codec content }) plain).2,
  )

  do_once_served :
      (method : Method) (path : String) (body : Option Value) (out : Output) (session : Session)
      (s : Server)
      → IsValid session
      → do_once http cfg method path body out (session, s) ≡ (
        outcome method path out (serve net method (cfg.url <> path) (encoded body) s).0,
        (session, (serve net method (cfg.url <> path) (encoded body) s).1),
      )
  unfolding do_once fake_http
  do_once_served method path body out session s v =
      let served = serve net method (cfg.url <> path) (encoded body) s in
      elim (Reply-cases served.0) [
        | inl e ↦ ground (arith, token_reused http cfg (session, s) v.0 v.1)
        | inr (status, content, e) ↦ ground (arith, token_reused http cfg (session, s) v.0 v.1)
      ]

  pub observe_request_served :
      (method : Method) (r : Result (Option Value)) (x : Session × Server)
      → observe_request http cfg method r x ≡ (tt, x)
  unfolding observe_request fake_http
  observe_request_served method r x = ground arith

  -- With a token in its session that has more than 30 seconds to live, a request of the client to a
  -- path of the Admin API is one request to the server: it answers what `Do` makes of the answer of
  -- the server, leaves the server in the state after that request and keeps the session.
  pub request_served :
      (method : Method) (path rest : String) (body : Option Value) (out : Output)
      (session : Session) (s : Server)
      → ((o : Output) (b : String) (e : Error) → codec.decode o b ≡ err e → e.kind ≡ other)
      → IsValid session
      → after_prefix "/admin/" (net.path (cfg.url <> path)) ≡ some rest
      → request http cfg method path body out (session, s) ≡ (
        outcome method path out (serve net method (cfg.url <> path) (encoded body) s).0,
        (session, (serve net method (cfg.url <> path) (encoded body) s).1),
      )
  unfolding request
  request_served method path rest body out session s plain v e =
      let served = serve net method (cfg.url <> path) (encoded body) s in
      let r = outcome method path out served.0 in
      rw (
        do_once_served method path body out session s v,
        outcome-not-refused method path out served.0 plain
            (serve_never_refuses net method (cfg.url <> path) rest (encoded body) s e),
        observe_request_served method r (session, served.1),
      )

  -- With a token in its session that has more than 30 seconds to live, a request of the client below
  -- a realm is the handler of the server for that realm and the segments that follow: it answers
  -- what `Do` makes of the answer of the handler, leaves the server in the state that the handler
  -- leaves, and keeps the session. The URL is decoded to the path of these segments, none of them
  -- holds a slash, and an error of the decoding of bodies is a plain one.
  pub request-handle_resource :
      (method : Method) (path realm : String) (sub : List String) (body : Option Value)
      (out : Output) (session : Session) (s : Server)
      → ((o : Output) (b : String) (e : Error) → codec.decode o b ≡ err e → e.kind ≡ other)
      → IsValid session
      → net.path (cfg.url <> path) ≡ slashes ("admin" ∷ "realms" ∷ realm ∷ sub)
      → are_segments (realm ∷ sub) ≡ true
      → net.path_unescape realm ≡ some realm
      → request http cfg method path body out (session, s) ≡ (
          let (r, s') =
            handle_resource net method (net.query (cfg.url <> path)) realm sub (encoded body) s in
          (outcome method path out r, (session, s')))
  request-handle_resource method path realm sub body out session s plain v p h u =
      let rest = "realms" <> ("/" <> (realm <> slashes sub)) in
      request_served method path rest body out session s plain v
        (ap (after_prefix "/admin/") (p ∙ join_admin rest) ∙ after_prefix-append "/admin/" rest)
      ∙ ap (λ (x : Reply × Server). (outcome method path out x.0, (session, x.1)))
          (serve-handle_resource net method (cfg.url <> path) realm sub (encoded body) s p h u)

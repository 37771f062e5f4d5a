-- ===== src/Keycloak/Client/Tokens.antt =====
-- The cached token, and how often a request asks the server.
use keycloak_operator.Base.{
  ℕ, ◌+◌, ◌*◌, ◌≤◌, String, ◌<>◌, true, false, Option, List, ◌≡◌, refl, ◌==◌, ltb, arith, inl, inr,
  Bool-cases, Option-cases,
}
use keycloak_operator.Errors.{Result, ok, err, Result-cases}
use keycloak_operator.Json.{Value}
use keycloak_operator.Json.Text.{Text}
use keycloak_operator.Platform.{Method, Output}
use keycloak_operator.Keycloak.Client.{
  keep, token_endpoint, encoded, status_class, Config, Response, TokenResponse, Http, Session,
  no_session, second, token_of, grant_form, login, token, invalidate, do_once, observe_request,
  refused, request,
}

token_of-ne-empty :
    {W : Type 0} (http : Http W) (resp : Response) (parsed : TokenResponse)
    → token_of http resp ≡ ok parsed
    → (parsed.access_token == "") ≡ false
unfolding token_of
token_of-ne-empty http resp parsed e = elim (Result-cases (http.decode_token resp.body)) [
  | inl (p, d) ↦ ground arith
  | inr (x, d) ↦ ground arith
]

module _ {W : Type 0} (http : Http W) (cfg : Config) where
  -- The session holds the token that was returned, and it is not empty.
  abbrev pub Holds : Result String → Session → Type 0
  Holds (ok t) session = (session.access_token ≡ t) × ((t == "") ≡ false)
  Holds (err e) session = Unit

  login-Holds : (s : Session × W) → Holds (login http cfg s).0 (login http cfg s).1.0
  unfolding login keep
  login-Holds s = elim (Option-cases (http.url_error (token_endpoint http cfg))) [
    | inr (x, p) ↦ ground arith
    | inl p ↦
        let answer = http.post_form (token_endpoint http cfg) (grant_form cfg) s.1 in
        elim (Result-cases answer.0) [
          | inr (x, q) ↦ ground arith
          | inl (resp, q) ↦ elim (Result-cases (token_of http resp)) [
            | inr (x, r) ↦ ground arith
            | inl (parsed, r) ↦ ground (arith, token_of-ne-empty http resp parsed r)
          ]
        ]
  ]

  -- The token is one that the client keeps: whatever the session was, a token that is returned is
  -- not empty, and the session holds it.
  pub token-Holds : (s : Session × W) → Holds (token http cfg s).0 (token http cfg s).1.0
  unfolding token
  token-Holds s = elim (Bool-cases (s.0.access_token == "")) [
    | inl e ↦ rw e (login-Holds s)
    | inr e ↦ elim (Bool-cases (ltb ((http.now s.1).0 + 30 * second) s.0.token_expiry)) [
      | inl v ↦ rw (e, v) (refl, e)
      | inr v ↦ rw (e, v) (login-Holds (s.0, (http.now s.1).1))
    ]
  ]

  -- A token with more than 30 seconds to live is reused: the server is not asked, the session
  -- stays, and nothing but the clock is read.
  pub token_reused :
      (s : Session × W)
      → (s.0.access_token == "") ≡ false
      → ltb ((http.now s.1).0 + 30 * second) s.0.token_expiry ≡ true
      → token http cfg s ≡ (ok s.0.access_token, (s.0, (http.now s.1).1))
  unfolding token
  token_reused s there valid = ground arith

  -- What the calls add to a measure of the world: an exchange at most `a`, a request for a token
  -- at most `b`, and the clock and the metrics nothing.
  pub record Costs (n : W → ℕ) (a b : ℕ) : Type 0 where
    pub exchange :
        (m : Method) (u t : String) (body : Option Text) (w : W)
        → n (http.exchange m u t body w).1 ≤ n w + a
    pub post_form :
        (u : String) (f : List (String × String)) (w : W) → n (http.post_form u f w).1 ≤ n w + b
    pub now : (w : W) → n (http.now w).1 ≤ n w
    pub observe : (c : String) (m : Method) (k : String) (w : W) → n (http.observe c m k w).1 ≤ n w

  module _ (n : W → ℕ) (a b : ℕ) (costs : Costs n a b) where
    keep-cost : (parsed : TokenResponse) (s : Session × W) → n (keep http cfg parsed s).1.1 ≤ n s.1
    unfolding keep
    keep-cost parsed s = costs.now s.1

    login-cost : (s : Session × W) → n (login http cfg s).1.1 ≤ n s.1 + b
    unfolding login
    login-cost s = elim (Option-cases (http.url_error (token_endpoint http cfg))) [
      | inr (x, p) ↦ ground arith
      | inl p ↦
          let answer = http.post_form (token_endpoint http cfg) (grant_form cfg) s.1 in
          elim (Result-cases answer.0) [
            | inr (x, q) ↦
                ground (arith, costs.post_form (token_endpoint http cfg) (grant_form cfg) s.1)
            | inl (resp, q) ↦ elim (Result-cases (token_of http resp)) [
              | inr (x, r) ↦
                  ground (arith, costs.post_form (token_endpoint http cfg) (grant_form cfg) s.1)
              | inl (parsed, r) ↦ ground (
                arith,
                keep-cost parsed (s.0, answer.1),
                costs.post_form (token_endpoint http cfg) (grant_form cfg) s.1,
              )
            ]
          ]
    ]

    token-cost : (s : Session × W) → n (token http cfg s).1.1 ≤ n s.1 + b
    unfolding token
    token-cost s = elim (Bool-cases (s.0.access_token == "")) [
      | inl e ↦ rw e (login-cost s)
      | inr e ↦ elim (Bool-cases (ltb ((http.now s.1).0 + 30 * second) s.0.token_expiry)) [
        | inl v ↦ rw (e, v) (omega (arith, costs.now s.1))
        | inr v ↦ rw (e, v) (omega (arith, costs.now s.1, login-cost (s.0, (http.now s.1).1)))
      ]
    ]

    do_once-cost :
        (m : Method) (p : String) (body : Option Value) (out : Output) (s : Session × W)
        → n (do_once http cfg m p body out s).1.1 ≤ n s.1 + (a + b)
    unfolding do_once
    do_once-cost m p body out s =
        let s' : Session × W = (token http cfg s).1 in
        elim (Result-cases (token http cfg s).0) [
          | inr (x, e) ↦ ground (arith, token-cost s)
          | inl (t, e) ↦ elim (Option-cases (http.url_error (cfg.url <> p))) [
            | inr (x, f) ↦ ground (arith, token-cost s)
            | inl f ↦ elim (Result-cases (http.exchange m (cfg.url <> p) t (encoded body) s'.1).0) [
              | inr (x, g) ↦
                  ground
                    (arith, token-cost s, costs.exchange m (cfg.url <> p) t (encoded body) s'.1)
              | inl (resp, g) ↦
                  ground
                    (arith, token-cost s, costs.exchange m (cfg.url <> p) t (encoded body) s'.1)
            ]
          ]
        ]

    observe_request-cost :
        (m : Method) (r : Result (Option Value)) (s : Session × W)
        → n (observe_request http cfg m r s).1.1 ≤ n s.1
    unfolding observe_request
    observe_request-cost m r s = elim (Bool-cases (cfg.connection_name == "")) [
      | inl e ↦ ground arith
      | inr e ↦ ground (arith, costs.observe cfg.connection_name m (status_class r) s.1)
    ]

    -- A request is retried at most once: it makes at most two exchanges and asks for at most two
    -- tokens, by any measure to which an exchange adds at most `a`, a request for a token at most
    -- `b`, and the clock and the metrics nothing.
    pub request-cost :
        (m : Method) (p : String) (body : Option Value) (out : Output) (s : Session × W)
        → n (request http cfg m p body out s).1.1 ≤ n s.1 + 2 * (a + b)
    unfolding request invalidate
    request-cost m p body out s =
        let first = do_once http cfg m p body out s in
        let again = do_once http cfg m p body out (no_session, first.1.1) in
        elim (Bool-cases (refused http cfg first.0)) [
          | inl e ↦ rw e (
              omega (
                arith,
                do_once-cost m p body out s,
                do_once-cost m p body out (no_session, first.1.1),
                observe_request-cost m again.0 again.1,
              ))
          | inr e ↦
              rw e
                (omega (arith, do_once-cost m p body out s, observe_request-cost m first.0 first.1))
        ]

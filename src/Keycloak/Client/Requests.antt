-- ===== src/Keycloak/Client/Requests.antt =====
-- What the status of an answer leads to.
use keycloak_operator.Base.{
  ℕ, String, Bool, false, ◌&&◌, Option, ◌≡◌, ltb, leb, nat_eq, arith, if◌then◌else◌, inl, inr,
}
use keycloak_operator.Errors.{
  Error, other, Result, ok, err, is_not_found, is_conflict, is_auth, Result-cases,
}
use keycloak_operator.Json.{Value}
use keycloak_operator.Platform.{Method, Output}
use keycloak_operator.Keycloak.Client.{Response, Http, is_refusal, response_of, status_class}

abbrev pub fails_as : (Error → Bool) → Result (Option Value) → Bool
fails_as test (ok v) = false
fails_as test (err e) = test e

-- 2xx
abbrev pub is_success : ℕ → Bool
is_success status = leb 200 status && ltb status 300

-- The sentinel errors mean their status codes and no other: where json.Unmarshal fails with an
-- error of its own, an answer is "not found" exactly if its status is 404, a conflict exactly if
-- it is 409, and an authentication failure exactly if it is 401 or 403.
pub response_of-kind :
    {W : Type 0} (http : Http W) (method : Method) (path : String) (out : Output) (resp : Response)
    → ((o : Output) (b : String) (e : Error) → http.decode o b ≡ err e → e.kind ≡ other)
    → (fails_as is_not_found (response_of http method path out resp) ≡ nat_eq resp.status 404)
      × (fails_as is_conflict (response_of http method path out resp) ≡ nat_eq resp.status 409)
      × (fails_as is_auth (response_of http method path out resp) ≡ is_refusal resp.status)
unfolding response_of
response_of-kind http method path out resp plain = elim (Result-cases (http.decode out resp.body)) [
  | inl (v, d) ↦ (ground arith, ground arith, ground arith)
  | inr (x, d) ↦ (
    ground (arith, plain out resp.body x d),
    ground (arith, plain out resp.body x d),
    ground (arith, plain out resp.body x d),
  )
]

-- Every answer outside 2xx is counted by its status: "5xx" from 500 on, and "4xx" below, also for
-- 1xx and 3xx.
status_class-response_of :
    {W : Type 0} (http : Http W) (method : Method) (path : String) (out : Output) (resp : Response)
    → is_success resp.status ≡ false
    → status_class (response_of http method path out resp)
      ≡ (if leb 500 resp.status then "5xx" else "4xx")
unfolding response_of status_class
status_class-response_of http method path out resp h = ground arith

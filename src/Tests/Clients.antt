-- ===== src/Tests/Clients.antt =====
-- The client and the provider at concrete data.
use keycloak_operator.Base.{
  ℕ, suc, ◌+◌, ◌*◌, ◌≤◌, String, true, false, none, [], ◌∷◌, ◌≡◌, refl, sym, ap, ◌==◌, arith,
  Bool-cases, inl, inr, eq_iff,
}
use mathlib.Core.Path.{subst}
use mathlib.Core.Option.{some-injective}
use keycloak_operator.Errors.{
  Error, failure, other, object_not_found, ok, err, is_not_found, is_conflict, is_auth,
}
use keycloak_operator.World.{pure}
use keycloak_operator.Platform.{get, Output, one_map}
use keycloak_operator.Keycloak.Client.{
  auth_password, Config, Response, TokenResponse, Http, Session, no_session, new, token, request,
  response_of,
}
use keycloak_operator.Keycloak.Client.Tokens.{Holds, token-Holds, Costs, request-cost}
use keycloak_operator.Keycloak.Client.Requests.{fails_as, response_of-kind}
use keycloak_operator.Keycloak.Provider.{
  Connection, Credentials, CachedClient, Cache, Reader, client_of, client_config, for,
}
use keycloak_operator.Keycloak.Provider.Cache.{History, IsMade, IsCoherent, AnswersFor, for_lem}
use keycloak_operator.Drivers.Sets

-- A server that refuses every request: the world counts what it is asked.
abbrev granted : TokenResponse
granted = record { access_token = "t2"; expires_in = 60; error = ""; error_description = "" }

abbrev answer : ℕ → Response
answer status = record { status = status; body = "" }

abbrev refusing : Http ℕ
refusing = record {
  url_error = λ u. none;
  post_form = λ u form w. (ok (answer 200), suc w);
  exchange = λ m u t body w. (ok (answer 401), suc w);
  decode_token = λ body. ok granted;
  decode = λ o body. err (failure other "unexpected end of JSON input");
  now = λ w. (0, w);
  observe = λ c m k w. (tt, w);
}

abbrev config : Config
config = record {
  connection_name = "apps/main";
  url = "https://sso";
  admin_realm = "master";
  auth_type = auth_password;
  username = "admin";
  password = "pw";
  client_id = "";
  client_secret = "";
  insecure_skip_verify = false;
}

abbrev session : Session
session = record { access_token = "t1"; token_expiry = 60000000000 }

token-Holds_example :
    Holds refusing config
      (token refusing config (no_session, 0)).0
      (token refusing config (no_session, 0)).1.0
token-Holds_example = token-Holds refusing config (no_session, 0)

costs : Costs refusing config (λ w. w) 1 1
costs = record {
  exchange = λ m u t body w. omega arith;
  post_form = λ u f w. omega arith;
  now = λ w. omega arith;
  observe = λ c m k w. omega arith;
}

request-cost_example :
    (request refusing config get "/admin/realms/demo" none one_map (session, 0)).1.1
    ≤ 0 + 2 * (1 + 1)
request-cost_example =
    request-cost refusing config (λ w. w) 1 1 costs get "/admin/realms/demo" none one_map
      (session, 0)

decoding_fails :
    (o : Output) (b : String) (e : Error) → refusing.decode o b ≡ err e → e.kind ≡ other
decoding_fails o b e h = sym (ap (λ r. elim r [ ok v ↦ other | err x ↦ x.kind ]) h)

response_of-kind_example :
    (fails_as is_not_found (response_of refusing get "/x" one_map (answer 404)) ≡ true)
    × (fails_as is_conflict (response_of refusing get "/x" one_map (answer 404)) ≡ false)
    × (fails_as is_auth (response_of refusing get "/x" one_map (answer 404)) ≡ false)
response_of-kind_example = response_of-kind refusing get "/x" one_map (answer 404) decoding_fails

abbrev connection : Connection
connection = record {
  version = "2";
  url = "https://sso";
  credentials_secret_ref = "admin";
  auth = none;
  admin_realm = none;
  insecure_skip_verify = none;
}

abbrev credentials : Credentials
credentials = record {
  version = "5";
  name = "admin";
  entries = ("username", "admin") ∷ ("password", "pw") ∷ [];
}

abbrev history : History
history = record {
  connection_at = λ key version. record connection { version = version };
  credentials_at = λ conn version. record credentials { version = version };
}

abbrev reader : Reader ℕ
reader = record {
  get_connection = λ namespace name. pure (ok connection);
  get_credentials = λ namespace name. pure (ok credentials);
}

-- An entry of an older version of the connection.
abbrev old_client : CachedClient
old_client = record { client = config; conn_version = "1"; secret_version = "5" }

abbrev cache : Cache
cache = ("apps/main", old_client) ∷ []

made : IsMade history "apps/main" old_client
unfolding client_of client_config Sets.get new
made = refl

coherent : IsCoherent history cache
unfolding Sets.get
coherent key c e = elim (Bool-cases ("apps/main" == key)) [
  | inl t ↦
      subst (λ k. IsMade history k c) ((eq_iff "apps/main" key).0 t)
        (subst (IsMade history "apps/main") (some-injective _ _ (rw t at e)) made)
  | inr f ↦ cc (rw f at e)
]

for_lem_example :
    AnswersFor history "apps/main" connection credentials (for reader "apps" "main" (cache, 0))
for_lem_example =
    for_lem history reader "apps" "main" connection credentials cache 0 0 0 coherent (refl, refl)
      refl refl

abbrev gone : Error
gone = failure object_not_found "not found"

abbrev empty_reader : Reader ℕ
empty_reader = record reader { get_connection = λ namespace name. pure (err gone) }

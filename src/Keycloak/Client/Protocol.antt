-- ===== src/Keycloak/Client/Protocol.antt =====
-- internal/keycloak/client.go: the configuration, the grant, and what the answers of the server
-- mean. The HTTP client, the clock, the decoding of bodies and the metrics are parameters.
use Prim.Native.Nat.{◌^◌, ◌%◌}
use Prim.Native.String.{len, slice}
use keycloak_operator.Base.{
  ℕ, ◌+◌, ◌-◌, ◌*◌, String, ◌<>◌, Bool, true, false, not, ◌&&◌, ◌||◌, Option, none, some, List, [],
  ◌∷◌, ◌==◌, ltb, leb, nat_eq, if◌then◌else◌,
}
use keycloak_operator.Errors.{Error, failure, not_found, conflict, auth, api, wrap, Result, ok, err}
use keycloak_operator.World.{Act, Op}
use keycloak_operator.Json.{Value}
use keycloak_operator.Json.Text.{Text, marshal}
use keycloak_operator.Platform.{Method, get, post, put, delete, Output, discard}

pub data AuthType : Type 0 where
  auth_password auth_client : AuthType

-- `Config`; a missing auth type is the password grant.
pub record Config : Type 0 where
  pub connection_name : String
  pub url : String
  pub admin_realm : String
  pub auth_type : AuthType
  pub username : String
  pub password : String
  pub client_id : String
  pub client_secret : String
  pub insecure_skip_verify : Bool

abbrev pub default_admin_realm : String
default_admin_realm = "master"

abbrev pub default_admin_client_id : String
default_admin_client_id = "admin-cli"

-- `New`, as far as the configuration goes
unfoldable pub new : Config → Config
new cfg = record cfg {
  admin_realm = if cfg.admin_realm == "" then default_admin_realm else cfg.admin_realm;
}

-- A response whose body is read up to the limit.
pub record Response : Type 0 where
  pub status : ℕ
  pub body : String

-- What a token endpoint answers. The lifetime, an int64, is given in two's complement: -1 is
-- 2^64 - 1.
pub record TokenResponse : Type 0 where
  pub access_token : String
  pub expires_in : ℕ
  pub error : String
  pub error_description : String

-- `url_error` is the error of http.NewRequest, if any; the other fields are `hc.Do` for a form and
-- for a request with a token, json.Unmarshal, the clock in nanoseconds, and the two metrics.
pub record Http (W : Type 0) : Type 0 where
  pub url_error : String → Option Error
  pub post_form : String → List (String × String) → Op W Response
  pub exchange : Method → String → String → Option Text → Op W Response
  pub decode_token : String → Result TokenResponse
  pub decode : Output → String → Result Value
  pub now : Act W ℕ
  pub observe : String → Method → String → Act W (Unit {0})

-- The cached token and the time at which it expires.
pub record Session : Type 0 where
  pub access_token : String
  pub token_expiry : ℕ

abbrev pub no_session : Session
no_session = record { access_token = ""; token_expiry = 0 }

abbrev pub second : ℕ
second = 1000000000

unfoldable pub truncate : String → String
truncate b = if ltb 512 (len b) then slice b 0 512 <> "..." else b

-- `now.Add(time.Duration(seconds) * time.Second)`, whose product wraps around; a time before the
-- epoch is the epoch.
unfoldable pub expiry : ℕ → ℕ → ℕ
expiry now seconds =
    let d = (seconds * second) % 2 ^ 64 in if ltb d (2 ^ 63) then now + d else now - (2 ^ 64 - d)

-- The form of the grant.
unfoldable pub grant_form : Config → List (String × String)
grant_form cfg = elim cfg.auth_type [
  | auth_client ↦
      ("grant_type", "client_credentials")
      ∷ ("client_id", cfg.client_id)
      ∷ ("client_secret", cfg.client_secret)
      ∷ []
  | auth_password ↦
      ("grant_type", "password")
      ∷ ("client_id", (if cfg.client_id == "" then default_admin_client_id else cfg.client_id))
      ∷ ("username", cfg.username)
      ∷ ("password", cfg.password)
      ∷ []
]

abbrev pub auth_error : String → Error
auth_error detail = failure auth ("authentication failed: " <> detail)

abbrev pub is_refusal : ℕ → Bool
is_refusal status = nat_eq status 401 || nat_eq status 403

abbrev pub method_name : Method → String
method_name get = "GET"
method_name post = "POST"
method_name put = "PUT"
method_name delete = "DELETE"

-- The message of an API error holds what `Error` prints, but for the number of the status.
abbrev pub api_error : ℕ → String → String → String → Error
api_error status method path body =
    failure (api status) ("keycloak admin api " <> method <> " " <> path <> ": " <> body)

-- The token of an answer to the grant, or why there is none.
unfoldable pub token_of : {W : Type 0} → Http W → Response → Result TokenResponse
unfolding truncate
token_of http resp =
    if is_refusal resp.status
    then err (auth_error (truncate resp.body))
    else if not (nat_eq resp.status 200)
    then err (api_error resp.status "POST" "/token" resp.body)
    else elim (http.decode_token resp.body) [
      | err e ↦ err (wrap "decode token response" e)
      | ok parsed ↦
          if parsed.access_token == ""
          then (if parsed.error == ""
              then err (auth_error "empty access token")
              else err (auth_error (parsed.error <> ": " <> parsed.error_description)))
          else ok parsed
    ]

-- `out != nil`
abbrev pub is_wanted : Output → Bool
is_wanted discard = false
is_wanted _ = true

-- What an answer to a request means: the decoded body, if one is wanted and there is one.
unfoldable pub response_of :
    {W : Type 0} → Http W → Method → String → Output → Response → Result (Option Value)
unfolding truncate
response_of http method path out resp =
    let call = method_name method <> " " <> path in
    if leb 200 resp.status && ltb resp.status 300
    then (if is_wanted out && not (resp.body == "")
        then elim (http.decode out resp.body) [
          | err e ↦ err (wrap ("decode response of " <> call) e)
          | ok v ↦ ok (some v)
        ]
        else ok none)
    else if nat_eq resp.status 404
    then err (failure not_found ("resource not found: " <> call))
    else if nat_eq resp.status 409
    then err (failure conflict ("resource conflict: " <> call <> ": " <> truncate resp.body))
    else if is_refusal resp.status
    then err (auth_error (call <> ": " <> truncate resp.body))
    else err (api_error resp.status (method_name method) path resp.body)

-- The class of a request in the metrics.
unfoldable pub status_class : Result (Option Value) → String
status_class (ok v) = "2xx"
status_class (err e) = elim e.kind [
  | not_found ↦ "4xx"
  | conflict ↦ "4xx"
  | auth ↦ "4xx"
  | api status ↦ if leb 500 status then "5xx" else "4xx"
  | _ ↦ "error"
]

abbrev pub encoded : Option Value → Option Text
encoded none = none
encoded (some v) = some (marshal v)

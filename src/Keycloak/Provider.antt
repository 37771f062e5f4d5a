-- ===== src/Keycloak/Provider.antt =====
-- internal/keycloak/provider.go: the clients of the connections, cached by the versions of the
-- connection and of its Secret. A client is its configuration here; the token that
-- it keeps while it is cached is the Session of Keycloak/Client. The lock around each access of the
-- map is left out: one call runs at a time.
pub mod Cache
use keycloak_operator.Base.{
  String, ◌<>◌, Bool, true, false, ◌&&◌, ◌||◌, Option, none, some, List, [], ◌∷◌, ◌≡◌, refl, sym,
  ◌∙◌, ◌==◌, eq_iff, arith, inl, inr, if◌then◌else◌, Bool-cases, Option-cases,
}
use mathlib.Core.Option.{some-injective}
use keycloak_operator.Errors.{
  Error, failure, other, quote, wrap, Result, ok, err, is_object_not_found, Result-cases,
}
use keycloak_operator.World.{Act, Op, pure, ◌>>=◌, ◌>>◌, return, fail_with}
use keycloak_operator.Drivers.Sets.{get, put, get-put}
use keycloak_operator.Keycloak.Client.{
  AuthType, auth_password, auth_client, Config, default_admin_realm, new,
}

-- A `KeycloakConnection`: its version and its spec. The auth type is the text of the spec.
pub record Connection : Type 0 where
  pub version : String
  pub url : String
  pub credentials_secret_ref : String
  pub auth : Option String
  pub admin_realm : Option String
  pub insecure_skip_verify : Option Bool

-- Its Secret, with the version.
pub record Credentials : Type 0 where
  pub version : String
  pub name : String
  pub entries : List (String × String)

pub record CachedClient : Type 0 where
  pub client : Config
  pub conn_version : String
  pub secret_version : String

abbrev pub Cache : Type 0
Cache = List (String × CachedClient)

-- `delete(m, k)`
unfoldable pub forget : String → Cache → Cache
forget k [] = []
forget k ((j, c) ∷ m) = let rest = forget k m in if j == k then rest else (j, c) ∷ rest

-- `string(secret.Data[key])`
abbrev pub entry : String → Credentials → String
entry key secret = elim (get key secret.entries) [ none ↦ "" | some v ↦ v ]

abbrev pub not_provided : Credentials → String → String → String → Error
not_provided secret a b grant = failure other (
    "credentials secret "
    <> quote secret.name
    <> " must provide "
    <> quote a
    <> " and "
    <> quote b
    <> " for "
    <> grant
    <> " authentication")

abbrev pub uses_client : Option String → Bool
uses_client none = false
uses_client (some auth) = auth == "client"

unfoldable pub client_config : Connection → Credentials → Result Config
client_config conn secret =
    let base : Config = record {
      connection_name = "";
      url = conn.url;
      admin_realm = elim conn.admin_realm [
        | none ↦ default_admin_realm
        | some realm ↦ if realm == "" then default_admin_realm else realm
      ];
      auth_type = auth_password;
      username = "";
      password = "";
      client_id = "";
      client_secret = "";
      insecure_skip_verify = elim conn.insecure_skip_verify [ none ↦ false | some b ↦ b ];
    } in
    if uses_client conn.auth
    then (if (entry "clientId" secret == "") || (entry "clientSecret" secret == "")
        then err (not_provided secret "clientId" "clientSecret" "client")
        else ok (record base {
          auth_type = auth_client;
          client_id = entry "clientId" secret;
          client_secret = entry "clientSecret" secret;
        }))
    else if (entry "username" secret == "") || (entry "password" secret == "")
    then err (not_provided secret "username" "password" "password")
    else ok (record base { username = entry "username" secret; password = entry "password" secret })

abbrev pub key_of : String → String → String
key_of namespace name = namespace <> "/" <> name

-- The client of a connection and its Secret, without the cache.
unfoldable pub client_of : String → Connection → Credentials → Result Config
client_of key conn secret = elim (client_config conn secret) [
  | err e ↦ err e
  | ok cfg ↦ ok (new (record cfg { connection_name = key }))
]

-- What the provider reads.
pub record Reader (W : Type 0) : Type 0 where
  pub get_connection : String → String → Op W Connection
  pub get_credentials : String → String → Op W Credentials

abbrev pub is_current : Connection → Credentials → CachedClient → Bool
is_current conn secret cached =
    (cached.conn_version == conn.version) && (cached.secret_version == secret.version)

-- The cached client of these versions, if there is one.
abbrev pub cached_for : Connection → Credentials → Option CachedClient → Option Config
cached_for conn secret none = none
cached_for conn secret (some cached) =
    if is_current conn secret cached then some cached.client else none

-- From the look into the cache on.
unfoldable pub resolve : {W : Type 0} → String → Connection → Credentials → Op (Cache × W) Config
resolve key conn secret s = elim (cached_for conn secret (get key s.0)) [
  | some kc ↦ (ok kc, s)
  | none ↦ elim (client_of key conn secret) [
    | err e ↦ (err e, s)
    | ok kc ↦ (
      ok kc,
      (
        put key
            (record { client = kc; conn_version = conn.version; secret_version = secret.version })
            s.0,
        s.1,
      ),
    )
  ]
]

module _ {W : Type 0} (reader : Reader W) where
  abbrev lift : {A : Type 0} → Act W A → Act (Cache × W) A
  lift m s = let (a, w) = m s.1 in (a, (s.0, w))

  -- `For`
  unfoldable pub for : String → String → Op (Cache × W) Config
  for namespace name = lift (reader.get_connection namespace name) >>= λ r. elim r [
    | err e ↦ λ s. (
      err (wrap ("get keycloak connection " <> key_of namespace name) e),
      ((if is_object_not_found e then forget (key_of namespace name) s.0 else s.0), s.1),
    )
    | ok conn ↦ lift (reader.get_credentials namespace conn.credentials_secret_ref) >>= λ r'.
        elim r' [
          | err e ↦
              fail_with
                (wrap ("get credentials secret " <> key_of namespace conn.credentials_secret_ref) e)
          | ok secret ↦ resolve (key_of namespace name) conn secret
        ]
  ]

-- ===== src/Keycloak/Provider/Cache.antt =====
-- The cache of the provider against a provider without one.
use keycloak_operator.Base.{
  String, ◌<>◌, true, none, some, [], ◌∷◌, ◌≡◌, refl, sym, ◌==◌, eq_iff, arith, inl, inr,
  if◌then◌else◌, Bool-cases, Option-cases,
}
use mathlib.Core.Path.{subst}
use mathlib.Core.Option.{some-injective}
use keycloak_operator.Errors.{Error, wrap, is_object_not_found, Result, ok, err, Result-cases}
use keycloak_operator.Drivers.Sets.{get, put, get-put}
use keycloak_operator.Keycloak.Client.{Config}
use keycloak_operator.Keycloak.Provider.{
  Connection, Credentials, CachedClient, Cache, Reader, client_of, is_current, cached_for, resolve,
  key_of, for, forget,
}

-- What the versions of Kubernetes stand for: the connection under a key at a version, and the
-- Secret that a connection refers to at a version.
pub record History : Type 0 where
  pub connection_at : String → String → Connection
  pub credentials_at : Connection → String → Credentials

get-forget :
    (key j : String) (cache : Cache)
    → get j (forget key cache) ≡ (if key == j then none else get j cache)
unfolding get forget
get-forget key j [] = ground arith
get-forget key j ((i, c) ∷ cache) =
    ground (arith, get-forget key j cache, eq_iff i key, eq_iff i j, eq_iff key j)

-- A connection that is gone leaves no client behind: where the connection is not found, `For`
-- fails, the cache has no entry for it, and its other entries are those that it had.
forgets_deleted :
    {W : Type 0} (reader : Reader W) (namespace name : String) (cache : Cache) (w v : W) (e : Error)
    → reader.get_connection namespace name w ≡ (err e, v)
    → is_object_not_found e ≡ true
    → (for reader namespace name (cache, w) ≡ (
      err (wrap ("get keycloak connection " <> key_of namespace name) e),
      (forget (key_of namespace name) cache, v),
    ))
      × ((j : String)
          → get j (forget (key_of namespace name) cache)
            ≡ (if key_of namespace name == j then none else get j cache))
unfolding for
forgets_deleted reader namespace name cache w v e read gone =
    (ground arith, λ j. get-forget (key_of namespace name) j cache)

module _ {W : Type 0} (key : String) (conn : Connection) (secret : Credentials) (cache : Cache)
    (w : W) where
  resolve-hit :
      (c : CachedClient)
      → get key cache ≡ some c
      → is_current conn secret c ≡ true
      → resolve key conn secret (cache, w) ≡ (ok c.client, (cache, w))
  unfolding resolve
  resolve-hit c here current = ground arith

  resolve-made :
      (kc : Config)
      → cached_for conn secret (get key cache) ≡ none
      → client_of key conn secret ≡ ok kc
      → resolve key conn secret (cache, w) ≡ (
        ok kc,
        (
          put key
              (record { client = kc; conn_version = conn.version; secret_version = secret.version })
              cache,
          w,
        ),
      )
  unfolding resolve
  resolve-made kc miss made = ground arith

  resolve-failed :
      (e : Error)
      → cached_for conn secret (get key cache) ≡ none
      → client_of key conn secret ≡ err e
      → resolve key conn secret (cache, w) ≡ (err e, (cache, w))
  unfolding resolve
  resolve-failed e miss failed = ground arith

for-found :
    {W : Type 0} (reader : Reader W) (namespace name : String) (conn : Connection)
    (secret : Credentials) (cache : Cache) (w v u : W)
    → reader.get_connection namespace name w ≡ (ok conn, v)
    → reader.get_credentials namespace conn.credentials_secret_ref v ≡ (ok secret, u)
    → for reader namespace name (cache, w) ≡ resolve (key_of namespace name) conn secret (cache, u)
unfolding for
for-found reader namespace name conn secret cache w v u read_conn read_secret = ground arith

module _ (history : History) where
  -- The client that an entry of the cache was made for.
  abbrev pub IsMade : String → CachedClient → Type 0
  IsMade key c =
      let conn = history.connection_at key c.conn_version in
      client_of key conn (history.credentials_at conn c.secret_version) ≡ ok c.client

  -- Every entry is the client of the connection and the Secret at its versions.
  abbrev pub IsCoherent : Cache → Type 0
  IsCoherent cache = (key : String) (c : CachedClient) → get key cache ≡ some c → IsMade key c

  -- A connection and its Secret as they were read, at their versions.
  abbrev pub IsRecorded : String → Connection → Credentials → Type 0
  IsRecorded key conn secret =
      (history.connection_at key conn.version ≡ conn)
      × (history.credentials_at conn secret.version ≡ secret)

  current-IsMade :
      (key : String) (conn : Connection) (secret : Credentials) (c : CachedClient)
      → IsRecorded key conn secret
      → is_current conn secret c ≡ true
      → IsMade key c
      → client_of key conn secret ≡ ok c.client
  current-IsMade key conn secret c recorded current made =
      let v : c.conn_version ≡ conn.version =
        (eq_iff c.conn_version conn.version).0 (ground arith) in
      let u : c.secret_version ≡ secret.version =
        (eq_iff c.secret_version secret.version).0 (ground arith) in
      rw (v, u, recorded.0, recorded.1) at made

  put-IsCoherent :
      (key : String) (c : CachedClient) (cache : Cache)
      → IsCoherent cache
      → IsMade key c
      → IsCoherent (put key c cache)
  put-IsCoherent key c cache coherent made j d e = elim (Bool-cases (key == j)) [
    | inl t ↦
        let same : c ≡ d = some-injective _ _ (rw (get-put key j c cache, t) at e) in
        subst (λ k. IsMade k d) ((eq_iff key j).0 t) (subst (IsMade key) same made)
    | inr f ↦ coherent j d (rw (get-put key j c cache, f) at e)
  ]

  -- What the answer of the provider and the cache that it leaves have to be.
  abbrev pub AnswersFor :
      {W : Type 0} → String → Connection → Credentials → Result Config × (Cache × W) → Type 0
  AnswersFor key conn secret (r, s) = (r ≡ client_of key conn secret) × IsCoherent s.0

  resolve-miss :
      {W : Type 0} (key : String) (conn : Connection) (secret : Credentials) (cache : Cache) (w : W)
      → IsCoherent cache
      → IsRecorded key conn secret
      → cached_for conn secret (get key cache) ≡ none
      → AnswersFor key conn secret (resolve key conn secret (cache, w))
  resolve-miss key conn secret cache w coherent recorded miss =
      elim (Result-cases (client_of key conn secret)) [
        | inl (kc, e) ↦
            let made : client_of key (history.connection_at key conn.version)
                  (history.credentials_at (history.connection_at key conn.version) secret.version)
                ≡ ok kc =
              rw (recorded.0, recorded.1) e in
            rw (resolve-made key conn secret cache w kc miss e)
              (sym e, put-IsCoherent key _ cache coherent made)
        | inr (x, e) ↦ rw (resolve-failed key conn secret cache w x miss e) (sym e, coherent)
      ]

  resolve_lem :
      {W : Type 0} (key : String) (conn : Connection) (secret : Credentials) (cache : Cache) (w : W)
      → IsCoherent cache
      → IsRecorded key conn secret
      → AnswersFor key conn secret (resolve key conn secret (cache, w))
  resolve_lem key conn secret cache w coherent recorded = elim (Option-cases (get key cache)) [
    | inl absent ↦ resolve-miss key conn secret cache w coherent recorded (rw absent refl)
    | inr (c, here) ↦ elim (Bool-cases (is_current conn secret c)) [
      | inl current ↦
          rw (resolve-hit key conn secret cache w c here current) (
            sym (current-IsMade key conn secret c recorded current (coherent key c here)),
            coherent,
          )
      | inr stale ↦ resolve-miss key conn secret cache w coherent recorded (rw (here, stale) refl)
    ]
  ]

  -- The cache shows nothing of itself: where every entry is the client of its versions, and the
  -- connection and the Secret that are read are those of their versions, `For` answers as a
  -- provider without a cache would, with the client of what was read or the error of making it,
  -- and every entry of the cache that it leaves is again the client of its versions.
  pub for_lem :
      {W : Type 0} (reader : Reader W) (namespace name : String) (conn : Connection)
      (secret : Credentials) (cache : Cache) (w v u : W)
      → IsCoherent cache
      → IsRecorded (key_of namespace name) conn secret
      → reader.get_connection namespace name w ≡ (ok conn, v)
      → reader.get_credentials namespace conn.credentials_secret_ref v ≡ (ok secret, u)
      → AnswersFor (key_of namespace name) conn secret (for reader namespace name (cache, w))
  for_lem reader namespace name conn secret cache w v u coherent recorded read_conn read_secret =
      rw (for-found reader namespace name conn secret cache w v u read_conn read_secret)
        (resolve_lem (key_of namespace name) conn secret cache u coherent recorded)

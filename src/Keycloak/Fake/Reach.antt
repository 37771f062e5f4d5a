-- ===== src/Keycloak/Fake/Reach.antt =====
-- fake/server.go: the states that a test can bring the server into, by requests, tokens and the
-- methods that reach past the API, and what holds in every one of them.
use keycloak_operator.Base.{
  String, Bool, true, false, not, ◌&&◌, ◌||◌, Option, some, List, [], ◌∷◌, ◌≡◌, refl, ap, ◌==◌,
  eq_iff, if◌then◌else◌, arith, inl, inr, Bool-cases, Option-cases,
}
use keycloak_operator.Json.{Value}
use keycloak_operator.Json.Text.{Text}
use keycloak_operator.Platform.{Method}
use keycloak_operator.Keycloak.Fake.State.{
  Map, Server, Reply, inner, put_inner, append_unique, remove_value, new_server, reset,
  revoke_tokens,
}
use keycloak_operator.Keycloak.Fake.Clients.{ids_at, scope_ids, set_scope_ids}
use keycloak_operator.Keycloak.Fake.Router.{Net, serve, handle_token}
use keycloak_operator.Keycloak.Fake.Inspect.{set_realm_field}
use keycloak_operator.Keycloak.Fake.Steps.{
  Step, unchanged, realm_written, realm_deleted, clients_written, scopes_written, roles_written,
  client_roles_written, idps_written, groups_written, group_realm_roles_written,
  group_client_roles_written, scope_assigned, scope_unassigned,
}
use keycloak_operator.Keycloak.Fake.Router.Paths.{after_prefix}
use keycloak_operator.Keycloak.Fake.Steps.Requests.{serve-StepsSomewhere}
use keycloak_operator.Drivers.Sets

-- No text stands twice in the list.
abbrev pub is_in : String → List String → Bool
is_in x [] = false
is_in x (y ∷ l) = y == x || is_in x l

abbrev pub Nodup : List String → Type 0
Nodup [] = Unit
Nodup (x ∷ l) = (is_in x l ≡ false) × Nodup l

pub is_in-append_unique :
    (l : List String) (v x : String) → is_in x (append_unique l v) ≡ (v == x || is_in x l)
unfolding append_unique
is_in-append_unique [] v x = refl
is_in-append_unique (y ∷ l) v x =
    ground (arith, eq_iff y v, eq_iff y x, eq_iff v x, is_in-append_unique l v x)

append_unique-Nodup : (l : List String) (v : String) → Nodup l → Nodup (append_unique l v)
unfolding append_unique
append_unique-Nodup [] v h = (refl, tt)
append_unique-Nodup (y ∷ l) v h = elim (Bool-cases (y == v)) [
  | inl e ↦ rw e h
  | inr e ↦ rw e (
    ground (arith, eq_iff v y, eq_iff y v, is_in-append_unique l v y, h.0),
    append_unique-Nodup l v h.1,
  )
]

pub is_in-remove_value :
    (l : List String) (v x : String) → is_in x (remove_value l v) ≡ (not (v == x) && is_in x l)
unfolding remove_value
is_in-remove_value [] v x = ground arith
is_in-remove_value (y ∷ l) v x =
    ground (arith, eq_iff y v, eq_iff y x, eq_iff v x, is_in-remove_value l v x)

remove_value-Nodup : (l : List String) (v : String) → Nodup l → Nodup (remove_value l v)
unfolding remove_value
remove_value-Nodup [] v h = tt
remove_value-Nodup (y ∷ l) v h = elim (Bool-cases (y == v)) [
  | inl e ↦ rw e (remove_value-Nodup l v h.1)
  | inr e ↦ rw e (ground (arith, is_in-remove_value l v y, h.0), remove_value-Nodup l v h.1)
]

-- No scope is assigned to a client twice as a default scope, or twice as an optional one.
abbrev pub AssignsOnce : Server → Type 0
AssignsOnce s = (optional : Bool) (realm id : String) → Nodup (scope_ids optional realm id s)

pub ids_at-put_inner :
    (realm id realm' id' : String) (ids : List String) (m : Map (Map (List String)))
    → ids_at realm' id' (put_inner realm id ids m)
      ≡ (if realm == realm' && id == id' then ids else ids_at realm' id' m)
ids_at-put_inner realm id realm' id' ids m = ground (
  arith,
  eq_iff realm realm',
  Sets.get-put realm realm' (Sets.put id ids (inner realm m)) m,
  Sets.get-put id id' ids (inner realm m),
)

ids_at-Nodup :
    (realm id realm' id' : String) (ids : List String) (m : Map (Map (List String)))
    → Nodup ids
    → Nodup (ids_at realm' id' m)
    → Nodup (ids_at realm' id' (put_inner realm id ids m))
ids_at-Nodup realm id realm' id' ids m n h =
    rw (ids_at-put_inner realm id realm' id' ids m)
      (elim (Bool-cases (realm == realm' && id == id')) [ inl e ↦ rw e n | inr e ↦ rw e h ])

-- What a request leaves of the assigned scopes.
module _ (realm : String) where
  set-AssignsOnce :
      (optional : Bool) (id : String) (ids : List String) (s : Server)
      → Nodup ids
      → AssignsOnce s
      → AssignsOnce (set_scope_ids optional realm id ids s)
  set-AssignsOnce true id ids s n h true realm' id' =
      ids_at-Nodup realm id realm' id' ids s.optional_scopes n (h true realm' id')
  set-AssignsOnce true id ids s n h false realm' id' = h false realm' id'
  set-AssignsOnce false id ids s n h true realm' id' = h true realm' id'
  set-AssignsOnce false id ids s n h false realm' id' =
      ids_at-Nodup realm id realm' id' ids s.default_scopes n (h false realm' id')

  AssignsOnce-Step :
      {s : Server} {r : Reply} {s' : Server} → Step realm s r s' → AssignsOnce s → AssignsOnce s'
  AssignsOnce-Step (unchanged r e) h = h
  AssignsOnce-Step (realm_written r rep e) h = h
  AssignsOnce-Step realm_deleted h = h
  AssignsOnce-Step (clients_written r m e) h = h
  AssignsOnce-Step (scopes_written r m e) h = h
  AssignsOnce-Step (roles_written r m e) h = h
  AssignsOnce-Step (client_roles_written r m e) h = h
  AssignsOnce-Step (idps_written r m e) h = h
  AssignsOnce-Step (groups_written r m e) h = h
  AssignsOnce-Step (group_realm_roles_written r m e) h = h
  AssignsOnce-Step (group_client_roles_written r m e) h = h
  AssignsOnce-Step {s} (scope_assigned optional id scope e) h =
      set-AssignsOnce optional id _ s (append_unique-Nodup _ scope (h optional realm id)) h
  AssignsOnce-Step {s} (scope_unassigned optional id scope) h =
      set-AssignsOnce optional id _ s (remove_value-Nodup _ scope (h optional realm id)) h

-- The states that requests to the Admin API and for a token, and the methods for tests, bring a new
-- server into.
pub data Reach (net : Net) (username password : String) : Server → Type 0 where
  started : Reach net username password (new_server username password)
  served :
      (s : Server) (method : Method) (url rest : String) (body : Option Text)
      → after_prefix "/admin/" (net.path url) ≡ some rest
      → Reach net username password s
      → Reach net username password (serve net method url body s).1
  granted :
      (s : Server) (path : String) (form : List (String × String))
      → Reach net username password s
      → Reach net username password (handle_token path form s).1
  wiped : (s : Server) → Reach net username password s → Reach net username password (reset s)
  revoked :
      (s : Server) → Reach net username password s → Reach net username password (revoke_tokens s)
  drifted :
      (s : Server) (realm key : String) (value : Value)
      → Reach net username password s
      → Reach net username password (set_realm_field s realm key value)

handle_token_keeps :
    (path : String) (form : List (String × String)) (s : Server)
    → ((handle_token path form s).1.default_scopes ≡ s.default_scopes)
      × ((handle_token path form s).1.optional_scopes ≡ s.optional_scopes)
unfolding handle_token
handle_token_keeps path form s = (ground arith, ground arith)

handle_token-AssignsOnce :
    (path : String) (form : List (String × String)) (s : Server)
    → AssignsOnce s
    → AssignsOnce (handle_token path form s).1
handle_token-AssignsOnce path form s h true realm id =
    rw (ap (λ m. ids_at realm id m) (handle_token_keeps path form s).1) (h true realm id)
handle_token-AssignsOnce path form s h false realm id =
    rw (ap (λ m. ids_at realm id m) (handle_token_keeps path form s).0) (h false realm id)

set_realm_field-AssignsOnce :
    (s : Server) (realm key : String) (value : Value)
    → AssignsOnce s
    → AssignsOnce (set_realm_field s realm key value)
unfolding set_realm_field
set_realm_field-AssignsOnce s realm key value h = elim (Option-cases (Sets.get realm s.realms)) [
  | inl e ↦ rw (set_realm_field, e) h
  | inr (rep, e) ↦ rw (set_realm_field, e) h
]

new_server-AssignsOnce : (username password : String) → AssignsOnce (new_server username password)
unfolding new_server Sets.get
new_server-AssignsOnce username password true realm id = tt
new_server-AssignsOnce username password false realm id = tt

reset-AssignsOnce : (s : Server) → AssignsOnce (reset s)
unfolding reset Sets.get
reset-AssignsOnce s true realm id = tt
reset-AssignsOnce s false realm id = tt

-- In every state that the server can be brought into, no scope is assigned to a client twice as a
-- default scope, or twice as an optional one.
pub reached-AssignsOnce :
    (net : Net) (username password : String) (s : Server)
    → Reach net username password s
    → AssignsOnce s
unfolding revoke_tokens
reached-AssignsOnce net username password s started = new_server-AssignsOnce username password
reached-AssignsOnce net username password s (served s0 method url rest body e h) =
    let (realm, step) = serve-StepsSomewhere net method url rest body e s0 in
    AssignsOnce-Step realm step (reached-AssignsOnce net username password s0 h)
reached-AssignsOnce net username password s (granted s0 path form h) =
    handle_token-AssignsOnce path form s0 (reached-AssignsOnce net username password s0 h)
reached-AssignsOnce net username password s (wiped s0 h) = reset-AssignsOnce s0
reached-AssignsOnce net username password s (revoked s0 h) =
    reached-AssignsOnce net username password s0 h
reached-AssignsOnce net username password s (drifted s0 realm key value h) =
    set_realm_field-AssignsOnce s0 realm key value (reached-AssignsOnce net username password s0 h)

-- ===== src/Keycloak/Fake/Steps.antt =====
-- fake/server.go: the handlers as steps. A request for a realm answers and writes at most one map
-- of the state, at that realm.

pub mod Clients
pub mod Kinds
pub mod Routes
pub mod Requests
pub mod Realms
use keycloak_operator.Base.{
  ℕ, String, Bool, true, false, Option, none, some, List, ◌≡◌, refl, is_some, nat_eq, ◌||◌,
  if◌then◌else◌, Bool-cases, inl, inr,
}
use keycloak_operator.Json.{object, Fields, end}
use keycloak_operator.Json.Text.{Text}
use keycloak_operator.Platform.{Method, get, post, put, delete}
use keycloak_operator.Keycloak.Client.{is_refusal}
use keycloak_operator.Keycloak.Fake.State.{
  Map, Role, Server, Content, Reply, panicked, reply, Handler, Payload, invalid, nil_map, a_map,
  decode_map, decode_maps, inner, change_inner, no_content, page_not_found, method_not_allowed,
  write_json, bad_json, answer, on_payload, on_found, on_payloads, unless_panic, panicked, on_new,
  append_unique, remove_value, merge,
}
use keycloak_operator.Keycloak.Fake.Realms.{handle_rep, in_realm}
use keycloak_operator.Keycloak.Fake.Clients.{scope_ids, set_scope_ids}
use keycloak_operator.Drivers.Sets

-- The status by which a client takes its token for refused.
abbrev pub is_refused : Reply → Bool
is_refused panicked = false
is_refused (reply status content) = is_refusal status

-- What a request for the realm may answer and write: nothing, or one map at that realm. Assigned
-- scopes grow by a scope that the realm has and shrink by one.
pub data Step (realm : String) (s : Server) : Reply → Server → Type 0 where
  unchanged : (r : Reply) → is_refused r ≡ false → Step realm s r s
  realm_written :
      (r : Reply) (rep : Fields)
      → is_refused r ≡ false
      → Step realm s r (record s { realms = Sets.put realm rep s.realms })
  realm_deleted : Step realm s no_content (record s { realms = Sets.erase realm s.realms })
  clients_written :
      (r : Reply) (m : Map Fields)
      → is_refused r ≡ false
      → Step realm s r (record s { clients = Sets.put realm m s.clients })
  scopes_written :
      (r : Reply) (m : Map Fields)
      → is_refused r ≡ false
      → Step realm s r (record s { scopes = Sets.put realm m s.scopes })
  roles_written :
      (r : Reply) (m : Map Role)
      → is_refused r ≡ false
      → Step realm s r (record s { roles = Sets.put realm m s.roles })
  client_roles_written :
      (r : Reply) (m : Map (Map Fields))
      → is_refused r ≡ false
      → Step realm s r (record s { client_roles = Sets.put realm m s.client_roles })
  idps_written :
      (r : Reply) (m : Map Fields)
      → is_refused r ≡ false
      → Step realm s r (record s { idps = Sets.put realm m s.idps })
  groups_written :
      (r : Reply) (m : Map Fields)
      → is_refused r ≡ false
      → Step realm s r (record s { groups = Sets.put realm m s.groups })
  group_realm_roles_written :
      (r : Reply) (m : Map (List Fields))
      → is_refused r ≡ false
      → Step realm s r (record s { group_realm_roles = Sets.put realm m s.group_realm_roles })
  group_client_roles_written :
      (r : Reply) (m : Map (Map (List Fields)))
      → is_refused r ≡ false
      → Step realm s r (record s { group_client_roles = Sets.put realm m s.group_client_roles })
  scope_assigned :
      (optional : Bool) (id scope : String)
      → is_some (Sets.get scope (inner realm s.scopes)) ≡ true
      → Step realm s no_content
          (set_scope_ids optional realm id (append_unique (scope_ids optional realm id s) scope) s)
  scope_unassigned :
      (optional : Bool) (id scope : String)
      → Step realm s no_content
          (set_scope_ids optional realm id (remove_value (scope_ids optional realm id s) scope) s)

module _ (realm : String) where
  -- The handler makes a step from every state.
  abbrev pub Steps : Handler → Type 0
  Steps h = (s : Server) → Step realm s (h s).0 (h s).1

  pub answer-Steps : (r : Reply) → is_refused r ≡ false → Steps (λ s. (r, s))
  answer-Steps r e s = unchanged r e

  pub if-Steps : (b : Bool) (h k : Handler) → Steps h → Steps k → Steps (if b then h else k)
  if-Steps true h k p q = p
  if-Steps false h k p q = q

  -- The same where the state is given.
  pub if-Step :
      (b : Bool) (s : Server) (x y : Reply × Server)
      → Step realm s x.0 x.1
      → Step realm s y.0 y.1
      → Step realm s (if b then x else y).0 (if b then x else y).1
  if-Step true s x y p q = p
  if-Step false s x y p q = q

  pub on_found-Steps :
      {A : Type 0} (o : Option A) (k : A → Handler) → ((a : A) → Steps (k a)) → Steps (on_found o k)
  on_found-Steps none k h = answer-Steps page_not_found refl
  on_found-Steps (some a) k h = h a

  pub on_payload-Steps :
      (p : Payload) (k : Fields → Handler) → ((m : Fields) → Steps (k m)) → Steps (on_payload p k)
  on_payload-Steps invalid k h = answer-Steps bad_json refl
  on_payload-Steps nil_map k h = h end
  on_payload-Steps (a_map m) k h = h m

  pub on_new-Steps :
      (p : Payload) (refused : Fields → Bool) (refusal : Reply) (store : Fields → Handler)
      → is_refused refusal ≡ false
      → ((m : Fields) → Steps (store m))
      → Steps (on_new p refused refusal store)
  on_new-Steps invalid refused refusal store e h = answer-Steps bad_json refl
  on_new-Steps nil_map refused refusal store e h =
      if-Steps (refused end) (answer refusal) (answer panicked) (answer-Steps refusal e)
        (answer-Steps panicked refl)
  on_new-Steps (a_map m) refused refusal store e h =
      if-Steps (refused m) (answer refusal) (store m) (answer-Steps refusal e) (h m)

  pub on_payloads-Steps :
      (o : Option (List Fields)) (k : List Fields → Handler)
      → ((l : List Fields) → Steps (k l))
      → Steps (on_payloads o k)
  on_payloads-Steps none k h = answer-Steps bad_json refl
  on_payloads-Steps (some l) k h = h l

  pub unless_panic-Steps :
      (o : Option (List Fields)) (left : Server → Server) (k : List Fields → Handler)
      → Steps (λ s. (panicked, left s))
      → ((l : List Fields) → Steps (k l))
      → Steps (unless_panic o left k)
  unless_panic-Steps none left k p h = p
  unless_panic-Steps (some l) left k p h = h l

  pub in_realm-Steps : (h : Handler) → Steps h → Steps (in_realm realm h)
  in_realm-Steps h p s =
      if-Step (is_some (Sets.get realm s.realms)) s (h s) (page_not_found, s) (p s)
        (unchanged page_not_found refl)

  -- A write of one map or another.
  pub if_written-Step :
      {A : Type 0} (b : Bool) (s : Server) (r : Reply) (set : A → Server) (x y : A)
      → Step realm s r (set x)
      → Step realm s r (set y)
      → Step realm s r (set (if b then x else y))
  if_written-Step true s r set x y p q = p
  if_written-Step false s r set x y p q = q

  pub handle_rep-Steps :
      (method : Method) (body : Option Text) (o : Option Fields) (write : Fields → Server → Server)
      (remove : Server → Server)
      → ((rep : Fields) (s : Server) → Step realm s no_content (write rep s))
      → ((s : Server) → Step realm s no_content (remove s))
      → Steps (handle_rep method body o write remove)
  handle_rep-Steps method body none write remove h k s = unchanged page_not_found refl
  handle_rep-Steps get body (some rep) write remove h k s = unchanged (write_json (object rep)) refl
  handle_rep-Steps put body (some rep) write remove h k s =
      on_payload-Steps (decode_map body) _ (λ m s'. h _ s') s
  handle_rep-Steps delete body (some rep) write remove h k s = k s
  handle_rep-Steps post body (some rep) write remove h k s = unchanged method_not_allowed refl

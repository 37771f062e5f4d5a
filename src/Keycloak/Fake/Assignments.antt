-- ===== src/Keycloak/Fake/Assignments.antt =====
-- The scopes of a client through the client of the operator, the router and the server.
use keycloak_operator.Base.{
  not, ◌&&◌, sym, eq_iff, Bool-cases, inl, inr, ℕ, String, ◌<>◌, Bool, true, false, none, some,
  List, [], ◌∷◌, ◌≡◌, refl, ap, ◌∙◌, ◌==◌, arith, is_some, eq_refl, if◌then◌else◌,
}
use keycloak_operator.Errors.{Error, other, ok, err}
use keycloak_operator.Platform.{Output, Method, put, delete, discard}
use keycloak_operator.Keycloak.Client.{Config, Session, admin_of, response_of, request}
use keycloak_operator.Keycloak.Resources.{realm_path}
use keycloak_operator.Keycloak.Resources.Answers.{send-ok}
use keycloak_operator.Keycloak.Mappings.{
  assign_client_scope, assign_client_default_scope, assign_client_optional_scope,
}
use keycloak_operator.Keycloak.Escape.{path_escape}
use keycloak_operator.Drivers.Scopes.{assign}
use keycloak_operator.Keycloak.Fake.State.{Server, inner, no_content, append_unique, remove_value}
use keycloak_operator.Keycloak.Fake.Clients.{
  assigned_scopes, scope_ids, set_scope_ids, scope_assignments, client_part, handle_clients,
}
use keycloak_operator.Keycloak.Fake.Router.{Net, Codec, handle_resource}
use keycloak_operator.Keycloak.Fake.Routing.{slashes, are_segments}
use keycloak_operator.Keycloak.Fake.Served.{http, IsValid, request-handle_resource}
use keycloak_operator.Keycloak.Fake.Settling.{kc}
use keycloak_operator.Keycloak.Fake.Reach.{
  is_in, is_in-append_unique, is_in-remove_value, ids_at-put_inner,
}
use keycloak_operator.Drivers.Sets

abbrev pub list_name : Bool → String
list_name true = "optional-client-scopes"
list_name false = "default-client-scopes"

abbrev pub scope_path : Bool → String → String → String → String
scope_path optional realm id scope =
    (realm_path realm <> "/clients/" <> path_escape id)
    <> "/"
    <> list_name optional
    <> "/"
    <> path_escape scope

abbrev pub method_of : Bool → Method
method_of add = if add then put else delete

-- A scope can be assigned if the realm has it, and removed once one was assigned in the realm.
abbrev pub can_assign : Bool → Bool → String → String → Server → Bool
can_assign optional true realm scope s = is_some (Sets.get scope (inner realm s.scopes))
can_assign optional false realm scope s = is_some (Sets.get realm (assigned_scopes optional s))

abbrev pub changed_ids : Bool → Bool → String → String → String → Server → Server
changed_ids optional true realm id scope s =
    set_scope_ids optional realm id (append_unique (scope_ids optional realm id s) scope) s
changed_ids optional false realm id scope s =
    set_scope_ids optional realm id (remove_value (scope_ids optional realm id s) scope) s

assignment_request :
    (net : Net) (query : String → String) (optional add : Bool) (realm id scope : String)
    (s : Server)
    → is_some (Sets.get realm s.realms) ≡ true
    → can_assign optional add realm scope s ≡ true
    → handle_resource net
        (method_of add)
        query
        realm
        ("clients" ∷ id ∷ list_name optional ∷ scope ∷ [])
        none
        s
      ≡ (no_content, changed_ids optional add realm id scope s)
unfolding handle_resource handle_clients client_part scope_assignments
assignment_request net query true true realm id scope s there can = rw (there, can)
assignment_request net query true false realm id scope s there can = rw (there, can)
assignment_request net query false true realm id scope s there can = rw (there, can)
assignment_request net query false false realm id scope s there can = rw (there, can)

scope_ids-set_scope_ids :
    (optional : Bool) (realm id r j : String) (ids : List String) (s : Server)
    → scope_ids optional r j (set_scope_ids optional realm id ids s)
      ≡ (if realm == r && id == j then ids else scope_ids optional r j s)
scope_ids-set_scope_ids true realm id r j ids s =
    ids_at-put_inner realm id r j ids s.optional_scopes ∙ ground arith
scope_ids-set_scope_ids false realm id r j ids s =
    ids_at-put_inner realm id r j ids s.default_scopes ∙ ground arith

abbrev new_ids : Bool → String → List String → List String
new_ids true scope ids = append_unique ids scope
new_ids false scope ids = remove_value ids scope

is_in-new_ids :
    (add : Bool) (scope x : String) (ids : List String)
    → is_in x (new_ids add scope ids) ≡ (if scope == x then add else is_in x ids)
is_in-new_ids true scope x ids = is_in-append_unique ids scope x ∙ ground arith
is_in-new_ids false scope x ids = is_in-remove_value ids scope x ∙ ground arith

changed_ids-new_ids :
    (optional add : Bool) (realm id scope : String) (s : Server)
    → changed_ids optional add realm id scope s
      ≡ set_scope_ids optional realm id (new_ids add scope (scope_ids optional realm id s)) s
changed_ids-new_ids optional true realm id scope s = refl
changed_ids-new_ids optional false realm id scope s = refl

is_in-changed_ids :
    (optional add : Bool) (realm id scope r j x : String) (s : Server)
    → is_in x (scope_ids optional r j (changed_ids optional add realm id scope s))
      ≡ (if realm == r && (id == j && scope == x) then add else is_in x (scope_ids optional r j s))
is_in-changed_ids optional add realm id scope r j x s =
    let ids = scope_ids optional realm id s in
    let own = is_in-new_ids add scope x ids in
    ap (λ s'. is_in x (scope_ids optional r j s'))
      (changed_ids-new_ids optional add realm id scope s)
    ∙ ap (is_in x) (scope_ids-set_scope_ids optional realm id r j (new_ids add scope ids) s)
    ∙ elim (Bool-cases (realm == r && id == j)) [
      | inr e ↦ ground (arith, e)
      | inl e ↦
          let there : realm ≡ r = (eq_iff realm r).0 (ground (arith, e)) in
          let same : id ≡ j = (eq_iff id j).0 (ground (arith, e)) in
          rw (e, sym there, sym same, eq_refl realm, eq_refl id) own
    ]

-- The maps of assignments of the server.
abbrev with_assignments_of : Server → Server → Server
with_assignments_of s s' = record s' {
  default_scopes = s.default_scopes;
  optional_scopes = s.optional_scopes;
}

-- No part of the server but the assignments of one sort is another.
abbrev pub KeepsOthers : Bool → Server → Server → Type 0
KeepsOthers optional s s' =
    (assigned_scopes (not optional) s' ≡ assigned_scopes (not optional) s)
    × (with_assignments_of s s' ≡ s)

changed_ids-KeepsOthers :
    (optional add : Bool) (realm id scope : String) (s : Server)
    → KeepsOthers optional s (changed_ids optional add realm id scope s)
changed_ids-KeepsOthers true true realm id scope s = (refl, refl)
changed_ids-KeepsOthers true false realm id scope s = (refl, refl)
changed_ids-KeepsOthers false true realm id scope s = (refl, refl)
changed_ids-KeepsOthers false false realm id scope s = (refl, refl)

module _ (net : Net) (codec : Codec) (clock : ℕ) (cfg : Config) (session : Session) where
  -- net/url decodes the path of the assignment, whose segments have no slash and whose realm has no
  -- escape.
  abbrev pub IsPlainFor : Bool → String → String → String → Type 0
  IsPlainFor optional realm id scope =
      (net.path (cfg.url <> scope_path optional realm id scope)
        ≡ slashes ("admin" ∷ "realms" ∷ realm ∷ "clients" ∷ id ∷ list_name optional ∷ scope ∷ []))
      × (are_segments (realm ∷ "clients" ∷ id ∷ list_name optional ∷ scope ∷ []) ≡ true)
      × (net.path_unescape realm ≡ some realm)

  module _
      (plain : (o : Output) (b : String) (e : Error) → codec.decode o b ≡ err e → e.kind ≡ other)
      (valid : IsValid net codec clock cfg session) (realm id scope : String) (s : Server) where
    scope_request :
        (optional add : Bool)
        → IsPlainFor optional realm id scope
        → is_some (Sets.get realm s.realms) ≡ true
        → can_assign optional add realm scope s ≡ true
        → request
            (http net codec clock cfg)
            cfg
            (method_of add)
            (scope_path optional realm id scope)
            none
            discard
            (session, s)
          ≡ (ok none, (session, changed_ids optional add realm id scope s))
    unfolding response_of
    scope_request optional add p there can =
        request-handle_resource net codec clock cfg (method_of add)
          (scope_path optional realm id scope) realm
          ("clients" ∷ id ∷ list_name optional ∷ scope ∷ []) none discard session s plain valid p.0
          p.1 p.2
        ∙ rw (
            assignment_request net (net.query (cfg.url <> scope_path optional realm id scope))
              optional add realm id scope s there can)

    assign-changed_ids :
        (optional add : Bool)
        → IsPlainFor optional realm id scope
        → is_some (Sets.get realm s.realms) ≡ true
        → can_assign optional add realm scope s ≡ true
        → assign (kc net codec clock cfg session) realm id optional scope add (session, s)
          ≡ (ok tt, (session, changed_ids optional add realm id scope s))
    unfolding assign_client_optional_scope assign_client_default_scope assign_client_scope admin_of
    assign-changed_ids true add p there can =
        send-ok (kc net codec clock cfg session) (scope_path true realm id scope) (session, s) _
          (method_of add) none none (scope_request true add p there can)
    assign-changed_ids false add p there can =
        send-ok (kc net codec clock cfg session) (scope_path false realm id scope) (session, s) _
          (method_of add) none none (scope_request false add p there can)

    -- Assigning a scope to a client through the client of the operator, or removing it, succeeds and
    -- changes this one assignment: of the assignments of the sort, default or optional, in any realm,
    -- that of the scope to the client in the realm holds afterwards exactly if it was to be added,
    -- and any other exactly if it held before; the assignments of the other sort, the rest of the
    -- server and the session are as they were. The realm exists; a scope that is added is one of the
    -- realm, and one is removed only where some scope of the same sort was assigned in the realm. The
    -- client has a token with more than 30 seconds to live, the URL of the assignment is decoded to
    -- its segments, none of which has a slash, and errors of the decoding of bodies are plain ones.
    pub assign_lem :
        (optional add : Bool) (r j x : String)
        → IsPlainFor optional realm id scope
        → is_some (Sets.get realm s.realms) ≡ true
        → can_assign optional add realm scope s ≡ true
        → (let done =
              assign (kc net codec clock cfg session) realm id optional scope add (session, s) in
            (done.0 ≡ ok tt)
            × (is_in x (scope_ids optional r j done.1.1) ≡ (
                if realm == r && (id == j && scope == x)
                then add
                else is_in x (scope_ids optional r j s)))
            × KeepsOthers optional s done.1.1
            × (done.1.0 ≡ session))
    assign_lem optional add r j x p there can = rw (assign-changed_ids optional add p there can) (
      refl,
      is_in-changed_ids optional add realm id scope r j x s,
      changed_ids-KeepsOthers optional add realm id scope s,
      refl,
    )

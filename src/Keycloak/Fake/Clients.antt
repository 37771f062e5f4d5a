-- ===== src/Keycloak/Fake/Clients.antt =====
-- fake/server.go: `handleClients`. A segment that is missing where the code indexes it panics.
use keycloak_operator.Base.{
  String, ◌<>◌, Bool, true, false, ◌||◌, ◌&&◌, Option, none, some, List, [], ◌∷◌, ◌==◌, is_some,
  if◌then◌else◌,
}
use keycloak_operator.Json.{string, object, Fields, end, field, insert}
use keycloak_operator.Json.Text.{Text}
use keycloak_operator.Platform.{Method, get, post, put, delete}
use keycloak_operator.Keycloak.Mappings.{text_at}
use keycloak_operator.Keycloak.Fake.State.{
  Map, Server, Reply, Handler, answer, panicked, page_not_found, http_error, created, no_content,
  method_not_allowed, write_json, maps_value, is_text_at, inner, put_inner, change_inner, some_rep,
  marked, listed, on_new, on_payload, on_found, decode_map, merge, append_unique, remove_value,
}
use keycloak_operator.Keycloak.Fake.Realms.{handle_rep, in_realm}
use keycloak_operator.Drivers.Sets

-- `clientID == "" || rep["clientId"] == clientID`
abbrev pub is_asked_for : String → Fields → Bool
is_asked_for client_id rep = client_id == "" || is_text_at "clientId" client_id rep

-- The collection, with the `clientId` of the query.
unfoldable pub clients : Method → String → String → Option Text → Handler
unfolding decode_map
clients get realm client_id body s = (
  write_json (maps_value (listed (is_asked_for client_id) (inner realm s.clients))),
  record s { clients = change_inner realm (marked (is_asked_for client_id)) s.clients },
)
clients post realm client_id body s =
    on_payload (decode_map body)
      (λ payload s'.
        let name = text_at "clientId" payload in
        if name == ""
        then (http_error "clientId required" 400, s')
        else if some_rep (is_text_at "clientId" name) (inner realm s'.clients)
        then (http_error "client exists" 409, s')
        else let id = "client-" <> name in
          (
            created,
            record s' { clients = put_inner realm id (insert "id" (string id) payload) s'.clients },
          ))
      s
clients _ realm client_id body s = (method_not_allowed, s)

-- A single client role, whatever the method.
unfoldable pub client_role : String → String → Option String → Handler
client_role realm id none s = (page_not_found, s)
client_role realm id (some name) s =
    on_found (Sets.get name (inner id (inner realm s.client_roles)))
      (λ rep. answer (write_json (object rep))) s

unfoldable pub seed_client_role : Method → String → String → Option Text → Handler
unfolding decode_map
seed_client_role post realm id body =
    on_new (decode_map body) (λ payload. false) panicked
      (λ payload s.
        let name = text_at "name" payload in
        let rep = insert "id" (string ("clientrole-" <> id <> "-" <> name)) payload in
        (
          created,
          record s {
            client_roles =
                put_inner realm id (Sets.put name rep (inner id (inner realm s.client_roles)))
                  s.client_roles;
          },
        ))
seed_client_role _ realm id body = answer method_not_allowed

abbrev pub secret_reply : String → Reply
secret_reply secret =
    write_json (object (field "type" (string "secret") (field "value" (string secret) end)))

abbrev pub on_secret : Method → String → String → Fields → Handler
on_secret get realm id rep = answer (secret_reply (text_at "secret" rep))
on_secret post realm id rep = λ s.
    let secret = "regenerated-" <> id in
    (
      secret_reply secret,
      record s { clients = put_inner realm id (insert "secret" (string secret) rep) s.clients },
    )
on_secret _ realm id rep = answer method_not_allowed

unfoldable pub client_secret : Method → String → String → Handler
client_secret method realm id s =
    on_found (Sets.get id (inner realm s.clients)) (on_secret method realm id) s

-- `defScope` or `optScope`
abbrev pub assigned_scopes : Bool → Server → Map (Map (List String))
assigned_scopes optional s = if optional then s.optional_scopes else s.default_scopes

abbrev pub with_assigned : Bool → Map (Map (List String)) → Server → Server
with_assigned true m s = record s { optional_scopes = m }
with_assigned false m s = record s { default_scopes = m }

-- `store[realm][id]`
abbrev pub ids_at : String → String → Map (Map (List String)) → List String
ids_at realm id m = elim (Sets.get id (inner realm m)) [ none ↦ [] | some ids ↦ ids ]

abbrev pub scope_ids : Bool → String → String → Server → List String
scope_ids optional realm id s = ids_at realm id (assigned_scopes optional s)

unfoldable pub scopes_with_ids : Map Fields → List String → List Fields
scopes_with_ids scopes [] = []
scopes_with_ids scopes (id ∷ ids) =
    let rest = scopes_with_ids scopes ids in
    elim (Sets.get id scopes) [ none ↦ rest | some rep ↦ rep ∷ rest ]

abbrev pub set_scope_ids : Bool → String → String → List String → Server → Server
set_scope_ids optional realm id ids s =
    with_assigned optional (put_inner realm id ids (assigned_scopes optional s)) s

-- The segments after `default-client-scopes` or `optional-client-scopes`. A removal writes into a
-- nil map if the realm has no assignment yet.
unfoldable pub scope_assignments : Method → Bool → String → String → List String → Handler
unfolding scopes_with_ids append_unique remove_value
scope_assignments get optional realm id sub s = (
  write_json (maps_value (scopes_with_ids (inner realm s.scopes) (scope_ids optional realm id s))),
  s,
)
scope_assignments put optional realm id [] s = (panicked, s)
scope_assignments put optional realm id (scope ∷ sub) s =
    if is_some (Sets.get scope (inner realm s.scopes))
    then (
      no_content,
      set_scope_ids optional realm id (append_unique (scope_ids optional realm id s) scope) s,
    )
    else (page_not_found, s)
scope_assignments delete optional realm id [] s = (page_not_found, s)
scope_assignments delete optional realm id (scope ∷ sub) s =
    if is_some (Sets.get realm (assigned_scopes optional s))
    then (
      no_content,
      set_scope_ids optional realm id (remove_value (scope_ids optional realm id s) scope) s,
    )
    else (panicked, s)
scope_assignments post optional realm id sub s = (method_not_allowed, s)

unfoldable pub client : Method → String → String → Option Text → Handler
unfolding decode_map merge
client method realm id body s =
    handle_rep method body (Sets.get id (inner realm s.clients))
      (λ rep s'. record s' { clients = put_inner realm id rep s'.clients })
      (λ s'. record s' { clients = change_inner realm (Sets.erase id) s'.clients }) s

abbrev pub is_last : List String → Bool
is_last [] = true
is_last (x ∷ sub) = false

-- What follows the id of a client. `unescape` is url.PathUnescape.
unfoldable pub client_part :
    (String → Option String) → Method → String → String → List String → Option Text → Handler
unfolding client_role seed_client_role client_secret scope_assignments client
client_part unescape method realm id [] body = client method realm id body
client_part unescape method realm id (part ∷ []) body =
    if part == "roles"
    then seed_client_role method realm id body
    else if part == "client-secret"
    then client_secret method realm id
    else if part == "default-client-scopes"
    then scope_assignments method false realm id []
    else if part == "optional-client-scopes"
    then scope_assignments method true realm id []
    else client method realm id body
client_part unescape method realm id (part ∷ x ∷ sub) body =
    if part == "roles" && is_last sub
    then client_role realm id (unescape x)
    else if part == "default-client-scopes"
    then scope_assignments method false realm id (x ∷ sub)
    else if part == "optional-client-scopes"
    then scope_assignments method true realm id (x ∷ sub)
    else client method realm id body

unfoldable pub handle_clients :
    (String → Option String) → Method → String → String → List String → Option Text → Handler
unfolding clients client_part
handle_clients unescape method realm client_id [] body =
    in_realm realm (clients method realm client_id body)
handle_clients unescape method realm client_id (id ∷ sub) body =
    in_realm realm (client_part unescape method realm id sub body)

-- ===== src/Keycloak/Fake/Realms.antt =====
-- fake/server.go: `createRealm`, `handleRealm`, and the answers that representations of every kind
-- share.
use keycloak_operator.Base.{String, Option, none, some, ◌==◌, is_some, if◌then◌else◌}
use keycloak_operator.Json.{string, object, Fields, insert}
use keycloak_operator.Json.Text.{Text}
use keycloak_operator.Platform.{Method, get, post, put, delete}
use keycloak_operator.Keycloak.Mappings.{text_at}
use keycloak_operator.Keycloak.Fake.State.{
  Server, Handler, answer, page_not_found, http_error, created, no_content, method_not_allowed,
  write_json, merge, on_payload, on_found, decode_map,
}
use keycloak_operator.Drivers.Sets

unfoldable pub create_realm : Option Text → Handler
unfolding decode_map
create_realm body = on_payload (decode_map body) λ payload s.
    let name = text_at "realm" payload in
    if name == ""
    then (http_error "realm name required" 400, s)
    else if is_some (Sets.get name s.realms)
    then (http_error "realm exists" 409, s)
    else (created, record s { realms = Sets.put name (insert "id" (string name) payload) s.realms })

unfoldable pub handle_realm : Method → String → Option Text → Handler
unfolding decode_map merge
handle_realm get realm body s =
    on_found (Sets.get realm s.realms) (λ rep. answer (write_json (object rep))) s
handle_realm put realm body s =
    on_payload (decode_map body)
      (λ payload. on_found (Sets.get realm s.realms) (λ rep s'.
        (no_content, record s' { realms = Sets.put realm (merge rep payload) s'.realms })))
      s
handle_realm delete realm body s =
    if is_some (Sets.get realm s.realms)
    then (no_content, record s { realms = Sets.erase realm s.realms })
    else (page_not_found, s)
handle_realm post realm body s = (method_not_allowed, s)

-- One representation of a kind in which `write` and `remove` change the state.
abbrev pub handle_rep :
    Method → Option Text → Option Fields → (Fields → Server → Server) → (Server → Server) → Handler
handle_rep method body none write remove = answer page_not_found
handle_rep get body (some rep) write remove = answer (write_json (object rep))
handle_rep put body (some rep) write remove =
    on_payload (decode_map body) (λ payload s. (no_content, write (merge rep payload) s))
handle_rep delete body (some rep) write remove = λ s. (no_content, remove s)
handle_rep post body (some rep) write remove = answer method_not_allowed

-- The check of the realm that comes before every other kind.
abbrev pub in_realm : String → Handler → Handler
in_realm realm handler s =
    if is_some (Sets.get realm s.realms) then handler s else (page_not_found, s)

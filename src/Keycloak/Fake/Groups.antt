-- ===== src/Keycloak/Fake/Groups.antt =====
-- fake/server.go: `handleGroups`. The role mappings have their lists per realm and per client, and
-- no overview: what else follows the id of a group is ignored.
use keycloak_operator.Base.{
  String, ◌<>◌, Bool, ◌&&◌, ◌||◌, Option, List, [], ◌∷◌, ◌==◌, if◌then◌else◌,
}
use keycloak_operator.Json.{string, Fields, insert}
use keycloak_operator.Json.Text.{Text}
use keycloak_operator.Platform.{Method, get, post, put, delete}
use keycloak_operator.Keycloak.Mappings.{text_at}
use keycloak_operator.Keycloak.Fake.State.{
  on_found, on_new, Server, Handler, answer, panicked, http_error, created, no_content,
  method_not_allowed, write_json, maps_value, is_text_at, inner, put_inner, change_inner, some_rep,
  marked, listed, on_new, on_payloads, decode_map, decode_maps, merge, append_unique_reps,
  remove_reps, unless_panic,
}
use keycloak_operator.Keycloak.Fake.Realms.{handle_rep, in_realm}
use keycloak_operator.Keycloak.Fake.Roles.{reps_or_nil}
use keycloak_operator.Drivers.Sets

-- `search == "" || rep["name"] == search`
abbrev is_searched : String → Fields → Bool
is_searched search rep = search == "" || is_text_at "name" search rep

unfoldable pub groups : Method → String → String → Option Text → Handler
unfolding decode_map
groups get realm search body s = (
  write_json (maps_value (listed (is_searched search) (inner realm s.groups))),
  record s { groups = change_inner realm (marked (is_searched search)) s.groups },
)
groups post realm search body s =
    on_new (decode_map body)
      (λ payload. some_rep (is_text_at "name" (text_at "name" payload)) (inner realm s.groups))
      (http_error "group exists" 409)
      (λ payload s'.
        let id = "group-" <> text_at "name" payload in
        (
          created,
          record s' { groups = put_inner realm id (insert "id" (string id) payload) s'.groups },
        ))
      s
groups _ realm search body s = (method_not_allowed, s)

-- A list of mappings, with the write of another in its place.
abbrev pub handle_mappings :
    Method → Option Text → List Fields → (List Fields → Server → Server) → Handler
handle_mappings get body current write = answer (write_json (maps_value current))
handle_mappings post body current write = on_payloads (decode_maps body) (λ reps.
    unless_panic (append_unique_reps current reps) (λ s. s)
      (λ reps' s. (no_content, write reps' s)))
handle_mappings delete body current write = on_payloads (decode_maps body) (λ reps.
    unless_panic (remove_reps current reps) (λ s. s) (λ reps' s. (no_content, write reps' s)))
handle_mappings put body current write = answer method_not_allowed

unfoldable pub group_realm_mappings : Method → String → String → Option Text → Handler
unfolding decode_maps append_unique_reps remove_reps
group_realm_mappings method realm id body s =
    handle_mappings method body (reps_or_nil (Sets.get id (inner realm s.group_realm_roles)))
      (λ reps s'. record s' { group_realm_roles = put_inner realm id reps s'.group_realm_roles }) s

unfoldable pub group_client_mappings : Method → String → String → String → Option Text → Handler
unfolding decode_maps append_unique_reps remove_reps
group_client_mappings method realm id uuid body s =
    handle_mappings method body
      (reps_or_nil (Sets.get uuid (inner id (inner realm s.group_client_roles))))
      (λ reps s'. record s' {
        group_client_roles =
            put_inner realm id (Sets.put uuid reps (inner id (inner realm s'.group_client_roles)))
              s'.group_client_roles;
      })
      s

unfoldable pub group : Method → String → String → Option Text → Handler
unfolding decode_map merge
group method realm id body s =
    handle_rep method body (Sets.get id (inner realm s.groups))
      (λ rep s'. record s' { groups = put_inner realm id rep s'.groups })
      (λ s'. record s' { groups = change_inner realm (Sets.erase id) s'.groups }) s

-- The segment at which the client of the mappings is read.
abbrev pub mappings_of_client : Method → String → String → List String → Option Text → Handler
mappings_of_client method realm id [] body = answer panicked
mappings_of_client method realm id (uuid ∷ sub) body =
    group_client_mappings method realm id uuid body

-- What follows the id of a group.
unfoldable pub group_part : Method → String → String → List String → Option Text → Handler
unfolding group_realm_mappings group_client_mappings group
group_part method realm id (part ∷ which ∷ sub) body s =
    (if part == "role-mappings" && (which == "realm" || which == "clients")
        then on_found (Sets.get id (inner realm s.groups)) (λ rep.
          if which == "realm"
          then group_realm_mappings method realm id body
          else mappings_of_client method realm id sub body)
        else group method realm id body)
      s
group_part method realm id _ body s = group method realm id body s

unfoldable pub handle_groups : Method → String → String → List String → Option Text → Handler
unfolding groups group_part
handle_groups method realm search [] body = in_realm realm (groups method realm search body)
handle_groups method realm search (id ∷ sub) body =
    in_realm realm (group_part method realm id sub body)

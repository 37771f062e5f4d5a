-- ===== src/Keycloak/Fake/Scopes.antt =====
-- fake/server.go: `handleClientScopes`.
use keycloak_operator.Base.{String, ◌<>◌, Bool, true, Option, List, [], ◌∷◌}
use keycloak_operator.Json.{string, Fields, insert}
use keycloak_operator.Json.Text.{Text}
use keycloak_operator.Platform.{Method, get, post}
use keycloak_operator.Keycloak.Mappings.{text_at}
use keycloak_operator.Keycloak.Fake.State.{
  Handler, http_error, created, method_not_allowed, write_json, maps_value, is_text_at, inner,
  put_inner, change_inner, some_rep, marked, listed, on_new, decode_map, merge,
}
use keycloak_operator.Keycloak.Fake.Realms.{handle_rep, in_realm}
use keycloak_operator.Drivers.Sets

abbrev every : Fields → Bool
every rep = true

unfoldable pub client_scopes : Method → String → Option Text → Handler
unfolding decode_map
client_scopes get realm body s = (
  write_json (maps_value (listed every (inner realm s.scopes))),
  record s { scopes = change_inner realm (marked every) s.scopes },
)
client_scopes post realm body s =
    on_new (decode_map body)
      (λ payload. some_rep (is_text_at "name" (text_at "name" payload)) (inner realm s.scopes))
      (http_error "scope exists" 409)
      (λ payload s'.
        let id = "scope-" <> text_at "name" payload in
        (
          created,
          record s' { scopes = put_inner realm id (insert "id" (string id) payload) s'.scopes },
        ))
      s
client_scopes _ realm body s = (method_not_allowed, s)

unfoldable pub client_scope : Method → String → String → Option Text → Handler
unfolding decode_map merge
client_scope method realm id body s =
    handle_rep method body (Sets.get id (inner realm s.scopes))
      (λ rep s'. record s' { scopes = put_inner realm id rep s'.scopes })
      (λ s'. record s' { scopes = change_inner realm (Sets.erase id) s'.scopes }) s

unfoldable pub handle_client_scopes : Method → String → List String → Option Text → Handler
unfolding client_scopes client_scope
handle_client_scopes method realm [] body = in_realm realm (client_scopes method realm body)
handle_client_scopes method realm (id ∷ sub) body =
    in_realm realm (client_scope method realm id body)

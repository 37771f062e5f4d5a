-- ===== src/Keycloak/Fake/Providers.antt =====
-- fake/server.go: `handleIdentityProviders`. It has no mappers: what follows an alias is ignored. A
-- nil map, which a body of null leaves, is stored as an empty one.
use keycloak_operator.Base.{String, Option, List, [], ◌∷◌, is_some, if◌then◌else◌}
use keycloak_operator.Json.Text.{Text}
use keycloak_operator.Platform.{Method, post}
use keycloak_operator.Keycloak.Mappings.{text_at}
use keycloak_operator.Keycloak.Fake.State.{
  Handler, http_error, created, method_not_allowed, inner, put_inner, change_inner, on_payload,
  decode_map, merge,
}
use keycloak_operator.Keycloak.Fake.Realms.{handle_rep, in_realm}
use keycloak_operator.Drivers.Sets

-- A body of null is stored as an empty map. The source stores a nil one, which it answers as null and
-- at which a later PUT panics.
unfoldable pub identity_providers : Method → String → Option Text → Handler
unfolding decode_map
identity_providers post realm body = on_payload (decode_map body) λ payload s.
    let alias = text_at "alias" payload in
    if is_some (Sets.get alias (inner realm s.idps))
    then (http_error "idp exists" 409, s)
    else (created, record s { idps = put_inner realm alias payload s.idps })
identity_providers _ realm body = λ s. (method_not_allowed, s)

unfoldable pub identity_provider : Method → String → String → Option Text → Handler
unfolding decode_map merge
identity_provider method realm alias body s =
    handle_rep method body (Sets.get alias (inner realm s.idps))
      (λ rep s'. record s' { idps = put_inner realm alias rep s'.idps })
      (λ s'. record s' { idps = change_inner realm (Sets.erase alias) s'.idps }) s

unfoldable pub handle_identity_providers : Method → String → List String → Option Text → Handler
unfolding identity_providers identity_provider
handle_identity_providers method realm [] body =
    in_realm realm (identity_providers method realm body)
handle_identity_providers method realm (alias ∷ sub) body =
    in_realm realm (identity_provider method realm alias body)

-- ===== src/Keycloak/Fake/Roles.antt =====
-- fake/server.go: `handleRoles`.
use keycloak_operator.Base.{
  String, ◌<>◌, true, Option, none, some, List, [], ◌∷◌, ◌==◌, is_some, if◌then◌else◌,
}
use keycloak_operator.Json.{boolean, string, object, Fields, lookup, insert}
use keycloak_operator.Json.Text.{Text}
use keycloak_operator.Platform.{Method, get, post, put, delete}
use keycloak_operator.Keycloak.Mappings.{text_at}
use keycloak_operator.Keycloak.Fake.State.{
  on_found, on_new, Role, Server, Handler, answer, http_error, created, no_content,
  method_not_allowed, write_json, maps_value, inner, put_inner, change_inner, on_payload, on_found,
  on_payloads, decode_map, decode_maps, merge, append_unique_reps, remove_reps, unless_panic,
}
use keycloak_operator.Keycloak.Fake.Realms.{in_realm}
use keycloak_operator.Drivers.Sets

-- The representation as it is encoded.
unfoldable pub role_fields : Role → Fields
unfolding insert
role_fields role = elim role.composites [
  | none ↦ role.rep
  | some reps ↦ insert "composites" (maps_value reps) role.rep
]

unfoldable pub merge_role : Role → Fields → Role
unfolding lookup merge
merge_role role payload = record {
  rep = merge role.rep payload;
  composites = if is_some (lookup "composites" payload) then none else role.composites;
}

abbrev pub reps_or_nil : Option (List Fields) → List Fields
reps_or_nil none = []
reps_or_nil (some reps) = reps

abbrev pub set_role : String → String → Role → Server → Server
set_role realm name role s = record s { roles = put_inner realm name role s.roles }

unfoldable pub roles : Method → String → Option Text → Handler
unfolding decode_map
roles post realm body s =
    on_new (decode_map body)
      (λ payload. is_some (Sets.get (text_at "name" payload) (inner realm s.roles)))
      (http_error "role exists" 409)
      (λ payload s'.
        let name = text_at "name" payload in
        (
          created,
          set_role realm name
              (record { rep = insert "id" (string ("role-" <> name)) payload; composites = none })
              s',
        ))
      s
roles _ realm body s = (method_not_allowed, s)

abbrev pub on_composites : Method → String → String → Option Text → Role → Handler
on_composites get realm name body role =
    answer (write_json (maps_value (reps_or_nil role.composites)))
on_composites post realm name body role = on_payloads (decode_maps body) (λ reps.
    let marked = record role { rep = insert "composite" (boolean true) role.rep } in
    unless_panic (append_unique_reps (reps_or_nil role.composites) reps)
      (set_role realm name marked)
      (λ reps' s. (no_content, set_role realm name (record marked { composites = some reps' }) s)))
on_composites delete realm name body role = on_payloads (decode_maps body) (λ reps.
    unless_panic (remove_reps (reps_or_nil role.composites) reps) (λ s. s)
      (λ reps' s. (no_content, set_role realm name (record role { composites = some reps' }) s)))
on_composites put realm name body role = answer method_not_allowed

unfoldable pub role_composites : Method → String → String → Option Text → Handler
unfolding decode_maps append_unique_reps remove_reps
role_composites method realm name body s =
    on_found (Sets.get name (inner realm s.roles)) (on_composites method realm name body) s

abbrev pub on_role : Method → String → String → Option Text → Role → Handler
on_role get realm name body found = answer (write_json (object (role_fields found)))
on_role put realm name body found =
    on_payload (decode_map body)
      (λ payload s. (no_content, set_role realm name (merge_role found payload) s))
on_role delete realm name body found =
    λ s. (no_content, record s { roles = change_inner realm (Sets.erase name) s.roles })
on_role post realm name body found = answer method_not_allowed

unfoldable pub role : Method → String → String → Option Text → Handler
unfolding role_fields merge_role decode_map
role method realm name body s =
    on_found (Sets.get name (inner realm s.roles)) (on_role method realm name body) s

-- What follows the name of a role.
unfoldable pub role_part : Method → String → String → List String → Option Text → Handler
unfolding role_composites role
role_part method realm name (part ∷ []) body =
    if part == "composites"
    then role_composites method realm name body
    else role method realm name body
role_part method realm name _ body = role method realm name body

unfoldable pub handle_roles : Method → String → List String → Option Text → Handler
unfolding roles role_part
handle_roles method realm [] body = in_realm realm (roles method realm body)
handle_roles method realm (name ∷ sub) body = in_realm realm (role_part method realm name sub body)

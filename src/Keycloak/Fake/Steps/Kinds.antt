-- ===== src/Keycloak/Fake/Steps/Kinds.antt =====
-- The handlers of the other kinds of resources make steps.
use keycloak_operator.Base.{String, ◌==◌, ◌&&◌, ◌||◌, Option, List, [], ◌∷◌, refl, is_some}
use keycloak_operator.Json.{Fields}
use keycloak_operator.Json.Text.{Text}
use keycloak_operator.Platform.{Method, get, post, put, delete}
use keycloak_operator.Keycloak.Mappings.{text_at}
use keycloak_operator.Keycloak.Fake.State.{
  Role, Server, panicked, decode_map, decode_maps, inner, created, no_content, method_not_allowed,
  write_json, maps_value,
}
use keycloak_operator.Keycloak.Fake.Scopes.{client_scopes, client_scope}
use keycloak_operator.Keycloak.Fake.Roles.{
  roles, role_composites, role, on_composites, on_role, role_part,
}
use keycloak_operator.Keycloak.Fake.Providers.{identity_providers, identity_provider}
use keycloak_operator.Keycloak.Fake.Groups.{
  groups, handle_mappings, group_realm_mappings, group_client_mappings, group, group_part,
  mappings_of_client,
}
use keycloak_operator.Keycloak.Fake.Steps.{
  Step, unchanged, scopes_written, roles_written, idps_written, groups_written,
  group_realm_roles_written, group_client_roles_written, Steps, answer-Steps, handle_rep-Steps,
  if-Steps, if-Step, on_found-Steps, on_payload-Steps, on_new-Steps, on_payloads-Steps,
  unless_panic-Steps, if_written-Step,
}
use keycloak_operator.Drivers.Sets

module _ (realm : String) where
  pub client_scopes-Steps :
      (method : Method) (body : Option Text) → Steps realm (client_scopes method realm body)
  unfolding client_scopes
  client_scopes-Steps get body s =
      if_written-Step realm (is_some (Sets.get realm s.scopes)) s _ (λ m. record s { scopes = m }) _
        _ (scopes_written _ _ refl) (unchanged _ refl)
  client_scopes-Steps post body s =
      on_new-Steps realm (decode_map body) _ _ _ refl (λ m s'. scopes_written created _ refl) s
  client_scopes-Steps put body s = unchanged method_not_allowed refl
  client_scopes-Steps delete body s = unchanged method_not_allowed refl

  pub client_scope-Steps :
      (method : Method) (id : String) (body : Option Text)
      → Steps realm (client_scope method realm id body)
  unfolding client_scope
  client_scope-Steps method id body s =
      handle_rep-Steps realm method body _ _ _ (λ rep s'. scopes_written no_content _ refl)
        (λ s'.
          if_written-Step realm (is_some (Sets.get realm s'.scopes)) s' _
            (λ m. record s' { scopes = m }) _ _ (scopes_written _ _ refl) (unchanged _ refl))
        s

  pub roles-Steps : (method : Method) (body : Option Text) → Steps realm (roles method realm body)
  unfolding roles
  roles-Steps post body s =
      on_new-Steps realm (decode_map body) _ _ _ refl (λ m s'. roles_written created _ refl) s
  roles-Steps get body s = unchanged method_not_allowed refl
  roles-Steps put body s = unchanged method_not_allowed refl
  roles-Steps delete body s = unchanged method_not_allowed refl

  on_composites-Steps :
      (method : Method) (name : String) (body : Option Text) (found : Role)
      → Steps realm (on_composites method realm name body found)
  on_composites-Steps get name body found = answer-Steps realm (_) refl
  on_composites-Steps post name body found = on_payloads-Steps realm (decode_maps body) _ (λ reps.
      unless_panic-Steps realm _ _ _ (λ s. roles_written panicked _ refl)
        (λ l s. roles_written no_content _ refl))
  on_composites-Steps delete name body found = on_payloads-Steps realm (decode_maps body) _ (λ reps.
      unless_panic-Steps realm _ _ _ (answer-Steps realm panicked refl)
        (λ l s. roles_written no_content _ refl))
  on_composites-Steps put name body found = answer-Steps realm (method_not_allowed) refl

  on_role-Steps :
      (method : Method) (name : String) (body : Option Text) (found : Role)
      → Steps realm (on_role method realm name body found)
  on_role-Steps get name body found = answer-Steps realm (_) refl
  on_role-Steps put name body found =
      on_payload-Steps realm (decode_map body) _ (λ m s. roles_written no_content _ refl)
  on_role-Steps delete name body found = λ s.
      if_written-Step realm (is_some (Sets.get realm s.roles)) s _ (λ m. record s { roles = m }) _ _
        (roles_written no_content _ refl) (unchanged _ refl)
  on_role-Steps post name body found = answer-Steps realm (method_not_allowed) refl

  role_composites-Steps :
      (method : Method) (name : String) (body : Option Text)
      → Steps realm (role_composites method realm name body)
  unfolding role_composites
  role_composites-Steps method name body s =
      on_found-Steps realm (Sets.get name (inner realm s.roles)) _
        (on_composites-Steps method name body) s

  role-Steps :
      (method : Method) (name : String) (body : Option Text)
      → Steps realm (role method realm name body)
  unfolding role
  role-Steps method name body s =
      on_found-Steps realm (Sets.get name (inner realm s.roles)) _ (on_role-Steps method name body)
        s

  pub role_part-Steps :
      (method : Method) (name : String) (sub : List String) (body : Option Text)
      → Steps realm (role_part method realm name sub body)
  unfolding role_part
  role_part-Steps method name [] body = role-Steps method name body
  role_part-Steps method name (part ∷ []) body =
      if-Steps realm (part == "composites") _ _ (role_composites-Steps method name body)
        (role-Steps method name body)
  role_part-Steps method name (part ∷ x ∷ sub) body = role-Steps method name body

  pub identity_providers-Steps :
      (method : Method) (body : Option Text) → Steps realm (identity_providers method realm body)
  unfolding identity_providers
  identity_providers-Steps post body = on_payload-Steps realm (decode_map body) _ (λ m s.
      if-Step realm (is_some (Sets.get (text_at "alias" m) (inner realm s.idps))) s _ _
        (unchanged _ refl) (idps_written created _ refl))
  identity_providers-Steps get body = answer-Steps realm (method_not_allowed) refl
  identity_providers-Steps put body = answer-Steps realm (method_not_allowed) refl
  identity_providers-Steps delete body = answer-Steps realm (method_not_allowed) refl

  pub identity_provider-Steps :
      (method : Method) (alias : String) (body : Option Text)
      → Steps realm (identity_provider method realm alias body)
  unfolding identity_provider
  identity_provider-Steps method alias body s =
      handle_rep-Steps realm method body _ _ _ (λ rep s'. idps_written no_content _ refl)
        (λ s'.
          if_written-Step realm (is_some (Sets.get realm s'.idps)) s' _
            (λ m. record s' { idps = m }) _ _ (idps_written _ _ refl) (unchanged _ refl))
        s

  pub groups-Steps :
      (method : Method) (search : String) (body : Option Text)
      → Steps realm (groups method realm search body)
  unfolding groups
  groups-Steps get search body s =
      if_written-Step realm (is_some (Sets.get realm s.groups)) s _ (λ m. record s { groups = m }) _
        _ (groups_written _ _ refl) (unchanged _ refl)
  groups-Steps post search body s =
      on_new-Steps realm (decode_map body) _ _ _ refl (λ m s'. groups_written created _ refl) s
  groups-Steps put search body s = unchanged method_not_allowed refl
  groups-Steps delete search body s = unchanged method_not_allowed refl

  handle_mappings-Steps :
      (method : Method) (body : Option Text) (current : List Fields)
      (write : List Fields → Server → Server)
      → ((reps : List Fields) (s : Server) → Step realm s no_content (write reps s))
      → Steps realm (handle_mappings method body current write)
  handle_mappings-Steps get body current write h =
      answer-Steps realm (write_json (maps_value current)) refl
  handle_mappings-Steps post body current write h =
      on_payloads-Steps realm (decode_maps body) _
        (λ reps. unless_panic-Steps realm _ _ _ (answer-Steps realm panicked refl) h)
  handle_mappings-Steps delete body current write h =
      on_payloads-Steps realm (decode_maps body) _
        (λ reps. unless_panic-Steps realm _ _ _ (answer-Steps realm panicked refl) h)
  handle_mappings-Steps put body current write h = answer-Steps realm (method_not_allowed) refl

  group_realm_mappings-Steps :
      (method : Method) (id : String) (body : Option Text)
      → Steps realm (group_realm_mappings method realm id body)
  unfolding group_realm_mappings
  group_realm_mappings-Steps method id body s =
      handle_mappings-Steps method body _ _ (λ reps s'. group_realm_roles_written no_content _ refl)
        s

  mappings_of_client-Steps :
      (method : Method) (id : String) (sub : List String) (body : Option Text)
      → Steps realm (mappings_of_client method realm id sub body)
  unfolding group_client_mappings
  mappings_of_client-Steps method id [] body s = unchanged panicked refl
  mappings_of_client-Steps method id (uuid ∷ sub) body s =
      handle_mappings-Steps method body _ _
        (λ reps s'. group_client_roles_written no_content _ refl) s

  group-Steps :
      (method : Method) (id : String) (body : Option Text)
      → Steps realm (group method realm id body)
  unfolding group
  group-Steps method id body s =
      handle_rep-Steps realm method body _ _ _ (λ rep s'. groups_written no_content _ refl)
        (λ s'.
          if_written-Step realm (is_some (Sets.get realm s'.groups)) s' _
            (λ m. record s' { groups = m }) _ _ (groups_written _ _ refl) (unchanged _ refl))
        s

  pub group_part-Steps :
      (method : Method) (id : String) (sub : List String) (body : Option Text)
      → Steps realm (group_part method realm id sub body)
  unfolding group_part
  group_part-Steps method id [] body = group-Steps method id body
  group_part-Steps method id (part ∷ []) body = group-Steps method id body
  group_part-Steps method id (part ∷ which ∷ sub) body = λ s.
      if-Steps realm (part == "role-mappings" && (which == "realm" || which == "clients")) _ _
        (on_found-Steps realm (Sets.get id (inner realm s.groups)) _ (λ rep.
          if-Steps realm (which == "realm") _ _ (group_realm_mappings-Steps method id body)
            (mappings_of_client-Steps method id sub body)))
        (group-Steps method id body) s

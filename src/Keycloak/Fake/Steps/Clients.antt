-- ===== src/Keycloak/Fake/Steps/Clients.antt =====
-- The handlers of realms and of clients make steps.
use keycloak_operator.Base.{
  String, ◌==◌, Bool, Option, none, some, List, [], ◌∷◌, refl, is_some, Bool-cases, inl, inr,
}
use keycloak_operator.Json.{Fields}
use keycloak_operator.Json.Text.{Text}
use keycloak_operator.Platform.{Method, get, post, put, delete}
use keycloak_operator.Keycloak.Mappings.{text_at}
use keycloak_operator.Keycloak.Fake.State.{
  panicked, decode_map, inner, created, no_content, page_not_found, method_not_allowed, some_rep,
  is_text_at,
}
use keycloak_operator.Keycloak.Fake.Realms.{handle_realm}
use keycloak_operator.Keycloak.Fake.Clients.{
  clients, client_role, seed_client_role, client_secret, scope_assignments, client, on_secret,
}
use keycloak_operator.Keycloak.Fake.Steps.{
  unchanged, realm_written, realm_deleted, clients_written, client_roles_written, scope_assigned,
  scope_unassigned, Steps, answer-Steps, handle_rep-Steps, if-Step, on_found-Steps,
  on_payload-Steps, on_new-Steps, if_written-Step,
}
use keycloak_operator.Drivers.Sets

pub handle_realm-Steps :
    (realm : String) (method : Method) (body : Option Text)
    → Steps realm (handle_realm method realm body)
unfolding handle_realm
handle_realm-Steps realm get body s =
    on_found-Steps realm (Sets.get realm s.realms) _ (λ rep. answer-Steps realm _ refl) s
handle_realm-Steps realm put body s =
    on_payload-Steps realm (decode_map body) _
      (λ m.
        on_found-Steps realm (Sets.get realm s.realms) _
          (λ rep s'. realm_written no_content _ refl))
      s
handle_realm-Steps realm delete body s =
    if-Step realm (is_some (Sets.get realm s.realms)) s _ _ realm_deleted
      (unchanged page_not_found refl)
handle_realm-Steps realm post body s = unchanged method_not_allowed refl

module _ (realm : String) where
  pub clients-Steps :
      (method : Method) (asked : String) (body : Option Text)
      → Steps realm (clients method realm asked body)
  unfolding clients
  clients-Steps get asked body s =
      if_written-Step realm (is_some (Sets.get realm s.clients)) s _ (λ m. record s { clients = m })
        _ _ (clients_written _ _ refl) (unchanged _ refl)
  clients-Steps post asked body s =
      on_payload-Steps realm (decode_map body) _
        (λ m s'. if-Step realm (text_at "clientId" m == "") s' _ _ (unchanged _ refl) (
          if-Step realm
            (some_rep (is_text_at "clientId" (text_at "clientId" m)) (inner realm s'.clients)) s' _
            _ (unchanged _ refl) (clients_written created _ refl)))
        s
  clients-Steps put asked body s = unchanged method_not_allowed refl
  clients-Steps delete asked body s = unchanged method_not_allowed refl

  pub client_role-Steps :
      (id : String) (name : Option String) → Steps realm (client_role realm id name)
  unfolding client_role
  client_role-Steps id none s = unchanged page_not_found refl
  client_role-Steps id (some name) s =
      on_found-Steps realm (Sets.get name (inner id (inner realm s.client_roles))) _
        (λ rep. answer-Steps realm _ refl) s

  pub seed_client_role-Steps :
      (method : Method) (id : String) (body : Option Text)
      → Steps realm (seed_client_role method realm id body)
  unfolding seed_client_role
  seed_client_role-Steps post id body =
      on_new-Steps realm (decode_map body) _ _ _ refl (λ m s. client_roles_written created _ refl)
  seed_client_role-Steps get id body = answer-Steps realm method_not_allowed refl
  seed_client_role-Steps put id body = answer-Steps realm method_not_allowed refl
  seed_client_role-Steps delete id body = answer-Steps realm method_not_allowed refl

  on_secret-Steps :
      (method : Method) (id : String) (rep : Fields) → Steps realm (on_secret method realm id rep)
  on_secret-Steps get id rep s = unchanged _ refl
  on_secret-Steps post id rep s = clients_written _ _ refl
  on_secret-Steps put id rep s = unchanged method_not_allowed refl
  on_secret-Steps delete id rep s = unchanged method_not_allowed refl

  pub client_secret-Steps :
      (method : Method) (id : String) → Steps realm (client_secret method realm id)
  unfolding client_secret
  client_secret-Steps method id s =
      on_found-Steps realm (Sets.get id (inner realm s.clients)) _ (on_secret-Steps method id) s

  pub client-Steps :
      (method : Method) (id : String) (body : Option Text)
      → Steps realm (client method realm id body)
  unfolding client
  client-Steps method id body s =
      handle_rep-Steps realm method body _ _ _ (λ rep s'. clients_written no_content _ refl)
        (λ s'.
          if_written-Step realm (is_some (Sets.get realm s'.clients)) s' _
            (λ m. record s' { clients = m }) _ _ (clients_written _ _ refl) (unchanged _ refl))
        s

  pub scope_assignments-Steps :
      (method : Method) (optional : Bool) (id : String) (sub : List String)
      → Steps realm (scope_assignments method optional realm id sub)
  unfolding scope_assignments
  scope_assignments-Steps get optional id sub s = unchanged _ refl
  scope_assignments-Steps put optional id [] s = unchanged panicked refl
  scope_assignments-Steps put optional id (scope ∷ sub) s =
      elim (Bool-cases (is_some (Sets.get scope (inner realm s.scopes)))) [
        | inl e ↦ rw e (scope_assigned optional id scope e)
        | inr e ↦ rw e (unchanged page_not_found refl)
      ]
  scope_assignments-Steps delete optional id [] s = unchanged page_not_found refl
  scope_assignments-Steps delete optional id (scope ∷ sub) s =
      if-Step realm _ s _ _ (scope_unassigned optional id scope) (unchanged panicked refl)
  scope_assignments-Steps post optional id sub s = unchanged method_not_allowed refl

-- ===== src/Keycloak/Fake/Steps/Realms.antt =====
-- What steps leave alone: the other realms.
use keycloak_operator.Base.{String, true, false, Option, List, ◌≡◌, refl, ◌==◌}
use keycloak_operator.Json.{Fields}
use keycloak_operator.Json.Text.{Text}
use keycloak_operator.Platform.{Method}
use keycloak_operator.Keycloak.Fake.State.{
  Map, Role, Server, Reply, inner, append_unique, remove_value,
}
use keycloak_operator.Keycloak.Fake.Clients.{scope_ids}
use keycloak_operator.Keycloak.Fake.Router.{Net, handle_resource}
use keycloak_operator.Keycloak.Fake.Steps.{
  Step, unchanged, realm_written, realm_deleted, clients_written, scopes_written, roles_written,
  client_roles_written, idps_written, groups_written, group_realm_roles_written,
  group_client_roles_written, scope_assigned, scope_unassigned,
}
use keycloak_operator.Keycloak.Fake.Steps.Routes.{handle_resource-Steps}
use keycloak_operator.Drivers.Sets

-- All that the server holds of a realm.
pub record View : Type 0 where
  pub realm : Option Fields
  pub clients : Option (Map Fields)
  pub scopes : Option (Map Fields)
  pub roles : Option (Map Role)
  pub client_roles : Option (Map (Map Fields))
  pub idps : Option (Map Fields)
  pub groups : Option (Map Fields)
  pub group_realm_roles : Option (Map (List Fields))
  pub group_client_roles : Option (Map (Map (List Fields)))
  pub default_scopes : Option (Map (List String))
  pub optional_scopes : Option (Map (List String))

abbrev pub view : String → Server → View
view k s = record {
  realm = Sets.get k s.realms;
  clients = Sets.get k s.clients;
  scopes = Sets.get k s.scopes;
  roles = Sets.get k s.roles;
  client_roles = Sets.get k s.client_roles;
  idps = Sets.get k s.idps;
  groups = Sets.get k s.groups;
  group_realm_roles = Sets.get k s.group_realm_roles;
  group_client_roles = Sets.get k s.group_client_roles;
  default_scopes = Sets.get k s.default_scopes;
  optional_scopes = Sets.get k s.optional_scopes;
}

module _ (realm other : String) (differs : (realm == other) ≡ false) where
  put_elsewhere {ℓ} :
      {A : Type ℓ} (a : A) (m : Map A) → Sets.get other (Sets.put realm a m) ≡ Sets.get other m
  put_elsewhere a m = rw (Sets.get-put realm other a m, differs)

  erase_elsewhere {ℓ} :
      {A : Type ℓ} (m : Map A) → Sets.get other (Sets.erase realm m) ≡ Sets.get other m
  erase_elsewhere m = rw (Sets.get-erase realm other m, differs)

  -- A step at one realm leaves what the server holds of another as it was.
  view-Step :
      (s : Server) {r : Reply} {s' : Server} → Step realm s r s' → view other s' ≡ view other s
  view-Step s (unchanged r e) = refl
  view-Step s (realm_written r rep e) = rw (put_elsewhere rep s.realms)
  view-Step s realm_deleted = rw (erase_elsewhere s.realms)
  view-Step s (clients_written r m e) = rw (put_elsewhere m s.clients)
  view-Step s (scopes_written r m e) = rw (put_elsewhere m s.scopes)
  view-Step s (roles_written r m e) = rw (put_elsewhere m s.roles)
  view-Step s (client_roles_written r m e) = rw (put_elsewhere m s.client_roles)
  view-Step s (idps_written r m e) = rw (put_elsewhere m s.idps)
  view-Step s (groups_written r m e) = rw (put_elsewhere m s.groups)
  view-Step s (group_realm_roles_written r m e) = rw (put_elsewhere m s.group_realm_roles)
  view-Step s (group_client_roles_written r m e) = rw (put_elsewhere m s.group_client_roles)
  view-Step s (scope_assigned true id scope e) = rw (
      put_elsewhere
        (Sets.put id (append_unique (scope_ids true realm id s) scope)
          (inner realm s.optional_scopes))
        s.optional_scopes)
  view-Step s (scope_assigned false id scope e) = rw (
      put_elsewhere
        (Sets.put id (append_unique (scope_ids false realm id s) scope)
          (inner realm s.default_scopes))
        s.default_scopes)
  view-Step s (scope_unassigned true id scope) = rw (
      put_elsewhere
        (Sets.put id (remove_value (scope_ids true realm id s) scope)
          (inner realm s.optional_scopes))
        s.optional_scopes)
  view-Step s (scope_unassigned false id scope) = rw (
      put_elsewhere
        (Sets.put id (remove_value (scope_ids false realm id s) scope)
          (inner realm s.default_scopes))
        s.default_scopes)

-- The server keeps realms apart: a request for one realm, whatever its method, path, query and
-- body, leaves everything that the server holds of a realm of another name as it was.
pub other_realms_untouched :
    (net : Net) (method : Method) (query : String → String) (realm other : String)
    (sub : List String) (body : Option Text) (s : Server)
    → (realm == other) ≡ false
    → view other (handle_resource net method query realm sub body s).1 ≡ view other s
other_realms_untouched net method query realm other sub body s differs =
    view-Step realm other differs s (handle_resource-Steps realm net method query sub body s)

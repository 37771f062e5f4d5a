-- ===== src/Keycloak/Fake/Updates.antt =====
-- The corrections of the operator to realms, identity providers and groups, which it reads and
-- writes at one path, through the client, the router and the server.
use keycloak_operator.Base.{
  String, ◌<>◌, true, Option, none, some, List, [], ◌∷◌, ◌≡◌, ◌∙◌, arith, eq_refl, is_some,
}
use keycloak_operator.Json.{object, Fields, IsWellFields}
use keycloak_operator.Json.Text.{marshal, sort_fields}
use keycloak_operator.World.{Op}
use keycloak_operator.Platform.{Admin, get, put}
use keycloak_operator.Keycloak.Resources.{get_realm, update_realm, realm_path}
use keycloak_operator.Keycloak.Mappings.{
  get_identity_provider, update_identity_provider, get_group, update_group,
}
use keycloak_operator.Keycloak.Escape.{path_escape}
use keycloak_operator.Keycloak.Fake.State.{Server, inner, put_inner, no_content, write_json, merge}
use keycloak_operator.Keycloak.Fake.Router.{Net, handle_resource}
use keycloak_operator.Keycloak.Fake.Providers.{handle_identity_providers, identity_provider}
use keycloak_operator.Keycloak.Fake.Groups.{handle_groups, group_part, group}
use keycloak_operator.Keycloak.Fake.Bodies.{decode_map-marshal}
use keycloak_operator.Keycloak.Fake.RealmWrites.{put_realm, get_found}
use keycloak_operator.Drivers.Sets

-- The kinds whose resources the operator reads and writes at one path.
pub data Kind : Type 0 where
  realm_kind provider_kind group_kind : Kind

-- The segments after the realm, and the path.
abbrev pub segments : Kind → String → List String
segments realm_kind id = []
segments provider_kind id = "identity-provider" ∷ "instances" ∷ id ∷ []
segments group_kind id = "groups" ∷ id ∷ []

abbrev pub path_of : Kind → String → String → String
path_of realm_kind realm id = realm_path realm
path_of provider_kind realm id =
    realm_path realm <> "/identity-provider/instances/" <> path_escape id
path_of group_kind realm id = realm_path realm <> "/groups/" <> path_escape id

-- What the server holds, and the server with another representation in its place.
abbrev pub stored : Kind → String → String → Server → Option Fields
stored realm_kind realm id s = Sets.get realm s.realms
stored provider_kind realm id s = Sets.get id (inner realm s.idps)
stored group_kind realm id s = Sets.get id (inner realm s.groups)

abbrev pub store : Kind → String → String → Fields → Server → Server
store realm_kind realm id rep s = record s { realms = Sets.put realm rep s.realms }
store provider_kind realm id rep s = record s { idps = put_inner realm id rep s.idps }
store group_kind realm id rep s = record s { groups = put_inner realm id rep s.groups }

module _ {W : Type 0} (kc : Admin W) where
  -- The functions of resources.go for a kind.
  abbrev pub read : Kind → String → String → Op W Fields
  read realm_kind realm id = get_realm kc realm
  read provider_kind realm id = get_identity_provider kc realm id
  read group_kind realm id = get_group kc realm id

  abbrev pub update : Kind → String → String → Fields → Op W (Unit {0})
  update realm_kind realm id payload = update_realm kc realm payload
  update provider_kind realm id payload = update_identity_provider kc realm id payload
  update group_kind realm id payload = update_group kc realm id payload

module _ (net : Net) (query : String → String) (realm id : String) where
  pub put-stored :
      (kind : Kind) (payload rep : Fields) (s : Server)
      → IsWellFields payload
      → is_some (Sets.get realm s.realms) ≡ true
      → stored kind realm id s ≡ some rep
      → handle_resource net put query realm (segments kind id) (some (marshal (object payload))) s
        ≡ (no_content, store kind realm id (merge rep (sort_fields payload)) s)
  unfolding handle_resource handle_identity_providers identity_provider handle_groups group_part
      group
  put-stored realm_kind payload rep s w there e = put_realm realm payload rep s w e
  put-stored provider_kind payload rep s w there e = rw (there, e, decode_map-marshal payload w)
  put-stored group_kind payload rep s w there e = rw (there, e, decode_map-marshal payload w)

  pub get-stored :
      (kind : Kind) (rep : Fields) (s : Server)
      → is_some (Sets.get realm s.realms) ≡ true
      → stored kind realm id s ≡ some rep
      → handle_resource net get query realm (segments kind id) none s ≡ (write_json (object rep), s)
  unfolding handle_resource handle_identity_providers identity_provider handle_groups group_part
      group
  get-stored realm_kind rep s there e = get_found realm rep s e
  get-stored provider_kind rep s there e = rw (there, e)
  get-stored group_kind rep s there e = rw (there, e)

pub stored-store :
    (kind : Kind) (realm id : String) (rep : Fields) (s : Server)
    → stored kind realm id (store kind realm id rep s) ≡ some rep
stored-store realm_kind realm id rep s = Sets.get-put realm realm rep s.realms ∙ rw (eq_refl realm)
stored-store provider_kind realm id rep s = ground (
  arith,
  Sets.get-put realm realm (Sets.put id rep (inner realm s.idps)) s.idps,
  Sets.get-put id id rep (inner realm s.idps),
  eq_refl realm,
  eq_refl id,
)
stored-store group_kind realm id rep s = ground (
  arith,
  Sets.get-put realm realm (Sets.put id rep (inner realm s.groups)) s.groups,
  Sets.get-put id id rep (inner realm s.groups),
  eq_refl realm,
  eq_refl id,
)

pub realm_stays :
    (kind : Kind) (realm id : String) (rep : Fields) (s : Server)
    → is_some (Sets.get realm s.realms) ≡ true
    → is_some (Sets.get realm (store kind realm id rep s).realms) ≡ true
realm_stays realm_kind realm id rep s h =
    ground (arith, Sets.get-put realm realm rep s.realms, eq_refl realm)
realm_stays provider_kind realm id rep s h = h
realm_stays group_kind realm id rep s h = h

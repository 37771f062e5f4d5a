-- ===== src/Tests/Servers.antt =====
-- The fake server at concrete requests, with and without the client in front of it.
use keycloak_operator.Base.{String, true, false, none, some, [], ◌∷◌, ◌≡◌, refl, sym, ap}
use keycloak_operator.Errors.{Error, failure, other, ok, err, Result}
use keycloak_operator.Json.{
  Value, boolean, string, object, Fields, end, field, insert, lookup, IsWellFields,
}
use keycloak_operator.Json.Text.{sort_fields}
use keycloak_operator.Platform.{put, Output, discard}
use keycloak_operator.LastApplied.{payload_differs}
use keycloak_operator.Keycloak.Escape.{path_escape}
use keycloak_operator.Keycloak.Client.{auth_password, Config, Session, request}
use keycloak_operator.Keycloak.Resources.{realm_path, get_realm, create_realm}
use keycloak_operator.Keycloak.Mappings.{text_at}
use keycloak_operator.Keycloak.Fake.State.{Server, new_server, merge}
use keycloak_operator.Keycloak.Fake.Router.{Net, Codec, handle_resource}
use keycloak_operator.Keycloak.Fake.Router.Paths.{after_prefix}
use keycloak_operator.Keycloak.Fake.Served.{http, outcome, request-handle_resource}
use keycloak_operator.Keycloak.Fake.Settling.{kc, IsPlain, created_realm_settles}
use keycloak_operator.Keycloak.Fake.Updates.{group_kind, read, update}
use keycloak_operator.Keycloak.Fake.Corrections.{IsPlainAt, update_settles}
use keycloak_operator.Drivers.Sets

-- Paths without an escape, at one server.
abbrev pub net : Net
net = record {
  path = λ url. elim (after_prefix "https://sso" url) [ none ↦ "" | some rest ↦ rest ];
  query = λ url key. "";
  path_unescape = λ s. some s;
}

abbrev pub config : Config
config = record {
  connection_name = "apps/main";
  url = "https://sso";
  admin_realm = "master";
  auth_type = auth_password;
  username = "admin";
  password = "pw";
  client_id = "";
  client_secret = "";
  insecure_skip_verify = false;
}

abbrev pub session : Session
session = record { access_token = "t1"; token_expiry = 60000000000 }

abbrev pub payload : Fields
payload = field "realm" (string "demo") (field "enabled" (boolean true) end)

abbrev pub stored : Fields
stored = field "id" (string "demo") (field "enabled" (boolean false) end)

abbrev new_rep : Fields
new_rep = insert "id" (string "demo") (sort_fields payload)

abbrev merged_rep : Fields
merged_rep = merge stored (sort_fields payload)

-- A codec that reads one representation.
abbrev pub codec : Fields → Codec
codec rep = record {
  encode = λ v. "{}";
  decode = λ out s. ok (object rep);
  decode_token = λ s. err (failure other "no token");
}

pub decodes :
    (rep : Fields) (o : Output) (b : String) (e : Error)
    → (codec rep).decode o b ≡ err e
    → e.kind ≡ other
decodes rep o b e h = sym (ap (λ (r : Result Value). elim r [ ok v ↦ other | err x ↦ x.kind ]) h)

abbrev pub nothing_stored : Server
nothing_stored = new_server "admin" "pw"

abbrev pub demo_stored : Server
demo_stored = record nothing_stored { realms = ("demo", stored) ∷ [] }

demo-IsPlain : IsPlain net (codec end) 0 config session "demo"
unfolding realm_path path_escape after_prefix
demo-IsPlain = (refl, refl, refl)

payload-IsWellFields : IsWellFields payload
unfolding lookup
payload-IsWellFields = (refl, tt, (refl, tt, tt))

payload_names_demo : text_at "realm" payload ≡ "demo"
unfolding lookup
payload_names_demo = refl

has_no_id : lookup "id" payload ≡ none
unfolding lookup
has_no_id = refl

created_realm_settles_example :
    ((create_realm (kc net (codec new_rep) 0 config session) payload (session, nothing_stored)).0
      ≡ ok tt)
    × (now : Fields) × ((get_realm
          (kc net (codec new_rep) 0 config session)
          "demo"
          (create_realm
            (kc net (codec new_rep) 0 config session)
            payload
            (session, nothing_stored)).1).0
        ≡ ok now)
    × (payload_differs now payload ≡ false)
unfolding after_prefix new_server Sets.get
created_realm_settles_example =
    created_realm_settles net (codec new_rep) 0 config session (decodes new_rep) (refl, refl) "demo"
      payload nothing_stored refl demo-IsPlain payload_names_demo refl has_no_id refl
      payload-IsWellFields (refl, refl)

-- A group beside the realm.
abbrev group_stored : Server
group_stored = record demo_stored { groups = ("demo", ("g1", stored) ∷ []) ∷ [] }

group-IsPlainAt : IsPlainAt net (codec end) 0 config session group_kind "demo" "g1"
unfolding realm_path path_escape after_prefix
group-IsPlainAt = (refl, refl, refl)

update_settles_example :
    let done =
      update
        (kc net (codec merged_rep) 0 config session)
        group_kind
        "demo"
        "g1"
        payload
        (session, group_stored) in
    (done.0 ≡ ok tt)
    × (now : Fields) × ((read
          (kc net (codec merged_rep) 0 config session)
          group_kind
          "demo"
          "g1"
          done.1).0
        ≡ ok now)
    × (payload_differs now payload ≡ false)
unfolding Sets.get
update_settles_example =
    update_settles net (codec merged_rep) 0 config session (decodes merged_rep) (refl, refl) "demo"
      "g1" group_kind stored payload group_stored group-IsPlainAt refl refl payload-IsWellFields
      (refl, refl)

request-handle_resource_example :
    request
      (http net (codec end) 0 config)
      config
      put
      "/admin/realms/demo/clients/c1/default-client-scopes/s1"
      none
      discard
      (session, demo_stored)
    ≡ (let (r, s') =
          handle_resource net put
            (λ key. "")
            "demo"
            ("clients" ∷ "c1" ∷ "default-client-scopes" ∷ "s1" ∷ [])
            none
            demo_stored in
        (
          outcome net
              (codec end)
              0
              config
              put
              "/admin/realms/demo/clients/c1/default-client-scopes/s1"
              discard
              r,
          (session, s'),
        ))
unfolding after_prefix
request-handle_resource_example =
    request-handle_resource net (codec end) 0 config put
      "/admin/realms/demo/clients/c1/default-client-scopes/s1" "demo"
      ("clients" ∷ "c1" ∷ "default-client-scopes" ∷ "s1" ∷ []) none discard session demo_stored
      (decodes end) (refl, refl) refl refl refl

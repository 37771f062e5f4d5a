-- ===== src/Keycloak/Fake/Steps/Requests.antt =====
-- Every request to the Admin API of the server is a step at some realm.
use keycloak_operator.Base.{
  String, ◌==◌, ◌&&◌, Bool, true, false, Option, none, some, List, [], ◌∷◌, ◌≡◌, refl, is_some,
  if◌then◌else◌,
}
use keycloak_operator.Json.{Fields}
use keycloak_operator.Json.Text.{Text}
use keycloak_operator.Platform.{Method}
use keycloak_operator.Keycloak.Mappings.{text_at}
use keycloak_operator.Keycloak.Fake.State.{
  Server, Reply, Handler, Payload, invalid, nil_map, a_map, answer, page_not_found, created,
  on_found, on_payload, decode_map, bad_json,
}
use keycloak_operator.Keycloak.Fake.Realms.{create_realm}
use keycloak_operator.Keycloak.Fake.Router.{
  Net, scoped, is_post, handle_realm_scoped, handle_rest, handle_admin, serve,
}
use keycloak_operator.Keycloak.Fake.Router.Paths.{slash, after_prefix, trim_prefix}
use keycloak_operator.Strings.{split}
use keycloak_operator.Keycloak.Fake.Steps.{
  Step, unchanged, realm_written, realm_deleted, clients_written, scopes_written, roles_written,
  client_roles_written, idps_written, groups_written, group_realm_roles_written,
  group_client_roles_written, scope_assigned, scope_unassigned, is_refused, if-Step,
}
use keycloak_operator.Keycloak.Fake.Steps.Routes.{handle_resource-Steps}
use keycloak_operator.Drivers.Sets

-- The handler makes a step at some realm from every state.
abbrev pub StepsSomewhere : Handler → Type 0
StepsSomewhere h = (s : Server) → (realm : String) × Step realm s (h s).0 (h s).1

answer-StepsSomewhere : (r : Reply) → is_refused r ≡ false → StepsSomewhere (answer r)
answer-StepsSomewhere r e s = ("", unchanged r e)

if-StepsSomewhere :
    (b : Bool) (h k : Handler)
    → StepsSomewhere h
    → StepsSomewhere k
    → StepsSomewhere (if b then h else k)
if-StepsSomewhere true h k p q = p
if-StepsSomewhere false h k p q = q

on_found-StepsSomewhere :
    {A : Type 0} (o : Option A) (k : A → Handler)
    → ((a : A) → StepsSomewhere (k a))
    → StepsSomewhere (on_found o k)
on_found-StepsSomewhere none k h = answer-StepsSomewhere page_not_found refl
on_found-StepsSomewhere (some a) k h = h a

on_payload-StepsSomewhere :
    (p : Payload) (k : Fields → Handler)
    → ((m : Fields) → StepsSomewhere (k m))
    → StepsSomewhere (on_payload p k)
on_payload-StepsSomewhere invalid k h = answer-StepsSomewhere bad_json refl
on_payload-StepsSomewhere nil_map k h = h _
on_payload-StepsSomewhere (a_map m) k h = h m

create_realm-StepsSomewhere : (body : Option Text) → StepsSomewhere (create_realm body)
unfolding create_realm
create_realm-StepsSomewhere body = on_payload-StepsSomewhere (decode_map body) _ (λ m s.
    let name = text_at "realm" m in
    (
      name,
      if-Step name (name == "") s _ _ (unchanged _ refl) (
          if-Step name (is_some (Sets.get name s.realms)) s _ _ (unchanged _ refl)
            (realm_written created _ refl)),
    ))

module _ (net : Net) (method : Method) (query : String → String) (body : Option Text) where
  scoped-StepsSomewhere : (sub : List String) → StepsSomewhere (scoped net method query sub body)
  scoped-StepsSomewhere [] = answer-StepsSomewhere page_not_found refl
  scoped-StepsSomewhere (x ∷ sub) =
      on_found-StepsSomewhere (net.path_unescape x) _
        (λ realm s. (realm, handle_resource-Steps realm net method query sub body s))

  handle_rest-StepsSomewhere :
      (rest : String) → StepsSomewhere (handle_rest net method query rest body)
  unfolding handle_rest handle_realm_scoped
  handle_rest-StepsSomewhere rest =
      if-StepsSomewhere (rest == "/serverinfo") _ _ (answer-StepsSomewhere _ refl) (
        if-StepsSomewhere (rest == "/realms" && is_post net method) _ _
          (create_realm-StepsSomewhere body)
          (on_found-StepsSomewhere (after_prefix "/realms/" rest) _
            (λ path. scoped-StepsSomewhere (split slash path))))

-- A request with a token to a path of the Admin API steps at some realm.
pub serve-StepsSomewhere :
    (net : Net) (method : Method) (url rest : String) (body : Option Text)
    → after_prefix "/admin/" (net.path url) ≡ some rest
    → StepsSomewhere (serve net method url body)
unfolding serve handle_admin
serve-StepsSomewhere net method url rest body e s =
    rw (serve, e)
      (handle_rest-StepsSomewhere net method (net.query url) body
        (trim_prefix "/admin" (net.path url)) s)

is_refused-Step :
    {realm : String} {s : Server} {r : Reply} {s' : Server}
    → Step realm s r s'
    → is_refused r ≡ false
is_refused-Step (unchanged r e) = e
is_refused-Step (realm_written r rep e) = e
is_refused-Step realm_deleted = refl
is_refused-Step (clients_written r m e) = e
is_refused-Step (scopes_written r m e) = e
is_refused-Step (roles_written r m e) = e
is_refused-Step (client_roles_written r m e) = e
is_refused-Step (idps_written r m e) = e
is_refused-Step (groups_written r m e) = e
is_refused-Step (group_realm_roles_written r m e) = e
is_refused-Step (group_client_roles_written r m e) = e
is_refused-Step (scope_assigned optional id scope e) = refl
is_refused-Step (scope_unassigned optional id scope) = refl

-- A request with a token, whichever it is, to a path of the Admin API is never answered with status
-- 401 or 403, in any state of the server, also after its tokens were revoked.
pub serve_never_refuses :
    (net : Net) (method : Method) (url rest : String) (body : Option Text) (s : Server)
    → after_prefix "/admin/" (net.path url) ≡ some rest
    → is_refused (serve net method url body s).0 ≡ false
serve_never_refuses net method url rest body s e =
    is_refused-Step (serve-StepsSomewhere net method url rest body e s).1

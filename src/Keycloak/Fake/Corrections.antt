-- ===== src/Keycloak/Fake/Corrections.antt =====
-- A correction of drift through the client, the router and the server.
use keycloak_operator.Base.{
  ℕ, String, ◌<>◌, true, false, none, some, ◌∷◌, ◌≡◌, refl, ap, ◌∙◌, is_some,
}
use keycloak_operator.Errors.{Error, other, Result, ok, err}
use keycloak_operator.Json.{object, Fields, IsWellFields}
use keycloak_operator.Json.Text.{sort_fields}
use keycloak_operator.Platform.{Output, get, put, one_map, discard}
use keycloak_operator.LastApplied.{payload_differs}
use keycloak_operator.Keycloak.Client.{Config, Session, admin_of, response_of, request}
use keycloak_operator.Keycloak.Resources.{get_realm, update_realm}
use keycloak_operator.Keycloak.Resources.Answers.{get_map-ok, send-ok}
use keycloak_operator.Keycloak.Mappings.{
  get_identity_provider, update_identity_provider, get_group, update_group,
}
use keycloak_operator.Keycloak.Fake.State.{Server, merge}
use keycloak_operator.Keycloak.Fake.Router.{Net, Codec}
use keycloak_operator.Keycloak.Fake.Routing.{slashes, are_segments}
use keycloak_operator.Keycloak.Fake.Served.{http, IsValid, request-handle_resource}
use keycloak_operator.Keycloak.Fake.RealmWrites.{payload_differs-merge}
use keycloak_operator.Keycloak.Fake.Settling.{kc, IsReadable, outcome-json}
use keycloak_operator.Keycloak.Fake.Updates.{
  Kind, realm_kind, provider_kind, group_kind, segments, path_of, stored, store, read, update,
  put-stored, get-stored, stored-store, realm_stays,
}
use keycloak_operator.Drivers.Sets

module _ (net : Net) (codec : Codec) (clock : ℕ) (cfg : Config) (session : Session) where
  -- net/url decodes the path of the resource, whose segments have no slash and whose realm has no
  -- escape.
  abbrev pub IsPlainAt : Kind → String → String → Type 0
  IsPlainAt kind realm id =
      (net.path (cfg.url <> path_of kind realm id)
        ≡ slashes ("admin" ∷ "realms" ∷ realm ∷ segments kind id))
      × (are_segments (realm ∷ segments kind id) ≡ true)
      × (net.path_unescape realm ≡ some realm)

  module _
      (plain : (o : Output) (b : String) (e : Error) → codec.decode o b ≡ err e → e.kind ≡ other)
      (valid : IsValid net codec clock cfg session) (realm id : String) where
    pub get_request :
        (kind : Kind) (rep : Fields) (s : Server)
        → IsPlainAt kind realm id
        → is_some (Sets.get realm s.realms) ≡ true
        → stored kind realm id s ≡ some rep
        → IsReadable net codec clock cfg session rep
        → request
            (http net codec clock cfg)
            cfg
            get
            (path_of kind realm id)
            none
            one_map
            (session, s)
          ≡ (ok (some (object rep)), (session, s))
    get_request kind rep s p there e r =
        request-handle_resource net codec clock cfg get (path_of kind realm id) realm
          (segments kind id) none one_map session s plain valid p.0 p.1 p.2
        ∙ rw (
          get-stored net (net.query (cfg.url <> path_of kind realm id)) realm id kind rep s there e,
          outcome-json net codec clock cfg session plain valid (path_of kind realm id) rep r,
        )

    pub put_request :
        (kind : Kind) (payload rep : Fields) (s : Server)
        → IsPlainAt kind realm id
        → IsWellFields payload
        → is_some (Sets.get realm s.realms) ≡ true
        → stored kind realm id s ≡ some rep
        → request
            (http net codec clock cfg)
            cfg
            put
            (path_of kind realm id)
            (some (object payload))
            discard
            (session, s)
          ≡ (ok none, (session, store kind realm id (merge rep (sort_fields payload)) s))
    unfolding response_of
    put_request kind payload rep s p w there e =
        request-handle_resource net codec clock cfg put (path_of kind realm id) realm
          (segments kind id) (some (object payload)) discard session s plain valid p.0 p.1 p.2
        ∙ rw (
            put-stored net (net.query (cfg.url <> path_of kind realm id)) realm id kind payload rep
              s w there e)

    read-stored :
        (kind : Kind) (rep : Fields) (s : Server)
        → IsPlainAt kind realm id
        → is_some (Sets.get realm s.realms) ≡ true
        → stored kind realm id s ≡ some rep
        → IsReadable net codec clock cfg session rep
        → read (kc net codec clock cfg session) kind realm id (session, s) ≡ (ok rep, (session, s))
    unfolding get_realm get_identity_provider get_group admin_of
    read-stored realm_kind rep s p there e r =
        get_map-ok (kc net codec clock cfg session) (path_of realm_kind realm id) (session, s)
          (session, s) (some (object rep)) (get_request realm_kind rep s p there e r)
    read-stored provider_kind rep s p there e r =
        get_map-ok (kc net codec clock cfg session) (path_of provider_kind realm id) (session, s)
          (session, s) (some (object rep)) (get_request provider_kind rep s p there e r)
    read-stored group_kind rep s p there e r =
        get_map-ok (kc net codec clock cfg session) (path_of group_kind realm id) (session, s)
          (session, s) (some (object rep)) (get_request group_kind rep s p there e r)

    update-stored :
        (kind : Kind) (payload rep : Fields) (s : Server)
        → IsPlainAt kind realm id
        → IsWellFields payload
        → is_some (Sets.get realm s.realms) ≡ true
        → stored kind realm id s ≡ some rep
        → update (kc net codec clock cfg session) kind realm id payload (session, s)
          ≡ (ok tt, (session, store kind realm id (merge rep (sort_fields payload)) s))
    unfolding update_realm update_identity_provider update_group admin_of
    update-stored realm_kind payload rep s p w there e =
        send-ok (kc net codec clock cfg session) (path_of realm_kind realm id) (session, s) _ put
          (some (object payload)) none (put_request realm_kind payload rep s p w there e)
    update-stored provider_kind payload rep s p w there e =
        send-ok (kc net codec clock cfg session) (path_of provider_kind realm id) (session, s) _ put
          (some (object payload)) none (put_request provider_kind payload rep s p w there e)
    update-stored group_kind payload rep s p w there e =
        send-ok (kc net codec clock cfg session) (path_of group_kind realm id) (session, s) _ put
          (some (object payload)) none (put_request group_kind payload rep s p w there e)

    -- An update of a realm, an identity provider or a group through the client settles it, whatever
    -- representation the server holds of it: the update succeeds, the client then reads a
    -- representation, and the test for drift finds no difference between that and the payload. The
    -- realm exists and the server holds a representation; the client has a token with more than 30
    -- seconds to live and decodes what the server encodes of the map that is then stored; errors of
    -- its decoding are plain ones; the URL of the resource is decoded to its segments, none of which
    -- has a slash; and the payload has no key twice.
    pub update_settles :
        (kind : Kind) (rep payload : Fields) (s : Server)
        → IsPlainAt kind realm id
        → is_some (Sets.get realm s.realms) ≡ true
        → stored kind realm id s ≡ some rep
        → IsWellFields payload
        → IsReadable net codec clock cfg session (merge rep (sort_fields payload))
        → (let done = update (kc net codec clock cfg session) kind realm id payload (session, s) in
            (done.0 ≡ ok tt)
            × (now : Fields) × ((read (kc net codec clock cfg session) kind realm id done.1).0
                ≡ ok now)
            × (payload_differs now payload ≡ false))
    update_settles kind rep payload s p there e w r =
        let now = merge rep (sort_fields payload) in
        let s' = store kind realm id now s in
        rw (update-stored kind payload rep s p w there e) (
          refl,
          now,
          ap (λ (x : Result Fields × (Session × Server)). x.0)
              (read-stored kind now s' p (realm_stays kind realm id now s there)
                (stored-store kind realm id now s) r),
          payload_differs-merge rep payload w,
        )

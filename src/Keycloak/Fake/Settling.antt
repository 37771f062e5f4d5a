-- ===== src/Keycloak/Fake/Settling.antt =====
-- Realms through the client, the router and the server: what the operator reads back after a write.
use keycloak_operator.Base.{
  ℕ, String, ◌<>◌, true, false, Option, none, some, [], ◌∷◌, ◌≡◌, refl, ap, ◌∙◌, ◌==◌, arith,
  eq_refl,
}
use keycloak_operator.Errors.{
  Error, failure, other, conflict, not_found, Result, ok, err, is_not_found, is_conflict,
}
use keycloak_operator.Json.{Value, string, object, Fields, lookup, insert, IsWellFields}
use keycloak_operator.Json.Text.{sort_fields}
use keycloak_operator.Platform.{Admin, Method, Output, get, post, delete, one_map, discard}
use keycloak_operator.LastApplied.{payload_differs}
use keycloak_operator.Keycloak.Client.{
  Config, Session, encoded, admin_of, response_of, request, truncate,
}
use keycloak_operator.Keycloak.Resources.{realm_path, get_realm, create_realm, delete_realm}
use keycloak_operator.Keycloak.Mappings.{text_at}
use keycloak_operator.Keycloak.Resources.Answers.{get_map-ok, get_map-err, send-ok, send-err}
use keycloak_operator.Keycloak.Fake.State.{Reply, Server, write_json}
use keycloak_operator.Keycloak.Fake.Realms as Handlers
use keycloak_operator.Keycloak.Fake.Router.{Net, Codec, handle_resource, fake_http}
use keycloak_operator.Keycloak.Fake.Router.Paths.{slash, after_prefix}
use keycloak_operator.Strings.{is_free_of}
use keycloak_operator.Keycloak.Fake.Routing.{slashes, serve-create_realm}
use keycloak_operator.Keycloak.Fake.Served.{
  http, outcome, IsValid, request_served, request-handle_resource,
}
use keycloak_operator.Drivers.Sets
use keycloak_operator.Keycloak.Fake.RealmWrites.{
  get_found, make_realm, make_realm_again, erase_realm, get_missing, payload_differs-new,
}

module _ (net : Net) (codec : Codec) (clock : ℕ) (cfg : Config) (session : Session) where
  -- The client, in front of the server.
  abbrev pub kc : Admin (Session × Server)
  kc = admin_of (http net codec clock cfg) cfg

  -- net/url decodes the path of the realm, in which there is no slash and no escape.
  abbrev pub IsPlain : String → Type 0
  IsPlain realm =
      (net.path (cfg.url <> realm_path realm) ≡ slashes ("admin" ∷ "realms" ∷ realm ∷ []))
      × (is_free_of slash realm ≡ true)
      × (net.path_unescape realm ≡ some realm)

  -- The client decodes the representation as the server encodes it.
  abbrev pub IsReadable : Fields → Type 0
  IsReadable rep =
      ((codec.encode (object rep) == "") ≡ false)
      × (codec.decode one_map (codec.encode (object rep)) ≡ ok (object rep))

  module _
      (plain : (o : Output) (b : String) (e : Error) → codec.decode o b ≡ err e → e.kind ≡ other)
      (valid : IsValid net codec clock cfg session) where
    -- A request for a realm itself.
    pub realm_request :
        (method : Method) (realm : String) (body : Option Value) (out : Output) (s : Server)
        → IsPlain realm
        → request (http net codec clock cfg) cfg method (realm_path realm) body out (session, s) ≡ (
            let (r, s') = Handlers.handle_realm method realm (encoded body) s in
            (outcome net codec clock cfg method (realm_path realm) out r, (session, s')))
    unfolding handle_resource
    realm_request method realm body out s p =
        request-handle_resource net codec clock cfg method (realm_path realm) realm [] body out
          session s plain valid p.0 (ground (arith, p.1)) p.2

    pub outcome-json :
        (path : String) (rep : Fields)
        → IsReadable rep
        → outcome net codec clock cfg get path one_map (write_json (object rep))
          ≡ ok (some (object rep))
    unfolding response_of fake_http
    outcome-json path rep r = ground (arith, r.0, r.1)

    read_realm :
        (realm : String) (rep : Fields) (s : Server)
        → IsPlain realm
        → Sets.get realm s.realms ≡ some rep
        → IsReadable rep
        → get_realm kc realm (session, s) ≡ (ok rep, (session, s))
    unfolding get_realm admin_of
    read_realm realm rep s p e r =
        get_map-ok kc (realm_path realm) (session, s) (session, s) (some (object rep))
          (realm_request get realm none one_map s p
            ∙ rw (get_found realm rep s e, outcome-json (realm_path realm) rep r))

    pub create_request :
        (body : Option Value) (s : Server)
        → net.path (cfg.url <> "/admin/realms") ≡ "/admin/realms"
        → request (http net codec clock cfg) cfg post "/admin/realms" body discard (session, s) ≡ (
            let (r, s') = Handlers.create_realm (encoded body) s in
            (outcome net codec clock cfg post "/admin/realms" discard r, (session, s')))
    unfolding after_prefix
    create_request body s p =
        request_served net codec clock cfg post "/admin/realms" "realms" body discard session s
          plain valid (ap (after_prefix "/admin/") p)
        ∙ ap
            (λ (x : Reply × Server).
              (outcome net codec clock cfg post "/admin/realms" discard x.0, (session, x.1)))
            (serve-create_realm net (cfg.url <> "/admin/realms") (encoded body) s p)

    -- The creation of a realm through the client settles it: if the server does not have the realm
    -- that the payload names, the creation succeeds, the client then reads a representation, and the
    -- test for drift finds no difference between that and the payload. The client has a token with
    -- more than 30 seconds to live, the URLs are decoded to the paths meant, the name is not empty
    -- and has no slash, the payload has no id and no key twice, the client decodes what the server
    -- encodes of the stored map, and errors of its decoding are plain ones.
    pub created_realm_settles :
        (realm : String) (payload : Fields) (s : Server)
        → net.path (cfg.url <> "/admin/realms") ≡ "/admin/realms"
        → IsPlain realm
        → text_at "realm" payload ≡ realm
        → (realm == "") ≡ false
        → lookup "id" payload ≡ none
        → Sets.get realm s.realms ≡ none
        → IsWellFields payload
        → IsReadable (insert "id" (string realm) (sort_fields payload))
        → ((create_realm kc payload (session, s)).0 ≡ ok tt)
          × (now : Fields) × ((get_realm kc realm (create_realm kc payload (session, s)).1).0
              ≡ ok now)
          × (payload_differs now payload ≡ false)
    unfolding create_realm admin_of response_of
    created_realm_settles realm payload s top p t n absent e w r =
        let now = insert "id" (string realm) (sort_fields payload) in
        let s' : Server = record s { realms = Sets.put realm now s.realms } in
        let made : create_realm kc payload (session, s) ≡ (ok tt, (session, s')) =
          send-ok kc "/admin/realms" (session, s) (session, s') post (some (object payload)) none
            (create_request (some (object payload)) s top
              ∙ rw (make_realm realm payload s w t n e)) in
        rw made (
          refl,
          now,
          ap (λ (x : Result Fields × (Session × Server)). x.0)
              (read_realm realm now s' p
                (Sets.get-put realm realm now s.realms ∙ rw (eq_refl realm)) r),
          payload_differs-new realm payload w absent,
        )

    -- The creation of a realm that the server has is reported as a conflict, and neither the server
    -- nor the session changes. The client has a token with more than 30 seconds to live, the URL of
    -- the realms is decoded to its path, the name is not empty, the payload has no key twice, and
    -- errors of the decoding of bodies are plain ones.
    second_creation_conflicts :
        (realm : String) (payload rep : Fields) (s : Server)
        → net.path (cfg.url <> "/admin/realms") ≡ "/admin/realms"
        → text_at "realm" payload ≡ realm
        → (realm == "") ≡ false
        → Sets.get realm s.realms ≡ some rep
        → IsWellFields payload
        → (e : Error) × (create_realm kc payload (session, s) ≡ (err e, (session, s)))
          × (is_conflict e ≡ true)
    unfolding create_realm admin_of response_of
    second_creation_conflicts realm payload rep s top t n found w =
        let e = failure conflict (
          "resource conflict: "
          <> ("POST" <> (" " <> "/admin/realms"))
          <> ": "
          <> truncate "realm exists\n") in
        (
          e,
          send-err kc "/admin/realms" (session, s) (session, s) post (some (object payload)) e
              (create_request (some (object payload)) s top
                ∙ rw (make_realm_again realm payload rep s w t n found)),
          refl,
        )

    -- The deletion of a realm that the server has succeeds through the client, which is then told
    -- that the realm is not found. The client has a token with more than 30 seconds to live, the URL
    -- of the realm is decoded to its name, which has no slash, and errors of the decoding of bodies
    -- are plain ones.
    deleted_realm_not_found :
        (realm : String) (rep : Fields) (s : Server)
        → IsPlain realm
        → Sets.get realm s.realms ≡ some rep
        → ((delete_realm kc realm (session, s)).0 ≡ ok tt)
          × (e : Error) × ((get_realm kc realm (delete_realm kc realm (session, s)).1).0 ≡ err e)
          × (is_not_found e ≡ true)
    unfolding delete_realm get_realm admin_of response_of
    deleted_realm_not_found realm rep s p found =
        let s' : Server = record s { realms = Sets.erase realm s.realms } in
        let e =
          failure not_found ("resource not found: " <> ("GET" <> (" " <> realm_path realm))) in
        let gone : delete_realm kc realm (session, s) ≡ (ok tt, (session, s')) =
          send-ok kc (realm_path realm) (session, s) (session, s') delete none none
            (realm_request delete realm none discard s p ∙ rw (erase_realm realm rep s found)) in
        let missing : get_realm kc realm (session, s') ≡ (err e, (session, s')) =
          get_map-err kc (realm_path realm) (session, s') (session, s') e
            (realm_request get realm none one_map s' p
              ∙ rw (
                  get_missing realm s'
                    (Sets.get-erase realm realm s.realms ∙ rw (eq_refl realm)))) in
        rw gone (refl, e, ap (λ (x : Result Fields × (Session × Server)). x.0) missing, refl)

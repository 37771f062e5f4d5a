-- ===== src/Keycloak/Fake/Passes.antt =====
-- A pass of the engine over a realm, with the client of the operator in front of the server.
use mathlib.Core.Path.{subst}
use mathlib.Core.Option
use keycloak_operator.Base.{
  ◌<>◌, ◌==◌, ℕ, String, true, false, none, some, Option, ◌≡◌, refl, ap, ◌∙◌, is_some,
}
use keycloak_operator.Errors.{Error, failure, not_found, other, Result, ok, err}
use keycloak_operator.Json.{
  string, Value, object, Fields, end, field, lookup, insert, is_null, IsWellFields,
}
use keycloak_operator.Json.Laws.{IsWellFields-NodupKeys, insert-IsWellFields}
use keycloak_operator.Json.Structs.Nulls.{NotNull, HasNoNulls}
use keycloak_operator.Json.Text.{sort_keys, sort_fields}
use keycloak_operator.Json.RoundTrip.{lookup-sort_fields, sort_keys-IsWell}
use keycloak_operator.LastApplied.{merge_payload, payload_differs}
use keycloak_operator.LastApplied.Merge.{overlay, lookup-merge_payload, merge_payload-IsWellFields}
use keycloak_operator.LastApplied.Sorted.{payload_differs-sorted}
use keycloak_operator.Platform.{Admin, post, Method, Output, get, put, one_map, discard}
use keycloak_operator.Drivers.Sets
use keycloak_operator.Keycloak.Client.{Config, Session, admin_of, response_of}
use keycloak_operator.Keycloak.Resources.{realm_path, get_realm, create_realm, update_realm}
use keycloak_operator.Keycloak.Resources.Answers.{get_map-ok, get_map-err, send-ok}
use keycloak_operator.Keycloak.Mappings.{text_at}
use keycloak_operator.Keycloak.Fake.RealmWrites.{make_realm, get_missing}
use keycloak_operator.Keycloak.Fake.State.{Server, merge}
use keycloak_operator.Keycloak.Fake.Bodies.{lookup-merge, or_else}
use keycloak_operator.Keycloak.Fake.Router.{Net, Codec}
use keycloak_operator.Keycloak.Fake.Served.{IsValid}
use keycloak_operator.Keycloak.Fake.Settling.{
  kc, IsPlain, IsReadable, realm_request, create_request,
}
use keycloak_operator.Keycloak.Fake.Updates.{realm_kind}
use keycloak_operator.Keycloak.Fake.Corrections.{IsPlainAt, get_request, put_request}

-- The client in a world that has more than the session and the server.
abbrev pub beside : {K X : Type 0} → Admin X → Admin (K × X)
beside kc = record {
  request =
      λ method path body out w. let (r, x) = kc.request method path body out w.1 in (r, (w.0, x));
}

-- What the server holds of a realm after the operator merged a payload into what it held.
abbrev pub corrected_rep : Fields → Fields → Fields
corrected_rep rep filled = merge rep (sort_fields (merge_payload rep filled))

abbrev pub with_realm : String → Fields → Server → Server
with_realm realm rep s = record s { realms = Sets.put realm rep s.realms }

overlay_present :
    (v : Value) (old : Option Value) → is_null v ≡ false → overlay (some v) old ≡ some v
overlay_present v old e = rw e refl

merge-IsWellFields :
    (dst src : Fields) → IsWellFields dst → IsWellFields src → IsWellFields (merge dst src)
unfolding merge
merge-IsWellFields dst end h w = h
merge-IsWellFields dst (field k v src) h w =
    merge-IsWellFields (insert k v dst) src (insert-IsWellFields k v dst w.1 h) w.2

pub corrected_rep-IsWellFields :
    (rep filled : Fields)
    → IsWellFields rep
    → IsWellFields filled
    → IsWellFields (corrected_rep rep filled)
unfolding sort_keys
corrected_rep-IsWellFields rep filled wr w =
    merge-IsWellFields rep (sort_fields (merge_payload rep filled)) wr (
      sort_keys-IsWell (object (merge_payload rep filled))
        (merge_payload-IsWellFields rep filled wr w))

-- A correction with no null entry leaves no drift.
pub payload_differs-corrected_rep :
    (rep filled : Fields)
    → IsWellFields rep
    → IsWellFields filled
    → HasNoNulls filled
    → payload_differs (corrected_rep rep filled) filled ≡ false
unfolding sort_keys
payload_differs-corrected_rep rep filled wr w no_nulls =
    let q = merge_payload rep filled in
    let wq : IsWellFields q = merge_payload-IsWellFields rep filled wr w in
    payload_differs-sorted filled (corrected_rep rep filled) w (λ k v e.
      let full : is_null v ≡ false = subst NotNull e (no_nulls k) in
      let merged : lookup k q ≡ some v =
        lookup-merge_payload k rep filled (IsWellFields-NodupKeys filled w)
        ∙ ap (λ o. overlay o (lookup k rep)) e
        ∙ overlay_present v (lookup k rep) full in
      lookup-merge rep (sort_fields q) k (sort_keys-IsWell (object q) wq)
      ∙ ap (λ o. or_else o (lookup k rep))
          (lookup-sort_fields k q wq ∙ ap (Option.map sort_keys) merged))

abbrev pub missing_realm : String → Error
missing_realm realm =
    failure not_found ("resource not found: " <> ("GET" <> (" " <> realm_path realm)))

-- What the server makes of a payload that names a new realm.
abbrev pub new_rep : String → Fields → Fields
new_rep realm payload = insert "id" (string realm) (sort_fields payload)

pub new_rep-IsWellFields :
    (realm : String) (payload : Fields)
    → IsWellFields payload
    → IsWellFields (new_rep realm payload)
unfolding sort_keys
new_rep-IsWellFields realm payload w =
    insert-IsWellFields "id" (string realm) (sort_fields payload) tt
      (sort_keys-IsWell (object payload) w)

module _ {K X : Type 0} (kc₀ : Admin X) (w : K × X) {x x' : X} (here : w.1 ≡ x) where
  pub beside-request :
      (method : Method) (path : String) (body : Option Value) (out : Output)
      (r : Result (Option Value))
      → kc₀.request method path body out x ≡ (r, x')
      → (beside kc₀).request method path body out w ≡ (r, (w.0, x'))
  beside-request method path body out r h =
      ap (λ y. let z = kc₀.request method path body out y in (z.0, (w.0, z.1))) here
      ∙ ap (λ (z : Result (Option Value) × X). (z.0, (w.0, z.1))) h

module _ {K : Type 0} (net : Net) (codec : Codec) (clock : ℕ) (cfg : Config) (session : Session)
    (plain : (o : Output) (b : String) (e : Error) → codec.decode o b ≡ err e → e.kind ≡ other)
    (valid : IsValid net codec clock cfg session) where
  abbrev pub client : Admin (K × (Session × Server))
  client = beside (kc net codec clock cfg session)

  module _ (realm : String) (rep : Fields) (s : Server)
      (plain_path : IsPlainAt net codec clock cfg session realm_kind realm "")
      (held : Sets.get realm s.realms ≡ some rep) (w : K × (Session × Server))
      (here : w.1 ≡ (session, s)) where
    there : is_some (Sets.get realm s.realms) ≡ true
    there = rw held refl

    pub get_realm-held :
        IsReadable net codec clock cfg session rep
        → get_realm client realm w ≡ (ok rep, (w.0, (session, s)))
    unfolding get_realm admin_of
    get_realm-held readable =
        get_map-ok client (realm_path realm) w (w.0, (session, s)) (some (object rep))
          (beside-request (kc net codec clock cfg session) w here get (realm_path realm) none
            one_map (ok (some (object rep)))
            (get_request net codec clock cfg session plain valid realm "" realm_kind rep s
              plain_path there held readable))

    pub update_realm-held :
        (payload : Fields)
        → IsWellFields payload
        → update_realm client realm payload w
          ≡ (ok tt, (w.0, (session, with_realm realm (merge rep (sort_fields payload)) s)))
    unfolding update_realm admin_of
    update_realm-held payload well =
        send-ok client (realm_path realm) w _ put (some (object payload)) none (
          beside-request (kc net codec clock cfg session) w here put (realm_path realm)
            (some (object payload)) discard (ok none)
            (put_request net codec clock cfg session plain valid realm "" realm_kind payload rep s
              plain_path well there held))

  module _ (realm : String) (s : Server) (plain_path : IsPlain net codec clock cfg session realm)
      (lacking : Sets.get realm s.realms ≡ none) (w : K × (Session × Server))
      (here : w.1 ≡ (session, s)) where
    pub get_realm-missing :
        get_realm client realm w ≡ (err (missing_realm realm), (w.0, (session, s)))
    unfolding get_realm admin_of response_of
    get_realm-missing =
        get_map-err client (realm_path realm) w (w.0, (session, s)) (missing_realm realm)
          (beside-request (kc net codec clock cfg session) w here get (realm_path realm) none
            one_map (err (missing_realm realm))
            (realm_request net codec clock cfg session plain valid get realm none one_map s
                plain_path
              ∙ rw (get_missing realm s lacking)))

    pub create_realm-new :
        (payload : Fields)
        → net.path (cfg.url <> "/admin/realms") ≡ "/admin/realms"
        → text_at "realm" payload ≡ realm
        → (realm == "") ≡ false
        → IsWellFields payload
        → create_realm client payload w
          ≡ (ok tt, (w.0, (session, with_realm realm (new_rep realm payload) s)))
    unfolding create_realm admin_of response_of
    create_realm-new payload top names named well =
        send-ok client "/admin/realms" w _ post (some (object payload)) none (
          beside-request (kc net codec clock cfg session) w here post "/admin/realms"
            (some (object payload)) discard (ok none)
            (create_request net codec clock cfg session plain valid (some (object payload)) s top
              ∙ rw (make_realm realm payload s well names named lacking)))

-- ===== src/Keycloak/Fake/Removal.antt =====
-- The pass of the engine over a realm that is being deleted, with the client in front of the server.
use keycloak_operator.Base.{
  ℕ, String, ◌<>◌, true, none, ◌≡◌, refl, sym, ap, ◌∙◌, ◌==◌, eq_refl, inl, inr, Option-cases,
}
use keycloak_operator.Errors.{Error, failure, not_found, other, ok, err}
use keycloak_operator.Api.{Object, deletion_delete}
use keycloak_operator.Api.Specs.Realm.{RealmSpec}
use keycloak_operator.Platform.{Admin, Cluster, Output, delete, discard}
use keycloak_operator.Drivers.Realm.{realm_driver}
use keycloak_operator.Drivers.Sets
use keycloak_operator.Engine.{Outcome}
use keycloak_operator.Engine.Untouched.{IsBlindToCluster}
use keycloak_operator.Engine.Deletion.{
  ended, released, reported, connection, connected, reconcile-deleted, settled_deletion_releases,
}
use keycloak_operator.Engine.Lifecycle.{settled, reconcile}
use keycloak_operator.Keycloak.Client.{Config, Session, admin_of, response_of}
use keycloak_operator.Keycloak.Resources.{realm_path, delete_realm}
use keycloak_operator.Keycloak.Resources.Answers.{send-ok, send-err}
use keycloak_operator.Keycloak.Fake.RealmWrites.{erase_realm, erase_missing}
use keycloak_operator.Keycloak.Fake.State.{Server}
use keycloak_operator.Keycloak.Fake.Router.{Net, Codec}
use keycloak_operator.Keycloak.Fake.Served.{IsValid}
use keycloak_operator.Keycloak.Fake.Settling.{kc, IsPlain, realm_request}
use keycloak_operator.Keycloak.Fake.Ready.{shared}
use keycloak_operator.Keycloak.Fake.Passes.{client, beside-request}

abbrev pub without_realm : String → Server → Server
without_realm realm s = record s { realms = Sets.erase realm s.realms }

without_realm-absent :
    (realm : String) (s : Server) → Sets.get realm s.realms ≡ none → without_realm realm s ≡ s
without_realm-absent realm s h =
    ap (λ r. record s { realms = r }) (Sets.erase-absent realm s.realms h)

without_realm-lacks :
    (realm : String) (s : Server) → Sets.get realm (without_realm realm s).realms ≡ none
without_realm-lacks realm s = Sets.get-erase realm realm s.realms ∙ rw (eq_refl realm) refl

module _ {K : Type 0} (net : Net) (codec : Codec) (clock : ℕ) (cfg : Config) (session : Session)
    (plain : (o : Output) (b : String) (e : Error) → codec.decode o b ≡ err e → e.kind ≡ other)
    (valid : IsValid net codec clock cfg session) where
  abbrev through : Admin (K × (Session × Server))
  through = client net codec clock cfg session plain valid

  module _ (realm : String) (s : Server) (path : IsPlain net codec clock cfg session realm)
      (w : K × (Session × Server)) (here : w.1 ≡ (session, s)) where
    -- Whether the server has the realm or not.
    delete_realm_lem :
        (settled (delete_realm through realm w).0 ≡ none)
        × ((delete_realm through realm w).1 ≡ (w.0, (session, without_realm realm s)))
    unfolding delete_realm admin_of response_of
    delete_realm_lem = elim (Option-cases (Sets.get realm s.realms)) [
      | inl lacking ↦
          let gone =
            failure not_found ("resource not found: " <> ("DELETE" <> (" " <> realm_path realm))) in
          let done =
            send-err through (realm_path realm) w (w.0, (session, s)) delete none gone
              (beside-request (kc net codec clock cfg session) w here delete (realm_path realm) none
                discard (err gone)
                (realm_request net codec clock cfg session plain valid delete realm none discard s
                    path
                  ∙ rw (erase_missing realm s lacking))) in
          rw done
            (refl, ap (λ s'. (w.0, (session, s'))) (sym (without_realm-absent realm s lacking)))
      | inr (rep, held) ↦
          let done =
            send-ok through (realm_path realm) w (w.0, (session, without_realm realm s)) delete none
              none
              (beside-request (kc net codec clock cfg session) w here delete (realm_path realm) none
                discard (ok none)
                (realm_request net codec clock cfg session plain valid delete realm none discard s
                    path
                  ∙ rw (erase_realm realm rep s held))) in
          rw done (refl, refl)
    ]

  module _ (cluster : Cluster RealmSpec (K × (Session × Server))) (resync : ℕ)
      (blind : IsBlindToCluster cluster (shared {K = K})) (base : Object RealmSpec)
      (deleting : base.deleting ≡ true)
      (policy : (((realm_driver cluster).spec base.spec).deletion == deletion_delete) ≡ true)
      (path : IsPlain net codec clock cfg session base.spec.head.realm)
      (connects : (w : K × (Session × Server))
        → (connection cluster (realm_driver cluster) resync base w).0 ≡ ok through) where
    abbrev pub pass_over : K × (Session × Server) → Outcome × (K × (Session × Server))
    pass_over w = let r = reconcile cluster (realm_driver cluster) resync (base, w) in (r.0, r.1.1)

    deletes :
        (s : Server) (w : K × (Session × Server))
        → shared w ≡ (session, s)
        → (settled
              ((realm_driver cluster).delete through base
                (connected cluster (realm_driver cluster) resync base w)).0
            ≡ none)
          × (shared
                ((realm_driver cluster).delete through base
                  (connected cluster (realm_driver cluster) resync base w)).1
              ≡ (session, without_realm base.spec.head.realm s))
    unfolding realm_driver
    deletes s w here =
        let v = connected cluster (realm_driver cluster) resync base w in
        let same : shared v ≡ (session, s) = blind.connect _ _ w ∙ here in
        let r = delete_realm_lem base.spec.head.realm s path v same in
        (r.0, ap (λ (x : K × (Session × Server)). x.1) r.1)

    pass_ends :
        (s : Server) (w : K × (Session × Server))
        → shared w ≡ (session, s)
        → shared (pass_over w).1 ≡ (session, without_realm base.spec.head.realm s)
    pass_ends s w here =
        reconcile-deleted cluster (realm_driver cluster) resync shared base w through blind deleting
          policy (connects w) (deletes s w here).0
        ∙ (deletes s w here).1

    -- One pass removes a realm and releases the object. Take an object of a realm that is being
    -- deleted under the policy Delete, and a server with the realm or without it. A protected realm
    -- ("master" without the annotation that allows it) is no exception, and neither is a realm that
    -- does not carry the marker of the operator or an object that was never applied: nothing is
    -- asked about these. A pass leaves the session as it was and removes the realm from the server,
    -- and nothing else; it ends as the write of the object without the finalizer does. Another pass
    -- over the object, as after a write that failed, leaves the session and the server as they are.
    -- The calls of the cluster do not touch the session and the server, and connect the object to
    -- the server through a client that has a token with more than 30 seconds to live; errors of its
    -- decoding are plain ones, and the URL of the realm is decoded to its name, which has no slash.
    pub pass_removes_realm :
        (s : Server) (w : K × (Session × Server))
        → shared w ≡ (session, s)
        → (shared (pass_over w).1 ≡ (session, without_realm base.spec.head.realm s))
          × ((pass_over w).0
              ≡ ended
                  (cluster.update_object
                    (released cluster (realm_driver cluster) resync base)
                    (reported cluster (realm_driver cluster) resync base through w)).0)
          × (shared (pass_over (pass_over w).1).1 ≡ shared (pass_over w).1)
    pass_removes_realm s w here =
        let realm = base.spec.head.realm in
        let first = pass_ends s w here in
        (
          first,
          settled_deletion_releases cluster (realm_driver cluster) resync base w through deleting
              policy (connects w) (deletes s w here).0,
          pass_ends (without_realm realm s) (pass_over w).1 first
              ∙ ap (λ s'. (session, s'))
                  (without_realm-absent realm (without_realm realm s) (without_realm-lacks realm s))
              ∙ sym first,
        )

-- ===== src/Keycloak/Fake/Founding.antt =====
-- The first pass of the engine over a realm that the server lacks, and the passes after it.
use mathlib.Core.Path.{subst}
use keycloak_operator.Base.{
  ℕ, String, ◌<>◌, false, none, some, [], ◌≡◌, refl, sym, ap, ◌∙◌, arith, ◌==◌, eq_refl,
}
use keycloak_operator.Errors.{Error, other, Result, ok, err}
use keycloak_operator.Json.{Fields}
use keycloak_operator.LastApplied.{payload_differs}
use keycloak_operator.LastApplied.Effective.{effective_payload_first}
use keycloak_operator.Api.{Object}
use keycloak_operator.Api.Specs.Realm.{RealmSpec}
use keycloak_operator.Platform.{Admin, Cluster, Output}
use keycloak_operator.Drivers.Realm.{realm_driver, realm_prepare_payload}
use keycloak_operator.Drivers.Sets
use keycloak_operator.Engine.Ending.{IsBlindToBooks}
use keycloak_operator.Engine.Creation.{Creates, reconcile-created}
use keycloak_operator.Engine.Lifecycle.{reconcile}
use keycloak_operator.Keycloak.Client.{Config, Session}
use keycloak_operator.Keycloak.Fake.State.{Server}
use keycloak_operator.Keycloak.Fake.Router.{Net, Codec}
use keycloak_operator.Keycloak.Fake.RealmWrites.{payload_differs-new}
use keycloak_operator.Keycloak.Fake.Served.{IsValid}
use keycloak_operator.Keycloak.Fake.Settling.{IsPlain, IsReadable}
use keycloak_operator.Keycloak.Fake.Updates.{realm_kind}
use keycloak_operator.Keycloak.Fake.Corrections.{IsPlainAt}
use keycloak_operator.Keycloak.Fake.Ready.{
  shared, marked_payload, IsReady, IsApplied, marked_payload-IsWellFields, marked-names_realm,
  marked-has_no_id,
}
use keycloak_operator.Keycloak.Fake.Passes.{
  client, with_realm, get_realm-held, missing_realm, new_rep, new_rep-IsWellFields,
  get_realm-missing, create_realm-new,
}
use keycloak_operator.Keycloak.Fake.Healing.{steady}

module _ {K : Type 0} (net : Net) (codec : Codec) (clock : ℕ) (cfg : Config) (session : Session)
    (plain : (o : Output) (b : String) (e : Error) → codec.decode o b ≡ err e → e.kind ≡ other)
    (valid : IsValid net codec clock cfg session) where
  abbrev through : Admin (K × (Session × Server))
  through = client net codec clock cfg session plain valid

  module _ (cluster : Cluster RealmSpec (K × (Session × Server))) (resync : ℕ)
      (blind : IsBlindToBooks cluster (shared {K = K})) where
    abbrev pub pass_over : Object RealmSpec → K × (Session × Server) → K × (Session × Server)
    pass_over base w = (reconcile cluster (realm_driver cluster) resync (base, w)).1.1

    -- The provider connects the object to the server through the client.
    abbrev pub IsConnected : Object RealmSpec → Type 0
    IsConnected base =
        (w : K × (Session × Server))
        → (cluster.connect base.namespace ((realm_driver cluster).spec base.spec).connection_name
            w).0
          ≡ ok through

    module _ (base : Object RealmSpec) (m : Fields) (ready : IsReady cluster resync base m)
        (s : Server) (path : IsPlain net codec clock cfg session base.spec.head.realm)
        (top : net.path (cfg.url <> "/admin/realms") ≡ "/admin/realms")
        (named : (base.spec.head.realm == "") ≡ false)
        (lacking : Sets.get base.spec.head.realm s.realms ≡ none)
        (readable : IsReadable net codec clock cfg session
          (new_rep base.spec.head.realm (marked_payload m))) where
      abbrev founded : Server
      founded = with_realm base.spec.head.realm (new_rep base.spec.head.realm (marked_payload m)) s

      path_at : IsPlainAt net codec clock cfg session realm_kind base.spec.head.realm ""
      path_at = (path.0, ground (arith, path.1), path.2)

      held :
          Sets.get base.spec.head.realm founded.realms
          ≡ some (new_rep base.spec.head.realm (marked_payload m))
      held =
          Sets.get-put base.spec.head.realm base.spec.head.realm _ s.realms
          ∙ rw (eq_refl base.spec.head.realm)

      creates :
          Creates
            (realm_driver cluster)
            shared
            through
            base
            m
            m
            (missing_realm base.spec.head.realm)
            (session, s)
            (session, founded)
      unfolding realm_driver realm_prepare_payload
      creates =
          let read = λ (w : K × (Session × Server)) (here : shared w ≡ (session, s)).
            get_realm-missing net codec clock cfg session plain valid base.spec.head.realm s path
              lacking w here in
          let made = λ (w : K × (Session × Server)) (here : shared w ≡ (session, s)).
            create_realm-new net codec clock cfg session plain valid base.spec.head.realm s path
              lacking w here (marked_payload m) top (marked-names_realm cluster resync base m ready)
              named (marked_payload-IsWellFields cluster resync base m ready) in
          let again = λ (w : K × (Session × Server)) (here : shared w ≡ (session, founded)).
            get_realm-held net codec clock cfg session plain valid base.spec.head.realm
              (new_rep base.spec.head.realm (marked_payload m)) founded path_at held w here
              readable in
          record {
            not_found = refl;
            misses =
                λ w here. ap (λ (x : Result Fields × (K × (Session × Server))). x.0) (read w here);
            misses_seen = λ w here.
                ap (λ (x : Result Fields × (K × (Session × Server))). x.1.1) (read w here);
            prepares = λ w here. ground (arith, ready.no_secret);
            prepares_seen = λ w here. ground (arith, ready.no_secret, here);
            creates = λ w here.
                ap (λ (x : Result (Unit {0}) × (K × (Session × Server))). x.0) (made w here);
            creates_seen = λ w here.
                ap (λ (x : Result (Unit {0}) × (K × (Session × Server))). x.1.1) (made w here);
            rereads_seen = λ w here.
                ap (λ (x : Result Fields × (K × (Session × Server))). x.1.1) (again w here);
            posts = λ n x. refl;
          }

      first_pass :
          (w : K × (Session × Server))
          → shared w ≡ (session, s)
          → base.last_applied ≡ []
          → IsConnected base
          → shared (pass_over base w) ≡ (session, founded)
      first_pass w here unapplied connected =
          reconcile-created cluster (realm_driver cluster) resync shared blind through base creates
            m w here ready.alive (connected w) ready.finalizer ready.free ready.encoded
            (rw unapplied (effective_payload_first m))

      undrifted :
          payload_differs (new_rep base.spec.head.realm (marked_payload m)) (marked_payload m)
          ≡ false
      undrifted =
          payload_differs-new base.spec.head.realm (marked_payload m)
            (marked_payload-IsWellFields cluster resync base m ready)
            (marked-has_no_id cluster resync base m ready)

      -- One pass creates a realm, and the next one leaves it alone. Take a realm that the server
      -- lacks, and an object for it that is ready and was never applied: not being deleted, with the
      -- finalizer, allowed to manage the realm, with no reference to a Secret, its maps without a key
      -- twice, and with no annotation. A pass leaves the session as it was and adds to the server a
      -- representation of the realm, made of the marked spec and an id, in which there is no drift
      -- from the marked spec. A later pass over the object, which by then has its present spec in
      -- the annotation, the same spec as JSON and the same realm, and a policy other than
      -- FailIfExists, leaves the session and the server as they are. The calls of the cluster do not
      -- touch the session and the server, and connect both objects to the server through a client
      -- that has a token with more than 30 seconds to live; the client decodes what the server
      -- encodes of the representation; errors of its decoding are plain ones; the URLs of the realm
      -- and of the realms are decoded to their paths, and the name is not empty and has no slash and
      -- no escape.
      pub pass_creates_realm :
          (later : Object RealmSpec) (w : K × (Session × Server))
          → shared w ≡ (session, s)
          → base.last_applied ≡ []
          → IsConnected base
          → IsApplied cluster resync later m
          → later.spec.head.realm ≡ base.spec.head.realm
          → IsConnected later
          → (shared (pass_over base w) ≡ (session, founded))
            × (payload_differs (new_rep base.spec.head.realm (marked_payload m)) (marked_payload m)
                ≡ false)
            × (shared (pass_over later (pass_over base w)) ≡ shared (pass_over base w))
      pass_creates_realm later w here unapplied connected applied same connected' =
          let ended = first_pass w here unapplied connected in
          let rep = new_rep base.spec.head.realm (marked_payload m) in
          (
            ended,
            undrifted,
            steady net codec clock cfg session plain valid cluster resync later m applied blind
                connected'
                (subst (λ r. IsPlainAt net codec clock cfg session realm_kind r "") (sym same)
                  path_at)
                rep founded (pass_over base w) ended
                (subst (λ r. Sets.get r founded.realms ≡ some rep) (sym same) held)
                (new_rep-IsWellFields base.spec.head.realm (marked_payload m)
                  (marked_payload-IsWellFields cluster resync base m ready))
                readable undrifted,
          )

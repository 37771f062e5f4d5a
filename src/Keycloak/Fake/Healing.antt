-- ===== src/Keycloak/Fake/Healing.antt =====
-- Passes of the engine over a realm that the server has: the engine, the driver of realms, the
-- client and the server together.
use keycloak_operator.Base.{
  ℕ, String, false, some, ◌≡◌, refl, sym, ap, ◌∙◌, arith, inl, inr, eq_refl, Bool-cases,
  if◌then◌else◌,
}
use keycloak_operator.Errors.{Error, other, Result, ok, err}
use keycloak_operator.Json.{Fields, IsWellFields}
use keycloak_operator.LastApplied.{merge_payload, payload_differs}
use keycloak_operator.LastApplied.Effective.{effective_payload_same}
use keycloak_operator.LastApplied.Merge.{merge_payload-IsWellFields}
use keycloak_operator.Api.{Object}
use keycloak_operator.Api.Specs.Realm.{RealmSpec}
use keycloak_operator.Platform.{Admin, Cluster, Output}
use keycloak_operator.Drivers.Realm.{realm_driver, realm_prepare_payload}
use keycloak_operator.Drivers.Sets
use keycloak_operator.Engine.Encoding.{applied-is_ours}
use keycloak_operator.Engine.Ending.{IsBlindToBooks}
use keycloak_operator.Engine.Correction.{Serves, reconcile-seen}
use keycloak_operator.Engine.Lifecycle.{reconcile}
use keycloak_operator.Keycloak.Client.{Config, Session}
use keycloak_operator.Keycloak.Fake.State.{Server}
use keycloak_operator.Keycloak.Fake.Router.{Net, Codec}
use keycloak_operator.Keycloak.Fake.Served.{IsValid}
use keycloak_operator.Keycloak.Fake.Settling.{IsReadable}
use keycloak_operator.Keycloak.Fake.Updates.{realm_kind}
use keycloak_operator.Keycloak.Fake.Corrections.{IsPlainAt}
use keycloak_operator.Keycloak.Fake.Ready.{
  shared, marked_payload, IsApplied, m-IsWellFields, marked_payload-IsWellFields,
  marked_payload-HasNoNulls,
}
use keycloak_operator.Keycloak.Fake.Passes.{
  client, corrected_rep, corrected_rep-IsWellFields, with_realm, payload_differs-corrected_rep,
  get_realm-held, update_realm-held,
}

module _ {K : Type 0} (net : Net) (codec : Codec) (clock : ℕ) (cfg : Config) (session : Session)
    (plain : (o : Output) (b : String) (e : Error) → codec.decode o b ≡ err e → e.kind ≡ other)
    (valid : IsValid net codec clock cfg session)
    (cluster : Cluster RealmSpec (K × (Session × Server))) (resync : ℕ) (base : Object RealmSpec)
    (m : Fields) (applied : IsApplied cluster resync base m) where
  abbrev held_realm : String
  held_realm = base.spec.head.realm

  abbrev through : Admin (K × (Session × Server))
  through = client net codec clock cfg session plain valid

  abbrev after : Fields → Server → Server
  after rep s = with_realm held_realm (corrected_rep rep (marked_payload m)) s

  serves :
      (rep : Fields) (s : Server)
      → IsPlainAt net codec clock cfg session realm_kind held_realm ""
      → Sets.get held_realm s.realms ≡ some rep
      → IsWellFields rep
      → IsReadable net codec clock cfg session rep
      → Serves
          (realm_driver cluster)
          shared
          through
          base
          m
          rep
          (marked_payload m)
          (session, s)
          (session, after rep s)
  unfolding realm_driver realm_prepare_payload
  serves rep s path held well readable =
      let read = λ (w : K × (Session × Server)) (here : shared w ≡ (session, s)).
        get_realm-held net codec clock cfg session plain valid held_realm rep s path held w here
          readable in
      let written = λ (w : K × (Session × Server)) (here : shared w ≡ (session, s)).
        update_realm-held net codec clock cfg session plain valid held_realm rep s path held w here
          (merge_payload rep (marked_payload m))
          (merge_payload-IsWellFields rep (marked_payload m) well
            (marked_payload-IsWellFields cluster resync base m applied.ready)) in
      record {
        reads = λ w here. ap (λ (x : Result Fields × (K × (Session × Server))). x.0) (read w here);
        reads_seen =
            λ w here. ap (λ (x : Result Fields × (K × (Session × Server))). x.1.1) (read w here);
        prepares = λ w here. ground (arith, applied.ready.no_secret);
        prepares_seen = λ w here. ground (arith, applied.ready.no_secret, here);
        updates = λ w here.
            ap (λ (x : Result (Unit {0}) × (K × (Session × Server))). x.0) (written w here);
        updates_seen = λ w here.
            ap (λ (x : Result (Unit {0}) × (K × (Session × Server))). x.1.1) (written w here);
        posts = λ n x. refl;
      }

  module _ (blind : IsBlindToBooks cluster (shared {K = K}))
      (connected : (w : K × (Session × Server))
        → (cluster.connect base.namespace
            ((realm_driver cluster).spec base.spec).connection_name
            w).0
          ≡ ok through)
      (path : IsPlainAt net codec clock cfg session realm_kind held_realm "") where
    abbrev pass : K × (Session × Server) → K × (Session × Server)
    pass w = (reconcile cluster (realm_driver cluster) resync (base, w)).1.1

    pass_over_held :
        (rep : Fields) (s : Server) (w : K × (Session × Server))
        → shared w ≡ (session, s)
        → Sets.get held_realm s.realms ≡ some rep
        → IsWellFields rep
        → IsReadable net codec clock cfg session rep
        → shared (pass w) ≡ (
            if payload_differs rep (marked_payload m) then (session, after rep s) else (session, s))
    pass_over_held rep s w here held well readable =
        reconcile-seen cluster (realm_driver cluster) resync shared blind through base
          (serves rep s path held well readable) m w here applied.ready.alive (connected w)
          applied.ready.finalizer applied.ready.free applied.policy
          (applied-is_ours cluster (realm_driver cluster) resync base m rep applied.recorded)
          applied.ready.encoded
          (rw applied.recorded
            (effective_payload_same m (m-IsWellFields cluster resync base m applied.ready)))

    pub steady :
        (rep : Fields) (s : Server) (w : K × (Session × Server))
        → shared w ≡ (session, s)
        → Sets.get held_realm s.realms ≡ some rep
        → IsWellFields rep
        → IsReadable net codec clock cfg session rep
        → payload_differs rep (marked_payload m) ≡ false
        → shared (pass w) ≡ shared w
    steady rep s w here held well readable same =
        pass_over_held rep s w here held well readable ∙ rw same (sym here)

    -- One pass heals a realm, and the next one leaves it alone. Take a realm that the server has, with
    -- whatever representation, and an object for it that is applied: not being deleted, with the
    -- finalizer, allowed to manage the realm, with a policy other than FailIfExists and no reference
    -- to a Secret, its maps without a key twice, and with its present spec in the annotation. A pass
    -- ends with the session as it was and with the server as it was where no drift from the marked
    -- spec is found, and with the representation corrected where drift is found; either way the
    -- server then has a representation of the realm without drift, and another pass over the object
    -- leaves the session and the server as they are. The calls of the cluster do not touch the
    -- session and the server, and connect to the server through a client that has a token with more
    -- than 30 seconds to live; the client decodes what the server encodes of the representation and
    -- of the corrected one, and the former has no key twice; errors of its decoding are plain ones;
    -- the URL of the realm is decoded to its segments, and its name has no slash and no escape.
    pub pass_heals_realm :
        (rep : Fields) (s : Server) (w : K × (Session × Server))
        → shared w ≡ (session, s)
        → Sets.get held_realm s.realms ≡ some rep
        → IsWellFields rep
        → IsReadable net codec clock cfg session rep
        → IsReadable net codec clock cfg session (corrected_rep rep (marked_payload m))
        → (shared (pass w) ≡ (
            if payload_differs rep (marked_payload m)
            then (session, after rep s)
            else (session, s)))
          × (now : Fields) × (Sets.get held_realm (shared (pass w)).1.realms ≡ some now)
          × (payload_differs now (marked_payload m) ≡ false)
          × (shared (pass (pass w)) ≡ shared (pass w))
    pass_heals_realm rep s w here held well readable readable' =
        let first = pass_over_held rep s w here held well readable in
        elim (Bool-cases (payload_differs rep (marked_payload m))) [
          | inr same ↦
              let ended : shared (pass w) ≡ (session, s) = first ∙ rw same refl in
              (
                first,
                rep,
                ap (λ (x : Session × Server). Sets.get held_realm x.1.realms) ended ∙ held,
                same,
                steady rep s (pass w) ended held well readable same,
              )
          | inl drift ↦
              let now = corrected_rep rep (marked_payload m) in
              let ended : shared (pass w) ≡ (session, after rep s) = first ∙ rw drift refl in
              let held' : Sets.get held_realm (after rep s).realms ≡ some now =
                Sets.get-put held_realm held_realm now s.realms ∙ rw (eq_refl held_realm) in
              let same : payload_differs now (marked_payload m) ≡ false =
                payload_differs-corrected_rep rep (marked_payload m) well
                  (marked_payload-IsWellFields cluster resync base m applied.ready)
                  (marked_payload-HasNoNulls cluster resync base m applied.ready) in
              (
                first,
                now,
                ap (λ (x : Session × Server). Sets.get held_realm x.1.realms) ended ∙ held',
                same,
                steady now (after rep s) (pass w) ended held'
                    (corrected_rep-IsWellFields rep (marked_payload m) well
                      (marked_payload-IsWellFields cluster resync base m applied.ready))
                    readable' same,
              )
        ]

-- ===== src/Engine/Creation.antt =====
-- A pass that does not find the resource, up to what it leaves behind in the view of an observer.
use keycloak_operator.Base.{ℕ, ◌<>◌, true, false, none, ◌≡◌, ◌∙◌, arith, inl, inr}
use keycloak_operator.Errors.{Error, ok, err, is_not_found, Result-cases}
use keycloak_operator.Json.{Fields}
use keycloak_operator.LastApplied.{effective_payload}
use keycloak_operator.Api.{
  Object, status_false, finalizer_name, condition_ready, reason_retrying, reason_failed,
}
use keycloak_operator.Platform.{Admin, Cluster, normal}
use keycloak_operator.Driver.{Driver}
use keycloak_operator.Engine.{State, secret_retry}
use keycloak_operator.Engine.Status.{emit}
use keycloak_operator.Engine.Keeps.{set_condition-unseen, give_up-unseen, finalize-unseen}
use keycloak_operator.Engine.Ending.{IsBlindToBooks}
use keycloak_operator.Engine.Lifecycle.{
  spec_map_of, after_create, handle_create, read_and_apply, apply_spec, manage, run, reconcile,
}

-- What the driver does for an object with a payload, through a client: in the worlds that look like
-- `c` the resource is not found, `filled` is prepared, and its creation leads to worlds that look
-- like `c'`. A later read, and what is done after it, show nothing.
pub record Creates {T W C : Type 0} (drv : Driver T W) (seen : W → C) (kc : Admin W)
    (base : Object T) (payload filled : Fields) (missing : Error) (c c' : C) : Type 0 where
  pub not_found : is_not_found missing ≡ true
  pub misses : (w : W) → seen w ≡ c → (drv.get kc base w).0 ≡ err missing
  pub misses_seen : (w : W) → seen w ≡ c → seen (drv.get kc base w).1 ≡ c
  pub prepares : (w : W) → seen w ≡ c → (drv.prepare_payload base payload w).0 ≡ ok filled
  pub prepares_seen : (w : W) → seen w ≡ c → seen (drv.prepare_payload base payload w).1 ≡ c
  pub creates : (w : W) → seen w ≡ c → (drv.create kc base (drv.managed_marker filled) w).0 ≡ ok tt
  pub creates_seen :
      (w : W) → seen w ≡ c → seen (drv.create kc base (drv.managed_marker filled) w).1 ≡ c'
  pub rereads_seen : (w : W) → seen w ≡ c' → seen (drv.get kc base w).1 ≡ c'
  pub posts : (m : Fields) (s : State T W) → seen (drv.post_apply kc m s).1.1 ≡ seen s.1

module _ {T W C : Type 0} (cluster : Cluster T W) (drv : Driver T W) (resync : ℕ) (seen : W → C)
    (blind : IsBlindToBooks cluster seen) (kc : Admin W) (base : Object T) {payload filled : Fields}
    {missing : Error} {c c' : C} (creates : Creates drv seen kc base payload filled missing c c')
    (spec_map : Fields) where
  after_create-seen :
      (w : W)
      → seen w ≡ c'
      → seen (after_create cluster drv resync base kc spec_map (base, w)).1.1 ≡ c'
  unfolding after_create
  after_create-seen w e =
      let v = (drv.get kc base w).1 in
      let same : seen v ≡ c' = creates.rereads_seen w e in
      elim (Result-cases (drv.get kc base w).0) [
        | inr (x, failed) ↦ ground (
          arith,
          failed,
          same,
          set_condition-unseen cluster seen blind.cluster_calls.status base condition_ready
              status_false reason_retrying x.message (base, v),
        )
        | inl (remote, read) ↦ elim (Result-cases (drv.post_apply kc remote (base, v)).0) [
          | inr (x, failed) ↦ ground (
            arith,
            read,
            failed,
            same,
            creates.posts remote (base, v),
            give_up-unseen cluster seen blind.cluster_calls.status drv resync base reason_failed
                x.message secret_retry (drv.post_apply kc remote (base, v)).1,
          )
          | inl (changed, posted) ↦ ground (
            arith,
            read,
            posted,
            same,
            creates.posts remote (base, v),
            finalize-unseen cluster seen blind.cluster_calls.status resync base spec_map true
                (drv.post_apply kc remote (base, v)).1 blind.patch_object,
          )
        ]
      ]

  handle_create-seen :
      (w : W)
      → seen w ≡ c
      → seen (handle_create cluster drv resync base kc spec_map payload (base, w)).1.1 ≡ c'
  unfolding handle_create emit
  handle_create-seen w e =
      let v = (drv.prepare_payload base payload w).1 in
      let same : seen v ≡ c = creates.prepares_seen w e in
      let u = (drv.create kc base (drv.managed_marker filled) v).1 in
      let message = "Created " <> base.kind <> " on Keycloak server" in
      let t = (cluster.record_event normal "Created" message u).1 in
      let left : seen t ≡ c' =
        blind.cluster_calls.status.record_event normal "Created" message u
        ∙ creates.creates_seen v same in
      ground (arith, creates.prepares w e, creates.creates v same, after_create-seen t left)

  manage-seen :
      (w : W)
      → seen w ≡ c
      → cluster.contains_finalizer base.finalizers finalizer_name ≡ true
      → drv.protected base ≡ none
      → spec_map_of cluster drv resync base ≡ ok spec_map
      → effective_payload spec_map base.last_applied ≡ ok payload
      → seen (manage cluster drv resync base kc (base, w)).1.1 ≡ c'
  unfolding manage apply_spec read_and_apply
  manage-seen w e finalizer free encoded effective = ground (
    arith,
    finalizer,
    free,
    encoded,
    effective,
    creates.misses w e,
    creates.not_found,
    handle_create-seen (drv.get kc base w).1 (creates.misses_seen w e),
  )

  -- A pass over a resource that the server lacks ends, in the view of the observer, as its creation
  -- ends.
  pub reconcile-created :
      (w : W)
      → seen w ≡ c
      → base.deleting ≡ false
      → (cluster.connect base.namespace (drv.spec base.spec).connection_name w).0 ≡ ok kc
      → cluster.contains_finalizer base.finalizers finalizer_name ≡ true
      → drv.protected base ≡ none
      → spec_map_of cluster drv resync base ≡ ok spec_map
      → effective_payload spec_map base.last_applied ≡ ok payload
      → seen (reconcile cluster drv resync (base, w)).1.1 ≡ c'
  unfolding reconcile run
  reconcile-created w e alive connected finalizer free encoded effective =
      let cn = (drv.spec base.spec).connection_name in
      let v = (cluster.connect base.namespace cn w).1 in
      let same : seen v ≡ c = blind.cluster_calls.connect base.namespace cn w ∙ e in
      blind.cluster_calls.count_reconciliation base.kind _ _
      ∙ ground (arith, alive, connected, manage-seen v same finalizer free encoded effective)

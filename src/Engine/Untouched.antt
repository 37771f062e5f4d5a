-- ===== src/Engine/Untouched.antt =====
-- What a reconciliation shows to an observer who sees nothing of the calls that read the
-- connection or write the custom resource: only what the driver was asked to do.
use keycloak_operator.Base.{
  ℕ, String, ◌<>◌, false, some, ◌≡◌, ◌∙◌, arith, inl, inr, Bool-cases, Option-cases,
}
use keycloak_operator.Errors.{Result-cases}
use keycloak_operator.Json.{Fields}
use keycloak_operator.LastApplied.{effective_payload}
use keycloak_operator.Api.{Object, finalizer_name, reason_failed, reason_protected_realm}
use keycloak_operator.Platform.{Admin, Cluster}
use keycloak_operator.Driver.{Driver}
use keycloak_operator.Engine.Keeps.{IsBlindToStatus, set_condition-unseen, give_up-unseen}
use keycloak_operator.Engine.Lifecycle.{
  read_and_apply, apply_spec, manage, run, reconcile, spec_map_of,
}

pub record IsBlindToCluster {T W C : Type 0} (cluster : Cluster T W) (seen : W → C) : Type 0 where
  pub status : IsBlindToStatus cluster seen
  pub connect :
      (namespace name : String) (w : W) → seen (cluster.connect namespace name w).1 ≡ seen w
  pub update_object : (o : Object T) (w : W) → seen (cluster.update_object o w).1 ≡ seen w
  pub count_reconciliation :
      (kind outcome : String) (w : W)
      → seen (cluster.count_reconciliation kind outcome w).1 ≡ seen w

module _ {T W C : Type 0} (cluster : Cluster T W) (drv : Driver T W) (resync : ℕ) (seen : W → C)
    (blind : IsBlindToCluster cluster seen) where
  abbrev pub Refuses : Object T → Type 0
  Refuses base =
      (kc : Admin W) (spec_map payload : Fields) (w : W)
      → seen (read_and_apply cluster drv resync base kc spec_map payload (base, w)).1.1 ≡ seen w

  -- Whatever the client, `manage` shows nothing.
  abbrev pub IsUnmanaged : Object T → Type 0
  IsUnmanaged base =
      (kc : Admin W) (w : W) → seen (manage cluster drv resync base kc (base, w)).1.1 ≡ seen w

  pub apply_spec-unseen :
      (base : Object T) (kc : Admin W) (w : W)
      → Refuses base
      → seen (apply_spec cluster drv resync base kc (base, w)).1.1 ≡ seen w
  unfolding apply_spec
  apply_spec-unseen base kc w refuses = elim (Result-cases (spec_map_of cluster drv resync base)) [
    | inr (e, p) ↦ ground (
      arith,
      give_up-unseen cluster seen blind.status drv resync base reason_failed
          ("encode spec: " <> e.message) 0 (base, w),
    )
    | inl (m, p) ↦ elim (Result-cases (effective_payload m base.last_applied)) [
      | inr (e, q) ↦ ground (
        arith,
        give_up-unseen cluster seen blind.status drv resync base reason_failed e.message 0
            (base, w),
      )
      | inl (payload, q) ↦ ground (arith, refuses kc m payload w)
    ]
  ]

  pub manage-unseen :
      (base : Object T) (kc : Admin W) (w : W)
      → seen (apply_spec cluster drv resync base kc (base, w)).1.1 ≡ seen w
      → seen (manage cluster drv resync base kc (base, w)).1.1 ≡ seen w
  unfolding manage
  manage-unseen base kc w applied =
      elim (Bool-cases (cluster.contains_finalizer base.finalizers finalizer_name)) [
        | inr absent ↦ ground (
          arith,
          blind.update_object
              (record base { finalizers = cluster.add_finalizer base.finalizers finalizer_name }) w,
        )
        | inl there ↦ elim (Option-cases (drv.protected base)) [
          | inl free ↦ ground (arith, applied)
          | inr (message, held) ↦ ground (
            arith,
            give_up-unseen cluster seen blind.status drv resync base reason_protected_realm message
                0 (base, w),
          )
        ]
      ]

  connect-unseen :
      (base : Object T) (w : W)
      → seen (cluster.connect base.namespace (drv.spec base.spec).connection_name w).1 ≡ seen w
  connect-unseen base w = blind.connect base.namespace (drv.spec base.spec).connection_name w

  run-unseen :
      (base : Object T) (w : W)
      → base.deleting ≡ false
      → IsUnmanaged base
      → seen (run cluster drv resync base (base, w)).1.1 ≡ seen w
  unfolding run
  run-unseen base w alive idle =
      elim (Result-cases
        (cluster.connect base.namespace (drv.spec base.spec).connection_name w).0) [
          | inl (kc, e) ↦ ground (
            arith,
            connect-unseen base w,
            idle kc (cluster.connect base.namespace (drv.spec base.spec).connection_name w).1,
          )
          | inr (x, e) ↦
              grind (arith, connect-unseen base w, set_condition-unseen cluster seen blind.status)
        ]

  pub reconcile-unseen :
      (base : Object T) (w : W)
      → base.deleting ≡ false
      → IsUnmanaged base
      → seen (reconcile cluster drv resync (base, w)).1.1 ≡ seen w
  unfolding reconcile
  reconcile-unseen base w alive idle =
      blind.count_reconciliation base.kind _ _ ∙ run-unseen base w alive idle

  -- The finalizer comes before the first word to the server: while an object that is not being
  -- deleted lacks it, an observer who sees none of the calls about the custom resource and its
  -- connection sees no change: no operation of the driver is called, not even a read.
  pub no_finalizer_untouched :
      (base : Object T) (w : W)
      → base.deleting ≡ false
      → cluster.contains_finalizer base.finalizers finalizer_name ≡ false
      → seen (reconcile cluster drv resync (base, w)).1.1 ≡ seen w
  no_finalizer_untouched base w alive absent = reconcile-unseen base w alive (λ kc v.
      unfold manage in
      ground (
        arith,
        blind.update_object
            (record base { finalizers = cluster.add_finalizer base.finalizers finalizer_name }) v,
      ))

  -- Unless the object is being deleted, a protected resource is refused before the server is asked
  -- anything: while the object is not being deleted and the driver calls it protected, an observer
  -- who sees none of the calls about the custom resource and its connection sees no change: no
  -- other operation of the driver is called.
  pub protected_untouched :
      (base : Object T) (w : W) (message : String)
      → base.deleting ≡ false
      → drv.protected base ≡ some message
      → seen (reconcile cluster drv resync (base, w)).1.1 ≡ seen w
  protected_untouched base w message alive held = reconcile-unseen base w alive (λ kc v.
      unfold manage in
      elim (Bool-cases (cluster.contains_finalizer base.finalizers finalizer_name)) [
        | inr absent ↦ ground (
          arith,
          blind.update_object
              (record base { finalizers = cluster.add_finalizer base.finalizers finalizer_name }) v,
        )
        | inl there ↦ ground (
          arith,
          give_up-unseen cluster seen blind.status drv resync base reason_protected_realm message 0
              (base, v),
        )
      ])

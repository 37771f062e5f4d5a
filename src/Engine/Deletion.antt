-- ===== src/Engine/Deletion.antt =====
-- The deletion of a custom resource: when the finalizer goes, and what is asked of the server.
use keycloak_operator.Base.{ℕ, String, true, false, none, ◌≡◌, ◌∙◌, ◌==◌, eq_iff, arith, inl, inr}
use keycloak_operator.Errors.{Error, Result, ok, err, is_not_found, Result-cases}
use keycloak_operator.Api.{Object, deletion_orphan, deletion_delete, finalizer_name}
use keycloak_operator.Platform.{Admin, Cluster, normal}
use keycloak_operator.Driver.{Driver}
use keycloak_operator.Engine.{Outcome, done, failed}
use keycloak_operator.Engine.Status.{emit}
use keycloak_operator.Engine.Untouched.{IsBlindToCluster}
use keycloak_operator.Engine.Lifecycle.{
  settled, release, outcome_of, handle_deletion, run, reconcile,
}

-- The outcome that the last write of a deletion leads to.
abbrev pub ended : {A : Type 0} → Result A → Outcome
ended (ok _) = done
ended (err e) = failed e

module _ {T W : Type 0} (cluster : Cluster T W) (drv : Driver T W) (resync : ℕ) where
  -- The object without the finalizer.
  abbrev pub released : Object T → Object T
  released base = record base {
    finalizers = cluster.remove_finalizer base.finalizers finalizer_name;
  }

  abbrev pub connection : Object T → W → Result (Admin W) × W
  connection base w = cluster.connect base.namespace (drv.spec base.spec).connection_name w

  release_lem :
      (base : Object T) (w : W)
      → outcome_of cluster drv resync (release cluster drv resync (base, w)).0
        ≡ ended (cluster.update_object (released base) w).0
  release_lem base w = elim (Result-cases (cluster.update_object (released base) w).0) [
    | inl (o, e) ↦ ground arith
    | inr (x, e) ↦ ground arith
  ]

  run-orphan :
      (base : Object T) (w : W)
      → base.deleting ≡ true
      → ((drv.spec base.spec).deletion == deletion_orphan) ≡ true
      → run cluster drv resync base (base, w) ≡ (
        outcome_of cluster drv resync (release cluster drv resync (base, w)).0,
        (release cluster drv resync (base, w)).1,
      )
  unfolding run
  run-orphan base w deleting orphan = ground arith

  seen-release :
      {C : Type 0} (seen : W → C) (base : Object T) (w : W)
      → ((o : Object T) (v : W) → seen (cluster.update_object o v).1 ≡ seen v)
      → seen (release cluster drv resync (base, w)).1.1 ≡ seen w
  seen-release seen base w blind = ground (arith, blind (released base) w)

  -- An orphaned resource needs no server. The reconciliation of an object that is being deleted
  -- under the policy Orphan calls nothing but the write of the object without the finalizer and
  -- the count, so another observer sees no change; and it ends as that write does.
  pub orphan_needs_no_server :
      {C : Type 0} (seen : W → C) (base : Object T) (w : W)
      → base.deleting ≡ true
      → ((drv.spec base.spec).deletion == deletion_orphan) ≡ true
      → ((o : Object T) (v : W) → seen (cluster.update_object o v).1 ≡ seen v)
      → ((k c : String) (v : W) → seen (cluster.count_reconciliation k c v).1 ≡ seen v)
      → (seen (reconcile cluster drv resync (base, w)).1.1 ≡ seen w)
        × ((reconcile cluster drv resync (base, w)).0
            ≡ ended (cluster.update_object (released base) w).0)
  unfolding reconcile
  orphan_needs_no_server seen base w deleting orphan blind_update blind_count = (
    blind_count base.kind _ _
        ∙ rw (run-orphan base w deleting orphan) (seen-release seen base w blind_update),
    rw (run-orphan base w deleting orphan) (release_lem base w),
  )

  -- The state in which the driver is asked to delete.
  abbrev pub connected : Object T → W → W
  connected base w = (connection base w).1

  not_orphan :
      (policy : String) → (policy == deletion_delete) ≡ true → (policy == deletion_orphan) ≡ false
  not_orphan policy h = rw ((eq_iff policy deletion_delete).0 h)

  run-deletion :
      (base : Object T) (w : W) (kc : Admin W)
      → base.deleting ≡ true
      → ((drv.spec base.spec).deletion == deletion_orphan) ≡ false
      → (connection base w).0 ≡ ok kc
      → run cluster drv resync base (base, w)
        ≡ handle_deletion cluster drv resync base kc (base, connected base w)
  unfolding run
  run-deletion base w kc deleting kept e = ground arith

  handle_deletion-failed :
      (base : Object T) (w : W) (kc : Admin W) (e : Error)
      → ((drv.spec base.spec).deletion == deletion_delete) ≡ true
      → (drv.delete kc base w).0 ≡ err e
      → is_not_found e ≡ false
      → handle_deletion cluster drv resync base kc (base, w)
        ≡ (failed e, (base, (drv.delete kc base w).1))
  unfolding handle_deletion
  handle_deletion-failed base w kc e policy refused known = ground arith

  -- The finalizer outlives a failed deletion. Where an object under the policy Delete is being
  -- deleted, its connection is available and the driver fails to delete with an error other than
  -- "not found", that error is returned, the object keeps its finalizer and all else, and an
  -- observer who is blind to the connection, the deletion and the count sees no change: the object
  -- is not written.
  pub failed_deletion_keeps_finalizer :
      {C : Type 0} (seen : W → C) (base : Object T) (w : W) (kc : Admin W) (e : Error)
      → base.deleting ≡ true
      → ((drv.spec base.spec).deletion == deletion_delete) ≡ true
      → (connection base w).0 ≡ ok kc
      → (drv.delete kc base (connected base w)).0 ≡ err e
      → is_not_found e ≡ false
      → ((namespace name : String) (v : W) → seen (cluster.connect namespace name v).1 ≡ seen v)
      → ((o : Object T) (v : W) → seen (drv.delete kc o v).1 ≡ seen v)
      → ((k c : String) (v : W) → seen (cluster.count_reconciliation k c v).1 ≡ seen v)
      → ((reconcile cluster drv resync (base, w)).0 ≡ failed e)
        × ((reconcile cluster drv resync (base, w)).1.0 ≡ base)
        × (seen (reconcile cluster drv resync (base, w)).1.1 ≡ seen w)
  unfolding reconcile
  failed_deletion_keeps_finalizer seen base w kc e deleting policy c refused known blind_connect
        blind_delete blind_count =
      let r : run cluster drv resync base (base, w)
          ≡ (failed e, (base, (drv.delete kc base (connected base w)).1)) =
        run-deletion base w kc deleting (not_orphan _ policy) c
        ∙ handle_deletion-failed base (connected base w) kc e policy refused known in
      (
        rw r,
        rw r,
        blind_count base.kind _ _
            ∙ rw r (blind_delete base (connected base w) ∙ blind_connect _ _ w),
      )

  -- The world in which the object is released, after the event.
  abbrev pub reported : Object T → Admin W → W → W
  reported base kc w =
      (cluster.record_event normal "Deleted" "Deleted resource on Keycloak server"
        (drv.delete kc base (connected base w)).1).1

  handle_deletion-settled :
      (base : Object T) (w : W) (kc : Admin W)
      → ((drv.spec base.spec).deletion == deletion_delete) ≡ true
      → settled (drv.delete kc base (connected base w)).0 ≡ none
      → (handle_deletion cluster drv resync base kc (base, connected base w)).0
        ≡ ended (cluster.update_object (released base) (reported base kc w)).0
  unfolding handle_deletion emit
  handle_deletion-settled base w kc policy gone =
      ground (arith, release_lem base (reported base kc w))

  -- A settled deletion releases the object. Where an object under the policy Delete is being
  -- deleted, its connection is available, and the driver deletes the resource or finds that it is
  -- gone, the object is written without the finalizer, and the reconciliation ends as that write
  -- does.
  pub settled_deletion_releases :
      (base : Object T) (w : W) (kc : Admin W)
      → base.deleting ≡ true
      → ((drv.spec base.spec).deletion == deletion_delete) ≡ true
      → (connection base w).0 ≡ ok kc
      → settled (drv.delete kc base (connected base w)).0 ≡ none
      → (reconcile cluster drv resync (base, w)).0
        ≡ ended (cluster.update_object (released base) (reported base kc w)).0
  unfolding reconcile
  settled_deletion_releases base w kc deleting policy c gone =
      rw (run-deletion base w kc deleting (not_orphan _ policy) c)
        (handle_deletion-settled base w kc policy gone)

  handle_deletion-seen :
      {C : Type 0} (seen : W → C) (base : Object T) (w : W) (kc : Admin W)
      → IsBlindToCluster cluster seen
      → ((drv.spec base.spec).deletion == deletion_delete) ≡ true
      → settled (drv.delete kc base w).0 ≡ none
      → seen (handle_deletion cluster drv resync base kc (base, w)).1.1
        ≡ seen (drv.delete kc base w).1
  unfolding handle_deletion emit
  handle_deletion-seen seen base w kc blind policy gone =
      let v = (drv.delete kc base w).1 in
      let told = cluster.record_event normal "Deleted" "Deleted resource on Keycloak server" v in
      ground (
        arith,
        blind.update_object (released base) told.1,
        blind.status.record_event normal "Deleted" "Deleted resource on Keycloak server" v,
      )

  -- A settled deletion shows, to an observer who sees none of the calls of the cluster, what the
  -- driver did.
  pub reconcile-deleted :
      {C : Type 0} (seen : W → C) (base : Object T) (w : W) (kc : Admin W)
      → IsBlindToCluster cluster seen
      → base.deleting ≡ true
      → ((drv.spec base.spec).deletion == deletion_delete) ≡ true
      → (connection base w).0 ≡ ok kc
      → settled (drv.delete kc base (connected base w)).0 ≡ none
      → seen (reconcile cluster drv resync (base, w)).1.1
        ≡ seen (drv.delete kc base (connected base w)).1
  unfolding reconcile
  reconcile-deleted seen base w kc blind deleting policy c gone =
      blind.count_reconciliation base.kind _ _
      ∙ rw (run-deletion base w kc deleting (not_orphan _ policy) c)
          (handle_deletion-seen seen base (connected base w) kc blind policy gone)

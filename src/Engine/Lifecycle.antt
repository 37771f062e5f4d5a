-- ===== src/Engine/Lifecycle.antt =====
-- engine.go: `handleCreate`, `handleExisting`, `handleDeletion` and `Reconcile`.
use keycloak_operator.Base.{
  ℕ, String, ◌<>◌, Bool, true, false, not, ◌&&◌, ◌||◌, Option, none, some, [], ◌==◌, if◌then◌else◌,
}
use keycloak_operator.Errors.{Error, Result, ok, err, is_not_found, is_conflict}
use keycloak_operator.World.{Act, pure, ◌>>=◌, ◌>>◌}
use keycloak_operator.Json.{Fields}
use keycloak_operator.Json.Text.{text_eq}
use keycloak_operator.LastApplied.{effective_payload, merge_payload, payload_differs}
use keycloak_operator.Api.{
  Object, status_false, finalizer_name, adoption_adopt, adoption_fail_if_exists, deletion_orphan,
  deletion_delete, condition_ready, condition_synced, reason_retrying, reason_failed,
  reason_connection_unavailable, reason_already_exists, reason_secret_missing,
  reason_protected_realm,
}
use keycloak_operator.Platform.{Admin, Cluster, normal}
use keycloak_operator.Driver.{Driver}
use keycloak_operator.Engine.{
  Outcome, done, requeue, failed, second, connection_retry, secret_retry, class_name, classify,
  to_json_map, strip, State, call, modify, current, write,
}
use keycloak_operator.Engine.Status.{set_condition, fail, emit, finalize}

-- The error of a deletion that is not settled: a resource that is not found is gone.
abbrev pub settled : Result (Unit {0}) → Option Error
settled (ok _) = none
settled (err e) = if is_not_found e then none else some e

module _ {T W : Type 0} (cluster : Cluster T W) (drv : Driver T W) (resync : ℕ) where
  open cluster use {
    update_object, count_reconciliation, count_drift_correction, connect, find_status_condition,
    contains_finalizer, add_finalizer, remove_finalizer,
  }

  abbrev pub M : Type 0 → Type 0
  M A = Act (State T W) A

  -- `fail`, and then a return without an error.
  abbrev pub give_up : Object T → String → String → ℕ → M Outcome
  give_up base reason message after = fail cluster base reason message >> pure (requeue after)

  -- The two conditions of a transient error, and a return of it.
  abbrev pub retry : Object T → String → Error → M Outcome
  retry base what e = do
    set_condition cluster base condition_ready status_false reason_retrying e.message
    set_condition cluster base condition_synced status_false reason_retrying what
    pure (failed e)

  -- Without the finalizer, which is then written to the cluster.
  abbrev pub release : M (Result (Unit {0}))
  release = do
    modify (λ o. record o { finalizers = remove_finalizer o.finalizers finalizer_name })
    write update_object

  abbrev pub outcome_of : Result (Unit {0}) → Outcome
  outcome_of (ok _) = done
  outcome_of (err e) = failed e

  -- From the re-fetch on.
  unfoldable pub after_create : Object T → Admin W → Fields → M Outcome
  after_create base kc spec_map = do
    r ← call (drv.get kc)
    elim r [
      | err e ↦ do
        set_condition cluster base condition_ready status_false reason_retrying e.message
        pure (failed e)
      | ok remote ↦ do
        p ← drv.post_apply kc remote
        elim p [
          | err e ↦ give_up base reason_failed e.message secret_retry
          | ok _ ↦ finalize cluster resync base spec_map true
        ]
    ]

  unfoldable pub handle_create : Object T → Admin W → Fields → Fields → M Outcome
  handle_create base kc spec_map payload = do
    prepared ← call (λ o. drv.prepare_payload o payload)
    elim prepared [
      | err e ↦ give_up base reason_secret_missing e.message secret_retry
      | ok filled ↦ do
        created ← call (λ o. drv.create kc o (drv.managed_marker filled))
        elim created [
          | err e ↦
              if is_conflict e
              then give_up base reason_already_exists
                  ("Resource appeared during reconciliation: " <> e.message) 0
              else retry base "Create failed" e
          | ok _ ↦ do
            emit cluster normal "Created" ("Created " <> base.kind <> " on Keycloak server")
            after_create base kc spec_map
        ]
    ]

  -- From `PostApply` on.
  unfoldable pub after_update : Object T → Admin W → Fields → Fields → Bool → M Outcome
  after_update base kc spec_map remote changed = do
    p ← drv.post_apply kc remote
    elim p [
      | err e ↦ give_up base reason_failed e.message secret_retry
      | ok post_changed ↦ do
        if post_changed then call (λ _. count_drift_correction base.kind) else pure tt
        finalize cluster resync base spec_map (changed || post_changed)
    ]

  unfoldable pub correct_drift : Object T → Admin W → Fields → Fields → Fields → M Outcome
  correct_drift base kc spec_map payload remote = do
    call (λ _. count_drift_correction base.kind)
    updated ← call (λ o. drv.update kc o (drv.id remote) (merge_payload remote payload))
    elim updated [
      | err e ↦
          if is_conflict e
          then give_up base reason_already_exists e.message 0
          else retry base "Update failed" e
      | ok _ ↦ do
        emit cluster normal "Updated" ("Updated " <> base.kind <> " on Keycloak server")
        after_update base kc spec_map remote true
    ]

  -- The pass over a resource that is managed, or is being adopted.
  unfoldable pub enforce : Object T → Admin W → Fields → Fields → Fields → Bool → M Outcome
  enforce base kc spec_map payload remote adopting = do
    prepared ← call (λ o. drv.prepare_payload o (drv.managed_marker payload))
    elim prepared [
      | err e ↦ give_up base reason_secret_missing e.message secret_retry
      | ok filled ↦
          if adopting || payload_differs remote filled
          then correct_drift base kc spec_map filled remote
          else after_update base kc spec_map remote false
    ]

  -- Carries the marker, or was applied by an earlier pass.
  abbrev pub is_ours : Object T → Fields → Bool
  is_ours base remote = drv.is_managed remote || not (text_eq base.last_applied [])

  unfoldable pub handle_existing : Object T → Admin W → Fields → Fields → Fields → M Outcome
  handle_existing base kc spec_map payload remote =
      if (drv.spec base.spec).adoption == adoption_fail_if_exists
      then give_up base reason_already_exists
          "adoptionPolicy is FailIfExists and the resource exists on the server" 0
      else if is_ours base remote
      then enforce base kc spec_map payload remote false
      else if (drv.spec base.spec).adoption == adoption_adopt
      then (do
        emit cluster normal "Adopted" ("Adopted existing " <> base.kind)
        enforce base kc spec_map payload remote true)
      else give_up base reason_already_exists
          "A foreign resource with the same key exists; set adoptionPolicy: Adopt to take it over" 0

  unfoldable pub handle_deletion : Object T → Admin W → M Outcome
  handle_deletion base kc =
      if (drv.spec base.spec).deletion == deletion_delete
      then (do
        deleted ← call (drv.delete kc)
        elim (settled deleted) [
          | some e ↦ pure (failed e)
          | none ↦ do
            emit cluster normal "Deleted" "Deleted resource on Keycloak server"
            r ← release
            pure (outcome_of r)
        ])
      else (do r ← release; pure (outcome_of r))

  -- From the read of the remote resource on.
  unfoldable pub read_and_apply : Object T → Admin W → Fields → Fields → M Outcome
  read_and_apply base kc spec_map payload = do
    r ← call (drv.get kc)
    elim r [
      | ok remote ↦ handle_existing base kc spec_map payload remote
      | err e ↦
          if is_not_found e
          then handle_create base kc spec_map payload
          else retry base "Server unreachable" e
    ]

  -- The spec as the payload and the annotation know it.
  unfoldable pub spec_map_of : Object T → Result Fields
  spec_map_of base = elim (to_json_map (drv.spec_json base.spec)) [
    | err e ↦ err e
    | ok m ↦ ok (strip drv.operator_fields m)
  ]

  -- From the effective payload on.
  unfoldable pub apply_spec : Object T → Admin W → M Outcome
  apply_spec base kc = elim (spec_map_of base) [
    | err e ↦ give_up base reason_failed ("encode spec: " <> e.message) 0
    | ok spec_map ↦ elim (effective_payload spec_map base.last_applied) [
      | err e ↦ give_up base reason_failed e.message 0
      | ok payload ↦ read_and_apply base kc spec_map payload
    ]
  ]

  -- From the finalizer on.
  unfoldable pub manage : Object T → Admin W → M Outcome
  manage base kc =
      if contains_finalizer base.finalizers finalizer_name
      then elim (drv.protected base) [
        | some message ↦ give_up base reason_protected_realm message 0
        | none ↦ apply_spec base kc
      ]
      else (do
        modify (λ o. record o { finalizers = add_finalizer o.finalizers finalizer_name })
        r ← write update_object
        elim r [ ok _ ↦ pure (requeue second) | err e ↦ pure (failed e) ])

  unfoldable pub run : Object T → M Outcome
  run base =
      if base.deleting && ((drv.spec base.spec).deletion == deletion_orphan)
      then (do r ← release; pure (outcome_of r))
      else (do
        connection ← call (λ o. connect o.namespace (drv.spec o.spec).connection_name)
        elim connection [
          | err e ↦ do
            set_condition cluster base condition_ready status_false reason_connection_unavailable
                e.message
            set_condition cluster base condition_synced status_false reason_connection_unavailable
                "Connection unavailable"
            pure (requeue connection_retry)
          | ok kc ↦ if base.deleting then handle_deletion base kc else manage base kc
        ])

  -- `Reconcile`, with its deferred count by the Ready condition that the object ends with.
  unfoldable pub reconcile : M Outcome
  reconcile = do
    base ← current
    result ← run base
    o ← current
    let ready = find_status_condition o.status.conditions condition_ready
    call (λ _. count_reconciliation base.kind (class_name (classify ready)))
    pure result

-- ===== src/Engine/Correction.antt =====
-- A pass that finds the resource, up to what it leaves behind in the view of an observer: the
-- driver is described by what it does in worlds that look alike.
use keycloak_operator.Base.{
  ℕ, ◌<>◌, true, false, none, ◌≡◌, ◌∙◌, arith, inl, inr, ◌==◌, Bool-cases, if◌then◌else◌,
}
use keycloak_operator.Errors.{ok}
use keycloak_operator.Json.{Fields}
use keycloak_operator.LastApplied.{effective_payload, merge_payload, payload_differs}
use keycloak_operator.Api.{Object, adoption_fail_if_exists, finalizer_name}
use keycloak_operator.Platform.{Admin, Cluster, normal}
use keycloak_operator.Driver.{Driver}
use keycloak_operator.Engine.{State}
use keycloak_operator.Engine.Keeps.{emit-unseen}
use keycloak_operator.Engine.Status.{emit}
use keycloak_operator.Engine.Ending.{IsBlindToBooks, after_update-unseen}
use keycloak_operator.Engine.Lifecycle.{
  spec_map_of, is_ours, after_update, correct_drift, enforce, handle_existing, read_and_apply,
  apply_spec, manage, run, reconcile,
}

-- What the driver does for an object with a payload, through a client and in the worlds that look
-- like `c`: it reads `remote`, prepares `filled`, and an update with the two merged leads to worlds
-- that look like `c'`. What it does after an update shows nothing.
pub record Serves {T W C : Type 0} (drv : Driver T W) (seen : W → C) (kc : Admin W)
    (base : Object T) (payload remote filled : Fields) (c c' : C) : Type 0 where
  pub reads : (w : W) → seen w ≡ c → (drv.get kc base w).0 ≡ ok remote
  pub reads_seen : (w : W) → seen w ≡ c → seen (drv.get kc base w).1 ≡ c
  pub prepares :
      (w : W) → seen w ≡ c → (drv.prepare_payload base (drv.managed_marker payload) w).0 ≡ ok filled
  pub prepares_seen :
      (w : W) → seen w ≡ c → seen (drv.prepare_payload base (drv.managed_marker payload) w).1 ≡ c
  pub updates :
      (w : W)
      → seen w ≡ c
      → (drv.update kc base (drv.id remote) (merge_payload remote filled) w).0 ≡ ok tt
  pub updates_seen :
      (w : W)
      → seen w ≡ c
      → seen (drv.update kc base (drv.id remote) (merge_payload remote filled) w).1 ≡ c'
  pub posts : (m : Fields) (s : State T W) → seen (drv.post_apply kc m s).1.1 ≡ seen s.1

module _ {T W C : Type 0} (cluster : Cluster T W) (drv : Driver T W) (resync : ℕ) (seen : W → C)
    (blind : IsBlindToBooks cluster seen) (kc : Admin W) (base : Object T)
    {payload remote filled : Fields} {c c' : C}
    (serves : Serves drv seen kc base payload remote filled c c') (spec_map : Fields) where
  correct_drift-seen :
      (w : W)
      → seen w ≡ c
      → seen (correct_drift cluster drv resync base kc spec_map filled remote (base, w)).1.1 ≡ c'
  unfolding correct_drift
  correct_drift-seen w e =
      let v = (cluster.count_drift_correction base.kind w).1 in
      let same : seen v ≡ c = blind.count_drift_correction base.kind w ∙ e in
      let u = (drv.update kc base (drv.id remote) (merge_payload remote filled) v).1 in
      let message = "Updated " <> base.kind <> " on Keycloak server" in
      let s' : State T W = (emit cluster normal "Updated" message (base, u)).1 in
      let left : seen (after_update cluster drv resync base kc spec_map remote true s').1.1 ≡ c' =
        after_update-unseen cluster drv resync seen blind base kc spec_map remote (serves.posts)
          true s'
        ∙ emit-unseen cluster seen blind.cluster_calls.status normal "Updated" message (base, u)
        ∙ serves.updates_seen v same in
      ground (arith, serves.updates v same, left)

  -- What the pass leaves behind.
  abbrev pub corrected : C
  corrected = if payload_differs remote filled then c' else c

  enforce-seen :
      (w : W)
      → seen w ≡ c
      → seen (enforce cluster drv resync base kc spec_map payload remote false (base, w)).1.1
        ≡ corrected
  unfolding enforce
  enforce-seen w e =
      let v = (drv.prepare_payload base (drv.managed_marker payload) w).1 in
      let same : seen v ≡ c = serves.prepares_seen w e in
      elim (Bool-cases (payload_differs remote filled)) [
        | inl d ↦ ground (arith, serves.prepares w e, d, correct_drift-seen v same)
        | inr d ↦ ground (
          arith,
          serves.prepares w e,
          d,
          after_update-unseen cluster drv resync seen blind base kc spec_map remote (serves.posts)
              false (base, v),
          same,
        )
      ]

  read_and_apply-seen :
      (w : W)
      → seen w ≡ c
      → ((drv.spec base.spec).adoption == adoption_fail_if_exists) ≡ false
      → is_ours cluster drv resync base remote ≡ true
      → seen (read_and_apply cluster drv resync base kc spec_map payload (base, w)).1.1 ≡ corrected
  unfolding read_and_apply handle_existing
  read_and_apply-seen w e policy ours = ground (
    arith,
    serves.reads w e,
    policy,
    ours,
    enforce-seen (drv.get kc base w).1 (serves.reads_seen w e),
  )

  manage-seen :
      (w : W)
      → seen w ≡ c
      → cluster.contains_finalizer base.finalizers finalizer_name ≡ true
      → drv.protected base ≡ none
      → ((drv.spec base.spec).adoption == adoption_fail_if_exists) ≡ false
      → is_ours cluster drv resync base remote ≡ true
      → spec_map_of cluster drv resync base ≡ ok spec_map
      → effective_payload spec_map base.last_applied ≡ ok payload
      → seen (manage cluster drv resync base kc (base, w)).1.1 ≡ corrected
  unfolding manage apply_spec
  manage-seen w e finalizer free policy ours encoded effective =
      ground (arith, finalizer, free, encoded, effective, read_and_apply-seen w e policy ours)

  -- A pass over a resource that the server has and that is the object's own: it ends, in the view of
  -- the observer, as the update ends if there is drift, and as it began if there is none.
  pub reconcile-seen :
      (w : W)
      → seen w ≡ c
      → base.deleting ≡ false
      → (cluster.connect base.namespace (drv.spec base.spec).connection_name w).0 ≡ ok kc
      → cluster.contains_finalizer base.finalizers finalizer_name ≡ true
      → drv.protected base ≡ none
      → ((drv.spec base.spec).adoption == adoption_fail_if_exists) ≡ false
      → is_ours cluster drv resync base remote ≡ true
      → spec_map_of cluster drv resync base ≡ ok spec_map
      → effective_payload spec_map base.last_applied ≡ ok payload
      → seen (reconcile cluster drv resync (base, w)).1.1 ≡ corrected
  unfolding reconcile run
  reconcile-seen w e alive connected finalizer free policy ours encoded effective =
      let cn = (drv.spec base.spec).connection_name in
      let v = (cluster.connect base.namespace cn w).1 in
      let same : seen v ≡ c = blind.cluster_calls.connect base.namespace cn w ∙ e in
      blind.cluster_calls.count_reconciliation base.kind _ _
      ∙ ground
          (arith, alive, connected, manage-seen v same finalizer free policy ours encoded effective)

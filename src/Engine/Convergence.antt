-- ===== src/Engine/Convergence.antt =====
-- The pass over a resource that is as the spec wants it.
use keycloak_operator.Base.{ℕ, String, true, false, some, ◌≡◌, ◌==◌, arith}
use keycloak_operator.Errors.{ok}
use keycloak_operator.Json.{Value, object, Fields, lookup, IsWell, IsWellFields}
use keycloak_operator.Json.Text.{marshal}
use keycloak_operator.LastApplied.{effective_payload, payload_differs}
use keycloak_operator.LastApplied.Effective.{effective_payload_same}
use keycloak_operator.LastApplied.Differs.{Stored, payload_differs_converges}
use keycloak_operator.Api.{Object, adoption_fail_if_exists}
use keycloak_operator.Platform.{Admin, Cluster}
use keycloak_operator.Driver.{Driver}
use keycloak_operator.Engine.{State}
use keycloak_operator.Engine.Encoding.{spec_map_of-IsWellFields, applied-is_ours}
use keycloak_operator.Engine.Ending.{IsBlindToBooks, after_update-unseen}
use keycloak_operator.Engine.Untouched.{IsBlindToCluster, manage-unseen, reconcile-unseen}
use keycloak_operator.Engine.Lifecycle.{
  spec_map_of, is_ours, enforce, handle_existing, read_and_apply, apply_spec, reconcile,
}

-- An observer who sees nothing but the driver's writes of the resource itself: create, update and
-- delete.
pub record IsBlindToPass {T W C : Type 0} (cluster : Cluster T W) (drv : Driver T W) (seen : W → C)
    : Type 0 where
  pub cluster_calls : IsBlindToCluster cluster seen
  pub patch_object : (o b : Object T) (w : W) → seen (cluster.patch_object o b w).1 ≡ seen w
  pub count_drift_correction :
      (k : String) (w : W) → seen (cluster.count_drift_correction k w).1 ≡ seen w
  pub get : (kc : Admin W) (o : Object T) (w : W) → seen (drv.get kc o w).1 ≡ seen w
  pub prepare_payload :
      (o : Object T) (m : Fields) (w : W) → seen (drv.prepare_payload o m w).1 ≡ seen w
  pub post_apply :
      (kc : Admin W) (m : Fields) (s : State T W) → seen (drv.post_apply kc m s).1.1 ≡ seen s.1

module _ {T W C : Type 0} (cluster : Cluster T W) (drv : Driver T W) (resync : ℕ) (seen : W → C)
    (blind : IsBlindToPass cluster drv seen) where
  books : IsBlindToBooks cluster seen
  books = record {
    cluster_calls = blind.cluster_calls;
    patch_object = blind.patch_object;
    count_drift_correction = blind.count_drift_correction;
  }

  enforce-steady :
      (base : Object T) (kc : Admin W) (spec_map payload remote filled : Fields) (w : W)
      → (drv.prepare_payload base (drv.managed_marker payload) w).0 ≡ ok filled
      → payload_differs remote filled ≡ false
      → seen (enforce cluster drv resync base kc spec_map payload remote false (base, w)).1.1
        ≡ seen w
  unfolding enforce
  enforce-steady base kc spec_map payload remote filled w e same = ground (
    arith,
    blind.prepare_payload base (drv.managed_marker payload) w,
    after_update-unseen cluster drv resync seen books base kc spec_map remote (blind.post_apply kc)
        false (base, (drv.prepare_payload base (drv.managed_marker payload) w).1),
  )

  read_and_apply-steady :
      (base : Object T) (kc : Admin W) (spec_map payload remote : Fields) (w : W)
      → ((drv.spec base.spec).adoption == adoption_fail_if_exists) ≡ false
      → is_ours cluster drv resync base remote ≡ true
      → (drv.get kc base w).0 ≡ ok remote
      → ((v : W)
          → seen (enforce cluster drv resync base kc spec_map payload remote false (base, v)).1.1
            ≡ seen v)
      → seen (read_and_apply cluster drv resync base kc spec_map payload (base, w)).1.1 ≡ seen w
  unfolding read_and_apply handle_existing
  read_and_apply-steady base kc spec_map payload remote w policy ours e steady =
      ground (arith, steady (drv.get kc base w).1, blind.get kc base w)

  -- A pass over a resource in the wanted state sends nothing. Take an object that is not being
  -- deleted, that may exist on the server under its adoption policy, and whose annotation holds
  -- its present spec. If the server returns a resource that has each entry of the prepared payload
  -- as it was sent, or lacks it for being null or a zero value, then an observer who sees no call
  -- but the driver's create, update and delete sees no change, whatever else the server adds to
  -- the resource.
  pub steady_pass_sends_no_update :
      (base : Object T) (w : W) (spec_map remote filled : Fields)
      → base.deleting ≡ false
      → ((drv.spec base.spec).adoption == adoption_fail_if_exists) ≡ false
      → IsWell (drv.spec_json base.spec)
      → spec_map_of cluster drv resync base ≡ ok spec_map
      → base.last_applied ≡ marshal (object spec_map)
      → ((kc : Admin W) (v : W) → (drv.get kc base v).0 ≡ ok remote)
      → ((v : W) → (drv.prepare_payload base (drv.managed_marker spec_map) v).0 ≡ ok filled)
      → IsWellFields filled
      → ((k : String) (u : Value) → lookup k filled ≡ some u → Stored u (lookup k remote))
      → seen (reconcile cluster drv resync (base, w)).1.1 ≡ seen w
  unfolding apply_spec
  steady_pass_sends_no_update base w m remote filled alive policy well encoded recorded reads
        prepares wf stored =
      let same : payload_differs remote filled ≡ false =
        payload_differs_converges filled remote wf stored in
      let effective : effective_payload m base.last_applied ≡ ok m = rw recorded (
        effective_payload_same m
          (spec_map_of-IsWellFields cluster drv resync base m well encoded)) in
      let steady : (kc : Admin W) (v : W)
          → seen (read_and_apply cluster drv resync base kc m m (base, v)).1.1 ≡ seen v =
        λ kc v.
          read_and_apply-steady base kc m m remote v policy
            (applied-is_ours cluster drv resync base m remote recorded) (reads kc v)
            (λ u. enforce-steady base kc m m remote filled u (prepares u) same) in
      reconcile-unseen cluster drv resync seen blind.cluster_calls base w alive (λ kc v.
        manage-unseen cluster drv resync seen blind.cluster_calls base kc v
          (ground (arith, encoded, effective, steady kc v)))

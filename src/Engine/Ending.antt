-- ===== src/Engine/Ending.antt =====
-- The end of a pass over a resource that the server has: it shows nothing to an observer who sees
-- none of the calls of the cluster.
use keycloak_operator.Base.{
  ℕ, String, Bool, true, false, ◌||◌, ◌≡◌, refl, inl, inr, arith, if◌then◌else◌,
}
use keycloak_operator.Errors.{Result-cases}
use keycloak_operator.World.{pure}
use keycloak_operator.Json.{Fields}
use keycloak_operator.Api.{Object, reason_failed}
use keycloak_operator.Platform.{Admin, Cluster}
use keycloak_operator.Driver.{Driver}
use keycloak_operator.Engine.{State, call, secret_retry}
use keycloak_operator.Engine.Keeps.{give_up-unseen, finalize-unseen}
use keycloak_operator.Engine.Untouched.{IsBlindToCluster}
use keycloak_operator.Engine.Lifecycle.{after_update}

-- An observer who sees none of the calls of the cluster.
pub record IsBlindToBooks {T W C : Type 0} (cluster : Cluster T W) (seen : W → C) : Type 0 where
  pub cluster_calls : IsBlindToCluster cluster seen
  pub patch_object : (o b : Object T) (w : W) → seen (cluster.patch_object o b w).1 ≡ seen w
  pub count_drift_correction :
      (k : String) (w : W) → seen (cluster.count_drift_correction k w).1 ≡ seen w

module _ {T W C : Type 0} (cluster : Cluster T W) (drv : Driver T W) (resync : ℕ) (seen : W → C)
    (blind : IsBlindToBooks cluster seen) (base : Object T) (kc : Admin W)
    (spec_map remote : Fields)
    (posts : (m : Fields) (s : State T W) → seen (drv.post_apply kc m s).1.1 ≡ seen s.1) where
  count_drift-unseen :
      (kind : String) (b : Bool) (s : State T W)
      → seen
          ((if b then call {T = T} (λ _. cluster.count_drift_correction kind) else pure tt) s).1.1
        ≡ seen s.1
  count_drift-unseen kind true s = blind.count_drift_correction kind s.1
  count_drift-unseen kind false s = refl

  pub after_update-unseen :
      (changed : Bool) (s : State T W)
      → seen (after_update cluster drv resync base kc spec_map remote changed s).1.1 ≡ seen s.1
  unfolding after_update
  after_update-unseen changed s = elim (Result-cases (drv.post_apply kc remote s).0) [
    | inr (x, e) ↦ ground (
      arith,
      posts remote s,
      give_up-unseen cluster seen blind.cluster_calls.status drv resync base reason_failed x.message
          secret_retry (drv.post_apply kc remote s).1,
    )
    | inl (post_changed, e) ↦
        let s' : State T W = (drv.post_apply kc remote s).1 in
        let s'' : State T W =
          ((if post_changed then call (λ _. cluster.count_drift_correction base.kind) else pure tt)
            s').1 in
        ground (
          arith,
          posts remote s,
          count_drift-unseen base.kind post_changed s',
          finalize-unseen cluster seen blind.cluster_calls.status resync base spec_map
              (changed || post_changed) s'' blind.patch_object,
        )
  ]

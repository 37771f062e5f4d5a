-- ===== src/Engine/Keeps.antt =====
-- What the parts of the engine leave alone. An observer is any function of the world; where it
-- sees none of the calls but those of one kind, a function that changes nothing in its view makes
-- no call of that kind.
use keycloak_operator.Base.{ℕ, String, Bool, ◌≡◌, arith}
use keycloak_operator.Errors.{Error}
use keycloak_operator.Json.{Fields}
use keycloak_operator.Api.{Object, ConditionStatus}
use keycloak_operator.Platform.{Cluster, EventType}
use keycloak_operator.Driver.{Driver}
use keycloak_operator.Engine.{State}
use keycloak_operator.Engine.Status.{emit, patch_status_of, set_condition, fail, succeed, finalize}
use keycloak_operator.Engine.Lifecycle.{give_up, retry}

-- The calls of the cluster that tell of a reconciliation are out of the observer's view.
pub record IsBlindToStatus {T W C : Type 0} (cluster : Cluster T W) (seen : W → C) : Type 0 where
  pub patch_status : (o b : Object T) (w : W) → seen (cluster.patch_status o b w).1 ≡ seen w
  pub record_event :
      (t : EventType) (reason message : String) (w : W)
      → seen (cluster.record_event t reason message w).1 ≡ seen w

module _ {T W C : Type 0} (cluster : Cluster T W) (seen : W → C)
    (blind : IsBlindToStatus cluster seen) where
  pub emit-unseen :
      (t : EventType) (reason message : String) (s : State T W)
      → seen (emit cluster t reason message s).1.1 ≡ seen s.1
  unfolding emit
  emit-unseen t reason message s = blind.record_event t reason message s.1

  pub set_condition-unseen :
      (base : Object T) (c : String) (v : ConditionStatus) (reason message : String) (s : State T W)
      → seen (set_condition cluster base c v reason message s).1.1 ≡ seen s.1
  unfolding set_condition patch_status_of
  set_condition-unseen base c v reason message s = grind (arith, blind.patch_status)

  pub fail-unseen :
      (base : Object T) (reason message : String) (s : State T W)
      → seen (fail cluster base reason message s).1.1 ≡ seen s.1
  unfolding fail
  fail-unseen base reason message s = grind (arith, set_condition-unseen, emit-unseen)

  pub give_up-unseen :
      (drv : Driver T W) (resync : ℕ) (base : Object T) (reason message : String) (after : ℕ)
      (s : State T W)
      → seen (give_up cluster drv resync base reason message after s).1.1 ≡ seen s.1
  give_up-unseen drv resync base reason message after s = fail-unseen base reason message s

  pub retry-unseen :
      (drv : Driver T W) (resync : ℕ) (base : Object T) (what : String) (e : Error) (s : State T W)
      → seen (retry cluster drv resync base what e s).1.1 ≡ seen s.1
  retry-unseen drv resync base what e s = grind (arith, set_condition-unseen)

  pub succeed-unseen :
      (resync : ℕ) (base : Object T) (synced : Bool) (s : State T W)
      → seen (succeed cluster resync base synced s).1.1 ≡ seen s.1
  unfolding succeed
  succeed-unseen resync base synced s = grind (arith, set_condition-unseen)

  pub finalize-unseen :
      (resync : ℕ) (base : Object T) (spec_map : Fields) (synced : Bool) (s : State T W)
      → ((o b : Object T) (w : W) → seen (cluster.patch_object o b w).1 ≡ seen w)
      → seen (finalize cluster resync base spec_map synced s).1.1 ≡ seen s.1
  unfolding finalize
  finalize-unseen resync base spec_map synced s patched = grind (arith, succeed-unseen, patched)

-- ===== src/Engine/Status.antt =====
-- engine.go: conditions, events, `fail` and `finalize`.
use keycloak_operator.Base.{
  ℕ, String, Bool, true, not, ◌||◌, Option, none, some, ◌==◌, if◌then◌else◌,
}
use keycloak_operator.Errors.{ok, err}
use keycloak_operator.World.{Act, pure, ◌>>=◌, ◌>>◌}
use keycloak_operator.Json.{object, Fields}
use keycloak_operator.Json.Text.{text_eq, marshal}
use keycloak_operator.Api.{
  Object, Condition, ConditionStatus, status_true, status_false, condition_ready, condition_synced,
  reason_succeeded,
}
use keycloak_operator.Platform.{Cluster, EventType, warning}
use keycloak_operator.Engine.{Outcome, requeue, failed, State, call, modify, current, write}

module _ {T W : Type 0} (cluster : Cluster T W) where
  open cluster use {
    patch_object, patch_status, record_event, set_status_condition, find_status_condition,
  }

  -- `e.recorder` is never nil here; the object that an event is about is that of the state.
  unfoldable pub emit : EventType → String → String → Act (State T W) (Unit {0})
  emit t reason message = call (λ _. record_event t reason message)

  -- `patchStatus`: an error is logged and otherwise ignored.
  unfoldable pub patch_status_of : Object T → Act (State T W) (Unit {0})
  patch_status_of base = write (λ o. patch_status o base) >>= λ _. pure tt

  abbrev pub with_condition : Condition → Object T → Object T
  with_condition c o = record o {
    status = record o.status { conditions = set_status_condition o.status.conditions c };
  }

  abbrev pub condition_of : Object T → String → ConditionStatus → String → String → Condition
  condition_of o condition_type status reason message = record {
    condition_type = condition_type;
    status = status;
    observed_generation = o.generation;
    reason = reason;
    message = message;
  }

  unfoldable pub set_condition :
      Object T → String → ConditionStatus → String → String → Act (State T W) (Unit {0})
  set_condition base condition_type status reason message = do
    modify (λ o. with_condition (condition_of o condition_type status reason message) o)
    patch_status_of base

  -- Whether a failure is news: the Ready condition had another reason or message, or was not there.
  abbrev pub is_news : Option Condition → String → String → Bool
  is_news none reason message = true
  is_news (some c) reason message = not (c.reason == reason) || not (c.message == message)

  unfoldable pub fail : Object T → String → String → Act (State T W) (Unit {0})
  fail base reason message = do
    o ← current
    let previous = find_status_condition o.status.conditions condition_ready
    set_condition base condition_ready status_false reason message
    set_condition base condition_synced status_false reason message
    if is_news previous reason message then emit warning reason message else pure tt

  unfoldable pub succeed : ℕ → Object T → Bool → Act (State T W) Outcome
  succeed resync base synced = do
    let message = if synced then "Reconciliation succeeded" else "Server state matches spec"
    set_condition base condition_ready status_true reason_succeeded message
    set_condition base condition_synced status_true reason_succeeded message
    pure (requeue resync)

  -- Encoding a map of decoded values does not fail.
  unfoldable pub finalize : ℕ → Object T → Fields → Bool → Act (State T W) Outcome
  finalize resync base spec_map synced = do
    modify (λ o. record o { status = record o.status { observed_generation = o.generation } })
    let encoded = marshal (object spec_map)
    o ← current
    if text_eq o.last_applied encoded then succeed resync base synced else do
      modify (λ o'. record o' { last_applied = encoded })
      r ← write (λ o'. patch_object o' base)
      elim r [ ok _ ↦ succeed resync base synced | err e ↦ pure (failed e) ]

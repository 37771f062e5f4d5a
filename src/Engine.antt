-- ===== src/Engine.antt =====
-- internal/controller/engine.go: the lifecycle that all kinds of resources share. The state of a
-- reconciliation is the object in memory and the world; the object as it was read is `base`,
-- against which patches are computed.
pub mod Status
pub mod Lifecycle
pub mod Keeps
pub mod Untouched
pub mod Refusal
pub mod Conditions
pub mod Deletion
pub mod Ending
pub mod Convergence
pub mod Correction
pub mod Creation
pub mod Encoding
pub mod Generation
use keycloak_operator.Base.{
  ℕ, ◌*◌, String, ◌<>◌, Bool, true, false, not, ◌&&◌, ◌||◌, Option, none, some, List, [], ◌∷◌, ◌==◌,
  nat_eq, if◌then◌else◌,
}
use keycloak_operator.Errors.{Error, failure, other, Result, ok, err, is_not_found, is_conflict}
use keycloak_operator.World.{Act, Op, pure, ◌>>=◌, ◌>>◌}
use keycloak_operator.Json.{Value, object, Fields, delete}
use keycloak_operator.Json.Text.{Text, text_eq, marshal, unmarshal_map}
use keycloak_operator.LastApplied.{effective_payload, merge_payload, payload_differs}
use keycloak_operator.Api.{
  Object, Condition, ConditionStatus, status_true, status_false, finalizer_name, adoption_adopt,
  adoption_fail_if_exists, deletion_orphan, deletion_delete, condition_ready, condition_synced,
  reason_succeeded, reason_retrying, reason_failed, reason_connection_unavailable,
  reason_already_exists, reason_secret_missing, reason_protected_realm,
}
use keycloak_operator.Api.Policy.{Spec}
use keycloak_operator.Platform.{Admin, Cluster, EventType, normal, warning}
use keycloak_operator.Driver.{Driver}

-- Durations, in nanoseconds.
abbrev pub second : ℕ
second = 1000000000

abbrev pub default_resync : ℕ
default_resync = 3600 * second

abbrev pub connection_retry : ℕ
connection_retry = 30 * second

abbrev pub secret_retry : ℕ
secret_retry = 30 * second

-- `NewEngine`: the interval between drift corrections. No negative interval is modelled.
unfoldable pub resync_or_default : ℕ → ℕ
resync_or_default resync = if nat_eq resync 0 then default_resync else resync

-- `ctrl.Result` with the error beside it
pub record Outcome : Type 0 where
  pub requeue_after : ℕ
  pub error : Option Error

abbrev pub done : Outcome
done = record { requeue_after = 0; error = none }

abbrev pub requeue : ℕ → Outcome
requeue n = record { requeue_after = n; error = none }

abbrev pub failed : Error → Outcome
failed e = record { requeue_after = 0; error = some e }

-- metrics.Outcome*
pub data Class : Type 0 where
  success transient terminal : Class

abbrev pub class_name : Class → String
class_name success = "success"
class_name transient = "error"
class_name terminal = "terminal"

-- `toJSONMap`
unfoldable pub to_json_map : Value → Result Fields
unfolding unmarshal_map marshal
to_json_map v = elim (unmarshal_map (marshal v)) [
  | none ↦ err (failure other "json: cannot unmarshal into a map")
  | some m ↦ ok m
]

-- The loop that strips the operator's own fields.
unfoldable pub strip : List String → Fields → Fields
unfolding delete
strip [] m = m
strip (f ∷ fs) m = strip fs (delete f m)

-- How a finished reconciliation is counted: by the Ready condition alone.
unfoldable pub classify : Option Condition → Class
classify none = success
classify (some c) = elim c.status [ status_false ↦ terminal | _ ↦ success ]

-- The object in memory, and the world.
abbrev pub State : Type 0 → Type 0 → Type 0
State T W = Object T × W

module _ {T W : Type 0} where
  -- A call that is given the object, and leaves it alone.
  abbrev pub call : {A : Type 0} → (Object T → Act W A) → Act (State T W) A
  call f s = let (a, w) = f s.0 s.1 in (a, (s.0, w))

  abbrev pub modify : (Object T → Object T) → Act (State T W) (Unit {0})
  modify f s = (tt, (f s.0, s.1))

  abbrev pub current : Act (State T W) (Object T)
  current s = (s.0, s)

  -- A write of the object, which on success replaces it by the answer.
  abbrev pub write : (Object T → Op W (Object T)) → Op (State T W) (Unit {0})
  write f = call f >>= λ r. elim r [
    | ok object' ↦ modify (λ _. object') >> pure (ok tt)
    | err e ↦ pure (err e)
  ]

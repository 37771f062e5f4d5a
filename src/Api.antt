-- ===== src/Api.antt =====
-- api/v1alpha1: the constants, the accessors of the specs, and the managed objects.
pub mod Policy
pub mod Specs
use keycloak_operator.Base.{
  ℕ, String, Bool, true, false, Option, none, some, List, ◌==◌, not, if◌then◌else◌,
}
use keycloak_operator.Json.Text.{Text}

abbrev pub managed_annotation : String
managed_annotation = "keycloak.ctn-solutions.io/managed"

abbrev pub managed_value : String
managed_value = "true"

abbrev pub allow_protected_annotation : String
allow_protected_annotation = "keycloak.ctn-solutions.io/allow-protected"

abbrev pub finalizer_name : String
finalizer_name = "keycloak.ctn-solutions.io/finalizer"

abbrev pub client_secret_key : String
client_secret_key = "clientSecret"

-- `ProtectedRealmNames`
unfoldable pub is_protected_realm_name : String → Bool
is_protected_realm_name realm = realm == "master"

abbrev pub AdoptionPolicy : Type 0
AdoptionPolicy = String

abbrev pub adoption_create_only : AdoptionPolicy
adoption_create_only = "CreateOnly"

abbrev pub adoption_adopt : AdoptionPolicy
adoption_adopt = "Adopt"

abbrev pub adoption_fail_if_exists : AdoptionPolicy
adoption_fail_if_exists = "FailIfExists"

abbrev pub DeletionPolicy : Type 0
DeletionPolicy = String

abbrev pub deletion_orphan : DeletionPolicy
deletion_orphan = "Orphan"

abbrev pub deletion_delete : DeletionPolicy
deletion_delete = "Delete"

-- `SecretKeySelector`, and `SecretOutput` of client_types.go, which has the same two fields
pub record SecretKeySelector : Type 0 where
  pub name : String
  pub key : String

pub record SecretKeysSelector : Type 0 where
  pub name : String
  pub keys : List (String × String)

abbrev pub condition_ready : String
condition_ready = "Ready"

abbrev pub condition_synced : String
condition_synced = "Synced"

abbrev pub reason_succeeded : String
reason_succeeded = "Succeeded"

abbrev pub reason_retrying : String
reason_retrying = "Retrying"

abbrev pub reason_failed : String
reason_failed = "Failed"

abbrev pub reason_connection_unavailable : String
reason_connection_unavailable = "ConnectionUnavailable"

abbrev pub reason_already_exists : String
reason_already_exists = "AlreadyExists"

abbrev pub reason_secret_missing : String
reason_secret_missing = "SecretMissing"

abbrev pub reason_protected_realm : String
reason_protected_realm = "ProtectedRealm"

-- metav1.ConditionStatus
pub data ConditionStatus : Type 0 where
  status_true status_false status_unknown : ConditionStatus

-- metav1.Condition, without the time of the last transition
pub record Condition : Type 0 where
  pub condition_type : String
  pub status : ConditionStatus
  pub observed_generation : ℕ
  pub reason : String
  pub message : String

-- `ResourceStatus`, with the `SecretName` that the status of a client adds
pub record ResourceStatus : Type 0 where
  pub conditions : List Condition
  pub observed_generation : ℕ
  pub secret_name : String

-- The metadata, the spec and the status of a managed resource. Of the annotations those that the
-- operator reads are fields, empty where the annotation is missing. `deleting` says that the
-- deletion timestamp is set.
pub record Object (T : Type 0) : Type 0 where
  pub kind : String
  pub namespace : String
  pub name : String
  pub uid : String
  pub generation : ℕ
  pub deleting : Bool
  pub finalizers : List String
  pub last_applied : Text
  pub allow_protected : String
  pub spec : T
  pub status : ResourceStatus

-- ===== src/Platform.antt =====
-- What the operator calls and does not implement: the Kubernetes API behind controller-runtime,
-- the helpers of apimachinery, and the Admin API of Keycloak behind a client.
use keycloak_operator.Base.{String, Bool, Option, List}
use keycloak_operator.World.{Act, Op}
use keycloak_operator.Json.{Value}
use keycloak_operator.Api.{Object, Condition}

pub data Method : Type 0 where
  get post put delete : Method

-- What a caller of `Do` decodes the body of the response into: nothing, a map, a list of maps, or
-- the `value` of a client secret.
pub data Output : Type 0 where
  discard one_map list_of_maps secret_value : Output

-- A client of the Admin API: `Do` with a method, a path, a body or nil, and the output wanted. The
-- decoded body comes back, or `none` for an empty one.
pub record Admin (W : Type 0) : Type 0 where
  pub request : Method → String → Option Value → Output → Op W (Option Value)

-- A Secret of Kubernetes, as far as the operator looks at it: its data, and whether an owner
-- reference makes the object with the given UID its controller.
pub record Secret : Type 0 where
  pub namespace : String
  pub name : String
  pub entries : List (String × String)
  pub controllers : List String

-- An event of the recorder: Normal or Warning, with its reason and message.
pub data EventType : Type 0 where
  normal warning : EventType

-- The cluster. A write of an object answers with the object as the API server then has it; the
-- second object of a patch is the one that the patch is computed against.
pub record Cluster (T W : Type 0) : Type 0 where
  pub update_object : Object T → Op W (Object T)
  pub patch_object : Object T → Object T → Op W (Object T)
  pub patch_status : Object T → Object T → Op W (Object T)
  pub get_secret : String → String → Op W Secret
  pub update_secret : Secret → Op W (Unit {0})
  pub create_secret : Object T → Secret → Op W (Unit {0})
  pub record_event : EventType → String → String → Act W (Unit {0})
  pub count_reconciliation : String → String → Act W (Unit {0})
  pub count_drift_correction : String → Act W (Unit {0})
  -- `Provider.For`
  pub connect : String → String → Op W (Admin W)
  -- meta.SetStatusCondition, meta.FindStatusCondition
  pub set_status_condition : List Condition → Condition → List Condition
  pub find_status_condition : List Condition → String → Option Condition
  -- controllerutil
  pub contains_finalizer : List String → String → Bool
  pub add_finalizer : List String → String → List String
  pub remove_finalizer : List String → String → List String

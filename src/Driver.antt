-- ===== src/Driver.antt =====
-- The `Driver` interface of internal/controller/engine.go: what the engine asks of a kind of
-- resource.
use keycloak_operator.Base.{String, Bool, Option, List}
use keycloak_operator.World.{Op}
use keycloak_operator.Json.{Value, Fields}
use keycloak_operator.Api.{Object}
use keycloak_operator.Api.Policy.{Spec}
use keycloak_operator.Platform.{Admin}

-- `spec_json` is the JSON form of the spec under the tags of its fields. `Protected` answers with
-- its message, or `none`. `PostApply` also returns the object, whose status it may change.
pub record Driver (T W : Type 0) : Type 0 where
  pub get : Admin W → Object T → Op W Fields
  pub id : Fields → String
  pub create : Admin W → Object T → Fields → Op W (Unit {0})
  pub update : Admin W → Object T → String → Fields → Op W (Unit {0})
  pub delete : Admin W → Object T → Op W (Unit {0})
  pub managed_marker : Fields → Fields
  pub is_managed : Fields → Bool
  pub prepare_payload : Object T → Fields → Op W Fields
  pub post_apply : Admin W → Fields → Op (Object T × W) Bool
  pub protected : Object T → Option String
  pub spec : T → Spec
  pub spec_json : T → Value
  pub operator_fields : List String

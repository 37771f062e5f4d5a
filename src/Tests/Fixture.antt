-- ===== src/Tests/Fixture.antt =====
-- A cluster and a driver that log what is asked of them, and a realm to reconcile.
use keycloak_operator.Base.{
  String, true, false, Option, none, some, List, [], ◌∷◌, ◌≡◌, refl, ◌==◌, eq_iff, arith,
  if◌then◌else◌,
}
use keycloak_operator.Errors.{Error, failure, other, Result, ok}
use keycloak_operator.World.{Act, pure}
use keycloak_operator.Json.{Value, boolean, string, object, Fields, end, field}
use keycloak_operator.Api.{
  Object, Condition, finalizer_name, is_protected_realm_name, managed_annotation, managed_value,
}
use keycloak_operator.Api.Policy.{SpecHead, realm_accessors}
use keycloak_operator.Platform.{Admin, Cluster, Secret}
use keycloak_operator.Driver.{Driver}
use keycloak_operator.Drivers.Marker.{stamp_string_attribute, managed_by_string_attribute}
use keycloak_operator.Drivers.Secrets.{contains}

-- What was asked of the server, of the custom resource, and of the recorder and the metrics.
pub record Log : Type 0 where
  pub server : List String
  pub writes : List String
  pub events : List String
  pub counts : List String

abbrev pub fresh : Log
fresh = record { server = []; writes = []; events = []; counts = [] }

abbrev on_server : {A : Type 0} → String → A → Act Log A
on_server line a w = (a, record w { server = line ∷ w.server })

abbrev on_object : {A : Type 0} → String → A → Act Log A
on_object line a w = (a, record w { writes = line ∷ w.writes })

abbrev pub admin : Admin Log
admin = record { request = λ method path body output. pure (ok none) }

unfoldable pub find : List Condition → String → Option Condition
find [] t = none
find (c ∷ cs) t = if c.condition_type == t then some c else find cs t

unfoldable pub set : List Condition → Condition → List Condition
set [] c = c ∷ []
set (d ∷ cs) c = if d.condition_type == c.condition_type then c ∷ cs else d ∷ set cs c

unfoldable pub remove : List String → String → List String
remove [] s = []
remove (t ∷ ts) s = let rest = remove ts s in if t == s then rest else t ∷ rest

abbrev pub app_secret : Secret
app_secret = record {
  namespace = "apps";
  name = "web";
  entries = ("clientSecret", "s3cret") ∷ [];
  controllers = "uid-1" ∷ [];
}

abbrev pub cluster : {T : Type 0} → Cluster T Log
cluster = record {
  update_object = λ o. on_object "update" (ok o);
  patch_object = λ o b. on_object "patch" (ok o);
  patch_status = λ o b. pure (ok o);
  get_secret = λ namespace name. pure (ok app_secret);
  update_secret = λ s. on_object "secret" (ok tt);
  create_secret = λ o s. on_object "secret" (ok tt);
  record_event = λ t reason message w. (tt, record w { events = reason ∷ w.events });
  count_reconciliation = λ kind outcome w. (tt, record w { counts = outcome ∷ w.counts });
  count_drift_correction = λ kind w. (tt, record w { counts = "drift" ∷ w.counts });
  connect = λ namespace name. pure (ok admin);
  set_status_condition = set;
  find_status_condition = find;
  contains_finalizer = λ fs f. contains f fs;
  add_finalizer = λ fs f. if contains f fs then fs else f ∷ fs;
  remove_finalizer = remove;
}

-- The spec as JSON, with a field of the operator among those of the realm.
abbrev pub spec_json : SpecHead → Value
spec_json s = object (
    field "keycloakRef" (string s.keycloak_ref)
      (field "realm" (string s.realm) (field "enabled" (boolean true) end)))

-- A driver whose server answers each read with `remote` and each deletion with `deleted`.
abbrev pub driver : Result Fields → Result (Unit {0}) → Driver SpecHead Log
driver remote deleted = record {
  get = λ kc o. pure remote;
  id = λ remote'. "demo";
  create = λ kc o payload. on_server "create" (ok tt);
  update = λ kc o id payload. on_server "update" (ok tt);
  delete = λ kc o. on_server "delete" deleted;
  managed_marker = λ payload. stamp_string_attribute payload managed_annotation managed_value;
  is_managed = managed_by_string_attribute;
  prepare_payload = λ o payload. pure (ok payload);
  post_apply = λ kc remote'. pure (ok false);
  protected = λ o. if is_protected_realm_name o.spec.realm then some "protected" else none;
  spec = realm_accessors;
  spec_json = spec_json;
  operator_fields = "keycloakRef" ∷ [];
}

abbrev pub realm_spec : String → SpecHead
realm_spec realm = record {
  keycloak_ref = "main";
  realm = realm;
  adoption_policy = none;
  deletion_policy = none;
}

abbrev pub realm_object : String → Object SpecHead
realm_object realm = record {
  kind = "Realm";
  namespace = "apps";
  name = "demo";
  uid = "uid-1";
  generation = 1;
  deleting = false;
  finalizers = finalizer_name ∷ [];
  last_applied = [];
  allow_protected = "";
  spec = realm_spec realm;
  status = record { conditions = []; observed_generation = 0; secret_name = "" };
}

abbrev pub demo : Object SpecHead
demo = realm_object "demo"

-- The realm of another origin, and the payload of the spec of `demo`.
abbrev pub foreign : Fields
foreign = field "realm" (string "demo") (field "enabled" (boolean false) end)

abbrev pub demo_map : Fields
demo_map = field "enabled" (boolean true) (field "realm" (string "demo") end)

abbrev pub unreachable : Error
unreachable = failure other "connection refused"

pub find-set :
    (cs : List Condition) (c : Condition) (t : String)
    → find (set cs c) t ≡ (if c.condition_type == t then some c else find cs t)
unfolding find set
find-set [] c t = refl
find-set (d ∷ cs) c t = ground (
  arith,
  find-set cs c t,
  eq_iff d.condition_type c.condition_type,
  eq_iff d.condition_type t,
  eq_iff c.condition_type t,
)

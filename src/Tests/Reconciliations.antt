-- ===== src/Tests/Reconciliations.antt =====
-- Reconciliations that leave the server alone, at concrete objects.
use keycloak_operator.Base.{
  String, true, false, some, List, [], ◌≡◌, refl, ap, ◌==◌, Bool-cases, inl, inr,
}
use keycloak_operator.Errors.{Error, Result, ok, err}
use keycloak_operator.Json.{Value, boolean, string, object, Fields, end, field, lookup, insert}
use keycloak_operator.Json.Text.{text_eq, marshal}
use keycloak_operator.LastApplied.Differs.{Stored}
use keycloak_operator.Api.{
  Object, adoption_fail_if_exists, managed_annotation, is_protected_realm_name,
}
use keycloak_operator.Api.Policy.{SpecHead, realm_accessors}
use keycloak_operator.Driver.{Driver}
use keycloak_operator.Drivers.Marker.{managed_by_string_attribute, stamp_string_attribute}
use keycloak_operator.Engine.{strip, to_json_map}
use keycloak_operator.Engine.Lifecycle.{reconcile, spec_map_of}
use keycloak_operator.Engine.Untouched.{
  IsBlindToCluster, no_finalizer_untouched, protected_untouched,
}
use keycloak_operator.Engine.Refusal.{
  IsBlindToReads, foreign_resource_untouched, fail_if_exists_untouched,
}
use keycloak_operator.Engine.Convergence.{IsBlindToPass, steady_pass_sends_no_update}
use keycloak_operator.Tests.Fixture.{
  Log, fresh, cluster, driver, demo, foreign, realm_object, demo_map,
}

abbrev seen : Log → List String
seen w = w.server

abbrev healthy : Result Fields → Driver SpecHead Log
healthy remote = driver remote (ok tt)

blind : IsBlindToCluster (cluster {T = SpecHead}) seen
blind = record {
  status = record { patch_status = λ o b w. refl; record_event = λ t reason message w. refl };
  connect = λ namespace name w. refl;
  update_object = λ o w. refl;
  count_reconciliation = λ kind outcome w. refl;
}

blind_to_reads : (remote : Result Fields) → IsBlindToReads cluster (healthy remote) seen
blind_to_reads remote = record { cluster_calls = blind; get = λ kc o w. refl }

blind_to_pass : (remote : Result Fields) → IsBlindToPass cluster (healthy remote) seen
blind_to_pass remote = record {
  cluster_calls = blind;
  patch_object = λ o b w. refl;
  count_drift_correction = λ k w. refl;
  get = λ kc o w. refl;
  prepare_payload = λ o m w. refl;
  post_apply = λ kc m s. refl;
}

no_finalizer_untouched_example :
    seen (reconcile cluster (healthy (ok foreign)) 60 (record demo { finalizers = [] }, fresh)).1.1
    ≡ []
no_finalizer_untouched_example =
    no_finalizer_untouched cluster (healthy (ok foreign)) 60 seen blind
      (record demo { finalizers = [] }) fresh refl refl

protected_untouched_example :
    seen (reconcile cluster (healthy (ok foreign)) 60 (realm_object "master", fresh)).1.1 ≡ []
protected_untouched_example =
    protected_untouched cluster (healthy (ok foreign)) 60 seen blind (realm_object "master") fresh
      "protected" refl (unfold is_protected_realm_name in refl)

answered : {a b : Fields} → ok a ≡ ok b → a ≡ b
answered {a} e = ap (λ r. elim r [ ok m ↦ m | err x ↦ a ]) e

not_answered : {A : Type 0} {a : Fields} {x : Error} → ok a ≡ err x → A
not_answered e = cc

foreign_is_not_managed : managed_by_string_attribute foreign ≡ false
unfolding managed_by_string_attribute lookup
foreign_is_not_managed = refl

foreign_resource_untouched_example :
    seen (reconcile cluster (healthy (ok foreign)) 60 (demo, fresh)).1.1 ≡ []
foreign_resource_untouched_example =
    foreign_resource_untouched cluster (healthy (ok foreign)) 60 seen (blind_to_reads (ok foreign))
      demo fresh refl (unfold realm_accessors in refl)
      (λ kc w remote e. unfold text_eq in rw (← answered e, foreign_is_not_managed))
      (λ kc w x e. not_answered e)

abbrev strict_demo : Object SpecHead
strict_demo = record demo {
  spec = record demo.spec { adoption_policy = some adoption_fail_if_exists };
}

fail_if_exists_untouched_example :
    seen (reconcile cluster (healthy (ok foreign)) 60 (strict_demo, fresh)).1.1 ≡ []
fail_if_exists_untouched_example =
    fail_if_exists_untouched cluster (healthy (ok foreign)) 60 seen (blind_to_reads (ok foreign))
      strict_demo fresh refl (unfold realm_accessors in refl) (λ kc w x e. not_answered e)

-- The payload of `demo` with the marker, and a server that adds to it.
abbrev stamped : Fields
stamped = field "enabled" (boolean true) (
    field "realm" (string "demo")
      (field "attributes" (object (field managed_annotation (string "true") end)) end))

abbrev demo_remote : Fields
demo_remote = field "enabled" (boolean true) (
    field "realm" (string "demo") (
      field "attributes" (object (field managed_annotation (string "true") end))
        (field "id" (string "7") end)))

abbrev applied : Object SpecHead
applied = record demo { last_applied = marshal (object demo_map) }

stamped-Stored :
    (k : String) (v : Value) → lookup k stamped ≡ some v → Stored v (lookup k demo_remote)
unfolding lookup
stamped-Stored k v e = elim (Bool-cases ("enabled" == k)) [
  | inl t ↦ inl (rw t (rw t at e))
  | inr f ↦ elim (Bool-cases ("realm" == k)) [
    | inl t ↦ inl (rw (f, t) (rw (f, t) at e))
    | inr g ↦ elim (Bool-cases ("attributes" == k)) [
      | inl t ↦ inl (rw (f, g, t) (rw (f, g, t) at e))
      | inr h ↦ cc (rw (f, g, h) at e)
    ]
  ]
]

demo_spec_map : spec_map_of cluster (healthy (ok demo_remote)) 60 applied ≡ ok demo_map
unfolding spec_map_of strip to_json_map
demo_spec_map = refl

steady_pass_sends_no_update_example :
    seen (reconcile cluster (healthy (ok demo_remote)) 60 (applied, fresh)).1.1 ≡ []
unfolding lookup insert
steady_pass_sends_no_update_example =
    steady_pass_sends_no_update cluster (healthy (ok demo_remote)) 60 seen
      (blind_to_pass (ok demo_remote)) applied fresh demo_map demo_remote stamped refl
      (unfold realm_accessors in refl) (refl, tt, (refl, tt, (refl, tt, tt))) demo_spec_map refl
      (λ kc v. refl) (λ v. unfold stamp_string_attribute in refl)
      (refl, tt, (refl, tt, (refl, (refl, tt, tt), tt))) stamped-Stored

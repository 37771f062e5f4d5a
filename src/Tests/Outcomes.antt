-- ===== src/Tests/Outcomes.antt =====
-- Conditions, events and counts at concrete objects.
use keycloak_operator.Base.{true, [], ◌∷◌, ◌≡◌, refl, ap, sym}
use keycloak_operator.Errors.{ok, err}
use keycloak_operator.Json.{object}
use keycloak_operator.Json.Text.{marshal, text_eq}
use keycloak_operator.Api.{
  Object, Condition, status_false, condition_ready, condition_synced, reason_failed,
  reason_retrying, is_protected_realm_name,
}
use keycloak_operator.Api.Policy.{SpecHead}
use keycloak_operator.Platform.{Cluster}
use keycloak_operator.Driver.{Driver}
use keycloak_operator.Engine.{failed, strip, to_json_map}
use keycloak_operator.Engine.Status.{finalize, fail}
use keycloak_operator.Engine.Lifecycle.{reconcile, spec_map_of}
use keycloak_operator.Engine.Conditions.{
  IsDocumented, found, both, Says, fail-Says, read_error_counted_terminal,
}
use keycloak_operator.Engine.Generation.{finalize_leaves_old_generation}
use keycloak_operator.LastApplied.{effective_payload}
use keycloak_operator.Tests.Fixture.{
  Log, fresh, admin, cluster, driver, demo, demo_map, unreachable, find-set,
}

abbrev server : Cluster SpecHead Log
server = cluster

documented : IsDocumented server
documented = record {
  find_set = find-set;
  status_kept = λ o b o' w e. ap (λ r. elim r [ ok p ↦ p.status | err x ↦ o.status ]) (sym e);
}

fail-Says_example :
    Says server documented
      (found server documented
        (fail server demo reason_failed "bad" (demo, fresh)).1
        condition_ready)
      status_false
      reason_failed
      "bad"
    × Says server documented
        (found server documented
          (fail server demo reason_failed "bad" (demo, fresh)).1
          condition_synced)
        status_false
        reason_failed
        "bad"
fail-Says_example = fail-Says server documented demo reason_failed "bad" (demo, fresh)

abbrev failed_before : Condition
failed_before = record {
  condition_type = condition_ready;
  status = status_false;
  observed_generation = 1;
  reason = reason_failed;
  message = "bad";
}

abbrev failing : Object SpecHead
failing = record demo { status = record demo.status { conditions = failed_before ∷ [] } }

abbrev broken : Driver SpecHead Log
broken = driver (err unreachable) (ok tt)

demo_spec_map_first : spec_map_of server broken 60 demo ≡ ok demo_map
unfolding spec_map_of strip to_json_map
demo_spec_map_first = refl

read_error_counted_terminal_example :
    let s =
      both server documented demo status_false reason_retrying unreachable.message
        "Server unreachable"
        (demo, fresh) in
    reconcile server broken 60 (demo, fresh)
    ≡ (failed unreachable, (s.0, (server.count_reconciliation "Realm" "terminal" s.1).1))
read_error_counted_terminal_example =
    read_error_counted_terminal server documented broken 60 demo admin demo_map demo_map fresh fresh
      unreachable refl refl (unfold is_protected_realm_name in refl) demo_spec_map_first
      (unfold effective_payload in refl) refl refl refl

-- A cluster that keeps the status at a patch of the object, and an object whose spec has changed.
abbrev keeping : Cluster SpecHead Log
keeping = record server {
  patch_object =
      λ o b w. (ok (record o { status = b.status }), record w { writes = "patch" ∷ w.writes });
}

keeping-IsDocumented : IsDocumented keeping
keeping-IsDocumented = record {
  find_set = find-set;
  status_kept = λ o b o' w e. ap (λ r. elim r [ ok p ↦ p.status | err x ↦ o.status ]) (sym e);
}

abbrev edited : Object SpecHead
edited = record demo { generation = 2; status = record demo.status { observed_generation = 1 } }

finalize_leaves_old_generation_example :
    (finalize keeping 60 edited demo_map true (edited, fresh)).1.0.status.observed_generation ≡ 1
finalize_leaves_old_generation_example =
    finalize_leaves_old_generation keeping keeping-IsDocumented 60 edited
      (record edited { last_applied = marshal (object demo_map) }) demo_map true fresh
      (record fresh { writes = "patch" ∷ [] }) (unfold text_eq marshal in refl) refl refl

-- ===== src/Tests/Deletions.antt =====
-- Deletions at concrete objects.
use keycloak_operator.Base.{true, some, [], ◌≡◌, refl}
use keycloak_operator.Errors.{Error, failure, auth, not_found, Result, ok, err}
use keycloak_operator.Api.{Object, deletion_delete}
use keycloak_operator.Api.Policy.{SpecHead, realm_accessors}
use keycloak_operator.Driver.{Driver}
use keycloak_operator.Engine.{done, failed}
use keycloak_operator.Engine.Lifecycle.{reconcile}
use keycloak_operator.Engine.Deletion.{orphan_needs_no_server, failed_deletion_keeps_finalizer}
use keycloak_operator.Tests.Fixture.{Log, fresh, admin, cluster, driver, demo, foreign}

-- Without a policy a realm is orphaned.
abbrev orphan : Object SpecHead
orphan = record demo { deleting = true }

abbrev doomed : Object SpecHead
doomed = record orphan { spec = record demo.spec { deletion_policy = some deletion_delete } }

abbrev refused : Error
refused = failure auth "keycloak: authentication failed"

abbrev gone : Error
gone = failure not_found "keycloak: not found"

abbrev deleting_to : Result (Unit {0}) → Driver SpecHead Log
deleting_to deleted = driver (ok foreign) deleted

orphan_needs_no_server_example :
    ((reconcile cluster (deleting_to (err refused)) 60 (orphan, fresh)).1.1.server ≡ [])
    × ((reconcile cluster (deleting_to (err refused)) 60 (orphan, fresh)).0 ≡ done)
orphan_needs_no_server_example =
    orphan_needs_no_server cluster (deleting_to (err refused)) 60 (λ (w : Log). w.server) orphan
      fresh refl (unfold realm_accessors in refl) (λ o v. refl) (λ k c v. refl)

failed_deletion_keeps_finalizer_example :
    ((reconcile cluster (deleting_to (err refused)) 60 (doomed, fresh)).0 ≡ failed refused)
    × ((reconcile cluster (deleting_to (err refused)) 60 (doomed, fresh)).1.0 ≡ doomed)
    × ((reconcile cluster (deleting_to (err refused)) 60 (doomed, fresh)).1.1.writes ≡ [])
failed_deletion_keeps_finalizer_example =
    failed_deletion_keeps_finalizer cluster (deleting_to (err refused)) 60 (λ (w : Log). w.writes)
      doomed fresh admin refused refl (unfold realm_accessors in refl) refl refl refl
      (λ namespace name v. refl) (λ o v. refl) (λ k c v. refl)

-- A resource that is gone counts as deleted.

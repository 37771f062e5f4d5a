-- ===== src/Tests/Removals.antt =====
-- A realm whose object is being deleted, at a server that has it.
use keycloak_operator.Base.{true, some, ◌≡◌, refl}
use keycloak_operator.Api.{Object, deletion_delete}
use keycloak_operator.Api.Policy.{realm_accessors}
use keycloak_operator.Api.Specs.Realm.{RealmSpec}
use keycloak_operator.Platform.{Cluster}
use keycloak_operator.Drivers.Realm.{realm_driver}
use keycloak_operator.Engine.{Outcome, done}
use keycloak_operator.Engine.Lifecycle.{reconcile}
use keycloak_operator.Json.{end}
use keycloak_operator.Keycloak.Escape.{path_escape}
use keycloak_operator.Keycloak.Resources.{realm_path}
use keycloak_operator.Keycloak.Fake.Router.Paths.{after_prefix}
use keycloak_operator.Keycloak.Fake.Passes.{client}
use keycloak_operator.Keycloak.Fake.Ready.{shared}
use keycloak_operator.Keycloak.Fake.Removal.{without_realm, pass_removes_realm}
use keycloak_operator.Tests.Fixture as Fixture
use keycloak_operator.Tests.Servers.{net, codec, decodes, config, session, demo_stored}
use keycloak_operator.Tests.Specs as Specs
use keycloak_operator.Tests.Passes.{World, cluster_with, blind}

abbrev doomed : Object RealmSpec
doomed = record Specs.demo {
  deleting = true;
  spec = record (Specs.realm "demo") {
    head = record (Fixture.realm_spec "demo") { deletion_policy = some deletion_delete };
  };
}

abbrev cluster : Cluster RealmSpec World
cluster = cluster_with (client net (codec end) 0 config session (decodes end) (refl, refl))

abbrev pass : World → Outcome × World
pass w = let r = reconcile cluster (realm_driver cluster) 60 (doomed, w) in (r.0, r.1.1)

abbrev before : World
before = (Fixture.fresh, (session, demo_stored))

pass_removes_realm_example :
    (shared (pass before).1 ≡ (session, without_realm "demo" demo_stored))
    × ((pass before).0 ≡ done)
    × (shared (pass (pass before).1).1 ≡ shared (pass before).1)
unfolding realm_path path_escape after_prefix realm_driver realm_accessors
pass_removes_realm_example =
    pass_removes_realm net (codec end) 0 config session (decodes end) (refl, refl) cluster 60
      (blind _).cluster_calls doomed refl refl (refl, refl, refl) (λ w. refl) demo_stored before
      refl

-- ===== src/Tests/Passes.antt =====
-- A realm that somebody switched off, and the pass that switches it on again.
use keycloak_operator.Base.{
  String, Bool, true, false, Option, some, [], ◌≡◌, refl, sym, ap, ◌==◌, arith, if◌then◌else◌,
}
use keycloak_operator.Errors.{Error, failure, other, ok, err, Result}
use keycloak_operator.World.{Act}
use keycloak_operator.Json.{
  Value, boolean, string, number, object, Fields, end, field, lookup, insert, IsWellFields,
}
use keycloak_operator.Json.Structs.{struct, encode}
use keycloak_operator.Json.Text.{Text, marshal, sort_fields}
use keycloak_operator.LastApplied.{merge_payload, payload_differs}
use keycloak_operator.Api.{Object, is_protected_realm_name}
use keycloak_operator.Api.Policy.{realm_accessors}
use keycloak_operator.Api.Specs.Realm.{RealmSpec}
use keycloak_operator.Api.Specs.RealmTags.{realm_fields}
use keycloak_operator.Platform.{Admin, Cluster, Output}
use keycloak_operator.Drivers.Marker.{stamp_string_attribute}
use keycloak_operator.Drivers.Realm.{realm_driver, realm_protected}
use keycloak_operator.Drivers.Sets
use keycloak_operator.Engine.{to_json_map, strip}
use keycloak_operator.Engine.Lifecycle.{reconcile, spec_map_of}
use keycloak_operator.Keycloak.Client.{Session}
use keycloak_operator.Keycloak.Escape.{path_escape}
use keycloak_operator.Keycloak.Resources.{realm_path}
use keycloak_operator.Engine.Ending.{IsBlindToBooks}
use keycloak_operator.Keycloak.Fake.Settling.{IsReadable}
use keycloak_operator.Keycloak.Fake.State.{Server, merge, new_server}
use keycloak_operator.Keycloak.Fake.Router.{Codec}
use keycloak_operator.Keycloak.Fake.Router.Paths.{after_prefix}
use keycloak_operator.Keycloak.Fake.Updates.{realm_kind}
use keycloak_operator.Keycloak.Fake.Corrections.{IsPlainAt}
use keycloak_operator.Keycloak.Fake.Passes.{client, corrected_rep, new_rep, with_realm}
use keycloak_operator.Keycloak.Fake.Healing.{pass_heals_realm}
use keycloak_operator.Keycloak.Fake.Ready.{shared, marked_payload, IsReady, IsApplied}
use keycloak_operator.Keycloak.Fake.Founding.{pass_creates_realm}
use keycloak_operator.Tests.Fixture as Fixture
use keycloak_operator.Tests.Fixture.{Log}
use keycloak_operator.Tests.Servers as Servers
use keycloak_operator.Tests.Servers.{net, config, session, stored, demo_stored, nothing_stored}
use keycloak_operator.Tests.Specs as Specs

abbrev demo_map : Fields
demo_map = field "attributes" (object (field "team" (string "web") end)) (
    field "displayName" (string "Demo") (
      field "enabled" (boolean true)
        (field "realm" (string "demo") (field "ssoSessionIdleTimeout" (number "1800") end))))

abbrev demo : Object RealmSpec
demo = record Specs.demo {
  spec = record (Specs.realm "demo") { enabled = some true };
  last_applied = marshal (object demo_map);
}

abbrev is_on : Option Value → Bool
is_on (some (boolean b)) = b
is_on _ = false

abbrev fields_in : Value → Fields
fields_in (object m) = m
fields_in _ = end

-- A codec that reads the realm as it was and as it is to be.
abbrev codec : Codec
codec = record {
  encode = λ v. if is_on (lookup "enabled" (fields_in v)) then "on" else "off";
  decode = λ out s.
      ok (object (if s == "on" then corrected_rep stored (marked_payload demo_map) else stored));
  decode_token = λ s. err (failure other "no token");
}

decodes : (o : Output) (b : String) (e : Error) → codec.decode o b ≡ err e → e.kind ≡ other
decodes o b e h = sym (ap (λ (r : Result Value). elim r [ ok v ↦ other | err x ↦ x.kind ]) h)

abbrev pub World : Type 0
World = Log × (Session × Server)

abbrev aside : {A : Type 0} → Act Log A → Act World A
aside act w = let (a, k) = act w.0 in (a, (k, w.1))

abbrev logged : Cluster RealmSpec Log
logged = Fixture.cluster

-- The cluster of the log beside the server, with a provider that has the client.
abbrev pub cluster_with : Admin World → Cluster RealmSpec World
cluster_with kc = record {
  update_object = λ o. aside (logged.update_object o);
  patch_object = λ o b. aside (logged.patch_object o b);
  patch_status = λ o b. aside (logged.patch_status o b);
  get_secret = λ namespace name. aside (logged.get_secret namespace name);
  update_secret = λ s. aside (logged.update_secret s);
  create_secret = λ o s. aside (logged.create_secret o s);
  record_event = λ t reason message. aside (logged.record_event t reason message);
  count_reconciliation = λ kind outcome. aside (logged.count_reconciliation kind outcome);
  count_drift_correction = λ kind. aside (logged.count_drift_correction kind);
  connect = λ namespace name w. (ok kc, w);
  set_status_condition = Fixture.set;
  find_status_condition = Fixture.find;
  contains_finalizer = λ fs f. logged.contains_finalizer fs f;
  add_finalizer = λ fs f. logged.add_finalizer fs f;
  remove_finalizer = Fixture.remove;
}

abbrev cluster : Cluster RealmSpec World
cluster = cluster_with (client net codec 0 config session decodes (refl, refl))

-- Whatever the annotation.
demo-IsReady :
    (kc : Admin World) (t : Text)
    → IsReady (cluster_with kc) 60 (record demo { last_applied = t }) demo_map
unfolding spec_map_of strip to_json_map realm_driver realm_protected is_protected_realm_name
    realm_fields struct encode lookup
demo-IsReady kc t = record {
  alive = refl;
  finalizer = refl;
  free = refl;
  no_secret = refl;
  maps = ground arith;
  encoded = refl;
}

demo-IsApplied : (kc : Admin World) → IsApplied (cluster_with kc) 60 demo demo_map
unfolding realm_driver realm_accessors
demo-IsApplied kc = record {
  ready = demo-IsReady kc (marshal (object demo_map));
  policy = refl;
  recorded = refl;
}

demo-IsPlainAt : IsPlainAt net codec 0 config session realm_kind "demo" ""
unfolding realm_path path_escape after_prefix
demo-IsPlainAt = (refl, refl, refl)

stored-IsWellFields : IsWellFields stored
unfolding lookup
stored-IsWellFields = (refl, tt, (refl, tt, tt))

pub blind : (kc : Admin World) → IsBlindToBooks (cluster_with kc) (shared {K = Log})
blind kc = record {
  cluster_calls = record {
    status = record { patch_status = λ o b w. refl; record_event = λ t reason message w. refl };
    connect = λ namespace name w. refl;
    update_object = λ o w. refl;
    count_reconciliation = λ kind outcome w. refl;
  };
  patch_object = λ o b w. refl;
  count_drift_correction = λ kind w. refl;
}

corrected_is_on : is_on (lookup "enabled" (corrected_rep stored (marked_payload demo_map))) ≡ true
unfolding merge merge_payload stamp_string_attribute sort_fields lookup insert
corrected_is_on = refl

corrected-IsReadable :
    IsReadable net codec 0 config session (corrected_rep stored (marked_payload demo_map))
corrected-IsReadable = rw corrected_is_on (refl, refl)

-- The server has the realm switched off.
drifted : payload_differs stored (marked_payload demo_map) ≡ true
unfolding payload_differs stamp_string_attribute lookup insert
drifted = refl

abbrev before : World
before = (Fixture.fresh, (session, demo_stored))

abbrev pass : World → World
pass w = (reconcile cluster (realm_driver cluster) 60 (demo, w)).1.1

pass_heals_realm_example :
    (shared (pass before) ≡ (
      if payload_differs stored (marked_payload demo_map)
      then (session, with_realm "demo" (corrected_rep stored (marked_payload demo_map)) demo_stored)
      else (session, demo_stored)))
    × (now : Fields) × (Sets.get "demo" (shared (pass before)).1.realms ≡ some now)
    × (payload_differs now (marked_payload demo_map) ≡ false)
    × (shared (pass (pass before)) ≡ shared (pass before))
unfolding Sets.get lookup
pass_heals_realm_example =
    pass_heals_realm net codec 0 config session decodes (refl, refl) cluster 60 demo demo_map
      (demo-IsApplied _) (blind _) (λ w. refl) demo-IsPlainAt stored demo_stored before refl refl
      stored-IsWellFields (refl, refl) corrected-IsReadable

abbrev first_rep : Fields
first_rep = new_rep "demo" (marked_payload demo_map)

abbrev first_codec : Codec
first_codec = Servers.codec first_rep

abbrev first_cluster : Cluster RealmSpec World
first_cluster =
    cluster_with (client net first_codec 0 config session (Servers.decodes first_rep) (refl, refl))

abbrev unapplied : Object RealmSpec
unapplied = record demo { last_applied = [] }

abbrev empty : World
empty = (Fixture.fresh, (session, nothing_stored))

abbrev first_pass : Object RealmSpec → World → World
first_pass o w = (reconcile first_cluster (realm_driver first_cluster) 60 (o, w)).1.1

pass_creates_realm_example :
    (shared (first_pass unapplied empty) ≡ (session, with_realm "demo" first_rep nothing_stored))
    × (payload_differs first_rep (marked_payload demo_map) ≡ false)
    × (shared (first_pass demo (first_pass unapplied empty)) ≡ shared (first_pass unapplied empty))
unfolding Sets.get new_server realm_path path_escape after_prefix
pass_creates_realm_example =
    pass_creates_realm net first_codec 0 config session (Servers.decodes first_rep) (refl, refl)
      first_cluster 60 (blind _) unapplied demo_map (demo-IsReady _ []) nothing_stored
      (refl, refl, refl) refl refl refl (refl, refl) demo empty refl refl (λ w. refl)
      (demo-IsApplied _) refl (λ w. refl)

-- ===== src/Tests/Secrets.antt =====
-- The Secrets of an API server as a list, and an object that exports a value beside a foreign one.
use keycloak_operator.Base.{
  String, true, false, Option, none, some, List, [], ◌∷◌, ◌++◌, ◌≡◌, refl, sym, eq_iff, arith, inl,
  inr, Bool-cases, if◌then◌else◌,
}
use keycloak_operator.Errors.{failure, other, object_not_found, Result, ok, err}
use keycloak_operator.Api.Policy.{SpecHead}
use keycloak_operator.Platform.{Cluster, Secret}
use keycloak_operator.World.{Op, pure}
use keycloak_operator.Drivers.Secrets.{ensure_output_secret}
use keycloak_operator.Drivers.Secrets.Store.{is_named, IsStore, foreign_secret_untouched}
use keycloak_operator.Tests.Fixture as Fixture
use keycloak_operator.Tests.Fixture.{demo, app_secret}
use mathlib.Core.Option.{some-injective}

unfoldable find : String → String → List Secret → Option Secret
find namespace name [] = none
find namespace name (s ∷ l) = if is_named namespace name s then some s else find namespace name l

unfoldable replace : Secret → List Secret → List Secret
replace secret [] = []
replace secret (s ∷ l) =
    if is_named secret.namespace secret.name s then secret ∷ l else s ∷ replace secret l

abbrev answer : Option Secret → Result Secret
answer none = err (failure object_not_found "not found")
answer (some s) = ok s

abbrev read : String → String → Op (List Secret) Secret
read namespace name w = (answer (find namespace name w), w)

abbrev added : Option Secret → Secret → Op (List Secret) (Unit {0})
added none secret w = (ok tt, w ++ secret ∷ [])
added (some s) secret w = (err (failure other "already exists"), w)

abbrev create : Secret → Op (List Secret) (Unit {0})
create secret w = added (find secret.namespace secret.name w) secret w

abbrev cluster : Cluster SpecHead (List Secret)
cluster = record {
  update_object = λ o. pure (ok o);
  patch_object = λ o b. pure (ok o);
  patch_status = λ o b. pure (ok o);
  get_secret = read;
  update_secret = λ s w. (ok tt, replace s w);
  create_secret = λ o s. create s;
  record_event = λ t reason message. pure tt;
  count_reconciliation = λ kind outcome. pure tt;
  count_drift_correction = λ kind. pure tt;
  connect = λ namespace name. pure (err (failure other "no connection"));
  set_status_condition = Fixture.set;
  find_status_condition = Fixture.find;
  contains_finalizer = λ fs f. false;
  add_finalizer = λ fs f. f ∷ fs;
  remove_finalizer = Fixture.remove;
}

answer-ok : (o : Option Secret) (found : Secret) → answer o ≡ ok found → o ≡ some found
answer-ok none found h = cc
answer-ok (some s) found h = cc

find-is_named :
    (namespace name : String) (w : List Secret) (found : Secret)
    → find namespace name w ≡ some found
    → is_named namespace name found ≡ true
unfolding find
find-is_named namespace name [] found h = cc
find-is_named namespace name (s ∷ l) found h = elim (Bool-cases (is_named namespace name s)) [
  | inl t ↦ let same : s ≡ found = some-injective _ _ (rw t at h) in rw (sym same) t
  | inr f ↦ find-is_named namespace name l found (rw f at h)
]

find-replace :
    (secret : Secret) (a b : String) (w : List Secret)
    → is_named a b secret ≡ false
    → find a b (replace secret w) ≡ find a b w
unfolding find replace
find-replace secret a b [] h = refl
find-replace secret a b (s ∷ l) h = ground (
  arith,
  h,
  find-replace secret a b l h,
  eq_iff secret.namespace s.namespace,
  eq_iff secret.name s.name,
  eq_iff a s.namespace,
  eq_iff b s.name,
  eq_iff a secret.namespace,
  eq_iff b secret.name,
)

find-append :
    (secret found : Secret) (a b : String) (w : List Secret)
    → find a b w ≡ some found
    → find a b (w ++ secret ∷ []) ≡ some found
unfolding find
find-append secret found a b [] h = cc
find-append secret found a b (s ∷ l) h = elim (Bool-cases (is_named a b s)) [
  | inl t ↦ rw t (rw t at h)
  | inr f ↦ rw f (find-append secret found a b l (rw f at h))
]

find-added :
    (there : Option Secret) (secret found : Secret) (a b : String) (w : List Secret)
    → find a b w ≡ some found
    → find a b (added there secret w).1 ≡ some found
find-added none secret found a b w h = find-append secret found a b w h
find-added (some s) secret found a b w h = h

store : IsStore cluster find
store = record {
  reads = λ namespace name a b w. refl;
  finds = λ namespace name w found h. answer-ok (find namespace name w) found h;
  names = find-is_named;
  updates = λ secret a b w h. find-replace secret a b w h;
  creates = λ o secret found a b w h.
      find-added (find secret.namespace secret.name w) secret found a b w h;
}

-- The object exports to a name that another object's Secret has.
abbrev before : List Secret
before = app_secret ∷ []

foreign_secret_untouched_example :
    find "apps" "web"
      (ensure_output_secret cluster
        (record demo { uid = "uid-2" })
        "web"
        "clientSecret"
        "x"
        before).1
    ≡ some app_secret
unfolding find
foreign_secret_untouched_example =
    foreign_secret_untouched cluster find store (record demo { uid = "uid-2" }) "web" "clientSecret"
      "x" before "apps" "web" app_secret refl refl

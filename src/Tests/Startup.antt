-- ===== src/Tests/Startup.antt =====
-- The start of the operator with flags and a runtime at hand.
use keycloak_operator.Base.{
  String, Bool, true, false, some, List, [], ◌∷◌, ◌++◌, ◌≡◌, refl, ◌==◌, if◌then◌else◌,
}
use keycloak_operator.Errors.{Error, failure, other, ok, err}
use keycloak_operator.Strings.{join, split, trim_space}
use keycloak_operator.Drivers.Sets.{put}
use keycloak_operator.Startup.{
  Flags, default_flags, development_build, banner, Part, controller, healthz_check, readyz_check,
  Runtime, manager_options, main, collect, default_namespaces, run_manager, register_all, or_exit,
}
use keycloak_operator.Startup.Namespaces.{is_watched, is_watched-join}
use keycloak_operator.Startup.Order.{refused_part_never_starts}

-- What was registered and logged, and whether the manager was started.
record Process : Type 0 where
  calls : List String
  started : Bool

abbrev fresh : Process
fresh = record { calls = []; started = false }

abbrev note : String → Process → Process
note line w = record w { calls = w.calls ++ line ∷ [] }

abbrev name_of : Part → String
name_of (controller name) = name
name_of (healthz_check name) = name
name_of (readyz_check name) = name

abbrev refusal : Error
refusal = failure other "refused"

-- A runtime that refuses the parts of one name.
abbrev runtime : String → Runtime Process
runtime bad = record {
  print = λ line w. (tt, note line w);
  new_manager = λ o w. (ok tt, note "manager" w);
  register = λ resync p w. (if name_of p == bad then err refusal else ok tt, note (name_of p) w);
  start = λ w. (ok tt, record w { started = true });
  log_error = λ message e w. (tt, note message w);
}

runs_whole : main (runtime "") (development_build "go1.25") default_flags fresh ≡ (
  0,
  record {
    calls =
        "manager" ∷ "keycloakconnection" ∷ "realm" ∷ "client" ∷ "clientscope" ∷ "realmrole"
        ∷ "identityprovider" ∷ "group" ∷ "healthz" ∷ "readyz" ∷ [];
    started = true;
  },
)
unfolding main run_manager register_all or_exit
runs_whole = refl

stops_at_client : main (runtime "client") (development_build "go1.25") default_flags fresh ≡ (
  1,
  record {
    calls =
        "manager" ∷ "keycloakconnection" ∷ "realm" ∷ "client" ∷ "Failed to create controller" ∷ [];
    started = false;
  },
)
unfolding main run_manager register_all or_exit
stops_at_client = refl

dev_banner :
    banner (development_build "go1.25")
    ≡ "keycloak-operator dev (commit unknown, built unknown, go1.25)"
unfolding banner
dev_banner = refl

refused_part_never_starts_example :
    ((main (runtime "client") (development_build "go1.25") default_flags fresh).0 ≡ 1)
    × ((main (runtime "client") (development_build "go1.25") default_flags fresh).1.started ≡ false)
refused_part_never_starts_example =
    refused_part_never_starts (runtime "client") (λ w. w.started)
      (record {
        new_manager = λ o w. refl;
        register = λ resync p w. refl;
        log_error = λ message e w. refl;
      })
      (development_build "go1.25") default_flags
      (controller "keycloakconnection" ∷ controller "realm" ∷ [])
      (controller "clientscope"
        ∷ controller "realmrole"
        ∷ controller "identityprovider"
        ∷ controller "group"
        ∷ healthz_check "healthz"
        ∷ readyz_check "readyz"
        ∷ [])
      (controller "client") fresh refl refl (λ w. (refusal, refl))

abbrev watching : String → Flags
watching list = record default_flags { watch_namespace_list = list }

-- "apps, ,web " names two namespaces.
is_watched-join_example :
    is_watched "web" (manager_options (watching "apps, ,web ")).default_namespaces ≡ true
unfolding trim_space
is_watched-join_example =
    is_watched-join (watching "apps, ,web ") "apps" (" " ∷ "web " ∷ []) "web" (unfold join in refl)
      refl

collects_two : default_namespaces "apps, ,web " ≡ some (("apps", tt) ∷ ("web", tt) ∷ [])
unfolding default_namespaces collect split trim_space put
collects_two = refl

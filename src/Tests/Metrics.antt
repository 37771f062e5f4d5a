-- ===== src/Tests/Metrics.antt =====
-- The metrics at a registry that refuses a name it has, as the one of Prometheus does.
use keycloak_operator.Base.{
  String, Bool, true, false, List, [], ◌∷◌, ◌≡◌, refl, ◌==◌, if◌then◌else◌,
}
use keycloak_operator.Errors.{failure, other, ok, err}
use keycloak_operator.World.{Op}
use keycloak_operator.Metrics.{Vector, register_vectors}

unfoldable has : String → List Vector → Bool
has name [] = false
has name (v ∷ vs) = if v.name == name then true else has name vs

unfoldable must_register : List Vector → Op (List Vector) (Unit {0})
unfolding has
must_register [] known = (ok tt, known)
must_register (v ∷ vs) known =
    if has (v.name) known
    then (err (failure other "duplicate metrics collector registration attempted"), known)
    else must_register vs (v ∷ known)

-- No two of the operator's metrics have a name in common.
none_is_refused : (register_vectors must_register []).0 ≡ ok tt
unfolding register_vectors must_register has
none_is_refused = refl

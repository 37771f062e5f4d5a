-- ===== src/Keycloak/Fake/Bodies.antt =====
-- What the server makes of the bodies that the client writes.
use keycloak_operator.Base.{String, Option, none, some, ◌≡◌, refl, ◌∙◌, arith, eq_iff, ap}
use mathlib.Core.Option
use keycloak_operator.Json.{
  Value, null, boolean, number, string, list, object, Fields, end, field, lookup, insert, as_string,
  IsWell, IsWellFields,
}
use keycloak_operator.Json.Laws.{lookup-insert}
use keycloak_operator.Json.Text.{marshal, sort_keys, sort_fields}
use keycloak_operator.Json.RoundTrip.{parse_value-marshal, lookup-sort_fields}
use keycloak_operator.Keycloak.Mappings.{text_at}
use keycloak_operator.Keycloak.Fake.State.{decode_value, decode_map, a_map, merge}

decode_value-marshal : (v : Value) → IsWell v → decode_value (some (marshal v)) ≡ some (sort_keys v)
decode_value-marshal v w = rw (decode_value, parse_value-marshal v w)

-- A map comes over as it was sent, with its keys in order.
pub decode_map-marshal :
    (m : Fields) → IsWellFields m → decode_map (some (marshal (object m))) ≡ a_map (sort_fields m)
unfolding decode_map sort_keys
decode_map-marshal m w = rw (decode_map, decode_value-marshal (object m) w)

as_string-sort_keys : (o : Option Value) → as_string (Option.map sort_keys o) ≡ as_string o
unfolding sort_keys
as_string-sort_keys none = refl
as_string-sort_keys (some null) = refl
as_string-sort_keys (some (boolean b)) = refl
as_string-sort_keys (some (number s)) = refl
as_string-sort_keys (some (string s)) = refl
as_string-sort_keys (some (list l)) = refl
as_string-sort_keys (some (object m)) = refl

pub text_at-sort_fields :
    (key : String) (m : Fields) → IsWellFields m → text_at key (sort_fields m) ≡ text_at key m
text_at-sort_fields key m w =
    ap (λ o. elim (as_string o) [ none ↦ "" | some s ↦ s ]) (lookup-sort_fields key m w)
    ∙ ap (λ o. elim o [ none ↦ "" | some s ↦ s ]) (as_string-sort_keys (lookup key m))

abbrev pub or_else : Option Value → Option Value → Option Value
or_else none old = old
or_else (some v) old = some v

-- `merge` writes every entry of the source over the one that was there.
pub lookup-merge :
    (dst src : Fields) (k : String)
    → IsWellFields src
    → lookup k (merge dst src) ≡ or_else (lookup k src) (lookup k dst)
unfolding merge lookup
lookup-merge dst end k w = refl
lookup-merge dst (field j v src) k w =
    ground
      (arith, lookup-merge (insert j v dst) src k w.2, lookup-insert j k v dst, eq_iff j k, w.0)

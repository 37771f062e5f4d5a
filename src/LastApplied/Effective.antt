-- ===== src/LastApplied/Effective.antt =====
-- What the effective payload holds at each key.
use keycloak_operator.Base.{
  String, false, Option, none, some, [], ◌≡◌, refl, ◌∙◌, ap, arith, ◌≢◌, ◌==◌, eq_iff, eq_refl,
  is_some, if◌then◌else◌,
}
use keycloak_operator.Errors.{ok}
use keycloak_operator.Json.{
  Value, null, boolean, number, string, list, object, Items, nil, cons, Fields, end, field, lookup,
  NodupKeys, IsWellFields,
}
use keycloak_operator.Json.Laws.{lookup-insert, IsWellFields-NodupKeys}
use keycloak_operator.Json.Text.{text_eq, marshal, sort_keys, sort_fields, ◌>>=◌}
use keycloak_operator.Json.RoundTrip.{
  unmarshal_map-marshal, lookup-sort_fields, sort_fields-IsWellFields,
}
use keycloak_operator.LastApplied.{
  deep_copy_value, deep_copy_items, deep_copy_map, zero_for, reset_field, reset_removed,
  effective_payload,
}
use mathlib.Core.Option

mutual
  unfolding deep_copy_map

  deep_copy_value_lem : (v : Value) → deep_copy_value v ≡ v
  deep_copy_value_lem (object m) = ap object (deep_copy_map_lem m)
  deep_copy_value_lem (list l) = ap list (deep_copy_items_lem l)
  deep_copy_value_lem _ = refl

  deep_copy_items_lem : (l : Items) → deep_copy_items l ≡ l
  deep_copy_items_lem nil = refl
  deep_copy_items_lem (cons v l) = cc (deep_copy_value_lem v, deep_copy_items_lem l)

  pub deep_copy_map_lem : (m : Fields) → deep_copy_map m ≡ m
  deep_copy_map_lem end = refl
  deep_copy_map_lem (field k v m) = cc (deep_copy_value_lem v, deep_copy_map_lem m)

-- A key keeps its value in the payload, and gets the reset value of `previous` if it has none.
abbrev pub or_reset : Option Value → Option Value → Option Value
or_reset current previous = if is_some current then current else (previous >>= zero_for)

lookup-reset_field :
    (j k : String) (previous : Value) (payload : Fields)
    → lookup j (reset_field k previous payload)
      ≡ (if k == j then or_reset (lookup j payload) (some previous) else lookup j payload)
unfolding reset_field
lookup-reset_field j k (string s) payload =
    ground (arith, lookup-insert k j (string "") payload, eq_iff k j)
lookup-reset_field j k (boolean b) payload =
    ground (arith, lookup-insert k j (boolean false) payload, eq_iff k j)
lookup-reset_field j k (list l) payload =
    ground (arith, lookup-insert k j (list nil) payload, eq_iff k j)
lookup-reset_field j k (object m) payload =
    ground (arith, lookup-insert k j (object end) payload, eq_iff k j)
lookup-reset_field j k null payload = ground (arith, eq_iff k j)
lookup-reset_field j k (number s) payload = ground (arith, eq_iff k j)

lookup-reset_removed :
    (j : String) (last payload : Fields)
    → NodupKeys last
    → lookup j (reset_removed last payload) ≡ or_reset (lookup j payload) (lookup j last)
unfolding reset_removed lookup
lookup-reset_removed j end payload h = ground arith
lookup-reset_removed j (field k previous last) payload h =
    lookup-reset_removed j last (reset_field k previous payload) h.1
    ∙ ground (arith, lookup-reset_field j k previous payload, eq_iff k j)

-- Sorting keys changes no reset value.
zero_for-sort_keys : (v : Value) → zero_for (sort_keys v) ≡ zero_for v
unfolding zero_for sort_keys
zero_for-sort_keys null = refl
zero_for-sort_keys _ = refl

or_reset-sort_keys :
    (current previous : Option Value)
    → or_reset current (Option.map sort_keys previous) ≡ or_reset current previous
or_reset-sort_keys current none = refl
or_reset-sort_keys current (some v) = rw zero_for-sort_keys

-- The text of a map is never the empty text, which stands for a missing annotation.
pub marshal-object-ne-empty : (m : Fields) → text_eq (marshal (object m)) [] ≡ false
unfolding text_eq marshal sort_fields
marshal-object-ne-empty m = refl

-- After a pass that recorded the spec `last`, the payload for the spec `now` is computed without
-- error. At each key it holds the value of `now`; a key of `last` alone is reset to the zero
-- value of its kind, or left out if it held a number or null.
pub lookup-effective_payload :
    (now last : Fields)
    → IsWellFields last
    → (payload : Fields) × (effective_payload now (marshal (object last)) ≡ ok payload)
      × ((k : String) → lookup k payload ≡ or_reset (lookup k now) (lookup k last))
unfolding effective_payload
lookup-effective_payload now last w = (
  reset_removed (sort_fields last) now,
  rw (marshal-object-ne-empty last, unmarshal_map-marshal last w, deep_copy_map_lem now),
  λ k.
      lookup-reset_removed k (sort_fields last) now
        (IsWellFields-NodupKeys _ (sort_fields-IsWellFields last w))
      ∙ rw (lookup-sort_fields k last w) (or_reset-sort_keys (lookup k now) (lookup k last)),
)

-- A resource without the annotation is enforced as its spec says, and the only error comes from a
-- text that is not that of a map.
pub effective_payload_first : (now : Fields) → effective_payload now [] ≡ ok now
unfolding effective_payload
effective_payload_first now = rw deep_copy_map_lem

reset_field_present :
    (k : String) (previous : Value) (payload : Fields)
    → lookup k payload ≢ none
    → reset_field k previous payload ≡ payload
unfolding reset_field
reset_field_present k previous payload h = ground arith

reset_removed_covered :
    (last payload : Fields)
    → ((k : String) → lookup k payload ≡ none → lookup k last ≡ none)
    → reset_removed last payload ≡ payload
unfolding reset_removed lookup
reset_removed_covered end payload h = refl
reset_removed_covered (field k previous last) payload h =
    rw (reset_field_present k previous payload (λ e. cc (rw (eq_refl k) at (h k e))))
      (reset_removed_covered last payload (λ j e. ground (arith, h j e, eq_iff k j)))

-- A pass over the spec that the last pass recorded enforces the spec as it stands: nothing is
-- reset.
pub effective_payload_same :
    (now : Fields) → IsWellFields now → effective_payload now (marshal (object now)) ≡ ok now
unfolding effective_payload
effective_payload_same now w = rw (
  marshal-object-ne-empty now,
  unmarshal_map-marshal now w,
  deep_copy_map_lem now,
  reset_removed_covered (sort_fields now) now (λ k e. lookup-sort_fields k now w ∙ rw e),
)

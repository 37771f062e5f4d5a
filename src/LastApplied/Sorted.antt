-- ===== src/LastApplied/Sorted.antt =====
-- A server that reads a body as Marshal wrote it holds maps with their keys in order: the test for
-- drift does not see the difference.
use keycloak_operator.Base.{
  String, Bool, true, false, Option, some, ◌≡◌, refl, ◌∙◌, arith, eq_refl, ap,
}
use keycloak_operator.Json.{
  Value, null, boolean, number, string, list, object, Items, nil, cons, Fields, end, field, lookup,
  is_null, count_items, IsWell, IsWellItems, IsWellFields,
}
use keycloak_operator.Json.Text.{sort_keys, sort_items, sort_fields}
use mathlib.Core.Option
use keycloak_operator.Json.RoundTrip.{lookup-sort_fields}
use keycloak_operator.LastApplied.{
  entry_differs, payload_differs, managed_value_equal, items_match, take_match,
}
use keycloak_operator.LastApplied.Differs.{later_entries, managed_value_equal_refl}

is_null-sort_keys : (v : Value) → is_null (sort_keys v) ≡ is_null v
unfolding sort_keys
is_null-sort_keys null = refl
is_null-sort_keys (boolean b) = refl
is_null-sort_keys (number s) = refl
is_null-sort_keys (string s) = refl
is_null-sort_keys (list l) = refl
is_null-sort_keys (object m) = refl

count_items-sort_items : (l : Items) → count_items (sort_items l) ≡ count_items l
unfolding sort_keys
count_items-sort_items nil = refl
count_items-sort_items (cons v l) = omega (arith, count_items-sort_items l)

entry_differs-sort_keys :
    (v : Value) (equal : Value → Bool) (got : Option Value)
    → equal (sort_keys v) ≡ true
    → got ≡ some (sort_keys v)
    → entry_differs v equal got ≡ false
unfolding entry_differs
entry_differs-sort_keys v equal got e h = rw h (ground (arith, e, is_null-sort_keys v))

mutual
  unfolding payload_differs sort_keys take_match

  managed_value_equal-sort_keys :
      (v : Value) → IsWell v → managed_value_equal v (sort_keys v) ≡ true
  managed_value_equal-sort_keys (object m) w = rw (
      payload_differs-sorted m (sort_fields m) w
        (λ k v e. lookup-sort_fields k m w ∙ ap (Option.map sort_keys) e))
  managed_value_equal-sort_keys (list l) w =
      rw (items_match-sort_items l w, count_items-sort_items l) (ground arith)
  managed_value_equal-sort_keys null w = managed_value_equal_refl null w
  managed_value_equal-sort_keys (boolean b) w = managed_value_equal_refl (boolean b) w
  managed_value_equal-sort_keys (number s) w = managed_value_equal_refl (number s) w
  managed_value_equal-sort_keys (string s) w = managed_value_equal_refl (string s) w

  items_match-sort_items : (l : Items) → IsWellItems l → items_match l (sort_items l) ≡ true
  items_match-sort_items nil w = refl
  items_match-sort_items (cons v l) w =
      ground (arith, managed_value_equal-sort_keys v w.0, items_match-sort_items l w.1)

  -- A map that holds each entry of the payload with its keys in order does not differ from it.
  pub payload_differs-sorted :
      (payload remote : Fields)
      → IsWellFields payload
      → ((k : String) (v : Value)
          → lookup k payload ≡ some v
          → lookup k remote ≡ some (sort_keys v))
      → payload_differs remote payload ≡ false
  payload_differs-sorted end remote w h = refl
  payload_differs-sorted (field k v payload) remote w h = rw (
    entry_differs-sort_keys v (managed_value_equal v) (lookup k remote)
        (managed_value_equal-sort_keys v w.1) (h k v (rw (eq_refl k))),
    payload_differs-sorted payload remote w.2
        (later_entries k v payload (λ j u. lookup j remote ≡ some (sort_keys u)) w.0 h),
  )

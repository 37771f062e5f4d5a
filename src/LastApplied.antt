-- ===== src/LastApplied.antt =====
-- internal/controller/lastapplied.go: the payload to enforce, its merge into the remote
-- representation, and the test for drift between the two.
pub mod Effective
pub mod Merge
pub mod Differs
pub mod Matching
pub mod Sorted
use keycloak_operator.Base.{
  ℕ, String, Bool, true, false, not, ◌&&◌, ◌||◌, Option, none, some, [], ◌==◌, nat_eq, is_some,
  if◌then◌else◌,
}
use keycloak_operator.Errors.{failure, other, Result, ok, err}
use keycloak_operator.Json.{
  Value, null, boolean, number, string, list, object, Items, nil, cons, Fields, end, field, lookup,
  insert, delete, count_items, is_null,
}
use keycloak_operator.Json.Text.{Text, text_eq, marshal, unmarshal_map}

-- Values are immutable here, so a copy is the value that the loops rebuild.
unfoldable mutual
  pub deep_copy_value : Value → Value
  deep_copy_value (object m) = object (deep_copy_map m)
  deep_copy_value (list l) = list (deep_copy_items l)
  deep_copy_value null = null
  deep_copy_value (boolean b) = boolean b
  deep_copy_value (number s) = number s
  deep_copy_value (string s) = string s

  pub deep_copy_items : Items → Items
  deep_copy_items nil = nil
  deep_copy_items (cons v l) = cons (deep_copy_value v) (deep_copy_items l)

  pub deep_copy_map : Fields → Fields
  deep_copy_map end = end
  deep_copy_map (field k v m) = field k (deep_copy_value v) (deep_copy_map m)

-- The reset value of a value applied before; `none` for what is not resettable.
unfoldable pub zero_for : Value → Option Value
zero_for (string s) = some (string "")
zero_for (boolean b) = some (boolean false)
zero_for (list l) = some (list nil)
zero_for (object m) = some (object end)
zero_for _ = none

-- One round of the loop over the last-applied payload.
unfoldable pub reset_field : String → Value → Fields → Fields
unfolding zero_for lookup insert
reset_field k previous payload =
    if is_some (lookup k payload)
    then payload
    else elim (zero_for previous) [ none ↦ payload | some zero ↦ insert k zero payload ]

unfoldable pub reset_removed : Fields → Fields → Fields
unfolding reset_field
reset_removed end payload = payload
reset_removed (field k previous last) payload = reset_removed last (reset_field k previous payload)

unfoldable pub effective_payload : Fields → Text → Result Fields
unfolding deep_copy_map reset_removed text_eq unmarshal_map
effective_payload spec_map last_applied =
    let payload = deep_copy_map spec_map in
    if text_eq last_applied [] then ok payload else elim (unmarshal_map last_applied) [
      | none ↦ err (failure other "decode last-applied annotation")
      | some last ↦ ok (reset_removed last payload)
    ]

unfoldable pub merge_field : Fields → String → Value → Fields
unfolding insert delete
merge_field remote k v = if is_null v then delete k remote else insert k v remote

unfoldable pub merge_payload : Fields → Fields → Fields
unfolding merge_field
merge_payload remote end = remote
merge_payload remote (field k v payload) = merge_payload (merge_field remote k v) payload

-- One of the reset values.
unfoldable pub is_zero_value : Value → Bool
is_zero_value (string s) = s == ""
is_zero_value (boolean b) = not b
is_zero_value (list nil) = true
is_zero_value (object end) = true
is_zero_value _ = false

abbrev pub keycloak_masked_value : String
keycloak_masked_value = "**********"

abbrev pub is_masked : Value → Bool
is_masked (string s) = s == keycloak_masked_value
is_masked _ = false

-- The texts that Marshal writes for decoded values are equal exactly when those of the values
-- decoded once more are, so one comparison stands for the two of the source.
unfoldable pub json_equal : Value → Value → Bool
unfolding text_eq marshal
json_equal a b = text_eq (marshal a) (marshal b)

-- `exists && got != nil`
abbrev pub is_present : Option Value → Bool
is_present none = false
is_present (some v) = not (is_null v)

abbrev pub holds_at : (Value → Bool) → Option Value → Bool
holds_at test none = false
holds_at test (some v) = test v

-- The body of the loop of `PayloadDiffers`: what is wanted at a key, the test for equality with
-- it, and what the remote map has at the key.
unfoldable pub entry_differs : Value → (Value → Bool) → Option Value → Bool
unfolding is_zero_value
entry_differs want equal got =
    if is_null want
    then is_present got
    else if is_zero_value want
    then is_present got && not (holds_at equal got)
    else not (is_present got && holds_at equal got)

-- The inner loop of the comparison of lists: the first remote element still unused that equals
-- the wanted one is taken; the result holds those still unused.
unfoldable pub take_match : (Value → Bool) → Items → Option Items
take_match equal nil = none
take_match equal (cons got unused) =
    if equal got
    then some unused
    else elim (take_match equal unused) [ none ↦ none | some rest ↦ some (cons got rest) ]

unfoldable mutual
  unfolding entry_differs take_match json_equal lookup

  pub payload_differs : Fields → Fields → Bool
  payload_differs remote end = false
  payload_differs remote (field k want payload) =
      entry_differs want (managed_value_equal want) (lookup k remote)
      || payload_differs remote payload

  pub managed_value_equal : Value → Value → Bool
  managed_value_equal (object want) got = elim got [
    | object m ↦ not (payload_differs m want)
    | _ ↦ false
  ]
  managed_value_equal (list want) got = elim got [
    | list l ↦ nat_eq (count_items want) (count_items l) && items_match want l
    | _ ↦ false
  ]
  managed_value_equal null got = is_masked got || json_equal null got
  managed_value_equal (boolean b) got = is_masked got || json_equal (boolean b) got
  managed_value_equal (number s) got = is_masked got || json_equal (number s) got
  managed_value_equal (string s) got = is_masked got || json_equal (string s) got

  pub items_match : Items → Items → Bool
  items_match nil unused = true
  items_match (cons want wants) unused = elim (take_match (managed_value_equal want) unused) [
    | none ↦ false
    | some rest ↦ items_match wants rest
  ]

-- ===== src/Tests/Payloads.antt =====
-- The theorems on payloads at concrete data.
use mathlib.Core.List.{Perm, Forall₂}
use keycloak_operator.Base.{
  String, true, false, some, List, ◌≡◌, refl, ◌↔◌, inl, inr, ◌==◌, Bool-cases,
}
use keycloak_operator.Errors.{ok}
use keycloak_operator.Json.{
  Value, null, boolean, number, string, list, object, Items, nil, cons, Fields, end, field, lookup,
  count_items,
}
use keycloak_operator.Json.Text.{marshal, unmarshal, sort_keys}
use keycloak_operator.Json.RoundTrip.{unmarshal-marshal}
use keycloak_operator.LastApplied.{
  effective_payload, merge_payload, payload_differs, managed_value_equal,
}
use keycloak_operator.LastApplied.Effective.{or_reset, lookup-effective_payload}
use keycloak_operator.LastApplied.Merge.{overlay, lookup-merge_payload}
use keycloak_operator.LastApplied.Differs.{
  Stored, Drifts, payload_differs_converges, payload_differs-merge_payload, payload_differs_iff,
}
use keycloak_operator.LastApplied.Matching.{
  to_list, Matched, managed_value_equal-list, greedy_match_depends_on_order,
}

-- `now` dropped the display name and the lifespan that `last` had.
abbrev now : Fields
now = field "realm" (string "demo") (field "enabled" (boolean true) end)

abbrev last : Fields
last =
    field "realm" (string "demo")
      (field "displayName" (string "Demo") (field "lifespan" (number "300") end))

abbrev wanted : Fields
wanted =
    field "realm" (string "demo")
      (field "theme" null (field "flows" (list (cons (string "a") (cons (string "b") nil))) end))

abbrev remote : Fields
remote = field "id" (string "7") (field "theme" (string "dark") (field "realm" (string "old") end))

abbrev stored : Fields
stored =
    field "realm" (string "demo") (field "enabled" (boolean true) (field "id" (string "7") end))

effective_payload_reset :
    effective_payload now (marshal (object last))
    ≡ ok (
        field "realm"
          (string "demo")
          (field "enabled" (boolean true) (field "displayName" (string "") end)))
unfolding effective_payload marshal
effective_payload_reset = refl

merge_payload_run :
    merge_payload remote wanted
    ≡ field "id" (string "7") (
        field "realm"
          (string "demo")
          (field "flows" (list (cons (string "a") (cons (string "b") nil))) end))
unfolding merge_payload
merge_payload_run = refl

lookup-effective_payload_example :
    (payload : Fields) × (effective_payload now (marshal (object last)) ≡ ok payload)
    × ((k : String) → lookup k payload ≡ or_reset (lookup k now) (lookup k last))
unfolding lookup
lookup-effective_payload_example =
    lookup-effective_payload now last (refl, tt, (refl, tt, (refl, tt, tt)))

lookup-merge_payload_example :
    lookup "theme" (merge_payload remote wanted)
    ≡ overlay (lookup "theme" wanted) (lookup "theme" remote)
unfolding lookup
lookup-merge_payload_example = lookup-merge_payload "theme" remote wanted (refl, (refl, (refl, tt)))

-- Each entry of `now` is in `stored` as it was sent.
now-Stored : (k : String) (v : Value) → lookup k now ≡ some v → Stored v (lookup k stored)
unfolding lookup
now-Stored k v e = elim (Bool-cases ("realm" == k)) [
  | inl t ↦ inl (rw t (rw t at e))
  | inr f ↦ elim (Bool-cases ("enabled" == k)) [
    | inl t ↦ inl (rw (f, t) (rw (f, t) at e))
    | inr g ↦ cc (rw (f, g) at e)
  ]
]

payload_differs_converges_example : payload_differs stored now ≡ false
unfolding lookup
payload_differs_converges_example =
    payload_differs_converges now stored (refl, tt, (refl, tt, tt)) now-Stored

payload_differs-merge_payload_example : payload_differs (merge_payload remote wanted) wanted ≡ false
unfolding lookup
payload_differs-merge_payload_example =
    payload_differs-merge_payload remote wanted (refl, tt, (refl, tt, (refl, (tt, (tt, tt)), tt)))

-- Without its own key a representation agrees with the former on the keys of the payload.
abbrev stripped : Fields
stripped = field "realm" (string "demo") (field "enabled" (boolean true) end)

same_on_payload :
    (k : String) (v : Value) → lookup k now ≡ some v → lookup k stored ≡ lookup k stripped
unfolding lookup
same_on_payload k v e = elim (Bool-cases ("realm" == k)) [
  | inl t ↦ rw t
  | inr f ↦ elim (Bool-cases ("enabled" == k)) [ inl t ↦ rw (f, t) | inr g ↦ cc (rw (f, g) at e) ]
]

payload_differs_iff_example : (payload_differs remote now ≡ true) ↔ Drifts remote now
unfolding lookup
payload_differs_iff_example = payload_differs_iff remote now (refl, (refl, tt))

abbrev flows : Items
flows = cons (string "a") (cons (string "b") nil)

abbrev shuffled : Items
shuffled = cons (string "b") (cons (string "a") nil)

managed_value_equal-list_example :
    (count_items flows ≡ count_items shuffled)
    × ((taken : List Value) × Forall₂ Matched (to_list flows) taken × Perm (to_list shuffled) taken)
managed_value_equal-list_example =
    managed_value_equal-list flows shuffled (unfold payload_differs in refl)

-- A wanted object that says less equals more remote ones.
abbrev loose : Value
loose = object (field "name" (string "mapper") end)

abbrev strict : Value
strict = object (field "name" (string "mapper") (field "id" (string "1") end))

abbrev other_mapper : Value
other_mapper = object (field "name" (string "mapper") (field "id" (string "2") end))

greedy_match_depends_on_order_example :
    let got = list (cons strict (cons other_mapper nil)) in
    (managed_value_equal (list (cons loose (cons strict nil))) got ≡ false)
    × (managed_value_equal (list (cons strict (cons loose nil))) got ≡ true)
greedy_match_depends_on_order_example =
    greedy_match_depends_on_order loose strict strict other_mapper (unfold payload_differs in refl)
      (unfold payload_differs in refl) (unfold payload_differs in refl)
      (unfold payload_differs in refl)

unmarshal-marshal_example : unmarshal (marshal (object last)) ≡ some (sort_keys (object last))
unfolding lookup
unmarshal-marshal_example = unmarshal-marshal (object last) (refl, tt, (refl, tt, (refl, tt, tt)))

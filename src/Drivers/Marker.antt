-- ===== src/Drivers/Marker.antt =====
-- driver_helpers.go: the marker of managed resources in the attributes of a representation.
use keycloak_operator.Base.{
  String, Bool, true, false, ◌||◌, Option, none, some, ◌≡◌, refl, ◌∙◌, ◌==◌, eq_refl, arith,
}
use keycloak_operator.Json.{
  Value, string, list, object, Items, nil, cons, Fields, end, lookup, insert, append_item,
  as_object, as_list, as_string,
}
use keycloak_operator.Json.Laws.{lookup-insert}
use keycloak_operator.Api.{managed_annotation, managed_value}

-- The attributes of a payload, or the empty map that is put in their place.
abbrev pub attributes_of : Fields → Fields
attributes_of payload = elim (as_object (lookup "attributes" payload)) [ none ↦ end | some m ↦ m ]

unfoldable pub stamp_string_attribute : Fields → String → String → Fields
stamp_string_attribute payload key value =
    insert "attributes" (object (insert key (string value) (attributes_of payload))) payload

abbrev pub items_or_nil : Option Value → Items
items_or_nil v = elim (as_list v) [ none ↦ nil | some l ↦ l ]

unfoldable pub stamp_slice_attribute : Fields → String → String → Fields
unfolding append_item
stamp_slice_attribute payload key value =
    let attrs = attributes_of payload in
    insert "attributes"
      (object
        (insert key (list (append_item (items_or_nil (lookup key attrs)) (string value))) attrs))
      payload

abbrev pub is_text : String → Option Value → Bool
is_text s v = elim (as_string v) [ none ↦ false | some t ↦ t == s ]

unfoldable pub managed_by_string_attribute : Fields → Bool
managed_by_string_attribute remote = elim (as_object (lookup "attributes" remote)) [
  | none ↦ false
  | some attrs ↦ is_text managed_value (lookup managed_annotation attrs)
]

unfoldable pub has_marker : Items → Bool
has_marker nil = false
has_marker (cons v l) = is_text managed_value (some v) || has_marker l

unfoldable pub managed_by_slice_attribute : Fields → Bool
unfolding has_marker
managed_by_slice_attribute remote = elim (as_object (lookup "attributes" remote)) [
  | none ↦ false
  | some attrs ↦ has_marker (items_or_nil (lookup managed_annotation attrs))
]

lookup-insert_self : (k : String) (v : Value) (m : Fields) → lookup k (insert k v m) ≡ some v
lookup-insert_self k v m = lookup-insert k k v m ∙ rw (eq_refl k)

has_marker-append_item : (l : Items) → has_marker (append_item l (string managed_value)) ≡ true
unfolding has_marker append_item
has_marker-append_item nil = refl
has_marker-append_item (cons v l) = ground (arith, has_marker-append_item l)

string_marked :
    (remote attrs : Fields)
    → lookup "attributes" remote ≡ some (object attrs)
    → lookup managed_annotation attrs ≡ some (string managed_value)
    → managed_by_string_attribute remote ≡ true
unfolding managed_by_string_attribute
string_marked remote attrs e f = ground (arith, eq_refl managed_value)

slice_marked :
    (remote attrs : Fields) (l : Items)
    → lookup "attributes" remote ≡ some (object attrs)
    → lookup managed_annotation attrs ≡ some (list l)
    → has_marker l ≡ true
    → managed_by_slice_attribute remote ≡ true
unfolding managed_by_slice_attribute
slice_marked remote attrs l e f h = ground arith

-- A stamped payload is recognised as managed, whatever it held under its attributes before, in
-- both forms of the attributes.
pub stamped_is_managed :
    (payload : Fields)
    → (managed_by_string_attribute (stamp_string_attribute payload managed_annotation managed_value)
        ≡ true)
      × (managed_by_slice_attribute (stamp_slice_attribute payload managed_annotation managed_value)
          ≡ true)
unfolding stamp_string_attribute stamp_slice_attribute
stamped_is_managed payload = (
  string_marked _ _ (lookup-insert_self "attributes" _ payload)
      (lookup-insert_self managed_annotation _ (attributes_of payload)),
  slice_marked _ _ _ (lookup-insert_self "attributes" _ payload)
      (lookup-insert_self managed_annotation _ (attributes_of payload)) (has_marker-append_item _),
)

-- The stamp leaves every other key of the payload as it was.
stamp_keeps_keys :
    (payload : Fields) (k : String)
    → ("attributes" == k) ≡ false
    → (lookup k (stamp_string_attribute payload managed_annotation managed_value)
        ≡ lookup k payload)
      × (lookup k (stamp_slice_attribute payload managed_annotation managed_value)
          ≡ lookup k payload)
unfolding stamp_string_attribute stamp_slice_attribute
stamp_keeps_keys payload k h = (simp lookup-insert (rw h), simp lookup-insert (rw h))

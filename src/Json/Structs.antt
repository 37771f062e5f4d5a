-- ===== src/Json/Structs.antt =====
-- encoding/json on a Go struct: the fields in their order under their tags, where one marked
-- `omitempty` is left out if it is a nil pointer, an empty text, or an empty slice or map.
pub mod Laws
pub mod Nulls
use keycloak_operator.Base.{
  String, Bool, true, false, ◌||◌, Option, none, some, List, [], ◌∷◌, not, ◌&&◌, ◌==◌,
  if◌then◌else◌,
}
use keycloak_operator.Json.{
  Value, boolean, number, string, list, object, Items, nil, cons, Fields, end, field,
}
use mathlib.Core.Option

-- An `int` or an `int64`, as the text that json.Marshal prints for the float64 that it is read
-- back as. A nil slice or map and an empty one are one value below, since `omitempty` leaves out
-- both.
abbrev pub Integer : Type 0
Integer = String

-- A field by its Go type. All but `required` and `map_of` are marked `omitempty`.
pub data Slot : Type 0 where
  required : String → Slot
  nonempty : String → Slot
  flag : Option Bool → Slot
  text : Option String → Slot
  integer : Option Integer → Slot
  texts : List String → Slot
  texts_pointer : Option (List String) → Slot
  map_of : List (String × String) → Slot
  text_map : List (String × String) → Slot
  texts_map : List (String × List String) → Slot
  texts_map_pointer : Option (List (String × List String)) → Slot
  structure : Option Fields → Slot
  structures : List Fields → Slot

abbrev pub text_items : List String → Items
text_items [] = nil
text_items (s ∷ l) = cons (string s) (text_items l)

abbrev pub struct_items : List Fields → Items
struct_items [] = nil
struct_items (m ∷ l) = cons (object m) (struct_items l)

abbrev pub map_fields : List (String × String) → Fields
map_fields [] = end
map_fields ((k, s) ∷ m) = field k (string s) (map_fields m)

abbrev pub texts_fields : List (String × List String) → Fields
texts_fields [] = end
texts_fields ((k, l) ∷ m) = field k (list (text_items l)) (texts_fields m)

-- What stands under the tag, `none` where the field is left out.
unfoldable pub encode : Slot → Option Value
encode (required s) = some (string s)
encode (nonempty s) = if s == "" then none else some (string s)
encode (flag b) = Option.map boolean b
encode (text s) = Option.map string s
encode (integer n) = Option.map number n
encode (texts []) = none
encode (texts (s ∷ l)) = some (list (text_items (s ∷ l)))
encode (texts_pointer l) = Option.map (λ x. list (text_items x)) l
encode (map_of m) = some (object (map_fields m))
encode (text_map []) = none
encode (text_map (p ∷ m)) = some (object (map_fields (p ∷ m)))
encode (texts_map []) = none
encode (texts_map (p ∷ m)) = some (object (texts_fields (p ∷ m)))
encode (texts_map_pointer m) = Option.map (λ x. object (texts_fields x)) m
encode (structure m) = Option.map object m
encode (structures []) = none
encode (structures (m ∷ l)) = some (list (struct_items (m ∷ l)))

abbrev pub add_field : String → Option Value → Fields → Fields
add_field k none m = m
add_field k (some v) m = field k v m

unfoldable pub struct : List (String × Slot) → Fields
struct [] = end
struct ((k, s) ∷ t) = add_field k (encode s) (struct t)

-- The JSON form of the field with a tag.
unfoldable pub find : String → List (String × Slot) → Option Value
find k [] = none
find k ((j, s) ∷ t) = if j == k then encode s else find k t

abbrev pub has_tag : String → List (String × Slot) → Bool
has_tag k [] = false
has_tag k ((j, s) ∷ t) = j == k || has_tag k t

-- No tag stands twice, which the Go compiler leaves to `go vet`.
unfoldable pub distinct_tags : List (String × Slot) → Bool
distinct_tags [] = true
distinct_tags ((k, s) ∷ t) = not (has_tag k t) && distinct_tags t

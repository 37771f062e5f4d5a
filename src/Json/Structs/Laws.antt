-- ===== src/Json/Structs/Laws.antt =====
-- What a struct holds under a key, and that its JSON form is a map in which no key stands twice.
use keycloak_operator.Base.{
  String, true, false, Option, none, some, List, [], ◌∷◌, ◌≡◌, refl, ◌∙◌, arith, ◌==◌, eq_iff, inl,
  inr, is_some, Bool-cases, if◌then◌else◌,
}
use keycloak_operator.Json.{Value, Fields, lookup, NodupKeys, IsWell, IsWellItems, IsWellFields}
use keycloak_operator.Json.Structs.{
  Slot, required, nonempty, flag, text, integer, texts, texts_pointer, map_of, text_map, texts_map,
  texts_map_pointer, structure, structures, text_items, struct_items, map_fields, texts_fields,
  encode, add_field, struct, find, has_tag, distinct_tags,
}

-- The maps of a field are maps: no key stands twice.
abbrev pub AllWell : List Fields → Type 0
AllWell [] = Unit
AllWell (m ∷ l) = IsWellFields m × AllWell l

abbrev pub HasMaps : Slot → Type 0
HasMaps (map_of m) = NodupKeys (map_fields m)
HasMaps (text_map m) = NodupKeys (map_fields m)
HasMaps (texts_map m) = NodupKeys (texts_fields m)
HasMaps (texts_map_pointer (some m)) = NodupKeys (texts_fields m)
HasMaps (structure (some m)) = IsWellFields m
HasMaps (structures l) = AllWell l
HasMaps _ = Unit

abbrev pub HaveMaps : List (String × Slot) → Type 0
HaveMaps [] = Unit
HaveMaps ((k, s) ∷ t) = HasMaps s × HaveMaps t

text_items-IsWell : (l : List String) → IsWellItems (text_items l)
text_items-IsWell [] = tt
text_items-IsWell (s ∷ l) = (tt, text_items-IsWell l)

struct_items-IsWell : (l : List Fields) → AllWell l → IsWellItems (struct_items l)
struct_items-IsWell [] w = tt
struct_items-IsWell (m ∷ l) w = (w.0, struct_items-IsWell l w.1)

map_fields-IsWell :
    (m : List (String × String)) → NodupKeys (map_fields m) → IsWellFields (map_fields m)
map_fields-IsWell [] w = tt
map_fields-IsWell ((k, s) ∷ m) w = (w.0, tt, map_fields-IsWell m w.1)

texts_fields-IsWell :
    (m : List (String × List String)) → NodupKeys (texts_fields m) → IsWellFields (texts_fields m)
texts_fields-IsWell [] w = tt
texts_fields-IsWell ((k, l) ∷ m) w = (w.0, text_items-IsWell l, texts_fields-IsWell m w.1)

abbrev IsWellOption : Option Value → Type 0
IsWellOption none = Unit
IsWellOption (some v) = IsWell v

encode-IsWell : (s : Slot) → HasMaps s → IsWellOption (encode s)
unfolding encode
encode-IsWell (required s) w = tt
encode-IsWell (nonempty s) w = elim (Bool-cases (s == "")) [ inl e ↦ rw e tt | inr e ↦ rw e tt ]
encode-IsWell (flag none) w = tt
encode-IsWell (flag (some b)) w = tt
encode-IsWell (text none) w = tt
encode-IsWell (text (some s)) w = tt
encode-IsWell (integer none) w = tt
encode-IsWell (integer (some n)) w = tt
encode-IsWell (texts []) w = tt
encode-IsWell (texts (s ∷ l)) w = text_items-IsWell (s ∷ l)
encode-IsWell (texts_pointer none) w = tt
encode-IsWell (texts_pointer (some l)) w = text_items-IsWell l
encode-IsWell (map_of m) w = map_fields-IsWell m w
encode-IsWell (text_map []) w = tt
encode-IsWell (text_map (p ∷ m)) w = map_fields-IsWell (p ∷ m) w
encode-IsWell (texts_map []) w = tt
encode-IsWell (texts_map (p ∷ m)) w = texts_fields-IsWell (p ∷ m) w
encode-IsWell (texts_map_pointer none) w = tt
encode-IsWell (texts_map_pointer (some m)) w = texts_fields-IsWell m w
encode-IsWell (structure none) w = tt
encode-IsWell (structure (some m)) w = w
encode-IsWell (structures []) w = tt
encode-IsWell (structures (m ∷ l)) w = struct_items-IsWell (m ∷ l) w

pub find-absent : (k : String) (t : List (String × Slot)) → has_tag k t ≡ false → find k t ≡ none
unfolding find
find-absent k [] h = refl
find-absent k ((j, s) ∷ t) h = ground (arith, find-absent k t)

lookup-add_field :
    (k j : String) (o : Option Value) (m : Fields)
    → lookup k (add_field j o m)
      ≡ (if j == k then (if is_some o then o else lookup k m) else lookup k m)
unfolding lookup
lookup-add_field k j none m = ground arith
lookup-add_field k j (some v) m = ground arith

-- Under each key stands what the field with that tag encodes to.
pub lookup-struct :
    (k : String) (t : List (String × Slot))
    → distinct_tags t ≡ true
    → lookup k (struct t) ≡ find k t
unfolding struct find distinct_tags lookup
lookup-struct k [] d = refl
lookup-struct k ((j, s) ∷ t) d = ground (
  arith,
  eq_iff j k,
  lookup-add_field k j (encode s) (struct t),
  lookup-struct k t,
  find-absent k t,
)

add_field-IsWell :
    (k : String) (o : Option Value) (m : Fields)
    → IsWellOption o
    → lookup k m ≡ none
    → IsWellFields m
    → IsWellFields (add_field k o m)
add_field-IsWell k none m w a h = h
add_field-IsWell k (some v) m w a h = (a, w, h)

pub struct-IsWell :
    (t : List (String × Slot)) → distinct_tags t ≡ true → HaveMaps t → IsWellFields (struct t)
unfolding struct distinct_tags
struct-IsWell [] d w = tt
struct-IsWell ((k, s) ∷ t) d w =
    let rest : distinct_tags t ≡ true = unfold distinct_tags in ground arith in
    let absent : lookup k (struct t) ≡ none =
      lookup-struct k t rest ∙ find-absent k t (ground arith) in
    add_field-IsWell k (encode s) (struct t) (encode-IsWell s w.0) absent (struct-IsWell t rest w.1)

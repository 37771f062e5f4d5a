-- ===== src/Json/Structs/Nulls.antt =====
-- A struct encodes no field to null.
use keycloak_operator.Base.{
  String, false, Option, none, some, List, [], ◌∷◌, ◌≡◌, refl, ◌==◌, inl, inr, Bool-cases,
}
use keycloak_operator.Json.{
  Value, null, boolean, number, string, list, object, Fields, lookup, is_null,
}
use keycloak_operator.Json.Text.{sort_keys}
use keycloak_operator.Json.Structs.{
  Slot, required, nonempty, flag, text, integer, texts, texts_pointer, map_of, text_map, texts_map,
  texts_map_pointer, structure, structures, encode, find,
}
use mathlib.Core.Option

abbrev pub NotNull : Option Value → Type 0
NotNull none = Unit
NotNull (some v) = is_null v ≡ false

-- No entry of the map is null.
abbrev pub HasNoNulls : Fields → Type 0
HasNoNulls m = (k : String) → NotNull (lookup k m)

encode-NotNull : (s : Slot) → NotNull (encode s)
unfolding encode
encode-NotNull (required s) = refl
encode-NotNull (nonempty s) = elim (Bool-cases (s == "")) [ inl e ↦ rw e tt | inr e ↦ rw e refl ]
encode-NotNull (flag none) = tt
encode-NotNull (flag (some b)) = refl
encode-NotNull (text none) = tt
encode-NotNull (text (some s)) = refl
encode-NotNull (integer none) = tt
encode-NotNull (integer (some n)) = refl
encode-NotNull (texts []) = tt
encode-NotNull (texts (s ∷ l)) = refl
encode-NotNull (texts_pointer none) = tt
encode-NotNull (texts_pointer (some l)) = refl
encode-NotNull (map_of m) = refl
encode-NotNull (text_map []) = tt
encode-NotNull (text_map (p ∷ m)) = refl
encode-NotNull (texts_map []) = tt
encode-NotNull (texts_map (p ∷ m)) = refl
encode-NotNull (texts_map_pointer none) = tt
encode-NotNull (texts_map_pointer (some m)) = refl
encode-NotNull (structure none) = tt
encode-NotNull (structure (some m)) = refl
encode-NotNull (structures []) = tt
encode-NotNull (structures (m ∷ l)) = refl

pub find-NotNull : (k : String) (t : List (String × Slot)) → NotNull (find k t)
unfolding find
find-NotNull k [] = tt
find-NotNull k ((j, s) ∷ t) = elim (Bool-cases (j == k)) [
  | inl e ↦ rw e (encode-NotNull s)
  | inr e ↦ rw e (find-NotNull k t)
]

pub sort_keys-NotNull : (o : Option Value) → NotNull o → NotNull (Option.map sort_keys o)
unfolding sort_keys
sort_keys-NotNull none h = tt
sort_keys-NotNull (some null) h = h
sort_keys-NotNull (some (boolean b)) h = refl
sort_keys-NotNull (some (number s)) h = refl
sort_keys-NotNull (some (string s)) h = refl
sort_keys-NotNull (some (list l)) h = refl
sort_keys-NotNull (some (object m)) h = refl

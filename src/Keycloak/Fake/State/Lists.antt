-- ===== src/Keycloak/Fake/State/Lists.antt =====
-- fake/server.go: `merge`, the helpers on lists at the end of the file, and maps of maps.
use keycloak_operator.Base.{
  String, Bool, true, false, not, ◌||◌, Option, none, some, List, [], ◌∷◌, ◌++◌, ◌==◌, is_some,
  if◌then◌else◌,
}
use keycloak_operator.Json.{
  Value, null, boolean, number, string, list, object, Fields, end, field, lookup, insert, as_string,
}
use keycloak_operator.Drivers.Sets
use mathlib.Core.Option

abbrev pub Map {ℓ} : Type ℓ → Type ℓ
Map A = List (String × A)

-- `merge`
unfoldable pub merge : Fields → Fields → Fields
merge dst end = dst
merge dst (field k v src) = merge (insert k v dst) src

unfoldable pub append_unique : List String → String → List String
append_unique [] value = value ∷ []
append_unique (v ∷ l) value =
    let rest = append_unique l value in if v == value then v ∷ l else v ∷ rest

unfoldable pub remove_value : List String → String → List String
remove_value [] value = []
remove_value (v ∷ l) value =
    let rest = remove_value l value in if v == value then rest else v ∷ rest

-- `existing["id"] == rep["id"]`: a missing id is nil, as null is. With two lists or two maps Go
-- panics, for which there is no answer.
unfoldable pub same_id : Option Value → Option Value → Option Bool
same_id none none = some true
same_id none (some null) = some true
same_id (some null) none = some true
same_id (some null) (some null) = some true
same_id (some (string s)) (some (string t)) = some (s == t)
same_id (some (number s)) (some (number t)) = some (s == t)
same_id (some (boolean true)) (some (boolean b)) = some b
same_id (some (boolean false)) (some (boolean b)) = some (not b)
same_id (some (list l)) (some (list l')) = none
same_id (some (object m)) (some (object m')) = none
same_id _ _ = some false

-- The inner loop of the two functions below, which ends at the first equal id or at a panic.
unfoldable pub has_id : Option Value → List Fields → Option Bool
unfolding same_id
has_id id [] = some false
has_id id (rep ∷ reps) =
    let rest = has_id id reps in
    elim (same_id (lookup "id" rep) id) [
      | none ↦ none
      | some same ↦ if same then some true else rest
    ]

-- The loop of `appendUniqueReps`, which looks into `current` and not into what it has appended.
unfoldable pub unique_reps : List Fields → List Fields → Option (List Fields)
unfolding has_id
unique_reps current [] = some []
unique_reps current (rep ∷ add) =
    let rest = unique_reps current add in
    elim (has_id (lookup "id" rep) current) [
      | none ↦ none
      | some found ↦ if found then rest else Option.map (λ l. rep ∷ l) rest
    ]

unfoldable pub append_unique_reps : List Fields → List Fields → Option (List Fields)
unfolding unique_reps
append_unique_reps current add = Option.map (λ l. current ++ l) (unique_reps current add)

unfoldable pub remove_reps : List Fields → List Fields → Option (List Fields)
unfolding has_id
remove_reps [] remove = some []
remove_reps (rep ∷ current) remove =
    let rest = remove_reps current remove in
    elim (has_id (lookup "id" rep) remove) [
      | none ↦ none
      | some drop ↦ if drop then rest else Option.map (λ l. rep ∷ l) rest
    ]

-- `rep[key] == s`, and `s, _ := rep[key].(string)`
abbrev pub is_text_at : String → String → Fields → Bool
is_text_at key s rep = elim (as_string (lookup key rep)) [ none ↦ false | some t ↦ t == s ]

module _ {ℓ} {A : Type ℓ} where
  -- `m[realm]`
  abbrev pub inner : String → Map (Map A) → Map A
  inner realm m = elim (Sets.get realm m) [ none ↦ [] | some n ↦ n ]

  -- `m[realm][k] = a`, after the inner map is made if there is none.
  abbrev pub put_inner : String → String → A → Map (Map A) → Map (Map A)
  put_inner realm k a m = Sets.put realm (Sets.put k a (inner realm m)) m

  -- A change of the inner map, if there is one.
  abbrev pub change_inner : String → (Map A → Map A) → Map (Map A) → Map (Map A)
  change_inner realm f m =
      if is_some (Sets.get realm m) then Sets.put realm (f (inner realm m)) m else m

-- Some representation passes the test.
abbrev pub some_rep : (Fields → Bool) → Map Fields → Bool
some_rep test [] = false
some_rep test ((id, rep) ∷ m) = test rep || some_rep test m

-- A listing writes the id into each representation that it lists.
abbrev pub marked : (Fields → Bool) → Map Fields → Map Fields
marked test [] = []
marked test ((id, rep) ∷ m) =
    (id, (if test rep then insert "id" (string id) rep else rep)) ∷ marked test m

abbrev pub listed : (Fields → Bool) → Map Fields → List Fields
listed test [] = []
listed test ((id, rep) ∷ m) =
    if test rep then insert "id" (string id) rep ∷ listed test m else listed test m

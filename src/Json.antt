-- ===== src/Json.antt =====
-- JSON values as Go holds them after json.Unmarshal: `any` is one data type, `[]any` is `Items` and
-- `map[string]any` is `Fields`, an association list whose order is the order in which a loop
-- visits the map. A float64 is the text that json.Marshal prints for it, which tells two apart.
pub mod Laws
pub mod Text
pub mod RoundTrip
pub mod Structs
use keycloak_operator.Base.{
  ℕ, suc, String, ◌≡◌, Bool, true, false, Option, none, some, ◌==◌, if◌then◌else◌,
}

mutual
  pub data Value : Type 0 where
    null : Value
    boolean : Bool → Value
    number : String → Value
    string : String → Value
    list : Items → Value
    object : Fields → Value

  pub data Items : Type 0 where
    nil : Items
    cons : Value → Items → Items

  pub data Fields : Type 0 where
    end : Fields
    field : String → Value → Fields → Fields

-- `v, ok := m[k]`
unfoldable pub lookup : String → Fields → Option Value
lookup k end = none
lookup k (field j v m) = if j == k then some v else lookup k m

-- `m[k] = v`
unfoldable pub insert : String → Value → Fields → Fields
insert k v end = field k v end
insert k v (field j w m) = if j == k then field j v m else field j w (insert k v m)

-- `delete(m, k)`
unfoldable pub delete : String → Fields → Fields
delete k end = end
delete k (field j v m) = let rest = delete k m in if j == k then rest else field j v rest

-- `len(l)`
abbrev pub count_items : Items → ℕ
count_items nil = 0
count_items (cons v l) = suc (count_items l)

-- `append(l, v)`
unfoldable pub append_item : Items → Value → Items
append_item nil v = cons v nil
append_item (cons w l) v = cons w (append_item l v)

-- `v == nil`
abbrev pub is_null : Value → Bool
is_null null = true
is_null _ = false

-- `m, _ := v.(map[string]any)`, with a nil map for a value that is no map
abbrev pub as_object : Option Value → Option Fields
as_object (some (object m)) = some m
as_object _ = none

-- `l, _ := v.([]any)`
abbrev pub as_list : Option Value → Option Items
as_list (some (list l)) = some l
as_list _ = none

-- `s, ok := v.(string)`
abbrev pub as_string : Option Value → Option String
as_string (some (string s)) = some s
as_string _ = none

-- What a Go map has by itself: no key stands twice.
abbrev pub NodupKeys : Fields → Type 0
NodupKeys end = Unit
NodupKeys (field k v m) = (lookup k m ≡ none) × NodupKeys m

-- The same of every map inside a value.
abbrev mutual
  pub IsWell : Value → Type 0
  IsWell (list l) = IsWellItems l
  IsWell (object m) = IsWellFields m
  IsWell _ = Unit

  pub IsWellItems : Items → Type 0
  IsWellItems nil = Unit
  IsWellItems (cons v l) = IsWell v × IsWellItems l

  pub IsWellFields : Fields → Type 0
  IsWellFields end = Unit
  IsWellFields (field k v m) = (lookup k m ≡ none) × IsWell v × IsWellFields m

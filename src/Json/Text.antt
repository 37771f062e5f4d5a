-- ===== src/Json/Text.antt =====
-- encoding/json as the operator uses it. A JSON text is its sequence of tokens, without the white
-- space, the commas and the quotes. json.Marshal writes the keys of a map in ascending order;
-- json.Unmarshal keeps the last of two equal keys and accepts a text only as a whole.
use Prim.Native.Nat.{Ordering}
use Prim.Native.String.{compare}
use keycloak_operator.Base.{
  ℕ, zero, suc, String, Bool, true, false, ◌&&◌, Option, none, some, List, [], ◌∷◌, ◌==◌, length,
  is_some, if◌then◌else◌,
}
use keycloak_operator.Json.{
  Value, null, boolean, number, string, list, object, Items, nil, cons, Fields, end, field, lookup,
}

pub data Token : Type 0 where
  null_token open_list close_list open_object close_object : Token
  boolean_token : Bool → Token
  number_token string_token key_token : String → Token

-- The empty list is the empty text.
abbrev pub Text : Type 0
Text = List Token

unfoldable pub token_eq : Token → Token → Bool
token_eq null_token null_token = true
token_eq open_list open_list = true
token_eq close_list close_list = true
token_eq open_object open_object = true
token_eq close_object close_object = true
token_eq (boolean_token true) (boolean_token b) = b
token_eq (boolean_token false) (boolean_token b) = if b then false else true
token_eq (number_token s) (number_token t) = s == t
token_eq (string_token s) (string_token t) = s == t
token_eq (key_token s) (key_token t) = s == t
token_eq _ _ = false

-- `string(a) == string(b)`
unfoldable pub text_eq : Text → Text → Bool
unfolding token_eq
text_eq [] [] = true
text_eq (a ∷ s) (b ∷ t) = token_eq a b && text_eq s t
text_eq _ _ = false

abbrev pub is_before : String → String → Bool
is_before s t = elim (compare s t) [ Ordering.lt ↦ true | _ ↦ false ]

unfoldable pub insert_sorted : String → Value → Fields → Fields
insert_sorted k v end = field k v end
insert_sorted k v (field j w m) =
    if is_before k j then field k v (field j w m) else field j w (insert_sorted k v m)

-- The value with the keys of every map in ascending order.
unfoldable mutual
  unfolding insert_sorted

  pub sort_keys : Value → Value
  sort_keys null = null
  sort_keys (boolean b) = boolean b
  sort_keys (number s) = number s
  sort_keys (string s) = string s
  sort_keys (list l) = list (sort_items l)
  sort_keys (object m) = object (sort_fields m)

  pub sort_items : Items → Items
  sort_items nil = nil
  sort_items (cons v l) = cons (sort_keys v) (sort_items l)

  pub sort_fields : Fields → Fields
  sort_fields end = end
  sort_fields (field k v m) = insert_sorted k (sort_keys v) (sort_fields m)

-- The tokens of a value, in front of the rest of the text.
unfoldable mutual
  pub print : Value → Text → Text
  print null r = null_token ∷ r
  print (boolean b) r = boolean_token b ∷ r
  print (number s) r = number_token s ∷ r
  print (string s) r = string_token s ∷ r
  print (list l) r = open_list ∷ print_items l (close_list ∷ r)
  print (object m) r = open_object ∷ print_fields m (close_object ∷ r)

  pub print_items : Items → Text → Text
  print_items nil r = r
  print_items (cons v l) r = print v (print_items l r)

  pub print_fields : Fields → Text → Text
  print_fields end r = r
  print_fields (field k v m) r = key_token k ∷ print v (print_fields m r)

-- json.Marshal
unfoldable pub marshal : Value → Text
unfolding print sort_keys
marshal v = print (sort_keys v) []

-- An entry read before the entries `m`: a later entry of the same key wins.
unfoldable pub keep_last : String → Value → Fields → Fields
unfolding lookup
keep_last k v m = if is_some (lookup k m) then m else field k v m

infixl 5 ◌>>=◌
abbrev pub ◌>>=◌ {ℓ κ} : {A : Type ℓ} {B : Type κ} → Option A → (A → Option B) → Option B
none >>= f = none
some a >>= f = f a

-- The fuel bounds the depth of the calls; the number of tokens is enough.
unfoldable mutual
  unfolding keep_last

  pub parse_value : ℕ → Text → Option (Value × Text)
  parse_value zero r = none
  parse_value (suc n) (null_token ∷ r) = some (null, r)
  parse_value (suc n) (boolean_token b ∷ r) = some (boolean b, r)
  parse_value (suc n) (number_token s ∷ r) = some (number s, r)
  parse_value (suc n) (string_token s ∷ r) = some (string s, r)
  parse_value (suc n) (open_list ∷ r) = parse_items n r >>= λ p. some (list p.0, p.1)
  parse_value (suc n) (open_object ∷ r) = parse_fields n r >>= λ p. some (object p.0, p.1)
  parse_value (suc n) _ = none

  pub parse_items : ℕ → Text → Option (Items × Text)
  parse_items zero r = none
  parse_items (suc n) (close_list ∷ r) = some (nil, r)
  parse_items (suc n) r =
      parse_value n r >>= λ p. parse_items n p.1 >>= λ q. some (cons p.0 q.0, q.1)

  pub parse_fields : ℕ → Text → Option (Fields × Text)
  parse_fields zero r = none
  parse_fields (suc n) (close_object ∷ r) = some (end, r)
  parse_fields (suc n) (key_token k ∷ r) =
      parse_value n r >>= λ p. parse_fields n p.1 >>= λ q. some (keep_last k p.0 q.0, q.1)
  parse_fields (suc n) _ = none

abbrev pub whole : Value × Text → Option Value
whole (v, []) = some v
whole (v, t ∷ r) = none

-- json.Unmarshal into an `any`
unfoldable pub unmarshal : Text → Option Value
unfolding parse_value
unmarshal r = parse_value (length r) r >>= whole

-- json.Unmarshal into a `map[string]any`: `null` gives a nil map, any other value an error.
abbrev pub as_map : Value → Option Fields
as_map null = some end
as_map (object m) = some m
as_map _ = none

unfoldable pub unmarshal_map : Text → Option Fields
unfolding unmarshal
unmarshal_map r = unmarshal r >>= as_map

-- ===== src/Json/RoundTrip.antt =====
-- Marshal and Unmarshal: the texts that the one writes are those that the other reads back, and a
-- text equals itself.
use Prim.Native.Nat.{◌+◌}
use keycloak_operator.Base.{
  ℕ, zero, suc, ◌≤◌, String, true, false, none, some, [], ◌∷◌, ◌≡◌, refl, ◌∙◌, ◌==◌, eq_iff,
  eq_refl, arith, length, if◌then◌else◌,
}
use keycloak_operator.Json.{
  Value, null, list, object, Items, nil, cons, Fields, end, field, lookup, IsWell, IsWellItems,
  IsWellFields,
}
use keycloak_operator.Json.Text.{
  Token, Text, boolean_token, token_eq, text_eq, insert_sorted, sort_keys, sort_items, sort_fields,
  print, print_items, print_fields, marshal, keep_last, parse_value, parse_items, parse_fields,
  ◌>>=◌, unmarshal, unmarshal_map, close_list, close_object,
}
use mathlib.Core.Option

token_eq_refl : (t : Token) → token_eq t t ≡ true
unfolding token_eq
token_eq_refl (boolean_token true) = refl
token_eq_refl (boolean_token false) = refl
token_eq_refl (Token.number_token s) = eq_refl s
token_eq_refl (Token.string_token s) = eq_refl s
token_eq_refl (Token.key_token s) = eq_refl s
token_eq_refl _ = refl

pub text_eq_refl : (t : Text) → text_eq t t ≡ true
unfolding text_eq
text_eq_refl [] = refl
text_eq_refl (a ∷ t) = rw (token_eq_refl a) (text_eq_refl t)

-- The number of tokens of a value.
mutual
  size : Value → ℕ
  size (list l) = suc (suc (size_items l))
  size (object m) = suc (suc (size_fields m))
  size _ = 1

  size_items : Items → ℕ
  size_items nil = 0
  size_items (cons v l) = size v + size_items l

  size_fields : Fields → ℕ
  size_fields end = 0
  size_fields (field k v m) = suc (size v + size_fields m)

size-pos : (v : Value) → 1 ≤ size v
unfolding size
size-pos null = omega arith
size-pos _ = omega arith

mutual
  unfolding size print

  length-print : (v : Value) (r : Text) → length (print v r) ≡ size v + length r
  length-print (list l) r = omega (arith, length-print_items l (close_list ∷ r))
  length-print (object m) r = omega (arith, length-print_fields m (close_object ∷ r))
  length-print _ r = omega arith

  length-print_items : (l : Items) (r : Text) → length (print_items l r) ≡ size_items l + length r
  length-print_items nil r = omega arith
  length-print_items (cons v l) r =
      omega (arith, length-print v (print_items l r), length-print_items l r)

  length-print_fields :
      (m : Fields) (r : Text) → length (print_fields m r) ≡ size_fields m + length r
  length-print_fields end r = omega arith
  length-print_fields (field k v m) r =
      omega (arith, length-print v (print_fields m r), length-print_fields m r)

-- No value begins with the end of a list.
parse_items-print_cons :
    (v : Value) (n : ℕ) (r : Text)
    → parse_items (suc n) (print v r)
      ≡ (parse_value n (print v r) >>= λ p. parse_items n p.1 >>= λ q. some (cons p.0 q.0, q.1))
unfolding print parse_value
parse_items-print_cons null n r = refl
parse_items-print_cons _ n r = refl

-- With fuel for its tokens a printed value is read back, and the rest of the text is left.
mutual
  unfolding size print parse_value

  parse-print :
      (v : Value) (n : ℕ) (r : Text)
      → IsWell v
      → size v ≤ n
      → parse_value n (print v r) ≡ some (v, r)
  parse-print v zero r w h = absurd (omega (arith, size-pos v))
  parse-print (list l) (suc n) r w h =
      rw (parse_items-print l n (close_list ∷ r) r w refl (omega arith))
  parse-print (object m) (suc n) r w h = rw (parse_fields-print m n r w (omega arith))
  parse-print _ (suc n) r w h = refl

  parse_items-print :
      (l : Items) (n : ℕ) (s r : Text)
      → IsWellItems l
      → s ≡ close_list ∷ r
      → suc (size_items l) ≤ n
      → parse_items n (print_items l s) ≡ some (l, r)
  parse_items-print l zero s r w e h = absurd (omega arith)
  parse_items-print nil (suc n) s r w e h = rw e
  parse_items-print (cons v l) (suc n) s r w e h =
      parse_items-print_cons v n (print_items l s)
      ∙ rw (
        parse-print v n (print_items l s) w.0 (omega arith),
        parse_items-print l n s r w.1 e (omega (arith, size-pos v)),
      )

  parse_fields-print :
      (m : Fields) (n : ℕ) (r : Text)
      → IsWellFields m
      → suc (size_fields m) ≤ n
      → parse_fields n (print_fields m (close_object ∷ r)) ≡ some (m, r)
  parse_fields-print m zero r w h = absurd (omega arith)
  parse_fields-print end (suc n) r w h = refl
  parse_fields-print (field k v m) (suc n) r w h =
      rw
        (
          parse-print v n (print_fields m (close_object ∷ r)) w.1 (omega arith),
          parse_fields-print m n r w.2 (omega (arith, size-pos v)),
        )
        (rw (w.0, keep_last))

lookup-insert_sorted :
    (k j : String) (v : Value) (m : Fields)
    → lookup k m ≡ none
    → lookup j (insert_sorted k v m) ≡ (if k == j then some v else lookup j m)
unfolding lookup insert_sorted
lookup-insert_sorted k j v end h = refl
lookup-insert_sorted k j v (field i w m) h =
    ground (arith, eq_iff k j, eq_iff i k, eq_iff i j, lookup-insert_sorted k j v m)

-- Sorting the keys changes no lookup, but for the order inside the value found.
pub lookup-sort_fields :
    (j : String) (m : Fields)
    → IsWellFields m
    → lookup j (sort_fields m) ≡ Option.map sort_keys (lookup j m)
unfolding lookup sort_keys
lookup-sort_fields j end w = refl
lookup-sort_fields j (field k v m) w =
    lookup-insert_sorted k j (sort_keys v) (sort_fields m) (rw (lookup-sort_fields k m w.2, w.0))
    ∙ ground (arith, lookup-sort_fields j m w.2)

insert_sorted-IsWellFields :
    (k : String) (v : Value) (m : Fields)
    → lookup k m ≡ none
    → IsWell v
    → IsWellFields m
    → IsWellFields (insert_sorted k v m)
unfolding lookup insert_sorted
insert_sorted-IsWellFields k v end f hv h = (refl, hv, tt)
insert_sorted-IsWellFields k v (field i w m) f hv h =
    ground (
      arith,
      lookup-insert_sorted k i v m,
      eq_iff i k,
      eq_iff k i,
      insert_sorted-IsWellFields k v m,
    )

mutual
  unfolding sort_keys

  pub sort_keys-IsWell : (v : Value) → IsWell v → IsWell (sort_keys v)
  sort_keys-IsWell (list l) w = sort_items-IsWellItems l w
  sort_keys-IsWell (object m) w = sort_fields-IsWellFields m w
  sort_keys-IsWell _ w = tt

  sort_items-IsWellItems : (l : Items) → IsWellItems l → IsWellItems (sort_items l)
  sort_items-IsWellItems nil w = tt
  sort_items-IsWellItems (cons v l) w = (sort_keys-IsWell v w.0, sort_items-IsWellItems l w.1)

  pub sort_fields-IsWellFields : (m : Fields) → IsWellFields m → IsWellFields (sort_fields m)
  sort_fields-IsWellFields end w = tt
  sort_fields-IsWellFields (field k v m) w =
      insert_sorted-IsWellFields k (sort_keys v) (sort_fields m)
        (rw (lookup-sort_fields k m w.2, w.0)) (sort_keys-IsWell v w.1)
        (sort_fields-IsWellFields m w.2)

pub parse_value-marshal :
    (v : Value) → IsWell v → parse_value (length (marshal v)) (marshal v) ≡ some (sort_keys v, [])
unfolding marshal
parse_value-marshal v w =
    parse-print (sort_keys v) (length (print (sort_keys v) [])) [] (sort_keys-IsWell v w)
      (omega (arith, length-print (sort_keys v) []))

-- Reading back what Marshal wrote gives the value with its keys sorted, which as a Go value is
-- the same; every value is read, to the end of its text.
pub unmarshal-marshal : (v : Value) → IsWell v → unmarshal (marshal v) ≡ some (sort_keys v)
unfolding unmarshal
unmarshal-marshal v w = rw (parse_value-marshal v w)

pub unmarshal_map-marshal :
    (m : Fields) → IsWellFields m → unmarshal_map (marshal (object m)) ≡ some (sort_fields m)
unfolding unmarshal_map sort_keys
unmarshal_map-marshal m w = rw (unmarshal-marshal (object m) w)

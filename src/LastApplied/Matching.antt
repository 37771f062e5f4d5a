-- ===== src/LastApplied/Matching.antt =====
-- The comparison of lists pairs wanted elements with distinct remote ones, and does so greedily.
use mathlib.Core.Option.{some-injective}
use mathlib.Core.List.{Perm, Forall₂}
use mathlib.Core.List.Perm
use keycloak_operator.Base.{
  suc, Bool, true, false, Option, none, some, List, [], ◌∷◌, ◌≡◌, refl, arith, Bool-cases, inl, inr,
}
use keycloak_operator.Json.{Value, list, Items, nil, cons, count_items}
use keycloak_operator.LastApplied.{take_match, managed_value_equal, items_match, payload_differs}

abbrev pub to_list : Items → List Value
to_list nil = []
to_list (cons v l) = v ∷ to_list l

-- What is taken equals the wanted value, and nothing else leaves the list.
take_match-perm :
    (equal : Value → Bool) (got rest : Items)
    → take_match equal got ≡ some rest
    → (g : Value) × (equal g ≡ true)
      × Perm (to_list got) (g ∷ to_list rest)
      × (count_items got ≡ suc (count_items rest))
unfolding take_match
take_match-perm equal nil rest e = cc
take_match-perm equal (cons v got) rest e = elim (Bool-cases (equal v)) [
  | inl t ↦
      let r : got ≡ rest = some-injective _ _ (rw t at e) in
      (v, t, rw r (Perm.refl (v ∷ to_list rest)), rw r)
  | inr f ↦ behind (take_match equal got) (take_match-perm equal got) (rw f at e)
]
  where
    behind :
        (found : Option Items)
        → ((r : Items)
            → found ≡ some r
            → (g : Value) × (equal g ≡ true)
              × Perm (to_list got) (g ∷ to_list r)
              × (count_items got ≡ suc (count_items r)))
        → elim found [ none ↦ none | some r ↦ some (cons v r) ] ≡ some rest
        → (g : Value) × (equal g ≡ true)
          × Perm (v ∷ to_list got) (g ∷ to_list rest)
          × (suc (count_items got) ≡ suc (count_items rest))
    behind none ih e = cc
    behind (some r) ih e =
        let (g, t, p, n) = ih r refl in
        let s : cons v r ≡ rest = some-injective _ _ e in
        (g, t, rw (← s) (Perm.trans (Perm.cons v p) (Perm.swap g v (to_list r))), rw (← s, n))

abbrev pub Matched : Value → Value → Type 0
Matched want got = managed_value_equal want got ≡ true

match_inversion :
    (wants : Items) (found : Option Items)
    → elim found [ none ↦ false | some rest ↦ items_match wants rest ] ≡ true
    → (rest : Items) × (found ≡ some rest) × (items_match wants rest ≡ true)
match_inversion wants none e = cc
match_inversion wants (some rest) e = (rest, refl, e)

items_match_sound :
    (wants got : Items)
    → count_items wants ≡ count_items got
    → items_match wants got ≡ true
    → (taken : List Value) × Forall₂ Matched (to_list wants) taken × Perm (to_list got) taken
unfolding payload_differs
items_match_sound nil nil n e = ([], Forall₂.nil, Perm.refl [])
items_match_sound nil (cons v got) n e = absurd (omega arith)
items_match_sound (cons want wants) got n e =
    let (rest, found, later) =
      match_inversion wants (take_match (managed_value_equal want) got) e in
    let (g, equal, here, fewer) = take_match-perm (managed_value_equal want) got rest found in
    let (taken, paired, there) = items_match_sound wants rest (omega (arith, n, fewer)) later in
    (g ∷ taken, Forall₂.cons equal paired, Perm.trans here (Perm.cons g there))

-- Two lists that compare equal have as many elements, and the remote list is, in some order, a
-- list whose elements equal the wanted ones one by one: each wanted element is matched with a
-- remote element of its own.
pub managed_value_equal-list :
    (wants got : Items)
    → managed_value_equal (list wants) (list got) ≡ true
    → (count_items wants ≡ count_items got)
      × ((taken : List Value) × Forall₂ Matched (to_list wants) taken × Perm (to_list got) taken)
unfolding payload_differs
managed_value_equal-list wants got e =
    let n : count_items wants ≡ count_items got = ground arith in
    (n, items_match_sound wants got n (ground arith))

-- The comparison of lists depends on their order. Where one wanted element equals both remote
-- ones and the other only the first, the lists are equal or not by the order in which the elements
-- are wanted, though each could be matched with an element of its own in both orders.
pub greedy_match_depends_on_order :
    (loose strict first second : Value)
    → managed_value_equal loose first ≡ true
    → managed_value_equal loose second ≡ true
    → managed_value_equal strict first ≡ true
    → managed_value_equal strict second ≡ false
    → let got = list (cons first (cons second nil)) in
      (managed_value_equal (list (cons loose (cons strict nil))) got ≡ false)
      × (managed_value_equal (list (cons strict (cons loose nil))) got ≡ true)
unfolding payload_differs
greedy_match_depends_on_order loose strict first second lf ls sf ss = (ground arith, ground arith)

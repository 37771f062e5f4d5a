-- ===== src/Drivers/Sets.antt =====
-- Go maps from texts, as association lists in the order in which a loop visits them, and the
-- differences of two such maps by which assignments are corrected.
use keycloak_operator.Base.{
  String, Bool, false, not, ◌&&◌, ◌||◌, Option, none, some, List, [], ◌∷◌, ◌≡◌, refl, ◌==◌, eq_iff,
  arith, is_some, if◌then◌else◌,
}

module _ {ℓ} {A : Type ℓ} where
  -- `v, ok := m[k]`
  unfoldable pub get : String → List (String × A) → Option A
  get k [] = none
  get k ((j, a) ∷ m) = if j == k then some a else get k m

  -- `m[k] = v`
  unfoldable pub put : String → A → List (String × A) → List (String × A)
  put k a [] = (k, a) ∷ []
  put k a ((j, b) ∷ m) = if j == k then (j, a) ∷ m else (j, b) ∷ put k a m

  -- `delete(m, k)`
  unfoldable pub erase : String → List (String × A) → List (String × A)
  erase k [] = []
  erase k ((j, a) ∷ m) = let rest = erase k m in if j == k then rest else (j, a) ∷ rest

  -- `_, ok := m[k]`
  abbrev pub has : String → List (String × A) → Bool
  has k m = is_some (get k m)

  pub get-put :
      (k j : String) (a : A) (m : List (String × A))
      → get j (put k a m) ≡ (if k == j then some a else get j m)
  unfolding get put
  get-put k j a [] = refl
  get-put k j a ((i, b) ∷ m) = ground (arith, eq_iff k j, eq_iff i k, eq_iff i j, get-put k j a m)

  pub get-erase :
      (k j : String) (m : List (String × A))
      → get j (erase k m) ≡ (if k == j then none else get j m)
  unfolding get erase
  get-erase k j [] = ground arith
  get-erase k j ((i, b) ∷ m) = ground (arith, get-erase k j m, eq_iff i k, eq_iff i j, eq_iff k j)

  pub erase-absent : (k : String) (m : List (String × A)) → get k m ≡ none → erase k m ≡ m
  unfolding get erase
  erase-absent k [] h = refl
  erase-absent k ((j, b) ∷ m) h = ground (arith, h, erase-absent k m, eq_iff j k)

module _ {ℓ κ} {A : Type ℓ} {B : Type κ} where
  -- The entries of a map whose key another map lacks, as the loops collect them.
  unfoldable pub without : List (String × B) → List (String × A) → List (String × A)
  unfolding get
  without other [] = []
  without other ((k, a) ∷ m) =
      let rest = without other m in if has k other then rest else (k, a) ∷ rest

  pub has-without :
      (other : List (String × B)) (m : List (String × A)) (k : String)
      → has k (without other m) ≡ (has k m && not (has k other))
  unfolding without
  has-without other [] k = refl
  has-without other ((j, a) ∷ m) k = ground (arith, eq_iff j k, has-without other m k)

-- Adding what is missing and then removing what is not wanted makes the assigned keys the desired
-- ones, whatever was assigned before.
correction_reaches_desired {ℓ κ} :
    {A : Type ℓ} {B : Type κ} (desired : List (String × A)) (current : List (String × B))
    (k : String)
    → ((has k current || has k (without current desired)) && not (has k (without desired current)))
      ≡ has k desired
correction_reaches_desired desired current k =
    ground (arith, has-without current desired k, has-without desired current k)

-- Nothing is added that is assigned, and nothing removed that is desired.
correction_is_minimal {ℓ κ} :
    {A : Type ℓ} {B : Type κ} (desired : List (String × A)) (current : List (String × B))
    (k : String)
    → ((has k current && has k (without current desired)) ≡ false)
      × ((has k desired && has k (without desired current)) ≡ false)
correction_is_minimal desired current k =
    (ground (arith, has-without current desired k), ground (arith, has-without desired current k))

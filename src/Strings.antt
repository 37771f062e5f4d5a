-- ===== src/Strings.antt =====
-- The functions of the package strings that the code splits and trims texts with, on code points.
use Prim.Native.Char.{Char, code}
use keycloak_operator.Base.{
  ℕ, String, ◌<>◌, Bool, true, false, ◌&&◌, ◌||◌, List, [], ◌∷◌, ◌≡◌, refl, ◌∙◌, ap, ◌==◌, leb,
  nat_eq, arith, if◌then◌else◌,
}
use text.Mathlib.TextLemmas.{cons-append, nil-append}

abbrev add_front : Char → List String → List String
add_front c [] = String.◌∷◌ c String.[] ∷ []
add_front c (s ∷ ss) = String.◌∷◌ c s ∷ ss

-- strings.Split at one character
unfoldable pub split : ℕ → String → List String
split k String.[] = "" ∷ []
split k (String.◌∷◌ c s) =
    let rest = split k s in if nat_eq (code c) k then "" ∷ rest else add_front c rest

-- The text holds the character nowhere.
abbrev pub is_free_of : ℕ → String → Bool
is_free_of k String.[] = true
is_free_of k (String.◌∷◌ c s) = if nat_eq (code c) k then false else is_free_of k s

abbrev pub singleton : Char → String
singleton c = String.◌∷◌ c String.[]

split-separator :
    (d : Char) (b : String) → split (code d) ("" <> (singleton d <> b)) ≡ "" ∷ split (code d) b
unfolding split
split-separator d b =
    ap (split (code d)) (nil-append (singleton d <> b) ∙ cons-append d "" b)
    ∙ ground arith
    ∙ ap (λ s. "" ∷ split (code d) s) (nil-append b)

-- A part without the separator is cut off at the separator that follows it.
pub split-append :
    (d : Char) (a b : String)
    → is_free_of (code d) a ≡ true
    → split (code d) (a <> singleton d <> b) ≡ a ∷ split (code d) b
unfolding split
split-append d String.[] b h = split-separator d b
split-append d (String.◌∷◌ c a) b h =
    ap (split (code d)) (cons-append c a (singleton d <> b)) ∙ ground (arith, split-append d a b)

pub split_whole : (k : ℕ) (a : String) → is_free_of k a ≡ true → split k a ≡ a ∷ []
unfolding split
split_whole k String.[] h = refl
split_whole k (String.◌∷◌ c a) h = ground (arith, split_whole k a)

-- strings.Join
unfoldable pub join : Char → List String → String
join d [] = ""
join d (s ∷ []) = s
join d (s ∷ t ∷ ss) = s <> singleton d <> join d (t ∷ ss)

abbrev pub are_free_of : ℕ → List String → Bool
are_free_of k [] = true
are_free_of k (s ∷ ss) = is_free_of k s && are_free_of k ss

-- Splitting undoes joining.
pub split-join :
    (d : Char) (s : String) (ss : List String)
    → are_free_of (code d) (s ∷ ss) ≡ true
    → split (code d) (join d (s ∷ ss)) ≡ s ∷ ss
unfolding join
split-join d s [] h = split_whole (code d) s (ground arith)
split-join d s (t ∷ ss) h =
    split-append d s (join d (t ∷ ss)) (ground arith)
    ∙ ap (λ l. s ∷ l) (split-join d t ss (ground arith))

-- unicode.IsSpace
unfoldable pub is_space : ℕ → Bool
is_space c =
    (leb 9 c && leb c 13)
    || nat_eq c 0x20
    || nat_eq c 0x85
    || nat_eq c 0xa0
    || nat_eq c 0x1680
    || (leb 0x2000 c && leb c 0x200a)
    || nat_eq c 0x2028
    || nat_eq c 0x2029
    || nat_eq c 0x202f
    || nat_eq c 0x205f
    || nat_eq c 0x3000

unfoldable pub trim_left : String → String
unfolding is_space
trim_left String.[] = ""
trim_left (String.◌∷◌ c s) =
    let rest = trim_left s in if is_space (code c) then rest else String.◌∷◌ c s

unfoldable pub trim_right : String → String
unfolding is_space
trim_right String.[] = ""
trim_right (String.◌∷◌ c s) =
    let rest = trim_right s in if rest == "" && is_space (code c) then "" else String.◌∷◌ c rest

-- strings.TrimSpace
unfoldable pub trim_space : String → String
unfolding trim_left trim_right
trim_space s = trim_right (trim_left s)

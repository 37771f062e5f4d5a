-- ===== src/Keycloak/Fake/Router/Paths.antt =====
-- The separator of the paths, strings.CutPrefix and strings.TrimPrefix.
use Prim.Native.Char.{code}
use keycloak_operator.Base.{
  ℕ, String, ◌<>◌, Option, none, some, ◌≡◌, ◌∙◌, ap, nat_eq, arith, if◌then◌else◌,
}
use text.Mathlib.TextLemmas.{cons-append, nil-append}

abbrev pub slash : ℕ
slash = b'/'

-- strings.CutPrefix
unfoldable pub after_prefix : String → String → Option String
after_prefix String.[] s = some s
after_prefix (String.◌∷◌ c p) String.[] = none
after_prefix (String.◌∷◌ c p) (String.◌∷◌ d s) =
    let rest = after_prefix p s in if nat_eq (code c) (code d) then rest else none

-- strings.TrimPrefix
abbrev pub trim_prefix : String → String → String
trim_prefix p s = elim (after_prefix p s) [ none ↦ s | some rest ↦ rest ]

pub after_prefix-append : (p s : String) → after_prefix p (p <> s) ≡ some s
unfolding after_prefix
after_prefix-append String.[] s = ap some (nil-append s)
after_prefix-append (String.◌∷◌ c p) s =
    ap (after_prefix (String.◌∷◌ c p)) (cons-append c p s) ∙ ground (arith, after_prefix-append p s)

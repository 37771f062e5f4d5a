-- ===== src/Keycloak/Escape.antt =====
-- url.PathEscape and url.QueryEscape of the standard library: the bytes of the UTF-8 form that
-- may stand in a path segment or in a query are kept, and the others written `%XX`.
use Prim.Native.Nat.{◌/◌, ◌%◌}
use Prim.Native.Char.{Char, code}
use Prim.Native.String.{slice}
use keycloak_operator.Base.{
  ℕ, ◌+◌, String, ◌<>◌, Bool, ◌&&◌, ◌||◌, List, [], ◌∷◌, ltb, leb, nat_eq, if◌then◌else◌,
}

is_alphanumeric : ℕ → Bool
is_alphanumeric c =
    (leb b'a' c && leb c b'z') || (leb b'A' c && leb c b'Z') || (leb b'0' c && leb c b'9')

-- `- _ . ~`
is_unreserved : ℕ → Bool
unfolding is_alphanumeric
is_unreserved c =
    is_alphanumeric c || nat_eq c b'-' || nat_eq c b'_' || nat_eq c b'.' || nat_eq c b'~'

-- and `$ & + = : @` in a path segment
unfoldable pub is_segment_byte : ℕ → Bool
unfolding is_unreserved
is_segment_byte c =
    is_unreserved c
    || nat_eq c b'$'
    || nat_eq c b'&'
    || nat_eq c b'+'
    || nat_eq c b'='
    || nat_eq c b':'
    || nat_eq c b'@'

hex_digit : ℕ → String
hex_digit d = slice "0123456789ABCDEF" d (d + 1)

percent : ℕ → String
unfolding hex_digit
percent b = "%" <> hex_digit (b / 16) <> hex_digit (b % 16)

percent_all : List ℕ → String
unfolding percent
percent_all [] = ""
percent_all (b ∷ bs) = percent b <> percent_all bs

-- The bytes of a code point.
utf8 : ℕ → List ℕ
utf8 c =
    if ltb c 0x80
    then c ∷ []
    else if ltb c 0x800
    then (0xc0 + c / 0x40) ∷ (0x80 + c % 0x40) ∷ []
    else if ltb c 0x10000
    then (0xe0 + c / 0x1000) ∷ (0x80 + c / 0x40 % 0x40) ∷ (0x80 + c % 0x40) ∷ []
    else (0xf0 + c / 0x40000)
      ∷ (0x80 + c / 0x1000 % 0x40)
      ∷ (0x80 + c / 0x40 % 0x40)
      ∷ (0x80 + c % 0x40)
      ∷ []

abbrev singleton : Char → String
singleton c = String.◌∷◌ c String.[]

unfoldable pub path_escape : String → String
unfolding is_segment_byte percent_all utf8
path_escape String.[] = ""
path_escape (String.◌∷◌ c s) =
    (if is_segment_byte (code c) then singleton c else percent_all (utf8 (code c))) <> path_escape s

unfoldable pub query_escape : String → String
unfolding is_unreserved percent_all utf8
query_escape String.[] = ""
query_escape (String.◌∷◌ c s) =
    (if is_unreserved (code c)
      then singleton c
      else if nat_eq (code c) b' '
      then "+"
      else percent_all (utf8 (code c)))
    <> query_escape s

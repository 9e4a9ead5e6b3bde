-- ===== src/Base/Scan.antt =====
-- Text: the character classes of the C locale, trimming, prefixes and parts of a text.
use Prim.Native.Nat.{ℕ, zero, suc, ◌-◌}
use Prim.Native.Char.{Char, code}
use Prim.Native.String.{String, char_at}
use mathlib.Core.Path.{◌≡◌, refl}
use mathlib.Core.Bool.{Bool, true, false, ◌&&◌, ◌||◌}
use mathlib.Core.Option.{Option, none, some}
use xibo_linux.Base.Tests.{leb, ◌==◌, if◌then◌else◌}

-- std::isspace
abbrev pub is_space : ℕ → Bool
is_space c = c == 32 || (leb 9 c && leb c 13)

-- std::isdigit
abbrev pub is_digit : ℕ → Bool
is_digit c = leb b'0' c && leb c b'9'

-- std::tolower
abbrev pub lower_char : Char → Char
lower_char c =
    if leb b'A' (code c) && leb (code c) b'Z'
    then char_at "abcdefghijklmnopqrstuvwxyz" (code c - b'A')
    else c

abbrev pub text_is_empty : String → Bool
text_is_empty String.[] = true
text_is_empty (String.◌∷◌ c s) = false

unfoldable pub trim_start : String → String
trim_start String.[] = ""
trim_start (String.◌∷◌ c s) = if is_space (code c) then trim_start s else String.◌∷◌ c s

unfoldable pub trim_end : String → String
trim_end String.[] = ""
trim_end (String.◌∷◌ c s) =
    let rest = trim_end s in
    if is_space (code c) && text_is_empty rest then "" else String.◌∷◌ c rest

unfoldable pub map_lower : String → String
map_lower String.[] = ""
map_lower (String.◌∷◌ c s) = String.◌∷◌ (lower_char c) (map_lower s)

unfoldable pub all_digits : String → Bool
all_digits String.[] = true
all_digits (String.◌∷◌ c s) = is_digit (code c) && all_digits s

-- s.rfind(prefix, 0) == 0
unfoldable pub has_prefix : String → String → Bool
has_prefix s String.[] = true
has_prefix String.[] (String.◌∷◌ d p) = false
has_prefix (String.◌∷◌ c s) (String.◌∷◌ d p) = code c == code d && has_prefix s p

-- s.substr(n), for n up to the length of the text.
unfoldable pub substr_from : ℕ → String → String
substr_from zero s = s
substr_from (suc n) String.[] = ""
substr_from (suc n) (String.◌∷◌ c s) = substr_from n s

-- The parts of a text before and after the first character with a code.
unfoldable pub split_at : ℕ → String → Option (String × String)
split_at d String.[] = none
split_at d (String.◌∷◌ c s) =
    let rest = split_at d s in
    if code c == d
    then some ("", s)
    else elim rest [ none ↦ none | some (before, behind) ↦ some (String.◌∷◌ c before, behind) ]

-- Whether the last character of a text has a code.
unfoldable pub ends_with_char : ℕ → String → Bool
ends_with_char d String.[] = false
ends_with_char d (String.◌∷◌ c s) = if text_is_empty s then code c == d else ends_with_char d s

-- s.pop_back()
unfoldable pub drop_last : String → String
drop_last String.[] = ""
drop_last (String.◌∷◌ c s) = if text_is_empty s then "" else String.◌∷◌ c (drop_last s)

-- s.substr(0, n)
unfoldable pub substr_to : ℕ → String → String
substr_to zero s = ""
substr_to (suc n) String.[] = ""
substr_to (suc n) (String.◌∷◌ c s) = String.◌∷◌ c (substr_to n s)

unfoldable pub size : String → ℕ
size String.[] = 0
size (String.◌∷◌ c s) = suc (size s)

-- The last position of a character whose code passes a test.
unfoldable pub find_last : (ℕ → Bool) → String → Option ℕ
find_last p String.[] = none
find_last p (String.◌∷◌ c s) = elim (find_last p s) [
  | some i ↦ some (suc i)
  | none ↦ if p (code c) then some 0 else none
]

trims : trim_end (trim_start " \t a b \n") ≡ "a b"
unfolding trim_start trim_end
trims = refl

lowers : map_lower "NavWidget:Z1" ≡ "navwidget:z1"
unfolding map_lower
lowers = refl

splits : split_at b':' "12:34:5" ≡ some ("12", "34:5")
unfolding split_at
splits = refl

-- ===== src/Base/Text.antt =====
-- Text: comparison, search, and the conversions of the standard library between `int` and text.
pub mod Decimal
use Prim.Native.Nat.{ℕ, zero, suc, ◌+◌, ◌-◌, ◌*◌, ◌/◌, ◌%◌, ◌^◌}
use Prim.Native.Char.{code}
use Prim.Native.String.{String, ◌++◌ as append}
use text.Mathlib.Text.{◌==◌ as text_equal, find?}
use text.Mathlib.TextEquality.{eq_iff}
use mathlib.Core.Path.{◌≡◌, refl}
use mathlib.Core.Bool.{Bool, true, false, ◌&&◌, ◌||◌}
use mathlib.Core.Logic.{◌↔◌}
use mathlib.Core.List.{List, [], ◌∷◌}
use mathlib.Core.Option.{Option, none, some}
use xibo_linux.Base.Tests.{ltb, leb, ◌==◌, if◌then◌else◌, is_some}
use xibo_linux.Base.Int.{ℤ, pos, negsuc}
use xibo_linux.Base.Scan.{is_digit, is_space}

-- operator== of std::string
abbrev pub str_eq : String → String → Bool
str_eq s t = text_equal s t

pub str_eq_iff : (s t : String) → (str_eq s t ≡ true) ↔ (s ≡ t)
str_eq_iff = eq_iff

infixr 65 ◌++ₛ◌
abbrev pub ◌++ₛ◌ : String → String → String
s ++ₛ t = append s t

-- s.find(t) != npos
pub contains : String → String → Bool
contains s t = is_some (find? s t)

digit_text : ℕ → String
digit_text d =
    if d == 0
    then "0"
    else if d == 1
    then "1"
    else if d == 2
    then "2"
    else if d == 3
    then "3"
    else if d == 4
    then "4"
    else if d == 5
    then "5"
    else if d == 6
    then "6"
    else if d == 7
    then "7"
    else if d == 8
    then "8"
    else "9"

-- The decimal digits of `n`; a fuel of `suc n` is more than the number of digits.
decimal : ℕ → ℕ → String
unfolding digit_text
decimal zero n = ""
decimal (suc fuel) n =
    let high = decimal fuel (n / 10) in
    if ltb n 10 then digit_text n else append high (digit_text (n % 10))

-- std::to_string of an int
unfoldable pub to_string : ℤ → String
unfolding decimal
to_string (pos n) = decimal (suc n) n
to_string (negsuc n) = append "-" (decimal (suc (suc n)) (suc n))

unfoldable pub codes : String → List ℕ
codes String.[] = []
codes (String.◌∷◌ c s) = code c ∷ codes s

-- The digits of a text, in their order.
unfoldable pub digits_only : String → String
digits_only String.[] = ""
digits_only (String.◌∷◌ c s) =
    let rest = digits_only s in if is_digit (code c) then String.◌∷◌ c rest else rest

skip_spaces : List ℕ → List ℕ
skip_spaces [] = []
skip_spaces (c ∷ s) = if is_space c then skip_spaces s else c ∷ s

-- The number that the leading digits write, from the value read so far.
leading_number : ℕ → List ℕ → ℕ
leading_number n [] = n
leading_number n (c ∷ s) =
    let rest = leading_number (n * 10 + (c - b'0')) s in if is_digit c then rest else n

digits_at : List ℕ → Option ℕ
unfolding leading_number
digits_at [] = none
digits_at (c ∷ s) = if is_digit c then some (leading_number 0 (c ∷ s)) else none

in_int : Bool → Option ℕ → Option ℤ
in_int negative none = none
in_int true (some zero) = some (pos 0)
in_int true (some (suc n)) = if ltb n (2 ^ 31) then some (negsuc n) else none
in_int false (some n) = if ltb n (2 ^ 31) then some (pos n) else none

signed_number : List ℕ → Option ℤ
unfolding in_int digits_at
signed_number [] = none
signed_number (c ∷ s) =
    if c == b'-'
    then in_int true (digits_at s)
    else if c == b'+'
    then in_int false (digits_at s)
    else in_int false (digits_at (c ∷ s))

-- std::stoi; `none` for std::invalid_argument and std::out_of_range
unfoldable pub stoi : String → Option ℤ
unfolding signed_number skip_spaces codes
stoi s = signed_number (skip_spaces (codes s))

to_string_runs : to_string (negsuc 1204) ≡ "-1205"
unfolding to_string
to_string_runs = refl

stoi_runs : stoi " -42px" ≡ some (negsuc 41)
unfolding stoi
stoi_runs = refl

stoi_refuses : stoi "2147483648" ≡ none
unfolding stoi
stoi_refuses = refl

-- ===== src/Base/Text/Decimal.antt =====
-- The text of a number is read back as the number.
use Prim.Native.Nat.{ℕ, zero, suc, ◌+◌, ◌-◌, ◌*◌, ◌/◌, ◌%◌, ◌<◌, ◌≤◌}
use Prim.Native.String.{String, ◌++◌ as append}
use text.Mathlib.TextLemmas.{nil-append, cons-append}
use mathlib.Core.Path.{subst, ◌≡◌, refl, ap, ◌∙◌}
use mathlib.Core.Logic.{inl, inr}
use mathlib.Core.Bool.{true, false}
use mathlib.Core.List.{List, [], ◌∷◌, ◌++◌}
use mathlib.Core.Option.{some}
use native.Mathlib.Omega.{arith}
use xibo_linux.Base.Tests.{ltb, Bool-cases}
use xibo_linux.Base.Int.{pos}
use xibo_linux.Base.Lists.{all, all-append, is_empty}
use xibo_linux.Base.Scan.{is_digit}
use xibo_linux.Base.Text.{
  codes, digit_text, decimal, to_string, stoi, leading_number, digits_at, in_int, signed_number,
  skip_spaces, digits_only, str_eq, str_eq_iff,
}

pub codes-append : (s t : String) → codes (append s t) ≡ codes s ++ codes t
unfolding codes
codes-append String.[] t = rw nil-append refl
codes-append (String.◌∷◌ c s) t = rw (cons-append, codes-append s t) refl

digit_text_lem : (d : ℕ) → d < 10 → codes (digit_text d) ≡ (48 + d) ∷ []
unfolding digit_text codes
digit_text_lem zero h = refl
digit_text_lem (suc zero) h = refl
digit_text_lem (suc (suc zero)) h = refl
digit_text_lem (suc (suc (suc zero))) h = refl
digit_text_lem (suc (suc (suc (suc zero)))) h = refl
digit_text_lem (suc (suc (suc (suc (suc zero))))) h = refl
digit_text_lem (suc (suc (suc (suc (suc (suc zero)))))) h = refl
digit_text_lem (suc (suc (suc (suc (suc (suc (suc zero))))))) h = refl
digit_text_lem (suc (suc (suc (suc (suc (suc (suc (suc zero)))))))) h = refl
digit_text_lem (suc (suc (suc (suc (suc (suc (suc (suc (suc zero))))))))) h = refl
digit_text_lem (suc (suc (suc (suc (suc (suc (suc (suc (suc (suc n)))))))))) h =
    absurd (omega arith)

leading_number-append :
    (n d : ℕ) (s : List ℕ)
    → all is_digit s ≡ true
    → d < 10
    → leading_number n (s ++ ((48 + d) ∷ [])) ≡ leading_number n s * 10 + d
unfolding leading_number
leading_number-append n d [] h lt = ground arith
leading_number-append n d (c ∷ s) h lt =
    ground (arith, leading_number-append (n * 10 + (c - b'0')) d s)

record IsDecimalOf (n : ℕ) (s : List ℕ) : Type 0 where
  all_digits : all is_digit s ≡ true
  value : leading_number 0 s ≡ n
  some_digit : is_empty s ≡ false

digit-IsDecimalOf : (d : ℕ) → d < 10 → IsDecimalOf d (codes (digit_text d))
unfolding leading_number
digit-IsDecimalOf d h = record {
  all_digits = rw (digit_text_lem d h) (ground arith);
  value = rw (digit_text_lem d h) (ground arith);
  some_digit = rw (digit_text_lem d h) refl;
}

is_empty-snoc : (s : List ℕ) (d : ℕ) → is_empty (s ++ (d ∷ [])) ≡ false
is_empty-snoc [] d = refl
is_empty-snoc (c ∷ s) d = refl

snoc-IsDecimalOf :
    (n d : ℕ) (s : List ℕ)
    → IsDecimalOf n s
    → d < 10
    → IsDecimalOf (n * 10 + d) (s ++ ((48 + d) ∷ []))
snoc-IsDecimalOf n d s h lt = record {
  all_digits = ground (arith, all-append is_digit s ((48 + d) ∷ []), h.all_digits);
  value = leading_number-append 0 d s h.all_digits lt ∙ ap (λ m. m * 10 + d) h.value;
  some_digit = is_empty-snoc s (48 + d);
}

test_lt : (n m : ℕ) → ltb n m ≡ true → n < m
test_lt n m h = ground arith

test_ge : (n m : ℕ) → ltb n m ≡ false → m ≤ n
test_ge n m h = ground arith

decimal-IsDecimalOf : (fuel n : ℕ) → n < fuel → IsDecimalOf n (codes (decimal fuel n))
unfolding decimal
decimal-IsDecimalOf zero n h = absurd (omega arith)
decimal-IsDecimalOf (suc fuel) n h = elim (Bool-cases (ltb n 10)) [
  | inl small ↦ rw small (digit-IsDecimalOf n (test_lt n 10 small))
  | inr large ↦
      let le = test_ge n 10 large in
      let high = decimal-IsDecimalOf fuel (n / 10) (omega arith) in
      let lt : n % 10 < 10 = omega arith in
      let whole : n / 10 * 10 + n % 10 ≡ n = omega arith in
      rw (large, codes-append, digit_text_lem (n % 10) lt)
        (subst (λ m. IsDecimalOf m (codes (decimal fuel (n / 10)) ++ ((48 + n % 10) ∷ []))) whole
          (snoc-IsDecimalOf (n / 10) (n % 10) (codes (decimal fuel (n / 10))) high lt))
]

signed_number_lem :
    (n : ℕ) (s : List ℕ)
    → IsDecimalOf n s
    → n < 2147483648
    → signed_number (skip_spaces s) ≡ some (pos n)
unfolding signed_number skip_spaces digits_at in_int
signed_number_lem n [] h lt = absurd (ground (arith, h.some_digit))
signed_number_lem n (c ∷ s) h lt = ground (arith, h.all_digits, h.value)

to_string-IsDecimalOf : (n : ℕ) → IsDecimalOf n (codes (to_string (pos n)))
unfolding to_string
to_string-IsDecimalOf n = decimal-IsDecimalOf (suc n) n (omega arith)

-- std::stoi reads back what std::to_string writes, for a number of `int` that is not negative.
pub stoi-to_string : (n : ℕ) → n < 2147483648 → stoi (to_string (pos n)) ≡ some (pos n)
unfolding stoi
stoi-to_string n lt = signed_number_lem n (codes (to_string (pos n))) (to_string-IsDecimalOf n) lt

pub to_string_digits : (n : ℕ) → all is_digit (codes (to_string (pos n))) ≡ true
to_string_digits n = (to_string-IsDecimalOf n).all_digits

pub to_string_not_empty : (n : ℕ) → is_empty (codes (to_string (pos n))) ≡ false
to_string_not_empty n = (to_string-IsDecimalOf n).some_digit

digits_only_lem : (s : String) → all is_digit (codes s) ≡ true → digits_only s ≡ s
unfolding digits_only codes
digits_only_lem String.[] h = refl
digits_only_lem (String.◌∷◌ c s) h = ground (arith, digits_only_lem s)

pub digits_only-to_string : (n : ℕ) → digits_only (to_string (pos n)) ≡ to_string (pos n)
digits_only-to_string n = digits_only_lem (to_string (pos n)) (to_string_digits n)

not_the_empty_text : (s : String) → is_empty (codes s) ≡ false → str_eq s "" ≡ false
unfolding codes
not_the_empty_text s h = elim (Bool-cases (str_eq s "")) [
  | inl same ↦ absurd (ground (arith, ap (λ t. is_empty (codes t)) ((str_eq_iff s "").0 same)))
  | inr other ↦ other
]

pub to_string_is_not_empty : (n : ℕ) → str_eq (to_string (pos n)) "" ≡ false
to_string_is_not_empty n = not_the_empty_text (to_string (pos n)) (to_string_not_empty n)

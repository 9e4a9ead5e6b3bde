-- ===== src/App/Triggers/Parsed.antt =====
-- The codes that name a widget or a layout are read back as the numbers they were written from.
use text.Mathlib.TextLemmas.{nil-append, cons-append}
use xibo_linux.Base.{
  ℕ, ◌<◌, String, ◌≡◌, refl, ap, ◌∙◌, Bool, true, false, not, none, some, List, [], ◌∷◌, arith, pos,
  length, all, is_empty, all-append, ◌++ₛ◌, to_string,
}
use xibo_linux.Base.Scan.{
  trim_start, trim_end, map_lower, all_digits, text_is_empty, has_prefix, substr_from, split_at,
  is_digit, is_space,
}
use xibo_linux.Base.Text.{codes}
use xibo_linux.Base.Text.Decimal.{
  codes-append, stoi-to_string, to_string_digits, to_string_not_empty,
}
use xibo_linux.App.Triggers.{
  trim, to_lower, parse_int, target_of, target_parts, target_from, parse_nav_widget_target,
}

abbrev pub is_dark : ℕ → Bool
is_dark c = not (is_space c)

trim_start_dark : (s : String) → all is_dark (codes s) ≡ true → trim_start s ≡ s
unfolding trim_start codes
trim_start_dark String.[] h = refl
trim_start_dark (String.◌∷◌ c s) h = ground arith

trim_end_dark : (s : String) → all is_dark (codes s) ≡ true → trim_end s ≡ s
unfolding trim_end codes
trim_end_dark String.[] h = refl
trim_end_dark (String.◌∷◌ c s) h = ground (arith, trim_end_dark s)

pub trim_dark : (s : String) → all is_dark (codes s) ≡ true → trim s ≡ s
unfolding trim
trim_dark s h = ap trim_end (trim_start_dark s h) ∙ trim_end_dark s h

all_digits-codes : (s : String) → all_digits s ≡ all is_digit (codes s)
unfolding all_digits codes
all_digits-codes String.[] = refl
all_digits-codes (String.◌∷◌ c s) = rw (all_digits-codes s) refl

text_is_empty-codes : (s : String) → text_is_empty s ≡ is_empty (codes s)
unfolding codes
text_is_empty-codes String.[] = refl
text_is_empty-codes (String.◌∷◌ c s) = refl

digits_dark : (s : List ℕ) → all is_digit s ≡ true → all is_dark s ≡ true
digits_dark [] h = refl
digits_dark (c ∷ s) h = ground (arith, digits_dark s)

digits_no_colon : (s : String) → all is_digit (codes s) ≡ true → split_at b':' s ≡ none
unfolding split_at codes
digits_no_colon String.[] h = refl
digits_no_colon (String.◌∷◌ c s) h = ground (arith, digits_no_colon s)

split_at-append :
    (s t : String)
    → all is_digit (codes s) ≡ true
    → split_at b':' (s ++ₛ String.◌∷◌ ":" t) ≡ some (s, t)
unfolding split_at codes
split_at-append String.[] t h = rw nil-append refl
split_at-append (String.◌∷◌ c s) t h = rw cons-append (ground (arith, split_at-append s t))

pub has_prefix-append : (p s : String) → has_prefix (p ++ₛ s) p ≡ true
unfolding has_prefix
has_prefix-append String.[] s = refl
has_prefix-append (String.◌∷◌ c p) s = rw cons-append (ground (arith, has_prefix-append p s))

pub map_lower-append : (s t : String) → map_lower (s ++ₛ t) ≡ map_lower s ++ₛ map_lower t
unfolding map_lower
map_lower-append String.[] t = rw (nil-append, nil-append) refl
map_lower-append (String.◌∷◌ c s) t = rw (cons-append, cons-append, map_lower-append s t) refl

substr_from-append : (p s : String) → substr_from (length (codes p)) (p ++ₛ s) ≡ s
unfolding substr_from codes
substr_from-append String.[] s = rw nil-append refl
substr_from-append (String.◌∷◌ c p) s = rw cons-append (substr_from-append p s)

parse_int-to_string : (n : ℕ) → n < 2147483648 → parse_int (to_string (pos n)) ≡ some (pos n)
unfolding parse_int
parse_int-to_string n lt =
    let digits = to_string_digits n in
    rw
      (
        trim_dark (to_string (pos n)) (digits_dark (codes (to_string (pos n))) digits),
        text_is_empty-codes (to_string (pos n)),
        to_string_not_empty n,
        all_digits-codes (to_string (pos n)),
        digits,
      )
      (stoi-to_string n lt)

-- The texts `region:widget` and `widget`, of numbers that are not negative.
abbrev pub region_and_widget : ℕ → ℕ → String
region_and_widget r w = to_string (pos r) ++ₛ String.◌∷◌ ":" (to_string (pos w))

pub dark-append :
    (s t : String)
    → all is_dark (codes s) ≡ true
    → all is_dark (codes t) ≡ true
    → all is_dark (codes (s ++ₛ t)) ≡ true
dark-append s t h k = rw (codes-append, all-append, h, k) refl

number_dark : (n : ℕ) → all is_dark (codes (to_string (pos n))) ≡ true
number_dark n = digits_dark (codes (to_string (pos n))) (to_string_digits n)

pub pair_dark : (r w : ℕ) → all is_dark (codes (region_and_widget r w)) ≡ true
unfolding codes
pair_dark r w =
    dark-append (to_string (pos r)) (String.◌∷◌ ":" (to_string (pos w))) (number_dark r)
      (number_dark w)

pub empty-append_left :
    (s t : String) → is_empty (codes s) ≡ false → text_is_empty (s ++ₛ t) ≡ false
unfolding codes
empty-append_left String.[] t h = cc
empty-append_left (String.◌∷◌ c s) t h = rw cons-append refl

target_from_pair :
    (r w : ℕ)
    → r < 2147483648
    → w < 2147483648
    → target_from (region_and_widget r w) ≡ some (record { widget_id = pos w; region_id = pos r })
unfolding target_from target_parts target_of
target_from_pair r w lt_r lt_w =
    rw
      (
        trim_dark (region_and_widget r w) (pair_dark r w),
        empty-append_left (to_string (pos r)) (String.◌∷◌ ":" (to_string (pos w)))
            (to_string_not_empty r),
        split_at-append (to_string (pos r)) (to_string (pos w)) (to_string_digits r),
        parse_int-to_string r lt_r,
        parse_int-to_string w lt_w,
      )
      refl

target_from_widget :
    (w : ℕ)
    → w < 2147483648
    → target_from (to_string (pos w)) ≡ some (record { widget_id = pos w; region_id = pos 0 })
unfolding target_from target_parts target_of
target_from_widget w lt =
    rw
      (
        trim_dark (to_string (pos w)) (number_dark w),
        text_is_empty-codes (to_string (pos w)),
        to_string_not_empty w,
        digits_no_colon (to_string (pos w)) (to_string_digits w),
        parse_int-to_string w lt,
      )
      refl

nav_widget_payload :
    (s : String)
    → all is_dark (codes s) ≡ true
    → parse_nav_widget_target ("navWidget:" ++ₛ s) ≡ target_from s
unfolding parse_nav_widget_target to_lower map_lower codes
nav_widget_payload s h =
    rw
      (
        trim_dark ("navWidget:" ++ₛ s) (dark-append "navWidget:" s refl h),
        map_lower-append "navWidget:" s,
        has_prefix-append "navwidget:" (map_lower s),
        substr_from-append "navWidget:" s,
      )
      refl

-- The trigger `navWidget:` with the texts of two numbers of `int` that are not negative, and a colon
-- between them, names the region and the widget of these numbers; with one number it names that widget
-- and the region 0.
pub parse_nav_widget_target-to_string :
    (r w : ℕ)
    → r < 2147483648
    → w < 2147483648
    → (parse_nav_widget_target
          ("navWidget:" ++ₛ to_string (pos r) ++ₛ String.◌∷◌ ":" (to_string (pos w)))
        ≡ some (record { widget_id = pos w; region_id = pos r }))
      × (parse_nav_widget_target ("navWidget:" ++ₛ to_string (pos w))
          ≡ some (record { widget_id = pos w; region_id = pos 0 }))
parse_nav_widget_target-to_string r w lt_r lt_w = (
  nav_widget_payload (region_and_widget r w) (pair_dark r w) ∙ target_from_pair r w lt_r lt_w,
  nav_widget_payload (to_string (pos w)) (number_dark w) ∙ target_from_widget w lt_w,
)

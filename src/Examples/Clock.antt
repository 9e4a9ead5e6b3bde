-- ===== src/Examples/Clock.antt =====
-- A clock that counts seconds, in place of Boost's: `none` is not_a_date_time.
use xibo_linux.Base.{
  ℕ, ◌≡◌, refl, ap, ◌↔◌, Bool, true, false, not, Option, none, some, arith, ℤ, pos, ◌+ℤ◌, ◌-ℤ◌,
  ltb_ℤ, ◌==ℤ◌, ==ℤ_iff, ==ℤ_refl,
}
use xibo_linux.DateTime.{PosixTime, PosixTimeLaws}

abbrev pub before : Option ℤ → Option ℤ → Bool
before (some a) (some b) = ltb_ℤ a b
before _ _ = false

abbrev pub same : Option ℤ → Option ℤ → Bool
same (some a) (some b) = a ==ℤ b
same none none = true
same _ _ = false

abbrev pub shifted : Option ℤ → ℤ → Option ℤ
shifted none n = none
shifted (some a) n = some (a +ℤ n)

abbrev pub between : Option ℤ → Option ℤ → ℤ
between (some a) (some b) = a -ℤ b
between _ _ = pos 0

abbrev pub is_none : Option ℤ → Bool
is_none none = true
is_none (some a) = false

abbrev pub clock : PosixTime (Option ℤ)
clock = record {
  not_a_date_time = none;
  is_not_a_date_time = is_none;
  eq = same;
  lt = before;
  le = λ a b. not (before b a);
  ge = λ a b. not (before a b);
  add_seconds = shifted;
  sub_seconds = λ a n. shifted a (pos 0 -ℤ n);
  seconds_between = between;
  to_simple_string = λ a. "";
}

abbrev pub at : ℕ → Option ℤ
at seconds = some (pos seconds)

pub same-decides : (a b : Option ℤ) → (same a b ≡ true) ↔ (a ≡ b)
same-decides none none = (λ h. refl, λ h. refl)
same-decides none (some b) = (λ h. absurd (ground arith), λ h. absurd (ground arith))
same-decides (some a) none = (λ h. absurd (ground arith), λ h. absurd (ground arith))
same-decides (some a) (some b) = (λ h. ap some ((==ℤ_iff a b).0 h), λ h. ground (arith, ==ℤ_refl a))

pub shifted-between : (t n : ℤ) → ((t +ℤ n) -ℤ t) ≡ n
shifted-between t n = ground arith

pub clock-laws : PosixTimeLaws (Option ℤ) clock
clock-laws = record {
  lt_irrefl = irrefl;
  lt_trans = trans;
  le-eq-not-lt = λ a b. refl;
  ge-eq-not-lt = λ a b. refl;
}
  where
    irrefl : (a : Option ℤ) → before a a ≡ false
    irrefl none = refl
    irrefl (some a) = ground arith

    trans : (a b c : Option ℤ) → before a b ≡ true → before b c ≡ true → before a c ≡ true
    trans a b c h k = ground arith

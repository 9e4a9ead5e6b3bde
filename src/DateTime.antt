-- ===== src/DateTime.antt =====
-- common/dt/DateTime: the operations of boost::posix_time::ptime that the class passes on.
-- Boost is not part of the repository, so a point in time is of any type `T` and its operations are
-- a parameter. The laws are those that Boost documents for the comparison operators of `ptime`.
use xibo_linux.Base.{String, Bool, true, false, not, ◌≡◌, ℤ}

pub record PosixTime (T : Type 0) : Type 0 where
  -- the value of a default DateTime, and the test that `DateTime::valid` negates
  pub not_a_date_time : T
  pub is_not_a_date_time : T → Bool
  pub eq : T → T → Bool
  pub lt : T → T → Bool
  pub le : T → T → Bool
  pub ge : T → T → Bool
  -- time + DateTime::Seconds(n)
  pub add_seconds : T → ℤ → T
  -- time - DateTime::Seconds(n)
  pub sub_seconds : T → ℤ → T
  -- (first - second).total_seconds()
  pub seconds_between : T → T → ℤ
  -- the text of DateTime::string()
  pub to_simple_string : T → String

-- `<` is a strict order, and `<=` and `>=` are the negations of the reversed `<` and of `<`.
pub record PosixTimeLaws (T : Type 0) (time : PosixTime T) : Type 0 where
  pub lt_irrefl : (a : T) → time.lt a a ≡ false
  pub lt_trans : (a b c : T) → time.lt a b ≡ true → time.lt b c ≡ true → time.lt a c ≡ true
  pub le-eq-not-lt : (a b : T) → time.le a b ≡ not (time.lt b a)
  pub ge-eq-not-lt : (a b : T) → time.ge a b ≡ not (time.lt a b)

-- DateTime::valid
unfoldable pub valid : {T : Type 0} → PosixTime T → T → Bool
valid time t = not (time.is_not_a_date_time t)

-- Boost documents that a comparison by `<` with not_a_date_time is false.
pub record NotADateTimeLaws (T : Type 0) (time : PosixTime T) : Type 0 where
  pub lt_not_a_date_time : (a : T) → time.lt a time.not_a_date_time ≡ false
  pub is_not : time.is_not_a_date_time time.not_a_date_time ≡ true

-- ===== src/Schedule/Criteria.antt =====
-- schedule/Scheduler: the criteria that the CMS sets, a std::map from a metric to its value and the
-- time at which it expires, and the test of a layout's criteria against them.
pub mod Assigned
use xibo_linux.Base.{
  String, Bool, true, false, not, Option, none, some, List, [], ◌∷◌, if◌then◌else◌, ℤ, ltb_ℤ, leb_ℤ,
  filter, any, all, str_eq, contains, stoi,
}
use Prim.Native.String.{compare}
use text.Mathlib.Text.{is_lt}
use xibo_linux.DateTime.{PosixTime}
use xibo_linux.Schedule.Item.{ScheduleCriteria, ScheduledLayout}

pub record ActiveCriteria (T : Type 0) : Type 0 where
  pub value : String
  pub expires_at : T

-- The entries of the map, in the order of their keys.
abbrev pub CriteriaMap : Type 0 → Type 0
CriteriaMap T = List (String × ActiveCriteria T)

module _ {T : Type 0} where
  -- criteria_.find(metric)
  unfoldable pub find_criteria : String → CriteriaMap T → Option (ActiveCriteria T)
  find_criteria metric [] = none
  find_criteria metric ((key, active) ∷ rest) =
      if str_eq key metric then some active else find_criteria metric rest

  -- criteria_[metric] = active
  unfoldable pub assign_criteria : String → ActiveCriteria T → CriteriaMap T → CriteriaMap T
  assign_criteria metric active [] = (metric, active) ∷ []
  assign_criteria metric active ((key, old) ∷ rest) =
      if str_eq key metric
      then (metric, active) ∷ rest
      else if is_lt (compare metric key)
      then (metric, active) ∷ (key, old) ∷ rest
      else (key, old) ∷ assign_criteria metric active rest

-- The tests on numbers; a text that is no int makes each of them fail.
compare_numbers : String → Option ℤ → Option ℤ → Bool
compare_numbers condition (some current) (some wanted) =
    if str_eq condition "lt"
    then ltb_ℤ current wanted
    else if str_eq condition "lte"
    then leb_ℤ current wanted
    else if str_eq condition "gte"
    then leb_ℤ wanted current
    else if str_eq condition "gt"
    then ltb_ℤ wanted current
    else false
compare_numbers condition _ _ = false

-- The conditions of criteriaActive on the value of the schedule and the current value.
unfoldable pub condition_holds : String → String → String → Bool
unfolding compare_numbers
condition_holds condition wanted current =
    if str_eq condition "set"
    then true
    else if str_eq condition "eq"
    then str_eq wanted current
    else if str_eq condition "neq"
    then not (str_eq wanted current)
    else if str_eq condition "contains"
    then contains wanted current
    else if str_eq condition "ncontains"
    then not (contains wanted current)
    else compare_numbers condition (stoi current) (stoi wanted)

module _ {T : Type 0} (time : PosixTime T) (now : T) where
  unfoldable pub active_holds : ScheduleCriteria → Option (ActiveCriteria T) → Bool
  active_holds criteria none = false
  active_holds criteria (some active) =
      if time.le active.expires_at now
      then false
      else condition_holds criteria.condition criteria.value active.value

  unfoldable pub criteria_active : CriteriaMap T → ScheduleCriteria → Bool
  unfolding find_criteria active_holds
  criteria_active criterias criteria =
      active_holds criteria (find_criteria criteria.metric criterias)

  unfoldable pub layout_criteria_active : CriteriaMap T → ScheduledLayout T → Bool
  unfolding criteria_active
  layout_criteria_active criterias layout = all (criteria_active criterias) layout.criterias

  abbrev pub has_expired : String × ActiveCriteria T → Bool
  has_expired entry = time.le entry.1.expires_at now

  -- The map that is left, and whether an entry was removed.
  unfoldable pub cleanup_expired_criteria : CriteriaMap T → Bool × CriteriaMap T
  cleanup_expired_criteria criterias =
      (any has_expired criterias, filter (λ entry. not (has_expired entry)) criterias)

-- ===== src/Schedule/Item/Equality.antt =====
-- schedule/ScheduleItem.cpp and LayoutSchedule.cpp: the comparison operators of schedules, and
-- Utils::containersEqual of common/Utils.hpp.
pub mod Decides
use xibo_linux.Base.{
  ℕ, zero, suc, ◌+◌, ◌-◌, ◌*◌, ◌/◌, ◌%◌, ◌≤◌, ◌<◌, String, ◌≡◌, refl, sym, ap, subst, ◌∙◌, ◌≢◌, ◌↔◌,
  ◌⊎◌, inl, inr, Bool, true, false, not, ◌&&◌, ◌||◌, Option, none, some, List, [], ◌∷◌, ◌++◌, map,
  append_assoc, append-nil, arith, ltb, leb, ◌==◌, if◌then◌else◌, Bool-cases, Option-cases,
  &&-eq-true, ◌>>=◌, is_some, ℤ, pos, negsuc, ◌+ℤ◌, ◌-ℤ◌, ◌≤ℤ◌, ltb_ℤ, leb_ℤ, ◌==ℤ◌, ==ℤ_iff,
  ==ℤ_refl, length, get_elem?, filter, any, all, find, is_empty, filter_idem, filter-append,
  all-filter, filter_of_all, all-append, any-append, length-append, get_elem?_lt, str_eq,
  str_eq_iff, ◌++ₛ◌, contains, to_string, stoi,
}
use xibo_linux.DateTime.{PosixTime}
use xibo_linux.Schedule.Item.{
  ScheduleCriteria, DefaultScheduledLayout, ScheduledLayout, LayoutSchedule,
}

elements_equal {ℓ} : {A : Type ℓ} → (A → A → Bool) → List A → List A → Bool
elements_equal eq (x ∷ xs) (y ∷ ys) =
    let rest = elements_equal eq xs ys in if not (eq x y) then false else rest
elements_equal eq _ _ = true

unfoldable pub containers_equal {ℓ} : {A : Type ℓ} → (A → A → Bool) → List A → List A → Bool
unfolding elements_equal
containers_equal eq first second =
    if not (length first == length second) then false else elements_equal eq first second

unfoldable pub criteria_eq : ScheduleCriteria → ScheduleCriteria → Bool
criteria_eq first second =
    if not (str_eq first.metric second.metric)
    then false
    else if not (str_eq first.value second.value)
    then false
    else if not (str_eq first.kind second.kind)
    then false
    else if not (str_eq first.condition second.condition)
    then false
    else true

unfoldable pub default_layout_eq : DefaultScheduledLayout → DefaultScheduledLayout → Bool
unfolding containers_equal
default_layout_eq first second =
    if not (first.id ==ℤ second.id)
    then false
    else if not (containers_equal str_eq first.dependants second.dependants)
    then false
    else true

module _ {T : Type 0} (time : PosixTime T) where
  unfoldable pub layout_eq : ScheduledLayout T → ScheduledLayout T → Bool
  unfolding containers_equal criteria_eq
  layout_eq first second =
      if not (first.schedule_id ==ℤ second.schedule_id)
      then false
      else if not (first.id ==ℤ second.id)
      then false
      else if not (first.priority ==ℤ second.priority)
      then false
      else if not (time.eq first.start_dt second.start_dt)
          || not (time.eq first.end_dt second.end_dt)
      then false
      else if not (containers_equal str_eq first.dependants second.dependants)
      then false
      else if not (containers_equal criteria_eq first.criterias second.criterias)
      then false
      else true

  unfoldable pub schedule_eq : LayoutSchedule T → LayoutSchedule T → Bool
  unfolding containers_equal layout_eq default_layout_eq
  schedule_eq first second =
      if not (time.eq first.generated_time second.generated_time)
      then false
      else if not (default_layout_eq first.default_layout second.default_layout)
      then false
      else if not (containers_equal layout_eq first.regular_layouts second.regular_layouts)
      then false
      else if not (containers_equal layout_eq first.overlay_layouts second.overlay_layouts)
      then false
      else if not (containers_equal str_eq first.global_dependants second.global_dependants)
      then false
      else true

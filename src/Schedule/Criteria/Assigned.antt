-- ===== src/Schedule/Criteria/Assigned.antt =====
-- What a criterion that is set means for the criteria of the layouts.
use xibo_linux.Base.{
  String, ◌≡◌, refl, ap, ◌∙◌, inl, inr, false, not, ◌&&◌, some, [], ◌∷◌, if◌then◌else◌, arith,
  Bool-cases, str_eq, str_eq_iff,
}
use xibo_linux.DateTime.{PosixTime}
use xibo_linux.Schedule.Item.{ScheduleCriteria}
use xibo_linux.Schedule.Criteria.{
  ActiveCriteria, CriteriaMap, find_criteria, assign_criteria, condition_holds, active_holds,
  criteria_active,
}

module _ {T : Type 0} where
  find-assign_self :
      (metric : String) (active : ActiveCriteria T) (criterias : CriteriaMap T)
      → find_criteria metric (assign_criteria metric active criterias) ≡ some active
  unfolding find_criteria assign_criteria
  find-assign_self metric active [] = ground (arith, str_eq_iff metric metric)
  find-assign_self metric active ((key, old) ∷ rest) =
      ground (arith, str_eq_iff metric metric, find-assign_self metric active rest)

  find-assign_other :
      (metric other : String) (active : ActiveCriteria T) (criterias : CriteriaMap T)
      → str_eq metric other ≡ false
      → find_criteria other (assign_criteria metric active criterias)
        ≡ find_criteria other criterias
  unfolding find_criteria assign_criteria
  find-assign_other metric other active [] ne = ground arith
  find-assign_other metric other active ((key, old) ∷ rest) ne = ground (
    arith,
    str_eq_iff key metric,
    str_eq_iff key other,
    str_eq_iff metric other,
    find-assign_other metric other active rest,
  )

  module _ (time : PosixTime T) (later : T) where
    active_holds_lem :
        (criteria : ScheduleCriteria) (active : ActiveCriteria T)
        → active_holds time later criteria (some active) ≡ (
            not (time.le active.expires_at later)
            && condition_holds criteria.condition criteria.value active.value)
    unfolding active_holds
    active_holds_lem criteria active = elim (Bool-cases (time.le active.expires_at later)) [
      | inl e ↦ rw e refl
      | inr e ↦ rw e refl
    ]

    -- After a metric was set to a value until a time, a layout's criterion on that metric is active, at any
    -- later time, exactly if that time has not come and its condition holds of the value; a criterion on
    -- another metric is active exactly if it was.
    pub criteria_active-assign :
        (metric : String) (active : ActiveCriteria T) (criterias : CriteriaMap T)
        (criteria : ScheduleCriteria)
        → criteria_active time later (assign_criteria metric active criterias) criteria ≡ (
            if str_eq metric criteria.metric
            then not (time.le active.expires_at later)
              && condition_holds criteria.condition criteria.value active.value
            else criteria_active time later criterias criteria)
    unfolding criteria_active
    criteria_active-assign metric active criterias criteria =
        elim (Bool-cases (str_eq metric criteria.metric)) [
          | inl same ↦ rw same (
              ap
                (λ other.
                  active_holds time later criteria
                    (find_criteria other (assign_criteria metric active criterias)))
                ((str_eq_iff criteria.metric metric).0 (
                  ground
                    (arith, str_eq_iff metric criteria.metric, str_eq_iff criteria.metric metric)))
              ∙ ap (active_holds time later criteria) (find-assign_self metric active criterias)
              ∙ active_holds_lem criteria active)
          | inr other ↦ rw other (
              ap (active_holds time later criteria)
                (find-assign_other metric criteria.metric active criterias other))
        ]

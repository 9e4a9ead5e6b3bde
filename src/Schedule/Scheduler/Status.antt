-- ===== src/Schedule/Scheduler/Status.antt =====
-- schedule/Scheduler: the status that the player shows.
use xibo_linux.Base.{
  String, Bool, false, not, ◌&&◌, ◌||◌, Option, none, some, List, [], ◌∷◌, ◌++◌, map, if◌then◌else◌,
  ◌>>=◌, is_some, ℤ, any, str_eq, ◌++ₛ◌,
}
use xibo_linux.DateTime.{PosixTime}
use xibo_linux.UnsafeStore.{UnsafeItems}
use xibo_linux.Schedule.Item.{ScheduleCriteria, ScheduledLayout, LayoutSchedule}
use xibo_linux.Schedule.Criteria.{CriteriaMap, layout_criteria_active}
use xibo_linux.Schedule.Scheduler.State.{Scheduler, layout_valid, layout_on_schedule}
use xibo_linux.Schedule.Scheduler.Internal.{refresh_criteria}
use xibo_linux.Schedule.Scheduler.{current_layout_id}

pub record SchedulerStatus : Type 0 where
  pub scheduled_layouts : List ℤ
  pub valid_layouts : List ℤ
  pub invalid_layouts : List ℤ
  pub active_criteria : List String
  pub current_layout : ℤ
  pub generated_time : String
  pub weather_criteria_active : Bool

module _ {T : Type 0} where
  has_weather_criteria : List (ScheduledLayout T) → Bool
  has_weather_criteria layouts =
      any (λ l. any (λ (criteria : ScheduleCriteria). str_eq criteria.kind "weather") l.criterias)
        layouts

  unfoldable pub is_weather_criteria_active : Scheduler T → Bool
  unfolding has_weather_criteria
  is_weather_criteria_active s = elim s.schedule [
    | none ↦ false
    | some schedule ↦
        has_weather_criteria schedule.regular_layouts
        || has_weather_criteria schedule.overlay_layouts
  ]

-- The three lists of ids that fillSchedulerStatus and addDefaultToStatus fill.
pub record LayoutLists : Type 0 where
  pub scheduled : List ℤ
  pub valid : List ℤ
  pub invalid : List ℤ

abbrev no_layouts : LayoutLists
no_layouts = record { scheduled = []; valid = []; invalid = [] }

module _ {T : Type 0} (time : PosixTime T) (cache_valid : String → Bool) (now : T) where
  fill_one :
      List String
      → CriteriaMap T
      → ScheduledLayout T
      → LayoutLists × UnsafeItems T
      → LayoutLists × UnsafeItems T
  fill_one globals criterias layout (lists, items) =
      let (is_valid, items') =
        layout_valid time cache_valid now globals layout.id layout.dependants items in
      (
        if is_valid
            then record lists {
              valid = lists.valid ++ (layout.id ∷ []);
              scheduled =
                  if layout_on_schedule time cache_valid now layout
                    && layout_criteria_active time now criterias layout
                  then lists.scheduled ++ (layout.id ∷ [])
                  else lists.scheduled;
            }
            else record lists { invalid = lists.invalid ++ (layout.id ∷ []) },
        items',
      )

  unfoldable pub fill_scheduler_status :
      List String
      → CriteriaMap T
      → List (ScheduledLayout T)
      → LayoutLists × UnsafeItems T
      → LayoutLists × UnsafeItems T
  unfolding fill_one
  fill_scheduler_status globals criterias [] state = state
  fill_scheduler_status globals criterias (layout ∷ layouts) state =
      fill_scheduler_status globals criterias layouts (fill_one globals criterias layout state)

  unfoldable pub add_default_to_status :
      LayoutSchedule T → LayoutLists × UnsafeItems T → LayoutLists × UnsafeItems T
  add_default_to_status schedule (lists, items) =
      let id = schedule.default_layout.id in
      let (is_valid, items') =
        layout_valid time cache_valid now schedule.global_dependants id
          schedule.default_layout.dependants items in
      (
        if is_valid
            then record lists { valid = lists.valid ++ (id ∷ []) }
            else record lists { invalid = lists.invalid ++ (id ∷ []) },
        items',
      )

  unfoldable pub layout_lists : LayoutSchedule T → Scheduler T → LayoutLists × UnsafeItems T
  layout_lists schedule s =
      let globals = schedule.global_dependants in
      add_default_to_status schedule (
        fill_scheduler_status globals s.criterias schedule.overlay_layouts (
          fill_scheduler_status globals s.criterias schedule.regular_layouts
            (no_layouts, s.unsafe_items)))

  status_of : LayoutSchedule T → Scheduler T → Option (SchedulerStatus × Scheduler T)
  status_of schedule s = do
    let (lists, items) = layout_lists schedule s
    (current, s') ← current_layout_id time cache_valid now (record s { unsafe_items = items })
    some (
      record {
        scheduled_layouts = lists.scheduled;
        valid_layouts = lists.valid;
        invalid_layouts = lists.invalid;
        active_criteria = map (λ e. e.0 ++ₛ (": " ++ₛ e.1.value)) s'.criterias;
        current_layout = current;
        generated_time = time.to_simple_string schedule.generated_time;
        weather_criteria_active = is_weather_criteria_active s';
      },
      s',
    )

  -- The criteria are cleaned up first; the current layout is asked for after the lists are filled.
  unfoldable pub status : Scheduler T → Option (SchedulerStatus × Scheduler T)
  unfolding status_of
  status s = if not (is_some s.schedule) then none else (do
    s1 ← refresh_criteria time cache_valid now s
    schedule ← s1.schedule
    status_of schedule s1)

-- ===== src/Schedule/Scheduler/Lookup.antt =====
-- schedule/Scheduler: layoutById and scheduleIdBy.
use xibo_linux.Base.{Option, none, some, if◌then◌else◌, ◌>>=◌, ℤ, ◌==ℤ◌, find}
use xibo_linux.Schedule.Item.{ScheduledLayout, LayoutSchedule, default_schedule_id}
use xibo_linux.Schedule.Scheduler.State.{LayoutOverride, Scheduler}

module _ {T : Type 0} where
  unfoldable pub listed_layout : LayoutSchedule T → ℤ → Option (ScheduledLayout T)
  listed_layout schedule id = elim (find (λ other. other.id ==ℤ id) schedule.regular_layouts) [
    | some layout ↦ some layout
    | none ↦ find (λ other. other.id ==ℤ id) schedule.overlay_layouts
  ]

  -- layoutById, after its assertion
  unfoldable pub layout_on :
      LayoutSchedule T → Option (LayoutOverride T) → ℤ → Option (ScheduledLayout T)
  layout_on schedule none id = listed_layout schedule id
  layout_on schedule (some o) id =
      if o.layout.id ==ℤ id then some o.layout else listed_layout schedule id

  schedule_id_of : Option (ScheduledLayout T) → ℤ
  schedule_id_of none = default_schedule_id
  schedule_id_of (some layout) = layout.schedule_id

  unfoldable pub schedule_id_by : ℤ → Scheduler T → Option ℤ
  unfolding schedule_id_of
  schedule_id_by id s = do
    schedule ← s.schedule
    some (schedule_id_of (layout_on schedule s.layout_override id))

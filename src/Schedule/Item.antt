-- ===== src/Schedule/Item.antt =====
-- schedule/ScheduleItem.hpp, LayoutSchedule.hpp and SchedulerStatus.hpp: the data of a schedule.
pub mod Equality
use xibo_linux.Base.{ℤ, pos, String, List}

abbrev pub empty_layout_id : ℤ
empty_layout_id = pos 0

abbrev pub default_schedule_id : ℤ
default_schedule_id = pos 0

pub record ScheduleCriteria : Type 0 where
  pub metric : String
  pub value : String
  pub kind : String
  pub condition : String

pub record DefaultScheduledLayout : Type 0 where
  pub id : ℤ
  pub dependants : List String

pub record ScheduledLayout (T : Type 0) : Type 0 where
  pub schedule_id : ℤ
  pub id : ℤ
  pub priority : ℤ
  pub start_dt : T
  pub end_dt : T
  pub dependants : List String
  pub criterias : List ScheduleCriteria

pub record LayoutSchedule (T : Type 0) : Type 0 where
  pub generated_time : T
  pub global_dependants : List String
  pub regular_layouts : List (ScheduledLayout T)
  pub overlay_layouts : List (ScheduledLayout T)
  pub default_layout : DefaultScheduledLayout

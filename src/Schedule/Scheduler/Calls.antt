-- ===== src/Schedule/Scheduler/Calls.antt =====
-- The public methods of the scheduler as calls, but scheduleIdBy, which changes nothing, and sequences of
-- calls, each with the time at which it is made and with what the cache says then.
pub mod Each
pub mod Runs
use xibo_linux.Base.{
  ℕ, zero, suc, ◌+◌, ◌-◌, ◌*◌, ◌/◌, ◌%◌, ◌≤◌, ◌<◌, String, ◌≡◌, refl, sym, ap, subst, ◌∙◌, ◌≢◌, ◌↔◌,
  ◌⊎◌, inl, inr, Bool, true, false, not, ◌&&◌, ◌||◌, Option, none, some, List, [], ◌∷◌, ◌++◌, map,
  append_assoc, append-nil, arith, ltb, leb, ◌==◌, if◌then◌else◌, Bool-cases, Option-cases,
  &&-eq-true, ◌>>=◌, is_some, >>=-eq_of_some, ℤ, pos, negsuc, ◌+ℤ◌, ◌-ℤ◌, ◌≤ℤ◌, ltb_ℤ, leb_ℤ, ◌==ℤ◌,
  ==ℤ_iff, ==ℤ_refl, length, get_elem?, filter, any, all, find, is_empty, filter_idem,
  filter-append, all-filter, filter_of_all, all-append, any-append, length-append, get_elem?_lt,
  str_eq, str_eq_iff, ◌++ₛ◌, contains, to_string, stoi,
}
use xibo_linux.DateTime.{PosixTime}
use xibo_linux.UnsafeStore.{UnsafeItems, cleanup_expired}
use xibo_linux.Schedule.Item.{LayoutSchedule, ScheduledLayout, empty_layout_id}
use xibo_linux.Schedule.Item.Equality.{schedule_eq}
use xibo_linux.Schedule.Queue.{RegularLayoutQueue, next, previous, overlays}
use xibo_linux.Schedule.Queue.Order.{IsInRange, next-total, previous-total}
use xibo_linux.Schedule.Criteria.{assign_criteria}
use xibo_linux.Schedule.Scheduler.State.{
  Scheduler, LayoutOverride, Signal, initial, schedule_updated, layout_updated, overlays_updated,
  emit, layout_valid,
}
use xibo_linux.Schedule.Scheduler.Internal.{
  cleanup_expired_overrides, restart_timer, reload_queue, refresh,
}
use xibo_linux.Schedule.Scheduler.{
  take_schedule, reload_schedule, override_with, apply_layout_override, add_overlay_override,
  clear_overrides, play_from_queue, trigger_next_layout, trigger_previous_layout, trigger_on,
  trigger_layout_by_id, add_or_replace_criteria, next_from_queue, next_for, next_layout,
  current_layout_id, current_of_override, valid_overrides, overlay_layouts, timer_fired,
}
use xibo_linux.Schedule.Scheduler.Lookup.{layout_on}
use xibo_linux.Schedule.Scheduler.Status.{status, layout_lists}
use xibo_linux.Schedule.Scheduler.Total.{
  IsReady, restart_timer-frame, reload_with-total, reload_queue-total, refresh_criteria-total,
  cleanup_expired_overrides-IsReady, refresh-total,
}

pub data Call (T : Type 0) : Type 0 where
  reloads_schedule : LayoutSchedule T → Call T
  timer_fires reloads_queue clears triggers_next triggers_previous : Call T
  asks_next asks_current asks_overlays asks_status : Call T
  overrides_layout adds_overlay : ℤ → T → ℤ → Call T
  triggers_layout : ℤ → Call T
  sets_criteria : String → String → ℤ → Call T
  -- UnsafeItemStore is shared: other parts of the player may change its items.
  store_changes : UnsafeItems T → Call T

pub record Event (T : Type 0) : Type 0 where
  pub now : T
  pub cache_valid : String → Bool
  pub call : Call T

abbrev pub after : {T A : Type 0} → Option (A × Scheduler T) → Option (Scheduler T)
after none = none
after (some (a, s)) = some s

module _ {T : Type 0} (time : PosixTime T) where
  unfoldable pub step : T → (String → Bool) → Call T → Scheduler T → Option (Scheduler T)
  step now cache_valid (reloads_schedule schedule) s =
      reload_schedule time cache_valid now schedule s
  step now cache_valid timer_fires s = timer_fired time cache_valid now s
  step now cache_valid reloads_queue s = reload_queue time cache_valid now s
  step now cache_valid clears s = some (clear_overrides time now s)
  step now cache_valid triggers_next s = trigger_next_layout time cache_valid now s
  step now cache_valid triggers_previous s = trigger_previous_layout time cache_valid now s
  step now cache_valid asks_next s = after (next_layout time cache_valid now s)
  step now cache_valid asks_current s = after (current_layout_id time cache_valid now s)
  step now cache_valid asks_overlays s = after (overlay_layouts time cache_valid now s)
  step now cache_valid asks_status s = after (status time cache_valid now s)
  step now cache_valid (overrides_layout id created_dt duration) s =
      some (apply_layout_override time now id created_dt duration s)
  step now cache_valid (adds_overlay id created_dt duration) s =
      some (add_overlay_override time now id created_dt duration s)
  step now cache_valid (triggers_layout id) s =
      after (trigger_layout_by_id time cache_valid now id s)
  step now cache_valid (sets_criteria metric value ttl) s =
      add_or_replace_criteria time cache_valid now metric value ttl s
  step now cache_valid (store_changes items) s = some (record s { unsafe_items = items })

  unfoldable pub run : List (Event T) → Scheduler T → Option (Scheduler T)
  run [] s = some s
  run (e ∷ events) s = do s' ← step e.now e.cache_valid e.call s; run events s'

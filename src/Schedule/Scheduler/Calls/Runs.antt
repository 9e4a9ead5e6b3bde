-- ===== src/Schedule/Scheduler/Calls/Runs.antt =====
-- Every sequence of calls succeeds from a ready scheduler, and the first reload makes it ready.
use xibo_linux.Base.{String, ◌≡◌, refl, Bool, some, List, [], ◌∷◌}
use xibo_linux.DateTime.{PosixTime}
use xibo_linux.Schedule.Item.{LayoutSchedule}
use xibo_linux.Schedule.Scheduler.State.{Scheduler, initial, schedule_updated, emit}
use xibo_linux.Schedule.Scheduler.{
  take_schedule, reload_schedule, apply_layout_override, add_overlay_override, clear_overrides,
}
use xibo_linux.Schedule.Scheduler.Total.{IsReady, reload_with-total}
use xibo_linux.Schedule.Scheduler.Calls.{
  Call, Event, step, run, reloads_schedule, timer_fires, reloads_queue, clears, triggers_next,
  triggers_previous, asks_next, asks_current, asks_overlays, asks_status, overrides_layout,
  adds_overlay, triggers_layout, sets_criteria, store_changes,
}
use xibo_linux.Schedule.Scheduler.Calls.Each.{
  Succeeds, add_or_replace_criteria-Succeeds, add_overlay_override-IsReady,
  apply_layout_override-IsReady, clear_overrides-IsReady, current_layout_id-Succeeds,
  next_layout-Succeeds, overlay_layouts-Succeeds, reload_queue-Succeeds, reload_schedule-Succeeds,
  status-Succeeds, timer_fired-Succeeds, trigger_layout_by_id-Succeeds,
  trigger_next_layout-Succeeds, trigger_previous_layout-Succeeds,
}

module _ {T : Type 0} (time : PosixTime T) where
  step-Succeeds :
      (now : T) (cache_valid : String → Bool) (call : Call T) (s : Scheduler T)
      → IsReady s
      → Succeeds (step time now cache_valid call s)
  unfolding step
  step-Succeeds now cache_valid (reloads_schedule schedule) s h =
      reload_schedule-Succeeds time cache_valid now s h schedule
  step-Succeeds now cache_valid timer_fires s h = timer_fired-Succeeds time cache_valid now s h
  step-Succeeds now cache_valid reloads_queue s h = reload_queue-Succeeds time cache_valid now s h
  step-Succeeds now cache_valid clears s h =
      (clear_overrides time now s, refl, clear_overrides-IsReady time cache_valid now s h)
  step-Succeeds now cache_valid triggers_next s h =
      trigger_next_layout-Succeeds time cache_valid now s h
  step-Succeeds now cache_valid triggers_previous s h =
      trigger_previous_layout-Succeeds time cache_valid now s h
  step-Succeeds now cache_valid asks_next s h = next_layout-Succeeds time cache_valid now s h
  step-Succeeds now cache_valid asks_current s h =
      current_layout_id-Succeeds time cache_valid now s h
  step-Succeeds now cache_valid asks_overlays s h =
      overlay_layouts-Succeeds time cache_valid now s h
  step-Succeeds now cache_valid asks_status s h = status-Succeeds time cache_valid now s h
  step-Succeeds now cache_valid (overrides_layout id created_dt duration) s h = (
    apply_layout_override time now id created_dt duration s,
    refl,
    apply_layout_override-IsReady time cache_valid now s h id created_dt duration s h,
  )
  step-Succeeds now cache_valid (adds_overlay id created_dt duration) s h = (
    add_overlay_override time now id created_dt duration s,
    refl,
    add_overlay_override-IsReady time cache_valid now s h id created_dt duration,
  )
  step-Succeeds now cache_valid (triggers_layout id) s h =
      trigger_layout_by_id-Succeeds time cache_valid now s h id
  step-Succeeds now cache_valid (sets_criteria metric value ttl) s h =
      add_or_replace_criteria-Succeeds time cache_valid now s h metric value ttl
  step-Succeeds now cache_valid (store_changes items) s h = (
    record s { unsafe_items = items },
    refl,
    record { in_range = h.in_range; scheduled = h.scheduled },
  )

  -- From a ready scheduler every sequence of calls succeeds, whatever the clock, the cache and the
  -- unsafe items: no call throws, fails an assertion or reads an empty optional, and the next index
  -- stays in range.
  pub run-Succeeds :
      (events : List (Event T)) (s : Scheduler T)
      → IsReady s
      → (s' : Scheduler T) × (run time events s ≡ some s') × IsReady s'
  unfolding run
  run-Succeeds [] s h = (s, refl, h)
  run-Succeeds (e ∷ events) s h =
      let (s1, runs, ready1) = step-Succeeds e.now e.cache_valid e.call s h in
      let (s2, runs2, ready2) = run-Succeeds events s1 ready1 in (s2, rw runs runs2, ready2)

  -- The first reload of a schedule, on the scheduler as constructed, makes it ready.
  pub first_reload-IsReady :
      (now : T) (cache_valid : String → Bool) (schedule : LayoutSchedule T)
      → (s : Scheduler T) × (reload_schedule time cache_valid now schedule initial ≡ some s)
        × IsReady s
  unfolding reload_schedule take_schedule
  first_reload-IsReady now cache_valid schedule =
      let (s', runs, range, kept) =
        reload_with-total time cache_valid now schedule
          (emit schedule_updated (record initial { schedule = some schedule })) in
      (s', runs, record { in_range = range; scheduled = rw kept refl })

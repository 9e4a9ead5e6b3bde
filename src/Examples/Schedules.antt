-- ===== src/Examples/Schedules.antt =====
-- The theorems on the scheduler at a concrete schedule.
use xibo_linux.Base.{
  String, ◌≡◌, refl, ◌↔◌, inr, Bool, true, false, Option, none, some, List, [], ◌∷◌, arith,
  if◌then◌else◌, ℤ, pos,
}
use xibo_linux.UnsafeStore.{cleanup_expired}
use xibo_linux.Schedule.Item.{LayoutSchedule}
use xibo_linux.Schedule.Item.Equality.{schedule_eq}
use xibo_linux.Schedule.Item.Equality.Decides.{schedule_eq-Decides}
use xibo_linux.Schedule.Queue.{next}
use xibo_linux.Schedule.Scheduler.State.{Scheduler, LayoutOverride, initial}
use xibo_linux.Schedule.Scheduler.Internal.{restart_timer, refresh, override_expired}
use xibo_linux.Schedule.Scheduler.{
  next_layout, apply_layout_override, add_overlay_override, clear_overrides,
}
use xibo_linux.Schedule.Scheduler.Eligible.{is_playable, best_eligible}
use xibo_linux.Schedule.Scheduler.Reloaded.{GoesOn, reload_queue-best_eligible}
use xibo_linux.DateTime.{NotADateTimeLaws}
use xibo_linux.Schedule.Scheduler.Total.{IsReady}
use xibo_linux.Schedule.Scheduler.Cleaned.{is_over, as_list, unexpired, refresh-keeps_unexpired}
use xibo_linux.Schedule.Scheduler.Calls.{
  Event, run, asks_next, overrides_layout, reloads_schedule, triggers_previous,
}
use xibo_linux.Schedule.Scheduler.Calls.Runs.{run-Succeeds}
use xibo_linux.Schedule.Scheduler.Overrides.{Plays, next_layout-override, next_layout-expired}
use xibo_linux.Schedule.Criteria.{
  cleanup_expired_criteria, assign_criteria, condition_holds, criteria_active,
}
use xibo_linux.Schedule.Criteria.Assigned.{criteria_active-assign}
use xibo_linux.Schedule.Scheduler.Internal.{reload_queue, current_of}
use xibo_linux.Schedule.Scheduler.Timer.{restart_timer-never}
use xibo_linux.Base.{filter, not, ◌&&◌, str_eq}
use xibo_linux.Schedule.Scheduler.{trigger_layout_by_id}
use xibo_linux.Schedule.Scheduler.Reloads.{is_known, trigger_layout_by_id_lem}
use xibo_linux.Base.{◌⊎◌}
use xibo_linux.Examples.Clock.{before, clock, at, same-decides}
use xibo_linux.Examples.Queues.{layout_of, mixed, two_layouts}

abbrev cached : String → Bool
cached file = true

abbrev schedule : LayoutSchedule (Option ℤ)
schedule = record {
  generated_time = at 0;
  global_dependants = [];
  regular_layouts = mixed;
  overlay_layouts = layout_of (pos 4) (pos 1) ∷ [];
  default_layout = record { id = pos 9; dependants = [] };
}

abbrev ready : Scheduler (Option ℤ)
ready = record initial { schedule = some schedule; regular_queue = two_layouts }

ready-IsReady : IsReady ready
ready-IsReady = record { in_range = inr (omega arith); scheduled = refl }

-- Layout 3 is set for 100 seconds from 60, or until it has been played.
abbrev timed : LayoutOverride (Option ℤ)
timed = record {
  layout = record (layout_of (pos 3) (pos 5)) { start_dt = at 60; end_dt = at 160 };
  one_shot = false;
  played = false;
}

abbrev overridden : Scheduler (Option ℤ)
overridden = record ready { layout_override = some timed }

overridden-IsReady : IsReady overridden
overridden-IsReady = record { in_range = inr (omega arith); scheduled = refl }

timed-Plays : Plays clock cached (at 100) overridden timed schedule
unfolding override_expired cleanup_expired
timed-Plays = record { set = refl; unexpired = refl; scheduled = refl; playable = refl }

abbrev calls : List (Event (Option ℤ))
calls =
    (record { now = at 60; cache_valid = cached; call = asks_next })
    ∷ (record {
      now = at 70;
      cache_valid = cached;
      call = overrides_layout (pos 3) (at 70) (pos 0);
    })
    ∷ (record { now = at 80; cache_valid = λ file. false; call = reloads_schedule schedule })
    ∷ (record { now = at 90; cache_valid = cached; call = triggers_previous })
    ∷ []

run-Succeeds_example : (s' : Scheduler (Option ℤ)) × (run clock calls ready ≡ some s') × IsReady s'
run-Succeeds_example = run-Succeeds clock calls ready ready-IsReady

reload_queue-best_eligible_example :
    (s' : Scheduler (Option ℤ)) × (reload_queue clock cached (at 100) ready ≡ some s')
    × (s'.regular_queue.queue ≡ best_eligible clock cached (at 100) schedule [] [] mixed)
    × (s'.regular_queue.default_layout ≡ (
        if is_playable clock cached (at 100) [] [] (pos 9) []
        then some schedule.default_layout
        else none))
    × (s'.overlay_queue
        ≡ best_eligible clock cached (at 100) schedule [] [] schedule.overlay_layouts)
    × GoesOn (pos 2) s'.regular_queue
unfolding current_of cleanup_expired_criteria
reload_queue-best_eligible_example =
    reload_queue-best_eligible clock cached (at 100) schedule ready refl

refresh-keeps_unexpired_example :
    (s' : Scheduler (Option ℤ)) × (refresh clock cached (at 100) overridden ≡ some s')
    × IsReady s'
    × (s'.schedule ≡ some schedule)
    × (as_list clock cached (at 100) s'.layout_override
        ≡ filter
            (λ o. not (is_over clock cached (at 100) o))
            (as_list clock cached (at 100) overridden.layout_override))
    × (s'.overlay_overrides ≡ [])
    × (unexpired clock cached (at 100) s'.unsafe_items ≡ [])
refresh-keeps_unexpired_example =
    refresh-keeps_unexpired clock cached (at 100) overridden overridden-IsReady

next_layout-override_example :
    (s1 : Scheduler (Option ℤ)) × (s' : Scheduler (Option ℤ)) × (refresh clock cached
        (at 100)
        overridden
      ≡ some s1)
    × (next_layout clock cached (at 100) overridden ≡ some (pos 3, s'))
    × (s'.layout_override ≡ some (record timed { played = true }))
    × (s'.regular_queue ≡ s1.regular_queue)
next_layout-override_example =
    next_layout-override clock cached (at 100) overridden timed schedule overridden-IsReady
      timed-Plays

next_layout-expired_example :
    (s1 : Scheduler (Option ℤ)) × (id : ℤ) × (s' : Scheduler (Option ℤ)) × (refresh clock cached
        (at 170)
        overridden
      ≡ some s1)
    × (next_layout clock cached (at 170) overridden ≡ some (id, s'))
    × (next s1.regular_queue ≡ some (id, s'.regular_queue))
    × (s'.layout_override ≡ none)
unfolding override_expired
next_layout-expired_example =
    next_layout-expired clock cached (at 170) overridden timed overridden-IsReady refl refl

schedule_eq-Decides_example : (schedule_eq clock schedule schedule ≡ true) ↔ (schedule ≡ schedule)
schedule_eq-Decides_example = schedule_eq-Decides clock same-decides schedule schedule

criteria_active-assign_example :
    criteria_active clock
      (at 150)
      (assign_criteria "weather" (record { value = "rain"; expires_at = at 200 }) [])
      (record { metric = "weather"; value = "rain"; kind = "weather"; condition = "eq" })
    ≡ (if str_eq "weather" "weather"
        then not (clock.le (at 200) (at 150)) && condition_holds "eq" "rain" "rain"
        else criteria_active clock
            (at 150)
            []
            (record { metric = "weather"; value = "rain"; kind = "weather"; condition = "eq" }))
criteria_active-assign_example =
    criteria_active-assign clock (at 150) "weather" (record { value = "rain"; expires_at = at 200 })
      [] (record { metric = "weather"; value = "rain"; kind = "weather"; condition = "eq" })

-- The clock does not say that a time is before `none`.
special_time : NotADateTimeLaws (Option ℤ) clock
special_time = record { lt_not_a_date_time = λ a. before_none a; is_not = refl }
  where
    before_none : (a : Option ℤ) → before a none ≡ false
    before_none none = refl
    before_none (some n) = refl

restart_timer-never_example :
    (restart_timer clock (at 100) overridden ≡ overridden)
    × ((s' : Scheduler (Option ℤ)) × (reload_queue clock cached (at 100) overridden ≡ some s')
        × (s'.timer ≡ none))
    × ((apply_layout_override clock (at 100) (pos 3) (at 100) (pos 60) overridden).timer ≡ none)
    × ((add_overlay_override clock (at 100) (pos 3) (at 100) (pos 60) overridden).timer ≡ none)
    × ((clear_overrides clock (at 100) overridden).timer ≡ none)
restart_timer-never_example =
    restart_timer-never clock special_time (at 100) cached overridden (pos 3) (at 100) (pos 60)
      overridden-IsReady

trigger_layout_by_id_lem_example :
    (s1 : Scheduler (Option ℤ)) × (refresh clock cached (at 100) ready ≡ some s1)
    × ((is_known clock cached (at 100) (pos 3) schedule s1.layout_override ≡ false)
          × (trigger_layout_by_id clock cached (at 100) (pos 3) ready ≡ some (false, s1))
        ⊎ (is_known clock cached (at 100) (pos 3) schedule s1.layout_override ≡ true)
          × (s' : Scheduler (Option ℤ)) × (o : LayoutOverride (Option ℤ)) × (trigger_layout_by_id
                clock cached
                (at 100)
                (pos 3)
                ready
              ≡ some (true, s'))
          × (s'.layout_override ≡ some o)
          × (o.layout.id ≡ pos 3)
          × (override_expired clock (at 900) o ≡ false))
trigger_layout_by_id_lem_example =
    trigger_layout_by_id_lem clock cached (at 100) (pos 3) (at 900) schedule ready ready-IsReady
      refl

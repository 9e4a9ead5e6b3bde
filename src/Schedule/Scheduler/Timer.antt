-- ===== src/Schedule/Scheduler/Timer.antt =====
-- restartTimer and closestLayoutDt: the closest time starts as one that no time is before.
use xibo_linux.Base.{
  String, ◌≡◌, refl, ap, ◌∙◌, Bool, false, true, Option, none, some, List, [], ◌∷◌, not, is_some,
  is_empty, arith, ℤ, >>=-eq-some, if◌then◌else◌, inl, inr, Bool-cases,
}
use xibo_linux.DateTime.{PosixTime, NotADateTimeLaws, valid}
use xibo_linux.Schedule.Item.{ScheduledLayout, LayoutSchedule}
use xibo_linux.Schedule.Scheduler.State.{
  LayoutOverride, Scheduler, Signal, emit, layout_updated, overlays_updated,
}
use xibo_linux.Schedule.Scheduler.Internal.{
  earlier_end, earlier_boundary, closest_boundary, closest_end, closest_override, closest_layout_dt,
  restart_with, restart_timer, cleanup_expired_overrides, rebuild_queues, reload_with, reload_queue,
  update_current_layout, update_current_overlays, current_of,
}
use xibo_linux.Schedule.Scheduler.{apply_layout_override, add_overlay_override, clear_overrides}
use xibo_linux.Schedule.Scheduler.Total.{IsReady, reload_queue-total}
use xibo_linux.Schedule.Scheduler.Cleaned.{reload_queue-inversion}

module _ {T : Type 0} (time : PosixTime T) (laws : NotADateTimeLaws T time) (now : T) where
  earlier_end-none :
      (end_dt : T) → earlier_end time now time.not_a_date_time end_dt ≡ time.not_a_date_time
  unfolding earlier_end
  earlier_end-none end_dt = ground (arith, laws.lt_not_a_date_time end_dt)

  closest_boundary-none :
      (layouts : List (ScheduledLayout T))
      → closest_boundary time now time.not_a_date_time layouts ≡ time.not_a_date_time
  unfolding closest_boundary earlier_boundary
  closest_boundary-none [] = refl
  closest_boundary-none (layout ∷ layouts) =
      rw (earlier_end-none layout.start_dt, earlier_end-none layout.end_dt)
        (closest_boundary-none layouts)

  closest_end-none :
      (layouts : List (ScheduledLayout T))
      → closest_end time now time.not_a_date_time layouts ≡ time.not_a_date_time
  unfolding closest_end
  closest_end-none [] = refl
  closest_end-none (layout ∷ layouts) =
      rw (earlier_end-none layout.end_dt) (closest_end-none layouts)

  closest_override-none :
      (o : Option (LayoutOverride T))
      → closest_override time now time.not_a_date_time o ≡ time.not_a_date_time
  unfolding closest_override
  closest_override-none none = refl
  closest_override-none (some o) = elim (Bool-cases o.one_shot) [
    | inl e ↦ rw e refl
    | inr e ↦ rw e (earlier_end-none o.layout.end_dt)
  ]

  closest_layout_dt-none :
      (schedule : LayoutSchedule T) (s : Scheduler T)
      → closest_layout_dt time now schedule s ≡ time.not_a_date_time
  unfolding closest_layout_dt
  closest_layout_dt-none schedule s =
      rw
        (
          closest_boundary-none schedule.regular_layouts,
          closest_boundary-none schedule.overlay_layouts,
          closest_override-none s.layout_override,
        )
        (closest_end-none s.overlay_overrides)

  restart_with-silent :
      (schedule : LayoutSchedule T) (s : Scheduler T) → restart_with time now schedule s ≡ s
  unfolding restart_with valid
  restart_with-silent schedule s = rw (closest_layout_dt-none schedule s, laws.is_not) refl

  restart_timer-silent : (s : Scheduler T) → restart_timer time now s ≡ s
  unfolding restart_timer
  restart_timer-silent s = on s.schedule
    where
      on :
          (o : Option (LayoutSchedule T))
          → elim o [ none ↦ s | some schedule ↦ restart_with time now schedule s ] ≡ s
      on none = refl
      on (some schedule) = restart_with-silent schedule s

  module _ (cache_valid : String → Bool) where
    rebuild_queues-timer :
        (schedule : LayoutSchedule T) (s : Scheduler T)
        → (rebuild_queues time cache_valid now schedule s).timer ≡ s.timer
    unfolding rebuild_queues cleanup_expired_overrides
    rebuild_queues-timer schedule s = ap (λ t. t.timer) (restart_timer-silent _)

    update_current_layout-timer :
        (id : ℤ) (s s' : Scheduler T) → update_current_layout id s ≡ some s' → s'.timer ≡ s.timer
    unfolding update_current_layout
    update_current_layout-timer id s s' h = ground arith

    update_current_overlays-timer :
        (ids : List ℤ) (s s' : Scheduler T)
        → some (update_current_overlays ids s) ≡ some s'
        → s'.timer ≡ s.timer
    unfolding update_current_overlays
    update_current_overlays-timer ids s s' h = ground arith

    reload_with-timer :
        (schedule : LayoutSchedule T) (s s' : Scheduler T)
        → reload_with time cache_valid now schedule s ≡ some s'
        → s'.timer ≡ s.timer
    unfolding reload_with
    reload_with-timer schedule s s' h =
        let s1 = rebuild_queues time cache_valid now schedule s in
        let (s2, updated, rest) =
          >>=-eq-some (update_current_layout (current_of s.layout_override s.regular_queue) s1) _ s'
            h in
        update_current_overlays-timer _ s2 s' rest
        ∙ update_current_layout-timer (current_of s.layout_override s.regular_queue) s1 s2 updated
        ∙ rebuild_queues-timer schedule s

    apply_layout_override-timer :
        (id : ℤ) (created_dt : T) (duration : ℤ) (s : Scheduler T)
        → (apply_layout_override time now id created_dt duration s).timer ≡ s.timer
    unfolding apply_layout_override cleanup_expired_overrides
    apply_layout_override-timer id created_dt duration s =
        ap (λ t. t.timer) (restart_timer-silent _)

    add_overlay_override-timer :
        (id : ℤ) (created_dt : T) (duration : ℤ) (s : Scheduler T)
        → (add_overlay_override time now id created_dt duration s).timer ≡ s.timer
    unfolding add_overlay_override cleanup_expired_overrides
    add_overlay_override-timer id created_dt duration s = ap (λ t. t.timer) (restart_timer-silent _)

    emit_if-timer :
        (b : Bool) (signal : Signal) (s : Scheduler T)
        → (if b then emit signal s else s).timer ≡ s.timer
    emit_if-timer true signal s = refl
    emit_if-timer false signal s = refl

    clear_overrides-timer : (s : Scheduler T) → (clear_overrides time now s).timer ≡ s.timer
    unfolding clear_overrides cleanup_expired_overrides
    clear_overrides-timer s =
        let s1 = cleanup_expired_overrides time now s in
        let cleared : Scheduler T = record s1 { layout_override = none; overlay_overrides = [] } in
        let s2 = restart_timer time now cleared in
        let had_override = is_some s1.layout_override in
        emit_if-timer (not (is_empty s1.overlay_overrides)) overlays_updated
          (if had_override then emit layout_updated s2 else s2)
        ∙ emit_if-timer had_override layout_updated s2
        ∙ ap (λ t. t.timer) (restart_timer-silent cleared)

    -- Where no time is before not_a_date_time, which closestLayoutDt starts from, no call of restartTimer
    -- starts the timer: from a ready scheduler a reload of the queues succeeds, and it, an override of
    -- the layout, an overlay and the clearing of the overrides leave the timer as it was, whatever begins
    -- or ends in the schedule.
    pub restart_timer-never :
        (s : Scheduler T) (id : ℤ) (created_dt : T) (duration : ℤ)
        → IsReady s
        → (restart_timer time now s ≡ s)
          × ((s' : Scheduler T) × (reload_queue time cache_valid now s ≡ some s')
              × (s'.timer ≡ s.timer))
          × ((apply_layout_override time now id created_dt duration s).timer ≡ s.timer)
          × ((add_overlay_override time now id created_dt duration s).timer ≡ s.timer)
          × ((clear_overrides time now s).timer ≡ s.timer)
    restart_timer-never s id created_dt duration ready =
        let (s', reloads, _, _) = reload_queue-total time cache_valid now s ready.scheduled in
        let (schedule, runs) = reload_queue-inversion time cache_valid now s s' reloads in
        (
          restart_timer-silent s,
          (s', reloads, reload_with-timer schedule s s' runs),
          apply_layout_override-timer id created_dt duration s,
          add_overlay_override-timer id created_dt duration s,
          clear_overrides-timer s,
        )

-- ===== src/Schedule/Scheduler/Calls/Each.antt =====
-- Each call succeeds from a ready scheduler and leaves it ready.
use xibo_linux.Base.{
  String, ◌≡◌, refl, inl, inr, Bool, true, false, Option, none, some, List, [], ◌∷◌, arith,
  if◌then◌else◌, Bool-cases, Option-cases, is_some, >>=-eq_of_some, ℤ, pos, ◌==ℤ◌,
}
use xibo_linux.DateTime.{PosixTime}
use xibo_linux.UnsafeStore.{UnsafeItems}
use xibo_linux.Schedule.Item.{LayoutSchedule, ScheduledLayout, empty_layout_id}
use xibo_linux.Schedule.Item.Equality.{schedule_eq}
use xibo_linux.Schedule.Queue.{RegularLayoutQueue, overlays}
use xibo_linux.Schedule.Queue.Order.{IsInRange, next-total, previous-total}
use xibo_linux.Schedule.Criteria.{assign_criteria}
use xibo_linux.Schedule.Scheduler.State.{
  Scheduler, LayoutOverride, Signal, schedule_updated, layout_updated, overlays_updated, emit,
  layout_valid,
}
use xibo_linux.Schedule.Scheduler.Internal.{cleanup_expired_overrides, restart_timer, reload_queue}
use xibo_linux.Schedule.Scheduler.{
  take_schedule, reload_schedule, override_with, apply_layout_override, add_overlay_override,
  clear_overrides, play_from_queue, trigger_next_layout, trigger_previous_layout, trigger_on,
  trigger_layout_by_id, add_or_replace_criteria, next_from_queue, next_for, next_layout,
  current_layout_id, current_of_override, valid_overrides, overlay_layouts, timer_fired,
}
use xibo_linux.Schedule.Scheduler.Lookup.{layout_on}
use xibo_linux.Schedule.Scheduler.Status.{status, layout_lists}
use xibo_linux.Schedule.Scheduler.Total.{
  IsReady, restart_timer-frame, reload_with-total, reload_queue-total, refresh_criteria-total,
  cleanup_expired_overrides-IsReady, refresh-total,
}
use xibo_linux.Schedule.Scheduler.Calls.{after}

-- The call succeeds and leaves the scheduler ready.
abbrev pub Succeeds : {T : Type 0} → Option (Scheduler T) → Type 0
Succeeds {T = T} result = (s : Scheduler T) × (result ≡ some s) × IsReady s

module _ {T : Type 0} (time : PosixTime T) (cache_valid : String → Bool) (now : T) where
  current_layout_id-total :
      (s : Scheduler T)
      → IsReady s
      → (id : ℤ) × (s' : Scheduler T) × (current_layout_id time cache_valid now s ≡ some (id, s'))
        × IsReady s'
  unfolding current_layout_id
  current_layout_id-total s ready =
      let (s1, refreshed, ready1, _) = refresh-total time cache_valid now s ready in
      (current_of_override s1.layout_override s1.regular_queue.current_id, s1, rw refreshed, ready1)

module _ {T : Type 0} (time : PosixTime T) (cache_valid : String → Bool) (now : T) (s : Scheduler T)
    (ready : IsReady s) where
  emit_if-IsReady :
      (b : Bool) (signal : Signal) (s1 : Scheduler T)
      → IsReady s1
      → IsReady (if b then emit signal s1 else s1)
  emit_if-IsReady true signal s1 h = record { in_range = h.in_range; scheduled = h.scheduled }
  emit_if-IsReady false signal s1 h = h

  missing : s.schedule ≡ none → ⊥
  missing e = ground (arith, ready)

  pub reload_schedule-Succeeds :
      (schedule : LayoutSchedule T) → Succeeds (reload_schedule time cache_valid now schedule s)
  unfolding reload_schedule take_schedule
  reload_schedule-Succeeds schedule = elim (Option-cases s.schedule) [
    | inl e ↦ absurd (missing e)
    | inr (old, e) ↦ elim (Bool-cases (schedule_eq time old schedule)) [
      | inl same ↦ (s, ground arith, ready)
      | inr new ↦
          let (s', runs, range, kept) =
            reload_with-total time cache_valid now schedule
              (emit schedule_updated (record s { schedule = some schedule })) in
          (s', ground arith, record { in_range = range; scheduled = rw kept refl })
    ]
  ]

  restart_timer-IsReady : (s1 : Scheduler T) → IsReady s1 → IsReady (restart_timer time now s1)
  restart_timer-IsReady s1 h =
      rw restart_timer-frame (record { in_range = h.in_range; scheduled = h.scheduled })

  pub apply_layout_override-IsReady :
      (id : ℤ) (created_dt : T) (duration : ℤ) (s1 : Scheduler T)
      → IsReady s1
      → IsReady (apply_layout_override time now id created_dt duration s1)
  unfolding apply_layout_override
  apply_layout_override-IsReady id created_dt duration s1 h =
      let (ready1, _) = cleanup_expired_overrides-IsReady time cache_valid now s1 h in
      let r =
        restart_timer-IsReady
          (record (cleanup_expired_overrides time now s1) {
            layout_override = some (override_with time now id created_dt duration);
          })
          (record { in_range = ready1.in_range; scheduled = ready1.scheduled }) in
      record { in_range = r.in_range; scheduled = r.scheduled }

  pub add_overlay_override-IsReady :
      (id : ℤ) (created_dt : T) (duration : ℤ)
      → IsReady (add_overlay_override time now id created_dt duration s)
  unfolding add_overlay_override
  add_overlay_override-IsReady id created_dt duration =
      let (ready1, _) = cleanup_expired_overrides-IsReady time cache_valid now s ready in
      let r =
        restart_timer-IsReady
          (record (cleanup_expired_overrides time now s) { overlay_overrides = _ })
          (record { in_range = ready1.in_range; scheduled = ready1.scheduled }) in
      record { in_range = r.in_range; scheduled = r.scheduled }

  pub clear_overrides-IsReady : IsReady (clear_overrides time now s)
  unfolding clear_overrides
  clear_overrides-IsReady =
      let (ready1, _) = cleanup_expired_overrides-IsReady time cache_valid now s ready in
      let r =
        restart_timer-IsReady
          (record (cleanup_expired_overrides time now s) {
            layout_override = none;
            overlay_overrides = [];
          })
          (record { in_range = ready1.in_range; scheduled = ready1.scheduled }) in
      emit_if-IsReady _ overlays_updated _ (emit_if-IsReady _ layout_updated _ r)

  play_from_queue-IsReady :
      (id : ℤ) (queue : RegularLayoutQueue T) (s1 : Scheduler T)
      → IsReady s1
      → IsInRange queue
      → IsReady (play_from_queue time now (id, queue) s1)
  unfolding play_from_queue
  play_from_queue-IsReady id queue s1 h range = elim (Bool-cases (id ==ℤ empty_layout_id)) [
    | inl empty ↦ rw empty (record { in_range = range; scheduled = h.scheduled })
    | inr found ↦ rw found (
        apply_layout_override-IsReady id now (pos 0) (record s1 { regular_queue = queue })
          (record { in_range = range; scheduled = h.scheduled }))
  ]

  pub trigger_next_layout-Succeeds : Succeeds (trigger_next_layout time cache_valid now s)
  unfolding trigger_next_layout
  trigger_next_layout-Succeeds =
      let (s1, refreshed, ready1, _) = refresh-total time cache_valid now s ready in
      let (id, queue, found, range, _, _) = next-total s1.regular_queue ready1.in_range in
      (
        play_from_queue time now (id, queue) s1,
        rw (refreshed, ready1.scheduled, found),
        play_from_queue-IsReady id queue s1 ready1 range,
      )

  trigger_on-IsReady :
      (schedule : Option (LayoutSchedule T)) (id : ℤ) (s1 : Scheduler T)
      → IsReady s1
      → IsReady (trigger_on time now schedule id s1).1
  unfolding trigger_on
  trigger_on-IsReady none id s1 h = h
  trigger_on-IsReady (some schedule) id s1 h =
      elim (Bool-cases (is_some (layout_on schedule s1.layout_override id))) [
        | inl known ↦ rw known (apply_layout_override-IsReady id now (pos 0) s1 h)
        | inr unknown ↦ rw unknown h
      ]

  pub trigger_previous_layout-Succeeds : Succeeds (trigger_previous_layout time cache_valid now s)
  unfolding trigger_previous_layout
  trigger_previous_layout-Succeeds =
      let (s1, refreshed, ready1, _) = refresh-total time cache_valid now s ready in
      let (id, queue, found, range, _, _) = previous-total s1.regular_queue in
      (
        play_from_queue time now (id, queue) s1,
        rw (refreshed, ready1.scheduled, found),
        play_from_queue-IsReady id queue s1 ready1 range,
      )

  pub trigger_layout_by_id-Succeeds :
      (id : ℤ) → Succeeds (after (trigger_layout_by_id time cache_valid now id s))
  unfolding trigger_layout_by_id
  trigger_layout_by_id-Succeeds id =
      let (s1, refreshed, ready1, _) = refresh-total time cache_valid now s ready in
      let (b, s2) = trigger_on time now s1.schedule id s1 in
      (s2, rw refreshed, trigger_on-IsReady s1.schedule id s1 ready1)

  next_from_queue-Succeeds : (s1 : Scheduler T) → IsReady s1 → Succeeds (after (next_from_queue s1))
  unfolding next_from_queue
  next_from_queue-Succeeds s1 h =
      let (id, queue, found, range, _, _) = next-total s1.regular_queue h.in_range in
      (
        record s1 { regular_queue = queue },
        rw found,
        record { in_range = range; scheduled = h.scheduled },
      )

  next_for-Succeeds :
      (schedule : Option (LayoutSchedule T)) (o : Option (LayoutOverride T)) (s1 : Scheduler T)
      → is_some schedule ≡ true
      → IsReady s1
      → Succeeds (after (next_for time cache_valid now schedule o s1))
  unfolding next_for
  next_for-Succeeds schedule none s1 e h = next_from_queue-Succeeds s1 h
  next_for-Succeeds none (some o) s1 e h = cc
  next_for-Succeeds (some schedule) (some o) s1 e h =
      let (is_valid, items) =
        layout_valid time cache_valid now schedule.global_dependants o.layout.id o.layout.dependants
          s1.unsafe_items in
      elim (Bool-cases is_valid) [
        | inl plays ↦ (
          record s1 { unsafe_items = items; layout_override = some (record o { played = true }) },
          rw plays,
          record { in_range = h.in_range; scheduled = h.scheduled },
        )
        | inr invalid ↦ rw invalid (
            next_from_queue-Succeeds (record s1 { unsafe_items = items })
              (record { in_range = h.in_range; scheduled = h.scheduled }))
      ]

  pub next_layout-Succeeds : Succeeds (after (next_layout time cache_valid now s))
  unfolding next_layout
  next_layout-Succeeds =
      let (s1, refreshed, ready1, _) = refresh-total time cache_valid now s ready in
      rw refreshed (next_for-Succeeds s1.schedule s1.layout_override s1 ready1.scheduled ready1)

  pub current_layout_id-Succeeds : Succeeds (after (current_layout_id time cache_valid now s))
  current_layout_id-Succeeds =
      let (id, s1, runs, ready1) = current_layout_id-total time cache_valid now s ready in
      (s1, rw runs, ready1)

  valid_overrides-total :
      (layouts : List (ScheduledLayout T)) (schedule : Option (LayoutSchedule T)) (ids : List ℤ)
      (items : UnsafeItems T)
      → is_some schedule ≡ true
      → (found : List ℤ × UnsafeItems T) × (valid_overrides time cache_valid now schedule ids
            layouts items
          ≡ some found)
  unfolding valid_overrides
  valid_overrides-total [] schedule ids items e = ((ids, items), refl)
  valid_overrides-total (layout ∷ layouts) none ids items e = cc
  valid_overrides-total (layout ∷ layouts) (some schedule) ids items e =
      valid_overrides-total layouts (some schedule) _ _ refl

  pub overlay_layouts-Succeeds : Succeeds (after (overlay_layouts time cache_valid now s))
  unfolding overlay_layouts
  overlay_layouts-Succeeds =
      let (s1, refreshed, ready1, _) = refresh-total time cache_valid now s ready in
      let (found, runs) =
        valid_overrides-total s1.overlay_overrides s1.schedule (overlays s1.overlay_queue)
          s1.unsafe_items ready1.scheduled in
      (
        record s1 { unsafe_items = found.1 },
        rw (refreshed, runs),
        record { in_range = ready1.in_range; scheduled = ready1.scheduled },
      )

  pub add_or_replace_criteria-Succeeds :
      (metric value : String) (ttl : ℤ)
      → Succeeds (add_or_replace_criteria time cache_valid now metric value ttl s)
  unfolding add_or_replace_criteria
  add_or_replace_criteria-Succeeds metric value ttl =
      let (s1, runs, ready1, _) =
        reload_queue-total time cache_valid now
          (record s {
            criterias =
                assign_criteria metric
                  (record { value = value; expires_at = time.add_seconds now ttl }) s.criterias;
          })
          ready.scheduled in
      (s1, rw ready.scheduled runs, ready1)

  pub timer_fired-Succeeds : Succeeds (timer_fired time cache_valid now s)
  unfolding timer_fired
  timer_fired-Succeeds =
      let (s1, runs, ready1, _) =
        reload_queue-total time cache_valid now (record s { timer = none }) ready.scheduled in
      (s1, runs, ready1)

  pub reload_queue-Succeeds : Succeeds (reload_queue time cache_valid now s)
  reload_queue-Succeeds =
      let (s1, runs, ready1, _) = reload_queue-total time cache_valid now s ready.scheduled in
      (s1, runs, ready1)

  is_some-some :
      (o : Option (LayoutSchedule T)) → is_some o ≡ true → (a : LayoutSchedule T) × (o ≡ some a)
  is_some-some none e = cc
  is_some-some (some a) e = (a, refl)

  pub status-Succeeds : Succeeds (after (status time cache_valid now s))
  unfolding status
  status-Succeeds =
      let (s1, refreshed, ready1, kept) = refresh_criteria-total time cache_valid now s ready in
      let (schedule, e) = is_some-some s1.schedule ready1.scheduled in
      let items = (layout_lists time cache_valid now schedule s1).1 in
      let (id, s2, runs, ready2) =
        current_layout_id-total time cache_valid now (record s1 { unsafe_items = items })
          (record { in_range = ready1.in_range; scheduled = ready1.scheduled }) in
      (s2, rw (ready.scheduled, refreshed, >>=-eq_of_some s1.schedule _ schedule e, runs), ready2)

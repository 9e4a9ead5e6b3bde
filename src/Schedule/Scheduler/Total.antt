-- ===== src/Schedule/Scheduler/Total.antt =====
-- What the internal steps of the scheduler leave alone, and that none of them throws.
use xibo_linux.Base.{
  String, ◌≡◌, refl, ◌∙◌, inl, inr, Bool, true, some, List, arith, Bool-cases, Option-cases,
  is_some, ℤ,
}
use xibo_linux.DateTime.{PosixTime}
use xibo_linux.UnsafeStore.{UnsafeItems}
use xibo_linux.Schedule.Item.{LayoutSchedule}
use xibo_linux.Schedule.Queue.{RegularLayoutQueue, in_queue, add_default, overlays}
use xibo_linux.Schedule.Queue.Order.{IsInRange, not-empty, is_empty-nil, update_current-total}
use xibo_linux.Schedule.Criteria.{CriteriaMap, cleanup_expired_criteria}
use xibo_linux.Schedule.Scheduler.State.{Scheduler, layout_updated, emit, regular_queue_from}
use xibo_linux.Schedule.Scheduler.Internal.{
  current_of, with_overrides, update_current_layout, update_current_overlays,
  cleanup_expired_overrides, restart_timer, restart_with, rebuild_queues, reload_with, reload_queue,
  refresh_criteria, refresh,
}

-- The calls of the program rely on this: there is a schedule, and the next index is in range.
pub record IsReady {T : Type 0} (s : Scheduler T) : Type 0 where
  pub in_range : IsInRange s.regular_queue
  pub scheduled : is_some s.schedule ≡ true

module _ {T : Type 0} (time : PosixTime T) (now : T) where
  -- Only the timer changes.
  pub restart_timer-frame :
      (s : Scheduler T)
      → restart_timer time now s ≡ record s { timer = (restart_timer time now s).timer }
  unfolding restart_timer restart_with
  restart_timer-frame s = ground arith

module _ {T : Type 0} (time : PosixTime T) (cache_valid : String → Bool) (now : T) where
  at_start : (q : RegularLayoutQueue T) → q.next_index ≡ 0 → IsInRange q
  at_start q e = elim (not-empty q.queue) [
    | inl none_left ↦ inl (is_empty-nil q.queue none_left)
    | inr (_, some_item) ↦ inr (omega arith)
  ]

  regular_queue_from-next_index :
      (schedule : LayoutSchedule T) (criterias : CriteriaMap T) (items : UnsafeItems T)
      → (regular_queue_from time cache_valid now schedule criterias items).0.next_index ≡ 0
  unfolding regular_queue_from add_default
  regular_queue_from-next_index schedule criterias items = ground arith

  rebuild_queues-frame :
      (schedule : LayoutSchedule T) (s : Scheduler T)
      → IsInRange (rebuild_queues time cache_valid now schedule s).regular_queue
        × ((rebuild_queues time cache_valid now schedule s).schedule ≡ s.schedule)
  unfolding rebuild_queues cleanup_expired_overrides
  rebuild_queues-frame schedule s = rw restart_timer-frame (
    at_start (regular_queue_from time cache_valid now schedule _ _).0
        (regular_queue_from-next_index schedule _ _),
    refl,
  )

  update_current_layout-total :
      (id : ℤ) (s : Scheduler T)
      → IsInRange s.regular_queue
      → (s' : Scheduler T) × (update_current_layout id s ≡ some s')
        × IsInRange s'.regular_queue
        × (s'.schedule ≡ s.schedule)
  unfolding update_current_layout
  update_current_layout-total id s h = elim (Bool-cases (in_queue s.regular_queue id)) [
    | inl queued ↦
        let (queue, updated, range, _, _) = update_current-total s.regular_queue id h queued in
        (record s { regular_queue = queue }, ground arith, range, refl)
    | inr missing ↦ (emit layout_updated s, ground arith, h, refl)
  ]

  update_current_overlays-frame :
      (ids : List ℤ) (s : Scheduler T)
      → ((update_current_overlays ids s).regular_queue ≡ s.regular_queue)
        × ((update_current_overlays ids s).schedule ≡ s.schedule)
  unfolding update_current_overlays
  update_current_overlays-frame ids s = ground arith

  -- A reload never throws, and leaves an index in range.
  pub reload_with-total :
      (schedule : LayoutSchedule T) (s : Scheduler T)
      → (s' : Scheduler T) × (reload_with time cache_valid now schedule s ≡ some s')
        × IsInRange s'.regular_queue
        × (s'.schedule ≡ s.schedule)
  unfolding reload_with
  reload_with-total schedule s =
      let (range, kept) = rebuild_queues-frame schedule s in
      let ids = with_overrides (overlays s.overlay_queue) s.overlay_overrides in
      let (s', updated, range', kept') =
        update_current_layout-total (current_of s.layout_override s.regular_queue)
          (rebuild_queues time cache_valid now schedule s) range in
      let (queue_kept, schedule_kept) = update_current_overlays-frame ids s' in
      (
        update_current_overlays ids s',
        rw updated,
        rw queue_kept range',
        schedule_kept ∙ kept' ∙ kept,
      )

  pub reload_queue-total :
      (s : Scheduler T)
      → is_some s.schedule ≡ true
      → (s' : Scheduler T) × (reload_queue time cache_valid now s ≡ some s')
        × IsReady s'
        × (s'.schedule ≡ s.schedule)
  unfolding reload_queue
  reload_queue-total s h = elim (Option-cases s.schedule) [
    | inl e ↦ absurd (ground arith)
    | inr (schedule, e) ↦
        let (s', runs, range, kept) = reload_with-total schedule s in
        (s', ground arith, record { in_range = range; scheduled = rw kept h }, kept)
  ]

  pub refresh_criteria-total :
      (s : Scheduler T)
      → IsReady s
      → (s' : Scheduler T) × (refresh_criteria time cache_valid now s ≡ some s')
        × IsReady s'
        × (s'.schedule ≡ s.schedule)
  unfolding refresh_criteria
  refresh_criteria-total s h =
      let (removed, criterias) = cleanup_expired_criteria time now s.criterias in
      let s1 : Scheduler T = record s { criterias = criterias } in
      elim (Bool-cases removed) [
        | inl gone ↦
            let (s', runs, ready, kept) = reload_queue-total s1 h.scheduled in
            (s', rw (gone, h.scheduled) runs, ready, kept)
        | inr none_gone ↦
            (s1, rw none_gone, record { in_range = h.in_range; scheduled = h.scheduled }, refl)
      ]

  pub cleanup_expired_overrides-IsReady :
      (s : Scheduler T)
      → IsReady s
      → IsReady (cleanup_expired_overrides time now s)
        × ((cleanup_expired_overrides time now s).schedule ≡ s.schedule)
  unfolding cleanup_expired_overrides
  cleanup_expired_overrides-IsReady s h =
      (record { in_range = h.in_range; scheduled = h.scheduled }, refl)

  -- refresh keeps the scheduler ready, and keeps its schedule.
  pub refresh-total :
      (s : Scheduler T)
      → IsReady s
      → (s' : Scheduler T) × (refresh time cache_valid now s ≡ some s')
        × IsReady s'
        × (s'.schedule ≡ s.schedule)
  unfolding refresh
  refresh-total s h =
      let (ready, kept) = cleanup_expired_overrides-IsReady s h in
      let (s', runs, ready', kept') = refresh_criteria-total _ ready in
      (s', runs, ready', kept' ∙ kept)

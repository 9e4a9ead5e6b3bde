-- ===== src/Schedule/Scheduler/Cleaned.antt =====
-- What a reload and the first lines of the methods do to the overrides and to the unsafe items.
use xibo_linux.Base.{
  String, ◌≡◌, refl, ap, ◌∙◌, ◌⊎◌, inl, inr, Bool, not, ◌&&◌, Option, none, some, List, [], ◌∷◌,
  if◌then◌else◌, arith, Bool-cases, Option-cases, is_some, >>=-eq-some, ℤ, filter, filter_idem,
}
use xibo_linux.DateTime.{PosixTime}
use xibo_linux.UnsafeStore.{UnsafeItems, cleanup_expired}
use xibo_linux.Schedule.Item.{LayoutSchedule, ScheduledLayout}
use xibo_linux.Schedule.Criteria.{CriteriaMap, cleanup_expired_criteria}
use xibo_linux.Schedule.Scheduler.State.{
  LayoutOverride, Scheduler, regular_queue_from, overlay_queue_from,
}
use xibo_linux.Schedule.Scheduler.Internal.{
  current_of, update_current_layout, update_current_overlays, override_expired, keep_override,
  cleanup_expired_overrides, rebuild_queues, reload_with, reload_queue, refresh_criteria, refresh,
}
use xibo_linux.Schedule.Scheduler.Eligible.{layout_valid_lem, queue_from_lem, cleanup_expired_idem}
use xibo_linux.Schedule.Scheduler.Total.{IsReady, refresh-total, restart_timer-frame}

module _ {T : Type 0} (time : PosixTime T) (now : T) where
  pub keep_override_idem :
      (o : Option (LayoutOverride T))
      → keep_override time now (keep_override time now o) ≡ keep_override time now o
  unfolding keep_override
  keep_override_idem none = refl
  keep_override_idem (some o) = elim (Bool-cases (override_expired time now o)) [
    | inl gone ↦ rw (gone, keep_override)
    | inr stays ↦ rw (stays, keep_override) (rw stays)
  ]

  abbrev pub has_time_left : ScheduledLayout T → Bool
  has_time_left layout = not (time.le layout.end_dt now)

module _ {T : Type 0} (time : PosixTime T) (cache_valid : String → Bool) (now : T) where
  -- `s'` has the overrides of `s` that have not expired, and unsafe items that clean up to the same.
  pub record IsCleaned (s s' : Scheduler T) : Type 0 where
    pub override_kept : s'.layout_override ≡ keep_override time now s.layout_override
    pub overlays_kept : s'.overlay_overrides ≡ filter (has_time_left time now) s.overlay_overrides
    pub items_kept :
        cleanup_expired time now s'.unsafe_items ≡ cleanup_expired time now s.unsafe_items
    pub schedule_kept : s'.schedule ≡ s.schedule

  pub items-regular_queue_from :
      (schedule : LayoutSchedule T) (criterias : CriteriaMap T) (items : UnsafeItems T)
      → cleanup_expired time now
          (regular_queue_from time cache_valid now schedule criterias items).1
        ≡ cleanup_expired time now items
  unfolding regular_queue_from
  items-regular_queue_from schedule criterias items = rw layout_valid_lem (
      cleanup_expired_idem time cache_valid now _
      ∙ (queue_from_lem time cache_valid now schedule.global_dependants criterias
          schedule.regular_layouts [] items items refl).1)

  items-overlay_queue_from :
      (schedule : LayoutSchedule T) (criterias : CriteriaMap T) (items : UnsafeItems T)
      → cleanup_expired time now
          (overlay_queue_from time cache_valid now schedule criterias items).1
        ≡ cleanup_expired time now items
  unfolding overlay_queue_from
  items-overlay_queue_from schedule criterias items =
      (queue_from_lem time cache_valid now schedule.global_dependants criterias
        schedule.overlay_layouts [] items items refl).1

  rebuild_queues-IsCleaned :
      (schedule : LayoutSchedule T) (s : Scheduler T)
      → IsCleaned s (rebuild_queues time cache_valid now schedule s)
  unfolding rebuild_queues cleanup_expired_overrides
  rebuild_queues-IsCleaned schedule s = rw restart_timer-frame (record {
    override_kept = refl;
    overlays_kept = refl;
    items_kept = items-overlay_queue_from schedule _ _ ∙ items-regular_queue_from schedule _ _;
    schedule_kept = refl;
  })

  update_current_layout-frame :
      (id : ℤ) (s s' : Scheduler T)
      → update_current_layout id s ≡ some s'
      → (s'.layout_override ≡ s.layout_override)
        × (s'.overlay_overrides ≡ s.overlay_overrides)
        × (s'.unsafe_items ≡ s.unsafe_items)
        × (s'.schedule ≡ s.schedule)
  unfolding update_current_layout
  update_current_layout-frame id s s' h = ground arith

  update_current_overlays-frame :
      (ids : List ℤ) (s s' : Scheduler T)
      → some (update_current_overlays ids s) ≡ some s'
      → (s'.layout_override ≡ s.layout_override)
        × (s'.overlay_overrides ≡ s.overlay_overrides)
        × (s'.unsafe_items ≡ s.unsafe_items)
        × (s'.schedule ≡ s.schedule)
  unfolding update_current_overlays
  update_current_overlays-frame ids s s' h = ground arith

  IsCleaned-trans_frame :
      (s s1 s2 : Scheduler T)
      → IsCleaned s s1
      → (s2.layout_override ≡ s1.layout_override)
        × (s2.overlay_overrides ≡ s1.overlay_overrides)
        × (s2.unsafe_items ≡ s1.unsafe_items)
        × (s2.schedule ≡ s1.schedule)
      → IsCleaned s s2
  IsCleaned-trans_frame s s1 s2 h (o, l, u, c) = record {
    override_kept = o ∙ h.override_kept;
    overlays_kept = l ∙ h.overlays_kept;
    items_kept = ap (cleanup_expired time now) u ∙ h.items_kept;
    schedule_kept = c ∙ h.schedule_kept;
  }

  pub reload_with-IsCleaned :
      (schedule : LayoutSchedule T) (s s' : Scheduler T)
      → reload_with time cache_valid now schedule s ≡ some s'
      → IsCleaned s s'
  unfolding reload_with
  reload_with-IsCleaned schedule s s' h =
      let s1 = rebuild_queues time cache_valid now schedule s in
      let (s2, updated, rest) =
        >>=-eq-some (update_current_layout (current_of s.layout_override s.regular_queue) s1) _ s'
          h in
      IsCleaned-trans_frame s s2 s'
        (IsCleaned-trans_frame s s1 s2 (rebuild_queues-IsCleaned schedule s) (
          update_current_layout-frame (current_of s.layout_override s.regular_queue) s1 s2 updated))
        (update_current_overlays-frame _ s2 s' rest)

  IsCleaned-idem : (s s1 s2 : Scheduler T) → IsCleaned s s1 → IsCleaned s1 s2 → IsCleaned s s2
  IsCleaned-idem s s1 s2 h k = record {
    override_kept =
        k.override_kept
        ∙ ap (keep_override time now) h.override_kept
        ∙ keep_override_idem time now s.layout_override;
    overlays_kept =
        k.overlays_kept
        ∙ ap (filter (has_time_left time now)) h.overlays_kept
        ∙ filter_idem (has_time_left time now) s.overlay_overrides;
    items_kept = k.items_kept ∙ h.items_kept;
    schedule_kept = k.schedule_kept ∙ h.schedule_kept;
  }

  cleanup_expired_overrides-IsCleaned :
      (s : Scheduler T) → IsCleaned s (cleanup_expired_overrides time now s)
  unfolding cleanup_expired_overrides
  cleanup_expired_overrides-IsCleaned s = record {
    override_kept = refl;
    overlays_kept = refl;
    items_kept = refl;
    schedule_kept = refl;
  }

  abbrev pub without_expired : Scheduler T → Scheduler T
  without_expired s = record s { criterias = (cleanup_expired_criteria time now s.criterias).1 }

  pub reload_queue-inversion :
      (s s' : Scheduler T)
      → reload_queue time cache_valid now s ≡ some s'
      → (schedule : LayoutSchedule T) × (reload_with time cache_valid now schedule s ≡ some s')
  unfolding reload_queue
  reload_queue-inversion s s' h = elim (Option-cases s.schedule) [
    | inl e ↦ absurd (ground arith)
    | inr (schedule, e) ↦ (schedule, ground arith)
  ]

  -- Either nothing is reloaded, or the queues are, on the state without the expired criteria.
  pub refresh_criteria-cases :
      (s s' : Scheduler T)
      → refresh_criteria time cache_valid now s ≡ some s'
      → (s' ≡ without_expired s)
        ⊎ ((schedule : LayoutSchedule T) × (reload_with time cache_valid now schedule
                (without_expired s)
              ≡ some s'))
  unfolding refresh_criteria
  refresh_criteria-cases s s' h =
      elim (Bool-cases ((cleanup_expired_criteria time now s.criterias).0 && is_some s.schedule)) [
        | inl reloads ↦ inr (reload_queue-inversion (without_expired s) s' (rw reloads at h))
        | inr stays ↦ inl (ground arith)
      ]

  -- `refresh` drops the overrides that have expired and no others, and does not change which items
  -- count as unsafe.
  pub refresh-IsCleaned :
      (s s' : Scheduler T) → refresh time cache_valid now s ≡ some s' → IsCleaned s s'
  unfolding refresh
  refresh-IsCleaned s s' h =
      let s1 = cleanup_expired_overrides time now s in
      let c = cleanup_expired_overrides-IsCleaned s in
      elim (refresh_criteria-cases s1 s' h) [
        | inl e ↦ rw e (record {
          override_kept = c.override_kept;
          overlays_kept = c.overlays_kept;
          items_kept = c.items_kept;
          schedule_kept = c.schedule_kept;
        })
        | inr (schedule, reloads) ↦
            let k = reload_with-IsCleaned schedule (without_expired s1) s' reloads in
            IsCleaned-idem s s1 s' c (record {
              override_kept = k.override_kept;
              overlays_kept = k.overlays_kept;
              items_kept = k.items_kept;
              schedule_kept = k.schedule_kept;
            })
      ]

  -- An override is over once it has been played, if it has no duration, else at its end.
  abbrev pub is_over : LayoutOverride T → Bool
  is_over o = if o.one_shot then o.played else time.le o.layout.end_dt now

  abbrev pub as_list : Option (LayoutOverride T) → List (LayoutOverride T)
  as_list none = []
  as_list (some o) = o ∷ []

  keep_override-as_list :
      (o : Option (LayoutOverride T))
      → as_list (keep_override time now o) ≡ filter (λ o. not (is_over o)) (as_list o)
  unfolding keep_override override_expired
  keep_override-as_list none = refl
  keep_override-as_list (some o) = ground arith

  -- The items whose time to live has not passed.
  abbrev pub unexpired : UnsafeItems T → UnsafeItems T
  unexpired items =
      filter (λ item. not (time.le (time.add_seconds item.date_time item.ttl) now)) items

  -- From a ready scheduler `refresh` succeeds and leaves it ready. It keeps the schedule. It drops the
  -- layout override exactly if it has been played and has no duration, or has one and has ended, drops
  -- exactly the overlay overrides that have ended, and keeps the unsafe items that have not expired.
  pub refresh-keeps_unexpired :
      (s : Scheduler T)
      → IsReady s
      → (s' : Scheduler T) × (refresh time cache_valid now s ≡ some s')
        × IsReady s'
        × (s'.schedule ≡ s.schedule)
        × (as_list s'.layout_override ≡ filter (λ o. not (is_over o)) (as_list s.layout_override))
        × (s'.overlay_overrides
            ≡ filter (λ layout. not (time.le layout.end_dt now)) s.overlay_overrides)
        × (unexpired s'.unsafe_items ≡ unexpired s.unsafe_items)
  unfolding cleanup_expired
  refresh-keeps_unexpired s ready =
      let (s', refreshed, ready', kept) = refresh-total time cache_valid now s ready in
      let cleaned = refresh-IsCleaned s s' refreshed in
      (
        s',
        refreshed,
        ready',
        kept,
        ap as_list cleaned.override_kept ∙ keep_override-as_list s.layout_override,
        cleaned.overlays_kept,
        cleaned.items_kept,
      )

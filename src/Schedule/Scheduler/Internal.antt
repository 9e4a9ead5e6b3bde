-- ===== src/Schedule/Scheduler/Internal.antt =====
-- schedule/Scheduler: expiry of overrides, the timer, and the reload of the queues.
use xibo_linux.Base.{
  String, Bool, true, false, not, ◌&&◌, ◌||◌, Option, none, some, List, [], ◌∷◌, ◌++◌,
  if◌then◌else◌, ◌>>=◌, is_some, ℤ, pos, ltb_ℤ, ◌==ℤ◌, filter, any,
}
use xibo_linux.DateTime.{PosixTime, valid}
use xibo_linux.Schedule.Item.{ScheduledLayout, LayoutSchedule}
use xibo_linux.Schedule.Queue.{RegularLayoutQueue, overlays, in_queue, update_current}
use xibo_linux.Schedule.Criteria.{cleanup_expired_criteria}
use xibo_linux.Schedule.Scheduler.State.{
  LayoutOverride, Scheduler, layout_updated, overlays_updated, emit, regular_queue_from,
  overlay_queue_from,
}

-- std::find(ids.begin(), ids.end(), id) != ids.end()
abbrev pub has_id : ℤ → List ℤ → Bool
has_id id ids = any (λ other. other ==ℤ id) ids

-- operator== of std::vector<int>
unfoldable pub ids_equal : List ℤ → List ℤ → Bool
ids_equal [] [] = true
ids_equal (x ∷ xs) (y ∷ ys) = (x ==ℤ y) && ids_equal xs ys
ids_equal _ _ = false

module _ {T : Type 0} where
  -- Appends the ids of the overrides that are not in the list yet.
  unfoldable pub with_overrides : List ℤ → List (ScheduledLayout T) → List ℤ
  with_overrides ids [] = ids
  with_overrides ids (layout ∷ layouts) =
      with_overrides (if has_id layout.id ids then ids else ids ++ (layout.id ∷ [])) layouts

  unfoldable pub current_of : Option (LayoutOverride T) → RegularLayoutQueue T → ℤ
  current_of none queue = queue.current_id
  current_of (some o) queue = o.layout.id

  -- The queued layout under its id stays current, or the layout is announced as changed.
  unfoldable pub update_current_layout : ℤ → Scheduler T → Option (Scheduler T)
  update_current_layout id s =
      if in_queue s.regular_queue id
      then (do queue ← update_current s.regular_queue id; some (record s { regular_queue = queue }))
      else some (emit layout_updated s)

  unfoldable pub update_current_overlays : List ℤ → Scheduler T → Scheduler T
  update_current_overlays ids s =
      if not (ids_equal (overlays s.overlay_queue) ids) then emit overlays_updated s else s

module _ {T : Type 0} (time : PosixTime T) (now : T) where
  unfoldable pub override_expired : LayoutOverride T → Bool
  override_expired o = (not o.one_shot && time.le o.layout.end_dt now) || (o.one_shot && o.played)

  unfoldable pub keep_override : Option (LayoutOverride T) → Option (LayoutOverride T)
  keep_override none = none
  keep_override (some o) = if override_expired o then none else some o

  unfoldable pub cleanup_expired_overrides : Scheduler T → Scheduler T
  cleanup_expired_overrides s = record s {
    layout_override = keep_override s.layout_override;
    overlay_overrides = filter (λ l. not (time.le l.end_dt now)) s.overlay_overrides;
  }

  -- The two tests of closestLayoutDt on a layout, and the one test on the end of an override.
  unfoldable pub earlier_end : T → T → T
  earlier_end closest end_dt =
      if time.lt now end_dt && time.lt end_dt closest then end_dt else closest

  unfoldable pub earlier_boundary : T → ScheduledLayout T → T
  unfolding earlier_end
  earlier_boundary closest layout = earlier_end (earlier_end closest layout.start_dt) layout.end_dt

  unfoldable pub closest_boundary : T → List (ScheduledLayout T) → T
  unfolding earlier_boundary
  closest_boundary closest [] = closest
  closest_boundary closest (layout ∷ layouts) =
      closest_boundary (earlier_boundary closest layout) layouts

  unfoldable pub closest_end : T → List (ScheduledLayout T) → T
  unfolding earlier_end
  closest_end closest [] = closest
  closest_end closest (layout ∷ layouts) = closest_end (earlier_end closest layout.end_dt) layouts

  unfoldable pub closest_override : T → Option (LayoutOverride T) → T
  unfolding earlier_end
  closest_override closest none = closest
  closest_override closest (some o) =
      if o.one_shot then closest else earlier_end closest o.layout.end_dt

  unfoldable pub closest_layout_dt : LayoutSchedule T → Scheduler T → T
  unfolding closest_override
  closest_layout_dt schedule s =
      closest_end
        (closest_override
          (closest_boundary (closest_boundary time.not_a_date_time schedule.regular_layouts)
            schedule.overlay_layouts)
          s.layout_override)
        s.overlay_overrides

  -- startOnce replaces the pending call; otherwise the pending call stays.
  unfoldable pub restart_with : LayoutSchedule T → Scheduler T → Scheduler T
  restart_with schedule s =
      let dt = closest_layout_dt schedule s in
      let duration = time.seconds_between dt now in
      if valid time dt && ltb_ℤ (pos 0) duration then record s { timer = some duration } else s

  unfoldable pub restart_timer : Scheduler T → Scheduler T
  restart_timer s = elim s.schedule [ none ↦ s | some schedule ↦ restart_with schedule s ]

module _ {T : Type 0} (time : PosixTime T) (cache_valid : String → Bool) (now : T) where
  -- reloadQueue up to the restart of the timer.
  unfoldable pub rebuild_queues : LayoutSchedule T → Scheduler T → Scheduler T
  rebuild_queues schedule s =
      let s1 = cleanup_expired_overrides time now s in
      let criterias = (cleanup_expired_criteria time now s1.criterias).1 in
      let (regular, items) =
        regular_queue_from time cache_valid now schedule criterias s1.unsafe_items in
      let (overlay, items') = overlay_queue_from time cache_valid now schedule criterias items in
      restart_timer time now (record s1 {
        criterias = criterias;
        regular_queue = regular;
        overlay_queue = overlay;
        unsafe_items = items';
      })

  -- reloadQueue on the schedule that is set.
  unfoldable pub reload_with : LayoutSchedule T → Scheduler T → Option (Scheduler T)
  reload_with schedule s = do
    let current = current_of s.layout_override s.regular_queue
    let ids = with_overrides (overlays s.overlay_queue) s.overlay_overrides
    s' ← update_current_layout current (rebuild_queues schedule s)
    some (update_current_overlays ids s')

  -- Scheduler::reloadQueue; `none` for the failed assertion.
  unfoldable pub reload_queue : Scheduler T → Option (Scheduler T)
  reload_queue s = elim s.schedule [ none ↦ none | some schedule ↦ reload_with schedule s ]

  -- The lines with which most methods begin: expired overrides go, and if criteria have expired while
  -- a schedule is set, the queues are reloaded.
  unfoldable pub refresh_criteria : Scheduler T → Option (Scheduler T)
  refresh_criteria s =
      let (removed, criterias) = cleanup_expired_criteria time now s.criterias in
      let s' : Scheduler T = record s { criterias = criterias } in
      if removed && is_some s'.schedule then reload_queue s' else some s'

  unfoldable pub refresh : Scheduler T → Option (Scheduler T)
  refresh s = refresh_criteria (cleanup_expired_overrides time now s)

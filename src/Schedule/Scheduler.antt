-- ===== src/Schedule/Scheduler.antt =====
-- schedule/Scheduler: the public methods. The state and the choice of layouts are in State, expiry,
-- timer and reload in Internal. `none` stands for a failed assertion or an exception that escapes.
pub mod State
pub mod Internal
pub mod Lookup
pub mod Status
pub mod Eligible
pub mod Total
pub mod Calls
pub mod Cleaned
pub mod Overrides
pub mod Reloads
pub mod Timer
pub mod Reloaded
use xibo_linux.Base.{
  ℕ, zero, suc, ◌+◌, ◌-◌, ◌*◌, ◌/◌, ◌%◌, ◌≤◌, ◌<◌, String, ◌≡◌, refl, sym, ap, subst, ◌∙◌, ◌≢◌, ◌↔◌,
  ◌⊎◌, inl, inr, Bool, true, false, not, ◌&&◌, ◌||◌, Option, none, some, List, [], ◌∷◌, ◌++◌, map,
  append_assoc, append-nil, arith, ltb, leb, ◌==◌, if◌then◌else◌, Bool-cases, Option-cases,
  &&-eq-true, ◌>>=◌, is_some, ℤ, pos, negsuc, ◌+ℤ◌, ◌-ℤ◌, ◌≤ℤ◌, ltb_ℤ, leb_ℤ, ◌==ℤ◌, ==ℤ_iff,
  ==ℤ_refl, length, get_elem?, filter, any, all, find, is_empty, filter_idem, filter-append,
  all-filter, filter_of_all, all-append, any-append, length-append, get_elem?_lt, str_eq,
  str_eq_iff, ◌++ₛ◌, contains, to_string, stoi,
}
use xibo_linux.DateTime.{PosixTime}
use xibo_linux.UnsafeStore.{UnsafeItems}
use xibo_linux.Schedule.Item.{
  ScheduleCriteria, ScheduledLayout, LayoutSchedule, DefaultScheduledLayout, empty_layout_id,
  default_schedule_id,
}
use xibo_linux.Schedule.Item.Equality.{schedule_eq}
use xibo_linux.Schedule.Queue.{RegularLayoutQueue, overlays, next, previous}
use xibo_linux.Schedule.Criteria.{
  ActiveCriteria, CriteriaMap, assign_criteria, layout_criteria_active, cleanup_expired_criteria,
}
use State.{
  LayoutOverride, Scheduler, Signal, schedule_updated, layout_updated, overlays_updated, emit,
  layout_valid, layout_on_schedule,
}
use Lookup.{layout_on}
use Internal.{
  has_id, cleanup_expired_overrides, restart_timer, reload_with, reload_queue, refresh,
  refresh_criteria,
}

module _ {T : Type 0} where
  -- nextLayout after its first lines, where no override plays.
  next_from_queue : Scheduler T → Option (ℤ × Scheduler T)
  next_from_queue s = do
    (id, queue) ← next s.regular_queue
    some (id, record s { regular_queue = queue })

  current_of_override : Option (LayoutOverride T) → ℤ → ℤ
  current_of_override none id = id
  current_of_override (some o) id = o.layout.id

module _ {T : Type 0} (time : PosixTime T) (now : T) where
  override_with : ℤ → T → ℤ → LayoutOverride T
  override_with id created_dt duration = record {
    layout = record {
      schedule_id = default_schedule_id;
      id = id;
      priority = pos 0;
      start_dt = time.sub_seconds created_dt (pos 1);
      end_dt =
          if duration ==ℤ pos 0 then time.not_a_date_time else time.add_seconds created_dt duration;
      dependants = [];
      criterias = [];
    };
    one_shot = duration ==ℤ pos 0;
    played = false;
  }

  unfoldable pub apply_layout_override : ℤ → T → ℤ → Scheduler T → Scheduler T
  unfolding override_with
  apply_layout_override id created_dt duration s =
      let s1 = cleanup_expired_overrides time now s in
      emit layout_updated (
        restart_timer time now
          (record s1 { layout_override = some (override_with id created_dt duration) }))

  unfoldable pub add_overlay_override : ℤ → T → ℤ → Scheduler T → Scheduler T
  add_overlay_override id created_dt duration s =
      let s1 = cleanup_expired_overrides time now s in
      let layout : ScheduledLayout T = record {
        schedule_id = default_schedule_id;
        id = id;
        priority = pos 0;
        start_dt = created_dt;
        end_dt = time.add_seconds created_dt duration;
        dependants = [];
        criterias = [];
      } in
      let others = filter (λ l. not (l.id ==ℤ id)) s1.overlay_overrides in
      emit overlays_updated
        (restart_timer time now (record s1 { overlay_overrides = others ++ (layout ∷ []) }))

  unfoldable pub clear_overrides : Scheduler T → Scheduler T
  clear_overrides s =
      let s1 = cleanup_expired_overrides time now s in
      let s2 =
        restart_timer time now (record s1 { layout_override = none; overlay_overrides = [] }) in
      let s3 = if is_some s1.layout_override then emit layout_updated s2 else s2 in
      if not (is_empty s1.overlay_overrides) then emit overlays_updated s3 else s3

  -- What triggerNextLayout and triggerPreviousLayout do with the layout that the queue gives.
  play_from_queue : ℤ × RegularLayoutQueue T → Scheduler T → Scheduler T
  play_from_queue (id, queue) s =
      let s' : Scheduler T = record s { regular_queue = queue } in
      if id ==ℤ empty_layout_id then s' else apply_layout_override id now (pos 0) s'

  trigger_on : Option (LayoutSchedule T) → ℤ → Scheduler T → Bool × Scheduler T
  trigger_on none id s = (false, s)
  trigger_on (some schedule) id s =
      if not (is_some (layout_on schedule s.layout_override id))
      then (false, s)
      else (true, apply_layout_override id now (pos 0) s)

module _ {T : Type 0} (time : PosixTime T) (cache_valid : String → Bool) (now : T) where
  -- The branch of reloadSchedule that takes the new schedule.
  take_schedule : LayoutSchedule T → Scheduler T → Option (Scheduler T)
  take_schedule schedule s =
      reload_with time cache_valid now schedule
        (emit schedule_updated (record s { schedule = some schedule }))

  unfoldable pub reload_schedule : LayoutSchedule T → Scheduler T → Option (Scheduler T)
  unfolding take_schedule
  reload_schedule schedule s = elim s.schedule [
    | none ↦ take_schedule schedule s
    | some old ↦ if not (schedule_eq time old schedule) then take_schedule schedule s else some s
  ]

  unfoldable pub trigger_next_layout : Scheduler T → Option (Scheduler T)
  unfolding play_from_queue
  trigger_next_layout s = do
    s1 ← refresh time cache_valid now s
    if not (is_some s1.schedule)
        then some s1
        else (do found ← next s1.regular_queue; some (play_from_queue time now found s1))

  unfoldable pub trigger_previous_layout : Scheduler T → Option (Scheduler T)
  unfolding play_from_queue
  trigger_previous_layout s = do
    s1 ← refresh time cache_valid now s
    if not (is_some s1.schedule)
        then some s1
        else (do found ← previous s1.regular_queue; some (play_from_queue time now found s1))

  unfoldable pub trigger_layout_by_id : ℤ → Scheduler T → Option (Bool × Scheduler T)
  unfolding trigger_on
  trigger_layout_by_id id s = do
    s1 ← refresh time cache_valid now s
    some (trigger_on time now s1.schedule id s1)

  unfoldable pub add_or_replace_criteria : String → String → ℤ → Scheduler T → Option (Scheduler T)
  add_or_replace_criteria metric value ttl s =
      let active : ActiveCriteria T = record {
        value = value;
        expires_at = time.add_seconds now ttl;
      } in
      let s' : Scheduler T = record s { criterias = assign_criteria metric active s.criterias } in
      if is_some s'.schedule then reload_queue time cache_valid now s' else some s'

  -- nextLayout after its first lines; an override with no schedule fails an assertion.
  next_for :
      Option (LayoutSchedule T) → Option (LayoutOverride T) → Scheduler T → Option (ℤ × Scheduler T)
  unfolding next_from_queue
  next_for schedule none s = next_from_queue s
  next_for none (some o) s = none
  next_for (some schedule) (some o) s =
      let (is_valid, items) =
        layout_valid time cache_valid now schedule.global_dependants o.layout.id o.layout.dependants
          s.unsafe_items in
      let s' : Scheduler T = record s { unsafe_items = items } in
      if is_valid
      then some (o.layout.id, record s' { layout_override = some (record o { played = true }) })
      else next_from_queue s'

  unfoldable pub next_layout : Scheduler T → Option (ℤ × Scheduler T)
  unfolding next_for
  next_layout s = do s1 ← refresh time cache_valid now s; next_for s1.schedule s1.layout_override s1

  unfoldable pub current_layout_id : Scheduler T → Option (ℤ × Scheduler T)
  unfolding current_of_override
  current_layout_id s = do
    s1 ← refresh time cache_valid now s
    some (current_of_override s1.layout_override s1.regular_queue.current_id, s1)

  -- The loop of overlayLayouts; with no schedule the first override fails an assertion.
  valid_overrides :
      Option (LayoutSchedule T)
      → List ℤ
      → List (ScheduledLayout T)
      → UnsafeItems T
      → Option (List ℤ × UnsafeItems T)
  valid_overrides schedule ids [] items = some (ids, items)
  valid_overrides none ids (layout ∷ layouts) items = none
  valid_overrides (some schedule) ids (layout ∷ layouts) items =
      let (is_valid, items') =
        layout_valid time cache_valid now schedule.global_dependants layout.id layout.dependants
          items in
      valid_overrides (some schedule)
        (if is_valid && not (has_id layout.id ids) then ids ++ (layout.id ∷ []) else ids) layouts
        items'

  unfoldable pub overlay_layouts : Scheduler T → Option (List ℤ × Scheduler T)
  unfolding valid_overrides
  overlay_layouts s = do
    s1 ← refresh time cache_valid now s
    (ids, items) ←
        valid_overrides s1.schedule (overlays s1.overlay_queue) s1.overlay_overrides s1.unsafe_items
    some (ids, record s1 { unsafe_items = items })

  -- The callback of the timer.
  unfoldable pub timer_fired : Scheduler T → Option (Scheduler T)
  timer_fired s = reload_queue time cache_valid now (record s { timer = none })

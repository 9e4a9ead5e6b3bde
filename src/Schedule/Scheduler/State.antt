-- ===== src/Schedule/Scheduler/State.antt =====
-- schedule/Scheduler: its state, and which layouts of a schedule may play. FileCache::valid is the
-- parameter `cache_valid`, and `now` is what DateTime::now() reads during the call.
use xibo_linux.Base.{
  String, Bool, true, false, not, ◌&&◌, Option, none, List, [], ◌∷◌, ◌++◌, if◌then◌else◌, ℤ, all,
  ◌++ₛ◌, to_string,
}
use xibo_linux.DateTime.{PosixTime}
use xibo_linux.UnsafeStore.{UnsafeItems, is_unsafe_layout}
use xibo_linux.Schedule.Item.{ScheduledLayout, LayoutSchedule}
use xibo_linux.Schedule.Queue.{
  LayoutQueue, RegularLayoutQueue, add, add_default, empty_regular_queue,
}
use xibo_linux.Schedule.Criteria.{CriteriaMap, layout_criteria_active}

pub record LayoutOverride (T : Type 0) : Type 0 where
  pub layout : ScheduledLayout T
  pub one_shot : Bool
  pub played : Bool

-- What a call emits through scheduleUpdated_, layoutUpdated_ and overlaysUpdated_.
pub data Signal : Type 0 where
  schedule_updated layout_updated overlays_updated : Signal

-- The members of Scheduler. `timer` is the delay of the pending call of reloadQueue, `signals` the
-- signals emitted so far, and `unsafe_items` the items of UnsafeItemStore::instance().
pub record Scheduler (T : Type 0) : Type 0 where
  pub schedule : Option (LayoutSchedule T)
  pub regular_queue : RegularLayoutQueue T
  pub overlay_queue : LayoutQueue T
  pub layout_override : Option (LayoutOverride T)
  pub overlay_overrides : List (ScheduledLayout T)
  pub criterias : CriteriaMap T
  pub timer : Option ℤ
  pub signals : List Signal
  pub unsafe_items : UnsafeItems T

abbrev pub initial : {T : Type 0} → Scheduler T
initial = record {
  schedule = none;
  regular_queue = empty_regular_queue;
  overlay_queue = [];
  layout_override = none;
  overlay_overrides = [];
  criterias = [];
  timer = none;
  signals = [];
  unsafe_items = [];
}

-- A signal is appended to those emitted.
abbrev pub emit : {T : Type 0} → Signal → Scheduler T → Scheduler T
emit signal s = record s { signals = s.signals ++ (signal ∷ []) }

abbrev pub layout_file : ℤ → String
layout_file id = to_string id ++ₛ ".xlf"

module _ {T : Type 0} (time : PosixTime T) (cache_valid : String → Bool) (now : T) where
  unfoldable pub layout_on_schedule : ScheduledLayout T → Bool
  layout_on_schedule layout =
      if time.ge now layout.start_dt && time.lt now layout.end_dt then true else false

  -- layoutValid, for the id and dependants of a layout and the global dependants of the schedule.
  unfoldable pub layout_valid : List String → ℤ → List String → UnsafeItems T → Bool × UnsafeItems T
  layout_valid globals id dependants items =
      let (unsafe, items') = is_unsafe_layout time now id items in
      (
        if unsafe
            then false
            else if not (cache_valid (layout_file id))
            then false
            else if not (all cache_valid dependants)
            then false
            else all cache_valid globals,
        items',
      )

  -- One round of the loops of regularQueueFrom and overlayQueueFrom.
  unfoldable pub add_eligible :
      List String
      → CriteriaMap T
      → ScheduledLayout T
      → LayoutQueue T × UnsafeItems T
      → LayoutQueue T × UnsafeItems T
  add_eligible globals criterias layout (queue, items) =
      let (is_valid, items') = layout_valid globals layout.id layout.dependants items in
      if not (layout_on_schedule layout)
      then (queue, items)
      else if is_valid && layout_criteria_active time now criterias layout
      then (add queue layout, items')
      else (queue, items')

  unfoldable pub queue_from :
      List String
      → CriteriaMap T
      → List (ScheduledLayout T)
      → LayoutQueue T × UnsafeItems T
      → LayoutQueue T × UnsafeItems T
  queue_from globals criterias [] state = state
  queue_from globals criterias (layout ∷ layouts) state =
      queue_from globals criterias layouts (add_eligible globals criterias layout state)

  unfoldable pub regular_queue_from :
      LayoutSchedule T → CriteriaMap T → UnsafeItems T → RegularLayoutQueue T × UnsafeItems T
  regular_queue_from schedule criterias items =
      let globals = schedule.global_dependants in
      let (queue, items') = queue_from globals criterias schedule.regular_layouts ([], items) in
      let default = schedule.default_layout in
      let (is_valid, items'') = layout_valid globals default.id default.dependants items' in
      let regular : RegularLayoutQueue T = record empty_regular_queue { queue = queue } in
      (if is_valid then add_default regular default else regular, items'')

  unfoldable pub overlay_queue_from :
      LayoutSchedule T → CriteriaMap T → UnsafeItems T → LayoutQueue T × UnsafeItems T
  overlay_queue_from schedule criterias items =
      queue_from schedule.global_dependants criterias schedule.overlay_layouts ([], items)

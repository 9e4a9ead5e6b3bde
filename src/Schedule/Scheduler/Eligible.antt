-- ===== src/Schedule/Scheduler/Eligible.antt =====
-- Which layouts the queues hold after a reload: those that may play now, of the highest priority.
use xibo_linux.Base.{
  String, ◌≡◌, refl, ◌∙◌, Bool, true, false, not, ◌&&◌, none, some, List, [], ◌∷◌, arith,
  if◌then◌else◌, ℤ, pos, ◌==ℤ◌, filter, any, all, filter_idem,
}
use xibo_linux.DateTime.{PosixTime}
use xibo_linux.UnsafeStore.{UnsafeItems, is_live, cleanup_expired, is_unsafe_layout}
use xibo_linux.Schedule.Item.{ScheduledLayout, LayoutSchedule, DefaultScheduledLayout}
use xibo_linux.Schedule.Queue.{LayoutQueue, add, add_default, default_priority, empty_regular_queue}
use xibo_linux.Schedule.Queue.Priority.{add_all, add_all-empty, top_priority, has_priority}
use xibo_linux.Schedule.Criteria.{CriteriaMap, layout_criteria_active}
use xibo_linux.Schedule.Scheduler.State.{
  layout_file, layout_on_schedule, layout_valid, add_eligible, queue_from, regular_queue_from,
  overlay_queue_from,
}

module _ {T : Type 0} (time : PosixTime T) (cache_valid : String → Bool) (now : T) where
  -- No item that has not expired flags the layout, and its file, its dependants and the global
  -- dependants are all valid in the cache.
  abbrev pub is_playable : List String → UnsafeItems T → ℤ → List String → Bool
  is_playable globals items id dependants =
      not (any (λ item. item.layout_id ==ℤ id) (cleanup_expired time now items))
      && (cache_valid (layout_file id) && (all cache_valid dependants && all cache_valid globals))

  -- A layout may play now: its time has begun and not ended, it is playable and its criteria hold.
  abbrev pub is_eligible : List String → CriteriaMap T → UnsafeItems T → ScheduledLayout T → Bool
  is_eligible globals criterias items layout =
      (time.ge now layout.start_dt && time.lt now layout.end_dt)
      && (is_playable globals items layout.id layout.dependants
          && layout_criteria_active time now criterias layout)

  pub layout_valid_lem :
      (globals : List String) (id : ℤ) (dependants : List String) (items : UnsafeItems T)
      → layout_valid time cache_valid now globals id dependants items
        ≡ (is_playable globals items id dependants, cleanup_expired time now items)
  unfolding layout_valid is_unsafe_layout
  layout_valid_lem globals id dependants items = ground arith

  pub cleanup_expired_idem :
      (items : UnsafeItems T)
      → cleanup_expired time now (cleanup_expired time now items) ≡ cleanup_expired time now items
  unfolding cleanup_expired
  cleanup_expired_idem items = filter_idem (is_live time now) items

  one_more :
      (b : Bool) (queue : LayoutQueue T) (layout : ScheduledLayout T)
      (rest : List (ScheduledLayout T))
      → add_all (if b then add queue layout else queue) rest
        ≡ add_all queue (if b then layout ∷ rest else rest)
  unfolding add_all
  one_more true queue layout rest = refl
  one_more false queue layout rest = refl

  -- One round adds the layout if it is eligible, and leaves a store that cleans up to the same.
  add_eligible_lem :
      (globals : List String) (criterias : CriteriaMap T) (layout : ScheduledLayout T)
      (queue : LayoutQueue T) (items : UnsafeItems T)
      → ((add_eligible time cache_valid now globals criterias layout (queue, items)).0
          ≡ (if is_eligible globals criterias items layout then add queue layout else queue))
        × (cleanup_expired time now
              (add_eligible time cache_valid now globals criterias layout (queue, items)).1
            ≡ cleanup_expired time now items)
  unfolding add_eligible layout_on_schedule
  add_eligible_lem globals criterias layout queue items =
      rw layout_valid_lem (ground (arith, cleanup_expired_idem items))

  pub queue_from_lem :
      (globals : List String) (criterias : CriteriaMap T) (layouts : List (ScheduledLayout T))
      (queue : LayoutQueue T) (items start : UnsafeItems T)
      → cleanup_expired time now items ≡ cleanup_expired time now start
      → ((queue_from time cache_valid now globals criterias layouts (queue, items)).0
          ≡ add_all queue (filter (is_eligible globals criterias start) layouts))
        × (cleanup_expired time now
              (queue_from time cache_valid now globals criterias layouts (queue, items)).1
            ≡ cleanup_expired time now start)
  unfolding queue_from
  queue_from_lem globals criterias [] queue items start e = (unfold add_all in refl, e)
  queue_from_lem globals criterias (layout ∷ layouts) queue items start e =
      let (queue', items') =
        add_eligible time cache_valid now globals criterias layout (queue, items) in
      let (same_queue, same_items) = add_eligible_lem globals criterias layout queue items in
      let (queues, stores) =
        queue_from_lem globals criterias layouts queue' items' start (same_items ∙ e) in
      (
        queues
            ∙ rw (same_queue, e)
                (one_more (is_eligible globals criterias start layout) queue layout
                  (filter (is_eligible globals criterias start) layouts)),
        stores,
      )

  -- The layouts of a queue that is filled from an empty one.
  abbrev pub best_eligible :
      LayoutSchedule T
      → CriteriaMap T
      → UnsafeItems T
      → List (ScheduledLayout T)
      → List (ScheduledLayout T)
  best_eligible schedule criterias items layouts =
      let eligible = filter (is_eligible schedule.global_dependants criterias items) layouts in
      filter (has_priority (top_priority default_priority eligible)) eligible

  default_set :
      (b : Bool) (queue : LayoutQueue T) (default : DefaultScheduledLayout)
      → (if b
          then add_default (record empty_regular_queue { queue = queue }) default
          else record empty_regular_queue { queue = queue })
        ≡ record empty_regular_queue {
          queue = queue;
          default_layout = if b then some default else none;
        }
  unfolding add_default
  default_set true queue default = refl
  default_set false queue default = refl

  -- The regular queue is filled with exactly those regular layouts that are eligible now and of the
  -- highest priority among the eligible ones, where the default priority 0 counts as occurring, in the
  -- order of the schedule; the default layout is set exactly if it is playable. The overlay queue is
  -- filled in the same way from the overlay layouts.
  pub queues-best_eligible :
      (schedule : LayoutSchedule T) (criterias : CriteriaMap T) (items : UnsafeItems T)
      → ((regular_queue_from time cache_valid now schedule criterias items).0 ≡ record {
        queue = best_eligible schedule criterias items schedule.regular_layouts;
        default_layout =
            if is_playable schedule.global_dependants items schedule.default_layout.id
              schedule.default_layout.dependants
            then some schedule.default_layout
            else none;
        next_index = 0;
        current_id = pos 0;
      })
        × ((overlay_queue_from time cache_valid now schedule criterias items).0
            ≡ best_eligible schedule criterias items schedule.overlay_layouts)
  unfolding regular_queue_from overlay_queue_from add_default
  queues-best_eligible schedule criterias items =
      let globals = schedule.global_dependants in
      let (queue, stores) =
        queue_from_lem globals criterias schedule.regular_layouts [] items items refl in
      let (overlay, _) =
        queue_from_lem globals criterias schedule.overlay_layouts [] items items refl in
      (
        rw (layout_valid_lem, stores, queue, add_all-empty)
            (default_set
              (is_playable globals items schedule.default_layout.id
                schedule.default_layout.dependants)
              _ schedule.default_layout),
        overlay ∙ add_all-empty _,
      )

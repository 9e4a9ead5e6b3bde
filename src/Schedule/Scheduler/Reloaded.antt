-- ===== src/Schedule/Scheduler/Reloaded.antt =====
-- reloadQueue: what the queues hold after a reload, and where playing goes on.
use xibo_linux.Base.{
  ℕ, ◌+◌, ◌%◌, String, ◌≡◌, refl, sym, ap, ◌∙◌, ◌⊎◌, inl, inr, Bool, false, Option, none, some,
  List, [], ◌∷◌, arith, Bool-cases, Option-cases, >>=-eq-some, if◌then◌else◌, ℤ, ◌==ℤ◌, pos, length,
  get_elem?, get_elem?_lt, any, all, not, ◌&&◌, filter, subst,
}
use xibo_linux.DateTime.{PosixTime}
use xibo_linux.UnsafeStore.{UnsafeItems, cleanup_expired}
use xibo_linux.Schedule.Item.{LayoutSchedule, ScheduledLayout}
use xibo_linux.Schedule.Queue.{
  LayoutQueue, RegularLayoutQueue, increase_index, layout_index_from, layout_index_by, in_queue,
  default_has, default_priority, update_current, update_current_at,
}
use xibo_linux.Schedule.Queue.Order.{layout_index_by-bound, not-empty}
use xibo_linux.Schedule.Queue.Rotation.{layout_index_by-at, increase_index-mod}
use xibo_linux.Schedule.Criteria.{CriteriaMap, layout_criteria_active, cleanup_expired_criteria}
use xibo_linux.Schedule.Scheduler.State.{Scheduler, regular_queue_from, layout_file}
use xibo_linux.Schedule.Scheduler.Internal.{
  current_of, update_current_layout, update_current_overlays, cleanup_expired_overrides,
  rebuild_queues, reload_with, reload_queue,
}
use xibo_linux.Schedule.Scheduler.Total.{restart_timer-frame, reload_with-total}
use xibo_linux.Schedule.Scheduler.Eligible.{
  is_playable, is_eligible, best_eligible, queues-best_eligible,
}
use xibo_linux.Schedule.Queue.Priority.{top_priority, has_priority}
use xibo_linux.Schedule.Scheduler.Cleaned.{items-regular_queue_from}

module _ {T : Type 0} where
  some-injective : {a b : Scheduler T} → some a ≡ some b → a ≡ b
  some-injective {a = a} e = ap (value_or a) e
    where
      value_or : Scheduler T → Option (Scheduler T) → Scheduler T
      value_or d none = d
      value_or d (some x) = x

  missing_from :
      (index : ℕ) (queue : LayoutQueue T) (id : ℤ)
      → layout_index_from index queue id ≡ none
      → any (λ layout. layout.id ==ℤ id) queue ≡ false
  unfolding layout_index_from
  missing_from index [] id h = refl
  missing_from index (layout ∷ rest) id h = elim (Bool-cases (layout.id ==ℤ id)) [
    | inl here ↦ absurd (ground arith)
    | inr later ↦ ground (arith, missing_from (index + 1) rest id (ground arith))
  ]

  missing :
      (queue : LayoutQueue T) (id : ℤ)
      → layout_index_by queue id ≡ none
      → any (λ layout. layout.id ==ℤ id) queue ≡ false
  unfolding layout_index_by
  missing queue id h = missing_from 0 queue id h

  -- Where playing goes on in a queue after `id`: at the layout behind one with this id, counted round
  -- the queue, or at the first layout if there is none.
  abbrev pub GoesOn : ℤ → RegularLayoutQueue T → Type 0
  GoesOn id q =
      (any (λ layout. layout.id ==ℤ id) q.queue ≡ false) × (q.next_index ≡ 0)
      ⊎ ((i : ℕ) × (layout : ScheduledLayout T) × (get_elem? q.queue i ≡ some layout)
          × (layout.id ≡ id)
          × (q.next_index ≡ (i + 1) % length q.queue)
          × (q.current_id ≡ id))

  found_lem :
      (id : ℤ) (s : Scheduler T) (i : ℕ)
      → layout_index_by s.regular_queue.queue id ≡ some i
      → update_current_layout id s
        ≡ some (record s {
          regular_queue = record s.regular_queue {
            next_index = increase_index s.regular_queue.queue i;
            current_id = id;
          };
        })
  unfolding update_current_layout in_queue update_current update_current_at
  found_lem id s i at = elim (not-empty s.regular_queue.queue) [
    | inl e ↦ absurd (ground (arith, layout_index_by-bound s.regular_queue.queue id i at))
    | inr (e, some_item) ↦ rw (e, at) refl
  ]

  missing_lem :
      (id : ℤ) (s s' : Scheduler T)
      → layout_index_by s.regular_queue.queue id ≡ none
      → update_current_layout id s ≡ some s'
      → (s'.regular_queue.queue ≡ s.regular_queue.queue)
        × (s'.regular_queue.default_layout ≡ s.regular_queue.default_layout)
        × (s'.overlay_queue ≡ s.overlay_queue)
        × (s'.regular_queue.next_index ≡ s.regular_queue.next_index)
  unfolding update_current_layout in_queue update_current update_current_at default_has
  missing_lem id s s' at h = elim (not-empty s.regular_queue.queue) [
    | inl e ↦ elim (Option-cases s.regular_queue.default_layout) [
      | inl unset ↦ ground (arith, e, at, unset)
      | inr (layout, set) ↦ ground (arith, e, at, set)
    ]
    | inr (e, some_item) ↦ ground (arith, e, at)
  ]

module _ {T : Type 0} (time : PosixTime T) (cache_valid : String → Bool) (now : T) where
  eligible_same :
      (globals : List String) (criterias : CriteriaMap T) (items start : UnsafeItems T)
      (layout : ScheduledLayout T)
      → cleanup_expired time now items ≡ cleanup_expired time now start
      → is_eligible time cache_valid now globals criterias items layout
        ≡ is_eligible time cache_valid now globals criterias start layout
  eligible_same globals criterias items start layout e =
      ap
        (λ live.
          (time.ge now layout.start_dt && time.lt now layout.end_dt)
          && ((not (any (λ item. item.layout_id ==ℤ layout.id) live)
                && (cache_valid (layout_file layout.id)
                    && (all cache_valid layout.dependants && all cache_valid globals)))
              && layout_criteria_active time now criterias layout))
        e

  best_same :
      (schedule : LayoutSchedule T) (criterias : CriteriaMap T) (items start : UnsafeItems T)
      (layouts : List (ScheduledLayout T))
      → cleanup_expired time now items ≡ cleanup_expired time now start
      → best_eligible time cache_valid now schedule criterias items layouts
        ≡ best_eligible time cache_valid now schedule criterias start layouts
  best_same schedule criterias items start layouts e =
      ap
        (λ (p : ScheduledLayout T → Bool).
          filter (has_priority (top_priority default_priority (filter p layouts)))
            (filter p layouts))
        (λ i layout. eligible_same schedule.global_dependants criterias items start layout e i)

  rebuild_queues_lem :
      (schedule : LayoutSchedule T) (s : Scheduler T)
      → let criterias = (cleanup_expired_criteria time now s.criterias).1 in
        let s' = rebuild_queues time cache_valid now schedule s in
        (s'.regular_queue ≡ record {
          queue =
              best_eligible time cache_valid now schedule criterias s.unsafe_items
                schedule.regular_layouts;
          default_layout =
              if is_playable time cache_valid now schedule.global_dependants s.unsafe_items
                schedule.default_layout.id schedule.default_layout.dependants
              then some schedule.default_layout
              else none;
          next_index = 0;
          current_id = pos 0;
        })
        × (s'.overlay_queue
            ≡ best_eligible time cache_valid now schedule criterias s.unsafe_items
                schedule.overlay_layouts)
  unfolding rebuild_queues cleanup_expired_overrides
  rebuild_queues_lem schedule s =
      let criterias = (cleanup_expired_criteria time now s.criterias).1 in
      let items = (regular_queue_from time cache_valid now schedule criterias s.unsafe_items).1 in
      let cleaned =
        items-regular_queue_from time cache_valid now schedule criterias s.unsafe_items in
      rw restart_timer-frame (
        (queues-best_eligible time cache_valid now schedule criterias s.unsafe_items).0,
        (queues-best_eligible time cache_valid now schedule criterias items).1
            ∙ best_same schedule criterias items s.unsafe_items schedule.overlay_layouts cleaned,
      )

  update_current_overlays-frame :
      (ids : List ℤ) (s : Scheduler T)
      → ((update_current_overlays ids s).regular_queue ≡ s.regular_queue)
        × ((update_current_overlays ids s).overlay_queue ≡ s.overlay_queue)
  unfolding update_current_overlays
  update_current_overlays-frame ids s = ground arith

  update_current_layout_lem :
      (id : ℤ) (s s' : Scheduler T)
      → s.regular_queue.next_index ≡ 0
      → update_current_layout id s ≡ some s'
      → (s'.regular_queue.queue ≡ s.regular_queue.queue)
        × (s'.regular_queue.default_layout ≡ s.regular_queue.default_layout)
        × (s'.overlay_queue ≡ s.overlay_queue)
        × GoesOn id s'.regular_queue
  update_current_layout_lem id s s' start h =
      elim (Option-cases (layout_index_by s.regular_queue.queue id)) [
        | inl at ↦
            let (queue, default, overlay, index) = missing_lem id s s' at h in
            (
              queue,
              default,
              overlay,
              inl (
                ap (any (λ layout. layout.id ==ℤ id)) queue ∙ missing s.regular_queue.queue id at,
                index ∙ start,
              ),
            )
        | inr (i, at) ↦
            let queue = s.regular_queue.queue in
            let bound = layout_index_by-bound queue id i at in
            let (layout, get) = get_elem?_lt queue i bound in
            subst
              (λ t.
                (t.regular_queue.queue ≡ queue)
                × (t.regular_queue.default_layout ≡ s.regular_queue.default_layout)
                × (t.overlay_queue ≡ s.overlay_queue)
                × GoesOn id t.regular_queue)
              (some-injective (sym (found_lem id s i at) ∙ h))
              (
                refl,
                refl,
                refl,
                inr (
                  i,
                  layout,
                  get,
                  layout_index_by-at queue id i layout at get,
                  increase_index-mod queue i bound,
                  refl,
                ),
              )
      ]

  -- A reload of a schedule that is set succeeds. The regular queue then holds exactly those regular layouts
  -- that are eligible now, with the criteria that have not expired, and of the highest priority among the
  -- eligible ones, where the default priority 0 counts as occurring, in the order of the schedule, and
  -- the default layout exactly if it is playable; the overlay queue is filled in the same way. Playing
  -- goes on behind the layout that was the current one, counted round the new queue, if this still
  -- holds it, else at the first layout.
  pub reload_queue-best_eligible :
      (schedule : LayoutSchedule T) (s : Scheduler T)
      → s.schedule ≡ some schedule
      → let criterias = (cleanup_expired_criteria time now s.criterias).1 in
        (s' : Scheduler T) × (reload_queue time cache_valid now s ≡ some s')
        × (s'.regular_queue.queue
            ≡ best_eligible time cache_valid now schedule criterias s.unsafe_items
                schedule.regular_layouts)
        × (s'.regular_queue.default_layout ≡ (
            if is_playable time cache_valid now schedule.global_dependants s.unsafe_items
              schedule.default_layout.id schedule.default_layout.dependants
            then some schedule.default_layout
            else none))
        × (s'.overlay_queue
            ≡ best_eligible time cache_valid now schedule criterias s.unsafe_items
                schedule.overlay_layouts)
        × GoesOn (current_of s.layout_override s.regular_queue) s'.regular_queue
  unfolding reload_queue reload_with
  reload_queue-best_eligible schedule s set =
      let (s', runs, _, _) = reload_with-total time cache_valid now schedule s in
      let current = current_of s.layout_override s.regular_queue in
      let s1 = rebuild_queues time cache_valid now schedule s in
      let (regular, overlay) = rebuild_queues_lem schedule s in
      let (s2, updated, rest) = >>=-eq-some (update_current_layout current s1) _ s' runs in
      let (queue, default, kept, goes_on) =
        update_current_layout_lem current s1 s2 (ap (λ q. q.next_index) regular) updated in
      let last = some-injective rest in
      let (same_queue, same_overlay) = update_current_overlays-frame _ s2 in
      let whole : s'.regular_queue ≡ s2.regular_queue =
        ap (λ t. t.regular_queue) (sym last) ∙ same_queue in
      (
        s',
        ap
              (λ o. elim o [
                | none ↦ none
                | some schedule ↦ reload_with time cache_valid now schedule s
              ])
              set
            ∙ runs,
        ap (λ q. q.queue) whole ∙ queue ∙ ap (λ q. q.queue) regular,
        ap (λ q. q.default_layout) whole ∙ default ∙ ap (λ q. q.default_layout) regular,
        ap (λ t. t.overlay_queue) (sym last) ∙ same_overlay ∙ kept ∙ overlay,
        subst (GoesOn current) (sym whole) goes_on,
      )

-- ===== src/Schedule/Queue.antt =====
-- schedule/LayoutQueue, RegularLayoutQueue and OverlayLayoutQueue.
pub mod Priority
pub mod Order
pub mod Rotation
use xibo_linux.Base.{
  ℕ, zero, suc, ◌+◌, ◌-◌, ◌*◌, ◌/◌, ◌%◌, ◌≤◌, ◌<◌, String, ◌≡◌, refl, sym, ap, subst, ◌∙◌, ◌≢◌, ◌↔◌,
  ◌⊎◌, inl, inr, Bool, true, false, not, ◌&&◌, ◌||◌, Option, none, some, List, [], ◌∷◌, ◌++◌, map,
  append_assoc, append-nil, arith, ltb, leb, ◌==◌, if◌then◌else◌, Bool-cases, Option-cases,
  &&-eq-true, ◌>>=◌, is_some, ℤ, pos, negsuc, ◌+ℤ◌, ◌-ℤ◌, ◌≤ℤ◌, ltb_ℤ, leb_ℤ, ◌==ℤ◌, ==ℤ_iff,
  ==ℤ_refl, length, get_elem?, filter, any, all, find, is_empty, filter_idem, filter-append,
  all-filter, filter_of_all, all-append, any-append, length-append, get_elem?_lt, str_eq,
  str_eq_iff, ◌++ₛ◌, contains, to_string, stoi,
}
use xibo_linux.Schedule.Item.{ScheduledLayout, DefaultScheduledLayout, empty_layout_id}

abbrev pub default_priority : ℤ
default_priority = pos 0

abbrev pub first_item_index : ℕ
first_item_index = 0

-- The base class LayoutQueue is its vector.
abbrev pub LayoutQueue : Type 0 → Type 0
LayoutQueue T = List (ScheduledLayout T)

pub record RegularLayoutQueue (T : Type 0) : Type 0 where
  pub queue : LayoutQueue T
  pub default_layout : Option DefaultScheduledLayout
  pub next_index : ℕ
  pub current_id : ℤ

unfoldable pub default_id : Option DefaultScheduledLayout → ℤ
default_id none = empty_layout_id
default_id (some layout) = layout.id

unfoldable pub default_has : Option DefaultScheduledLayout → ℤ → Bool
default_has none id = false
default_has (some layout) id = layout.id ==ℤ id

value_or : Option ℕ → ℕ → ℕ
value_or none n = n
value_or (some m) n = m

module _ {T : Type 0} where
  unfoldable pub highest_priority : LayoutQueue T → ℤ
  highest_priority [] = default_priority
  highest_priority (first ∷ rest) = first.priority

  unfoldable pub add : LayoutQueue T → ScheduledLayout T → LayoutQueue T
  unfolding highest_priority
  add queue layout =
      if leb_ℤ (highest_priority queue) layout.priority
      then (if ltb_ℤ (highest_priority queue) layout.priority then [] else queue) ++ (layout ∷ [])
      else queue

  -- OverlayLayoutQueue::overlays
  abbrev pub overlays : LayoutQueue T → List ℤ
  overlays queue = map (λ l. l.id) queue

  unfoldable pub add_default : RegularLayoutQueue T → DefaultScheduledLayout → RegularLayoutQueue T
  add_default q layout = record q { default_layout = some layout }

  unfoldable pub increase_index : LayoutQueue T → ℕ → ℕ
  increase_index queue index =
      if leb (length queue) (index + 1) then first_item_index else index + 1

  -- The loop of layoutIndexBy, at `index`.
  unfoldable pub layout_index_from : ℕ → LayoutQueue T → ℤ → Option ℕ
  layout_index_from index [] id = none
  layout_index_from index (layout ∷ rest) id =
      let later = layout_index_from (index + 1) rest id in
      if layout.id ==ℤ id then some index else later

  unfoldable pub layout_index_by : LayoutQueue T → ℤ → Option ℕ
  unfolding layout_index_from
  layout_index_by queue id = layout_index_from 0 queue id

  unfoldable pub in_queue : RegularLayoutQueue T → ℤ → Bool
  unfolding layout_index_by default_has
  in_queue q id =
      if not (is_empty q.queue)
      then is_some (layout_index_by q.queue id)
      else default_has q.default_layout id

  -- `none` where `defaultLayout_->id` reads an empty optional.
  unfoldable pub update_current_at :
      RegularLayoutQueue T → ℤ → Option ℕ → Option (RegularLayoutQueue T)
  unfolding increase_index
  update_current_at q id (some index) =
      some (record q { next_index = increase_index q.queue index; current_id = id })
  update_current_at q id none = elim q.default_layout [
    | none ↦ none
    | some layout ↦ some (if layout.id ==ℤ id then record q { current_id = id } else q)
  ]

  unfoldable pub update_current : RegularLayoutQueue T → ℤ → Option (RegularLayoutQueue T)
  unfolding update_current_at layout_index_by
  update_current q id = update_current_at q id (layout_index_by q.queue id)

  -- nextRegularLayout; `none` where vector::at throws std::out_of_range
  unfoldable pub next_regular_layout :
      RegularLayoutQueue T → Option (ScheduledLayout T × RegularLayoutQueue T)
  unfolding increase_index
  next_regular_layout q = do
    layout ← get_elem? q.queue q.next_index
    some (layout, record q { next_index = increase_index q.queue q.next_index })

  unfoldable pub next : RegularLayoutQueue T → Option (ℤ × RegularLayoutQueue T)
  unfolding next_regular_layout default_id
  next q =
      if not (is_empty q.queue)
      then (do
        (layout, q') ← next_regular_layout q
        some (layout.id, record q' { current_id = layout.id }))
      else some (default_id q.default_layout, record q { current_id = default_id q.default_layout })

  unfoldable pub previous_index : RegularLayoutQueue T → ℕ
  unfolding layout_index_by value_or
  previous_index q =
      let current = value_or (layout_index_by q.queue q.current_id) first_item_index in
      if current == first_item_index then length q.queue - 1 else current - 1

  unfoldable pub previous : RegularLayoutQueue T → Option (ℤ × RegularLayoutQueue T)
  unfolding previous_index increase_index default_id
  previous q =
      if not (is_empty q.queue)
      then (do
        layout ← get_elem? q.queue (previous_index q)
        some (
          layout.id,
          record q {
            current_id = layout.id;
            next_index = increase_index q.queue (previous_index q);
          },
        ))
      else some (default_id q.default_layout, record q { current_id = default_id q.default_layout })

  -- A queue as `regularQueueFrom` declares it, before anything is added.
  abbrev pub empty_regular_queue : RegularLayoutQueue T
  empty_regular_queue = record {
    queue = [];
    default_layout = none;
    next_index = first_item_index;
    current_id = empty_layout_id;
  }

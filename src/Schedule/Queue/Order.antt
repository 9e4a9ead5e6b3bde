-- ===== src/Schedule/Queue/Order.antt =====
-- The indices of a RegularLayoutQueue stay in range, so vector::at does not throw and no empty
-- optional is read.
use xibo_linux.Base.{
  ℕ, ◌+◌, ◌<◌, ◌≡◌, refl, ◌⊎◌, inl, inr, true, false, some, [], ◌∷◌, arith, Option-cases, ℤ, length,
  is_empty, get_elem?_lt,
}
use xibo_linux.Schedule.Queue.{
  LayoutQueue, RegularLayoutQueue, increase_index, layout_index_from, layout_index_by, in_queue,
  default_id, default_has, update_current, update_current_at, next, next_regular_layout, previous,
  previous_index, value_or,
}

-- The next index is one of the queue, or the queue is empty.
abbrev pub IsInRange : {T : Type 0} → RegularLayoutQueue T → Type 0
IsInRange q = (q.queue ≡ []) ⊎ (q.next_index < length q.queue)

module _ {T : Type 0} where
  pub increase_index-lt :
      (queue : LayoutQueue T) (index : ℕ)
      → 0 < length queue
      → increase_index queue index < length queue
  unfolding increase_index
  increase_index-lt queue index h = ground arith

  layout_index_from-bound :
      (index : ℕ) (queue : LayoutQueue T) (id : ℤ) (found : ℕ)
      → layout_index_from index queue id ≡ some found
      → found < index + length queue
  unfolding layout_index_from
  layout_index_from-bound index [] id found h = ground arith
  layout_index_from-bound index (layout ∷ rest) id found h =
      ground (arith, layout_index_from-bound (index + 1) rest id found)

  pub layout_index_by-bound :
      (queue : LayoutQueue T) (id : ℤ) (found : ℕ)
      → layout_index_by queue id ≡ some found
      → found < length queue
  unfolding layout_index_by
  layout_index_by-bound queue id found h =
      ground (arith, layout_index_from-bound 0 queue id found h)

  pub previous_index-lt :
      (q : RegularLayoutQueue T) → 0 < length q.queue → previous_index q < length q.queue
  unfolding previous_index value_or
  previous_index-lt q h = elim (Option-cases (layout_index_by q.queue q.current_id)) [
    | inl e ↦ ground arith
    | inr (i, e) ↦ ground (arith, layout_index_by-bound q.queue q.current_id i e)
  ]

  pub not-empty :
      (queue : LayoutQueue T)
      → (is_empty queue ≡ true) ⊎ ((is_empty queue ≡ false) × (0 < length queue))
  not-empty [] = inl refl
  not-empty (x ∷ xs) = inr (refl, omega arith)

  pub is_empty-nil : (queue : LayoutQueue T) → is_empty queue ≡ true → queue ≡ []
  is_empty-nil [] h = refl
  is_empty-nil (x ∷ xs) h = cc

  pub next-total :
      (q : RegularLayoutQueue T)
      → IsInRange q
      → (id : ℤ) × (q' : RegularLayoutQueue T) × (next q ≡ some (id, q'))
        × IsInRange q'
        × (q'.queue ≡ q.queue)
        × (q'.current_id ≡ id)
  unfolding next next_regular_layout
  next-total q h = elim (not-empty q.queue) [
    | inl e ↦ (
      default_id q.default_layout,
      record q { current_id = default_id q.default_layout },
      ground arith,
      inl (is_empty-nil q.queue e),
      refl,
      refl,
    )
    | inr (e, some_item) ↦
        let (layout, at) = get_elem?_lt q.queue q.next_index (ground arith) in
        (
          layout.id,
          record q { next_index = increase_index q.queue q.next_index; current_id = layout.id },
          ground arith,
          inr (increase_index-lt q.queue q.next_index some_item),
          refl,
          refl,
        )
  ]

  pub previous-total :
      (q : RegularLayoutQueue T)
      → (id : ℤ) × (q' : RegularLayoutQueue T) × (previous q ≡ some (id, q'))
        × IsInRange q'
        × (q'.queue ≡ q.queue)
        × (q'.current_id ≡ id)
  unfolding previous
  previous-total q = elim (not-empty q.queue) [
    | inl e ↦ (
      default_id q.default_layout,
      record q { current_id = default_id q.default_layout },
      ground arith,
      inl (is_empty-nil q.queue e),
      refl,
      refl,
    )
    | inr (e, some_item) ↦
        let (layout, at) =
          get_elem?_lt q.queue (previous_index q) (previous_index-lt q some_item) in
        (
          layout.id,
          record q {
            current_id = layout.id;
            next_index = increase_index q.queue (previous_index q);
          },
          ground arith,
          inr (increase_index-lt q.queue (previous_index q) some_item),
          refl,
          refl,
        )
  ]

  -- From a queue whose next index is in range, updateCurrent of a layout that is in the queue, or is the
  -- default of an empty one, succeeds: it makes the layout the current one, leaves the next index in
  -- range and the layouts as they are.
  pub update_current-total :
      (q : RegularLayoutQueue T) (id : ℤ)
      → IsInRange q
      → in_queue q id ≡ true
      → (q' : RegularLayoutQueue T) × (update_current q id ≡ some q')
        × IsInRange q'
        × (q'.queue ≡ q.queue)
        × (q'.current_id ≡ id)
  unfolding update_current update_current_at in_queue default_has
  update_current-total q id h found = elim (not-empty q.queue) [
    | inl e ↦ elim (Option-cases q.default_layout) [
      | inl none_set ↦ absurd (ground arith)
      | inr (layout, set) ↦ (
        record q { current_id = id },
        ground (arith, is_empty-nil q.queue e),
        inl (is_empty-nil q.queue e),
        refl,
        refl,
      )
    ]
    | inr (e, some_item) ↦ elim (Option-cases (layout_index_by q.queue id)) [
      | inl missing ↦ absurd (ground arith)
      | inr (i, at) ↦ (
        record q { next_index = increase_index q.queue i; current_id = id },
        ground arith,
        inr (increase_index-lt q.queue i some_item),
        refl,
        refl,
      )
    ]
  ]

-- ===== src/Schedule/Queue/Rotation.antt =====
-- The order in which a RegularLayoutQueue plays its layouts: next goes round, previous steps back.
use xibo_linux.Base.{
  ℕ, zero, suc, ◌+◌, ◌%◌, ◌≤◌, ◌<◌, ◌≡◌, refl, ap, ◌∙◌, inl, inr, Option, some, List, [], ◌∷◌, map,
  arith, leb, Bool-cases, ◌>>=◌, ℤ, ◌==ℤ◌, ==ℤ_iff, length, get_elem?, get_elem?_lt,
}
use xibo_linux.Base.Cyclic.{step_mod, wrap_mod, lt_mod}
use xibo_linux.Schedule.Item.{ScheduledLayout}
use xibo_linux.Schedule.Queue.{
  LayoutQueue, RegularLayoutQueue, increase_index, layout_index_from, layout_index_by, next,
  next_regular_layout, previous, previous_index, value_or,
}
use xibo_linux.Schedule.Queue.Order.{
  increase_index-lt, layout_index_by-bound, previous_index-lt, not-empty,
}

module _ {T : Type 0} where
  -- The queue after `k` calls of next.
  unfoldable pub next_times : ℕ → RegularLayoutQueue T → Option (RegularLayoutQueue T)
  next_times zero q = some q
  next_times (suc k) q = do (id, q') ← next q; next_times k q'

  abbrev pub ids : LayoutQueue T → List ℤ
  ids queue = map (λ l. l.id) queue

  pub increase_index-mod :
      (queue : LayoutQueue T) (i : ℕ)
      → i < length queue
      → increase_index queue i ≡ (i + 1) % length queue
  unfolding increase_index
  increase_index-mod queue i h = elim (Bool-cases (leb (length queue) (i + 1))) [
    | inl wraps ↦ ground (arith, wrap_mod (length queue) i)
    | inr inside ↦ ground (arith, lt_mod (length queue) (i + 1))
  ]

  get_elem?-ids :
      (queue : LayoutQueue T) (i : ℕ) (layout : ScheduledLayout T)
      → get_elem? queue i ≡ some layout
      → get_elem? (ids queue) i ≡ some layout.id
  get_elem?-ids [] i layout h = cc
  get_elem?-ids (l ∷ queue) zero layout h = ground arith
  get_elem?-ids (l ∷ queue) (suc i) layout h = get_elem?-ids queue i layout h

  -- One call of next on a queue that is not empty.
  next_step :
      (q : RegularLayoutQueue T)
      → q.next_index < length q.queue
      → (layout : ScheduledLayout T) × (get_elem? q.queue q.next_index ≡ some layout)
        × (next q
            ≡ some (
              layout.id,
              record q { next_index = increase_index q.queue q.next_index; current_id = layout.id },
            ))
  unfolding next next_regular_layout
  next_step q h = elim (not-empty q.queue) [
    | inl e ↦ absurd (ground arith)
    | inr (e, some_item) ↦
        let (layout, at) = get_elem?_lt q.queue q.next_index h in (layout, at, ground arith)
  ]

  -- From a queue that is not empty, call number k + 1 of next plays the layout that stands k places
  -- after the next index, counted round the queue; the layouts of the queue stay as they are.
  pub next-round_robin :
      (k : ℕ) (q : RegularLayoutQueue T)
      → q.next_index < length q.queue
      → (q' : RegularLayoutQueue T) × (id : ℤ) × (q'' : RegularLayoutQueue T) × (next_times k q
          ≡ some q')
        × (next q' ≡ some (id, q''))
        × (get_elem? (ids q.queue) ((q.next_index + k) % length q.queue) ≡ some id)
        × (q''.queue ≡ q.queue)
  unfolding next_times
  next-round_robin zero q h =
      let (layout, at, steps) = next_step q h in
      (
        q,
        layout.id,
        record q { next_index = increase_index q.queue q.next_index; current_id = layout.id },
        refl,
        steps,
        ground (
          arith,
          get_elem?-ids q.queue q.next_index layout,
          lt_mod (length q.queue) (q.next_index + 0),
        ),
        refl,
      )
  next-round_robin (suc k) q h =
      let (layout, at, steps) = next_step q h in
      let q1 : RegularLayoutQueue T = record q {
        next_index = increase_index q.queue q.next_index;
        current_id = layout.id;
      } in
      let (q', id, q'', runs, last, place, kept) =
        next-round_robin k q1 (increase_index-lt q.queue q.next_index (omega arith)) in
      (
        q',
        id,
        q'',
        rw steps runs,
        last,
        rw (← step_mod q.next_index k (length q.queue), ← increase_index-mod q.queue q.next_index h)
            place,
        kept,
      )

  -- A call of previous on a queue that is not empty.
  previous_step :
      (q : RegularLayoutQueue T)
      → 0 < length q.queue
      → (layout : ScheduledLayout T) × (get_elem? q.queue (previous_index q) ≡ some layout)
        × (previous q
            ≡ some (
              layout.id,
              record q {
                current_id = layout.id;
                next_index = increase_index q.queue (previous_index q);
              },
            ))
  unfolding previous
  previous_step q h = elim (not-empty q.queue) [
    | inl e ↦ absurd (ground arith)
    | inr (e, some_item) ↦
        let (layout, at) = get_elem?_lt q.queue (previous_index q) (previous_index-lt q h) in
        (layout, at, ground arith)
  ]

  layout_index_from-ge :
      (index : ℕ) (queue : LayoutQueue T) (id : ℤ) (found : ℕ)
      → layout_index_from index queue id ≡ some found
      → index ≤ found
  unfolding layout_index_from
  layout_index_from-ge index [] id found h = cc
  layout_index_from-ge index (l ∷ rest) id found h =
      ground (arith, layout_index_from-ge (index + 1) rest id found)

  layout_index_from-at :
      (index : ℕ) (queue : LayoutQueue T) (id : ℤ) (found : ℕ)
      → layout_index_from index queue id ≡ some found
      → (i : ℕ) (layout : ScheduledLayout T) → found ≡ index + i
      → get_elem? queue i ≡ some layout
      → layout.id ≡ id
  unfolding layout_index_from
  layout_index_from-at index [] id found h i layout e at = cc
  layout_index_from-at index (l ∷ rest) id found h zero layout e at =
      ground (arith, layout_index_from-ge (index + 1) rest id found, ==ℤ_iff l.id id)
  layout_index_from-at index (l ∷ rest) id found h (suc i) layout e at =
      elim (Bool-cases (l.id ==ℤ id)) [
        | inl here ↦ absurd (ground arith)
        | inr later ↦
            layout_index_from-at (index + 1) rest id found (ground arith) i layout (omega arith) at
      ]

  pub layout_index_by-at :
      (queue : LayoutQueue T) (id : ℤ) (i : ℕ) (layout : ScheduledLayout T)
      → layout_index_by queue id ≡ some i
      → get_elem? queue i ≡ some layout
      → layout.id ≡ id
  unfolding layout_index_by
  layout_index_by-at queue id i layout h at =
      layout_index_from-at 0 queue id i h i layout (omega arith) at

  increase-previous_index :
      (q : RegularLayoutQueue T) (i : ℕ)
      → layout_index_by q.queue q.current_id ≡ some i
      → increase_index q.queue (previous_index q) ≡ i
  unfolding increase_index previous_index value_or
  increase-previous_index q i h = ground (arith, layout_index_by-bound q.queue q.current_id i h)

  -- Where the current layout is in the queue, previous succeeds, and the next call of next is back
  -- at the current layout.
  pub previous-next :
      (q : RegularLayoutQueue T) (i : ℕ)
      → layout_index_by q.queue q.current_id ≡ some i
      → (id : ℤ) × (q' : RegularLayoutQueue T) × (q'' : RegularLayoutQueue T) × (previous q
          ≡ some (id, q'))
        × (next q' ≡ some (q.current_id, q''))
  previous-next q i h =
      let bound : i < length q.queue = layout_index_by-bound q.queue q.current_id i h in
      let (layout, at, goes_back) = previous_step q (omega arith) in
      let q' : RegularLayoutQueue T = record q {
        current_id = layout.id;
        next_index = increase_index q.queue (previous_index q);
      } in
      let back : increase_index q.queue (previous_index q) ≡ i = increase-previous_index q i h in
      let (again, at', steps) = next_step q' (omega arith) in
      (
        layout.id,
        q',
        record q' { next_index = increase_index q'.queue q'.next_index; current_id = again.id },
        goes_back,
        steps
            ∙ ap
                (λ (id : ℤ). some (
                  id,
                  record q' {
                    next_index = increase_index q'.queue q'.next_index;
                    current_id = again.id;
                  },
                ))
                (layout_index_by-at q.queue q.current_id i again h (rw back at at')),
      )

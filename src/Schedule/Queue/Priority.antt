-- ===== src/Schedule/Queue/Priority.antt =====
-- LayoutQueue::add against its meaning: the queue keeps the layouts of the highest priority.
use xibo_linux.Base.{
  ◌≡◌, refl, ◌⊎◌, inl, inr, Bool, true, List, [], ◌∷◌, ◌++◌, append_assoc, append-nil, arith,
  if◌then◌else◌, ℤ, ◌≤ℤ◌, ltb_ℤ, leb_ℤ, ◌==ℤ◌, filter, any, all,
}
use xibo_linux.Schedule.Item.{ScheduledLayout}
use xibo_linux.Schedule.Queue.{LayoutQueue, default_priority, highest_priority, add}

ℤ-cases : (a b : ℤ) → (ltb_ℤ a b ≡ true) ⊎ (a ≡ b) ⊎ (ltb_ℤ b a ≡ true)
ℤ-cases a b = ground arith

module _ {T : Type 0} where
  -- Adds layouts one after the other, as the loops of the scheduler do.
  unfoldable pub add_all : LayoutQueue T → List (ScheduledLayout T) → LayoutQueue T
  add_all queue [] = queue
  add_all queue (layout ∷ layouts) = add_all (add queue layout) layouts

  -- The highest priority of the layouts, and at least `p`.
  unfoldable pub top_priority : ℤ → List (ScheduledLayout T) → ℤ
  top_priority p [] = p
  top_priority p (layout ∷ layouts) =
      top_priority (if ltb_ℤ p layout.priority then layout.priority else p) layouts

  abbrev pub has_priority : ℤ → ScheduledLayout T → Bool
  has_priority p layout = layout.priority ==ℤ p

  top_priority_ge : (p : ℤ) (layouts : List (ScheduledLayout T)) → p ≤ℤ top_priority p layouts
  unfolding top_priority
  top_priority_ge p [] = omega arith
  top_priority_ge p (layout ∷ layouts) =
      ground
        (arith, top_priority_ge (if ltb_ℤ p layout.priority then layout.priority else p) layouts)

  highest_priority-snoc :
      (queue : LayoutQueue T) (layout : ScheduledLayout T)
      → highest_priority queue ≡ layout.priority
      → highest_priority (queue ++ (layout ∷ [])) ≡ layout.priority
  unfolding highest_priority
  highest_priority-snoc [] layout h = refl
  highest_priority-snoc (first ∷ rest) layout h = h

  highest_priority-one :
      (layout : ScheduledLayout T) → highest_priority (layout ∷ []) ≡ layout.priority
  unfolding highest_priority
  highest_priority-one layout = refl

  add_lower :
      (queue : LayoutQueue T) (layout : ScheduledLayout T)
      → ltb_ℤ layout.priority (highest_priority queue) ≡ true
      → add queue layout ≡ queue
  unfolding add
  add_lower queue layout h = ground arith

  add_equal :
      (queue : LayoutQueue T) (layout : ScheduledLayout T)
      → layout.priority ≡ highest_priority queue
      → add queue layout ≡ queue ++ (layout ∷ [])
  unfolding add
  add_equal queue layout h = ground arith

  add_higher :
      (queue : LayoutQueue T) (layout : ScheduledLayout T)
      → ltb_ℤ (highest_priority queue) layout.priority ≡ true
      → add queue layout ≡ layout ∷ []
  unfolding add
  add_higher queue layout h = ground arith

  top_priority_keep :
      (p : ℤ) (layout : ScheduledLayout T) (layouts : List (ScheduledLayout T))
      → layout.priority ≤ℤ p
      → top_priority p (layout ∷ layouts) ≡ top_priority p layouts
  unfolding top_priority
  top_priority_keep p layout layouts h = ground arith

  top_priority_raise :
      (p : ℤ) (layout : ScheduledLayout T) (layouts : List (ScheduledLayout T))
      → p ≤ℤ layout.priority
      → top_priority p (layout ∷ layouts) ≡ top_priority layout.priority layouts
  unfolding top_priority
  top_priority_raise p layout layouts h = ground arith

  -- From a queue whose highest priority is `p`: what was there stays if nothing higher comes.
  add_all_lem :
      (queue : LayoutQueue T) (p : ℤ) (layouts : List (ScheduledLayout T))
      → highest_priority queue ≡ p
      → add_all queue layouts
        ≡ (if top_priority p layouts ==ℤ p then queue else [])
          ++ filter (has_priority (top_priority p layouts)) layouts
  unfolding add_all
  add_all_lem queue p [] h = unfold top_priority in ground (arith, append-nil queue)
  add_all_lem queue p (layout ∷ layouts) h = elim (ℤ-cases layout.priority p) [
    | inl lower ↦ ground (
      arith,
      add_lower queue layout,
      top_priority_keep p layout layouts,
      top_priority_ge p layouts,
      add_all_lem queue p layouts h,
    )
    | inr (inl same) ↦ ground (
      arith,
      add_equal queue layout,
      highest_priority-snoc queue layout,
      top_priority_keep p layout layouts,
      append_assoc queue (layout ∷ []) (filter (has_priority (top_priority p layouts)) layouts),
      add_all_lem (queue ++ (layout ∷ [])) p layouts,
    )
    | inr (inr higher) ↦ ground (
      arith,
      add_higher queue layout,
      top_priority_raise p layout layouts,
      top_priority_ge layout.priority layouts,
      add_all_lem (layout ∷ []) layout.priority layouts (highest_priority-one layout),
    )
  ]

  weaken_bound :
      (a b : ℤ) (layouts : List (ScheduledLayout T))
      → a ≡ b
      → all (λ l. leb_ℤ l.priority a) layouts ≡ true
      → all (λ l. leb_ℤ l.priority b) layouts ≡ true
  weaken_bound a b layouts e h = rw (← e) h

  pub top_priority-bound :
      (p : ℤ) (layouts : List (ScheduledLayout T))
      → all (λ l. leb_ℤ l.priority (top_priority p layouts)) layouts ≡ true
  top_priority-bound p [] = refl
  top_priority-bound p (layout ∷ layouts) = elim (ℤ-cases layout.priority p) [
    | inl lower ↦ ground (
      arith,
      top_priority_keep p layout layouts,
      top_priority_ge p layouts,
      top_priority-bound p layouts,
    )
    | inr (inl same) ↦ ground (
      arith,
      top_priority_keep p layout layouts,
      top_priority_ge p layouts,
      top_priority-bound p layouts,
    )
    | inr (inr higher) ↦ ground (
      arith,
      top_priority_raise p layout layouts,
      top_priority_ge layout.priority layouts,
      top_priority-bound layout.priority layouts,
    )
  ]

  pub top_priority-attained :
      (p : ℤ) (layouts : List (ScheduledLayout T))
      → (top_priority p layouts ≡ p) ⊎ (any (has_priority (top_priority p layouts)) layouts ≡ true)
  top_priority-attained p [] = inl (unfold top_priority in refl)
  top_priority-attained p (layout ∷ layouts) = elim (ℤ-cases layout.priority p) [
    | inl lower ↦
        ground (arith, top_priority_keep p layout layouts, top_priority-attained p layouts)
    | inr (inl same) ↦
        ground (arith, top_priority_keep p layout layouts, top_priority-attained p layouts)
    | inr (inr higher) ↦
        ground (
          arith,
          top_priority_raise p layout layouts,
          top_priority-attained layout.priority layouts,
        )
  ]

  -- Layouts added one by one to an empty queue leave, in their order, exactly those of the highest
  -- priority that occurs, where the default priority 0 counts as occurring.
  pub add_all-empty :
      (layouts : List (ScheduledLayout T))
      → add_all [] layouts ≡ filter (has_priority (top_priority default_priority layouts)) layouts
  add_all-empty layouts =
      ground (arith, add_all_lem [] default_priority layouts (unfold highest_priority in refl))

-- ===== src/Layout/Regions.antt =====
-- Every region of a layout stays ordered: its current index is in range and no other medium plays. When
-- a layout expires, nothing plays.
use xibo_linux.Base.{
  ℕ, zero, suc, ◌≡◌, refl, subst, inl, inr, Bool, true, false, Option, none, some, List, [], ◌∷◌,
  arith, Bool-cases, &&-eq-true, ℤ, get_elem?, all, is_empty,
}
use xibo_linux.DateTime.{PosixTime}
use xibo_linux.UnsafeStore.{UnsafeItems}
use xibo_linux.Region.{
  Region, RegionSignal, Outcome, expired, media_stat_ready, set_at, stop_region,
  navigate_to_media_id, show_next_media, set_active_media_duration, extend_active_media_duration,
  on_media_duration_timeout,
}
use xibo_linux.Region.Plays.{is_ordered, none_plays}
use xibo_linux.Region.Order.{calls-is_ordered, stop_region-stops}
use xibo_linux.Layout.{
  MainLayout, MediaPlayingTime, record_stats, insert, stop_regions, stop_layout,
  on_all_regions_expired, on_region_expired, are_all_regions_expired, handle, deliver, call_region,
  call_at, media_finished, navigation_target, region_by_source_id, navigate_to_widget,
  expire_duration_target, extend_duration_target, set_duration_target, emplace,
}

-- Every region of the layout is ordered, or none of their media plays.
abbrev pub are_ordered : {T : Type 0} → List (Region T) → Bool
are_ordered = all is_ordered

abbrev pub nothing_plays : {T : Type 0} → List (Region T) → Bool
nothing_plays = all (λ region. none_plays region.media_list)

module _ {T : Type 0} where
  all-set_at :
      (p : Region T → Bool) (regions : List (Region T)) (index : ℕ) (new : Region T)
      → all p regions ≡ true
      → p new ≡ true
      → all p (set_at regions index new) ≡ true
  all-set_at p [] index new h k = refl
  all-set_at p (region ∷ rest) zero new h k =
      (&&-eq-true (p new) (all p rest)).1 (k, ((&&-eq-true (p region) (all p rest)).0 h).1)
  all-set_at p (region ∷ rest) (suc index) new h k =
      let (here, there) = (&&-eq-true (p region) (all p rest)).0 h in
      (&&-eq-true (p region) _).1 (here, all-set_at p rest index new there k)

  all-get_elem? :
      (p : Region T → Bool) (regions : List (Region T)) (index : ℕ) (region : Region T)
      → all p regions ≡ true
      → get_elem? regions index ≡ some region
      → p region ≡ true
  all-get_elem? p [] index region h e = absurd (ground arith)
  all-get_elem? p (x ∷ rest) zero region h e =
      subst (λ r. p r ≡ true) (ground arith) ((&&-eq-true (p x) (all p rest)).0 h).0
  all-get_elem? p (x ∷ rest) (suc index) region h e =
      all-get_elem? p rest index region ((&&-eq-true (p x) (all p rest)).0 h).1 e

module _ {T : Type 0} (time : PosixTime T) (now : T) where
  stop_regions-stops :
      (regions : List (Region T)) (intervals : MediaPlayingTime T)
      → are_ordered regions ≡ true
      → (are_ordered (stop_regions time now regions intervals).0 ≡ true)
        × (nothing_plays (stop_regions time now regions intervals).0 ≡ true)
  unfolding stop_regions
  stop_regions-stops [] intervals h = (refl, refl)
  stop_regions-stops (region ∷ rest) intervals h =
      let (here, there) = (&&-eq-true (is_ordered region) (are_ordered rest)).0 h in
      let (ordered, silent) = stop_region-stops time now region here in
      let (all_ordered, all_silent) =
        stop_regions-stops rest (record_stats (stop_region time now region).1 intervals) there in
      ((&&-eq-true _ _).1 (ordered, all_ordered), (&&-eq-true _ _).1 (silent, all_silent))

  on_all_regions_expired-stops :
      (l : MainLayout T)
      → are_ordered l.regions ≡ true
      → (are_ordered (on_all_regions_expired time now l).0.regions ≡ true)
        × (nothing_plays (on_all_regions_expired time now l).0.regions ≡ true)
  unfolding on_all_regions_expired stop_layout
  on_all_regions_expired-stops l h = stop_regions-stops l.regions l.media_intervals h

  on_region_expired-are_ordered :
      (id : ℤ) (l : MainLayout T)
      → are_ordered l.regions ≡ true
      → are_ordered (on_region_expired time now id l).0.regions ≡ true
  unfolding on_region_expired
  on_region_expired-are_ordered id l h =
      let marked = record l { expired_regions = insert id l.expired_regions } in
      elim (Bool-cases (are_all_regions_expired marked)) [
        | inl e ↦ rw e (on_all_regions_expired-stops marked h).0
        | inr e ↦ rw e h
      ]

  handle-are_ordered :
      (signals : List (RegionSignal T)) (l : MainLayout T)
      → are_ordered l.regions ≡ true
      → are_ordered (handle time now signals l).0.regions ≡ true
  unfolding handle
  handle-are_ordered [] l h = h
  handle-are_ordered (media_stat_ready id interval ∷ signals) l h =
      handle-are_ordered signals
        (record l { media_intervals = emplace id interval l.media_intervals }) h
  handle-are_ordered (expired id ∷ signals) l h =
      handle-are_ordered signals (on_region_expired time now id l).0
        (on_region_expired-are_ordered id l h)

  deliver-are_ordered :
      (index : ℕ) (outcome : Outcome T) (l : MainLayout T)
      → are_ordered l.regions ≡ true
      → is_ordered outcome.0 ≡ true
      → are_ordered (deliver time now index outcome l).0.regions ≡ true
  unfolding deliver
  deliver-are_ordered index (region, items, signals) l h k =
      handle-are_ordered signals (record l { regions = set_at l.regions index region })
        (all-set_at is_ordered l.regions index region h k)

  call_region-are_ordered :
      (call : Region T → UnsafeItems T → Bool × Outcome T) (index : ℕ) (region : Option (Region T))
      (l : MainLayout T) (items : UnsafeItems T)
      → ((r : Region T) → is_ordered r ≡ true → is_ordered (call r items).1.0 ≡ true)
      → get_elem? l.regions index ≡ region
      → are_ordered l.regions ≡ true
      → are_ordered (call_region time now call index region l items).1.0.regions ≡ true
  unfolding call_region
  call_region-are_ordered call index none l items keeps e h = h
  call_region-are_ordered call index (some region) l items keeps e h =
      deliver-are_ordered index (call region items).1 l h
        (keeps region (all-get_elem? is_ordered l.regions index region h e))

  call_at-are_ordered :
      (call : Region T → UnsafeItems T → Bool × Outcome T) (index : Option ℕ) (l : MainLayout T)
      (items : UnsafeItems T)
      → ((r : Region T) → is_ordered r ≡ true → is_ordered (call r items).1.0 ≡ true)
      → are_ordered l.regions ≡ true
      → are_ordered (call_at time now call index l items).1.0.regions ≡ true
  unfolding call_at
  call_at-are_ordered call none l items keeps h = h
  call_at-are_ordered call (some index) l items keeps h =
      call_region-are_ordered call index (get_elem? l.regions index) l items keeps refl h

  -- A call for a widget, for a source or of a medium's timer keeps every region of the layout ordered: its
  -- current index is in range, and no other medium than the current one plays.
  pub calls-are_ordered :
      (widget region source duration : ℤ) (index : ℕ) (l : MainLayout T) (items : UnsafeItems T)
      → are_ordered l.regions ≡ true
      → (are_ordered (navigate_to_widget time now widget region l items).1.0.regions ≡ true)
        × (are_ordered (expire_duration_target time now source l items).1.0.regions ≡ true)
        × (are_ordered (extend_duration_target time now source duration l items).1.0.regions ≡ true)
        × (are_ordered (set_duration_target time now source duration l items).1.0.regions ≡ true)
        × (are_ordered (media_finished time now index l items).0.regions ≡ true)
  unfolding navigate_to_widget expire_duration_target extend_duration_target set_duration_target
      media_finished
  calls-are_ordered widget region source duration index l items h = (
    call_at-are_ordered (navigate_to_media_id time now widget) (navigation_target widget region l) l
        items (λ r k. (calls-is_ordered time now widget duration r items k).1) h,
    call_at-are_ordered (show_next_media time now) (region_by_source_id source l) l items
        (λ r k. (calls-is_ordered time now widget duration r items k).2) h,
    call_at-are_ordered (extend_active_media_duration time now duration)
        (region_by_source_id source l) l items
        (λ r k. (calls-is_ordered time now widget duration r items k).4) h,
    call_at-are_ordered (set_active_media_duration time now duration) (region_by_source_id source l)
        l items (λ r k. (calls-is_ordered time now widget duration r items k).3) h,
    call_at-are_ordered (λ r held. (true, on_media_duration_timeout time now r held)) (some index) l
        items (λ r k. (calls-is_ordered time now widget duration r items k).0) h,
  )

  -- The layout expires only with nothing playing: if the report that a region expired makes the layout
  -- emit anything, no medium of any region plays afterwards.
  pub on_region_expired-silent :
      (id : ℤ) (l : MainLayout T)
      → are_ordered l.regions ≡ true
      → is_empty (on_region_expired time now id l).1 ≡ false
      → nothing_plays (on_region_expired time now id l).0.regions ≡ true
  unfolding on_region_expired
  on_region_expired-silent id l h =
      let marked = record l { expired_regions = insert id l.expired_regions } in
      elim (Bool-cases (are_all_regions_expired marked)) [
        | inl e ↦ λ emits. rw e (on_all_regions_expired-stops marked h).1
        | inr e ↦ λ emits. absurd (ground (arith, e, emits))
      ]

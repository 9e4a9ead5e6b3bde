-- ===== src/Region/Order.antt =====
-- The current index of a region stays in range, so the source's mediaList_[i] is defined, and no other
-- medium than the current one plays.
use xibo_linux.Base.{
  ℕ, suc, ◌≡◌, refl, sym, ap, inl, inr, Bool, true, Option, none, some, List, [], ◌∷◌, arith, ◌==◌,
  Bool-cases, ℤ, length, get_elem?, is_empty,
}
use xibo_linux.DateTime.{PosixTime}
use xibo_linux.UnsafeStore.{UnsafeItems}
use xibo_linux.Media.{Media, MediaSignal, set_remaining_duration, extend_remaining_duration}
use xibo_linux.Region.{
  Region, set_at, remove_media, on_media_duration_timeout, start_region, stop_region, stop_all,
  navigate_to, navigate_to_media_id, show_next_media, change_active, change_current, changed_to,
  navigate_found, set_active_media_duration, extend_active_media_duration, has_finished,
  get_next_media_index, should_be_media_replaced, media_index_by_id,
}
use xibo_linux.Region.Plays.{
  none_plays, is_ordered, none-only, set_at-same, only_plays-idle, length-set_at, is_empty-set_at,
}
use xibo_linux.Region.Placing.{
  stop-playing, remove_media-stops, place_at-is_ordered, place_media-is_ordered,
}

module _ {T : Type 0} (time : PosixTime T) (now : T) where
  on_media_duration_timeout-is_ordered :
      (r : Region T) (items : UnsafeItems T)
      → is_ordered r ≡ true
      → is_ordered (on_media_duration_timeout time now r items).0 ≡ true
  unfolding on_media_duration_timeout
  on_media_duration_timeout-is_ordered r items h = elim (Bool-cases (should_be_media_replaced r)) [
    | inl e ↦
        let (stopped, ranged) = remove_media-stops time now r h in
        rw e (
          place_media-is_ordered time now
            (get_next_media_index (remove_media time now r.current_media_index r).0)
            (remove_media time now r.current_media_index r).0 items ranged stopped)
    | inr e ↦ rw e h
  ]

  stop_all-none_plays : (list : List (Media T)) → none_plays (stop_all time now list).0 ≡ true
  unfolding stop_all
  stop_all-none_plays [] = refl
  stop_all-none_plays (media ∷ rest) =
      ground (arith, stop-playing time now media, stop_all-none_plays rest)

  length-stop_all : (list : List (Media T)) → length (stop_all time now list).0 ≡ length list
  unfolding stop_all
  length-stop_all [] = refl
  length-stop_all (media ∷ rest) = ap suc (length-stop_all rest)

  is_empty-stop_all : (list : List (Media T)) → is_empty (stop_all time now list).0 ≡ is_empty list
  unfolding stop_all
  is_empty-stop_all [] = refl
  is_empty-stop_all (media ∷ rest) = refl

  navigate_to-is_ordered :
      (index : ℕ) (media : Option (Media T)) (r : Region T) (items : UnsafeItems T)
      → media ≡ get_elem? r.media_list r.current_media_index
      → is_ordered r ≡ true
      → is_ordered (navigate_to time now index media r items).1.0 ≡ true
  unfolding navigate_to
  navigate_to-is_ordered index none r items e h = h
  navigate_to-is_ordered index (some media) r items e h =
      elim (Bool-cases (r.current_media_index == index)) [
        | inl same ↦ rw same h
        | inr other ↦ elim (Bool-cases media.player.playing) [
          | inl plays ↦
              let (stopped, ranged) = remove_media-stops time now r h in
              rw (other, plays)
                (place_media-is_ordered time now index
                  (remove_media time now r.current_media_index r).0 items ranged stopped)
          | inr idle ↦
              rw (other, idle)
                (place_media-is_ordered time now index r items (ground arith) (
                  only_plays-idle r.current_media_index r.media_list media (ground arith) (sym e)
                    idle))
        ]
      ]

  navigate_found-is_ordered :
      (index : Option ℕ) (r : Region T) (items : UnsafeItems T)
      → is_ordered r ≡ true
      → is_ordered (navigate_found time now index r items).1.0 ≡ true
  unfolding navigate_found
  navigate_found-is_ordered none r items h = h
  navigate_found-is_ordered (some index) r items h = navigate_to-is_ordered index _ r items refl h

  show_next_media-is_ordered :
      (r : Region T) (items : UnsafeItems T)
      → is_ordered r ≡ true
      → is_ordered (show_next_media time now r items).1.0 ≡ true
  unfolding show_next_media
  show_next_media-is_ordered r items h = elim (Bool-cases (is_empty r.media_list)) [
    | inl e ↦ rw e h
    | inr e ↦ rw e (on_media_duration_timeout-is_ordered r items h)
  ]

  changed-is_ordered :
      (r : Region T) (new : Media T)
      → is_ordered r ≡ true
      → is_ordered (record r { media_list = set_at r.media_list r.current_media_index new }) ≡ true
  changed-is_ordered r new h = ground (
    arith,
    length-set_at r.media_list r.current_media_index new,
    is_empty-set_at r.media_list r.current_media_index new,
    set_at-same r.current_media_index r.media_list new,
  )

  changed_to-is_ordered :
      (outcome : Bool × Media T × List (MediaSignal T)) (r : Region T) (items : UnsafeItems T)
      → is_ordered r ≡ true
      → is_ordered (changed_to time now outcome r items).1.0 ≡ true
  unfolding changed_to
  changed_to-is_ordered (changed, new, signals) r items h =
      elim (Bool-cases (has_finished signals)) [
        | inl ends ↦ rw ends (
            on_media_duration_timeout-is_ordered
              (record r { media_list = set_at r.media_list r.current_media_index new }) items
              (changed-is_ordered r new h))
        | inr goes_on ↦ rw goes_on (changed-is_ordered r new h)
      ]

  change_current-is_ordered :
      (change : Media T → Bool × Media T × List (MediaSignal T)) (media : Option (Media T))
      (r : Region T) (items : UnsafeItems T)
      → is_ordered r ≡ true
      → is_ordered (change_current time now change media r items).1.0 ≡ true
  unfolding change_current
  change_current-is_ordered change none r items h = h
  change_current-is_ordered change (some media) r items h =
      changed_to-is_ordered (change media) r items h

  stopped-is_ordered :
      (r : Region T) → is_ordered r ≡ true → is_ordered (stop_region time now r).0 ≡ true
  unfolding stop_region
  stopped-is_ordered r h = ground (
    arith,
    length-stop_all r.media_list,
    is_empty-stop_all r.media_list,
    none-only r.current_media_index (stop_all time now r.media_list).0
        (stop_all-none_plays r.media_list),
  )

  pub stop_region-stops :
      (r : Region T)
      → is_ordered r ≡ true
      → (is_ordered (stop_region time now r).0 ≡ true)
        × (none_plays (stop_region time now r).0.media_list ≡ true)
  unfolding stop_region
  stop_region-stops r h = (stopped-is_ordered r h, stop_all-none_plays r.media_list)

  pub start_region-is_ordered :
      (r : Region T) (items : UnsafeItems T)
      → is_ordered r ≡ true
      → none_plays r.media_list ≡ true
      → is_ordered (start_region time now r items).0 ≡ true
  unfolding start_region
  start_region-is_ordered r items h k = elim (Bool-cases (is_empty r.media_list)) [
    | inl e ↦ rw e h
    | inr e ↦ rw e (
        place_at-is_ordered time now (record r { view = record r.view { shown = true } }) _
          (ground arith) k)
  ]

  -- If the current index of a region is one of its media, or it has none, and no other medium than the
  -- current one plays, that stays so when the current medium's time is over, on a navigation, when the
  -- next medium is shown, when the duration is set or extended, when the region is stopped, and when it
  -- is started after having been stopped.
  pub calls-is_ordered :
      (id seconds : ℤ) (r : Region T) (items : UnsafeItems T)
      → is_ordered r ≡ true
      → (is_ordered (on_media_duration_timeout time now r items).0 ≡ true)
        × (is_ordered (navigate_to_media_id time now id r items).1.0 ≡ true)
        × (is_ordered (show_next_media time now r items).1.0 ≡ true)
        × (is_ordered (set_active_media_duration time now seconds r items).1.0 ≡ true)
        × (is_ordered (extend_active_media_duration time now seconds r items).1.0 ≡ true)
        × (is_ordered (stop_region time now r).0 ≡ true)
        × (is_ordered (start_region time now (stop_region time now r).0 items).0 ≡ true)
  unfolding navigate_to_media_id set_active_media_duration extend_active_media_duration
      change_active stop_region
  calls-is_ordered id seconds r items h = (
    on_media_duration_timeout-is_ordered r items h,
    navigate_found-is_ordered (media_index_by_id id r) r items h,
    show_next_media-is_ordered r items h,
    change_current-is_ordered (set_remaining_duration time now seconds) _ r items h,
    change_current-is_ordered (extend_remaining_duration time now seconds) _ r items h,
    stopped-is_ordered r h,
    start_region-is_ordered (stop_region time now r).0 items (stopped-is_ordered r h)
        (stop_all-none_plays r.media_list),
  )

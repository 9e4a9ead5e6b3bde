-- ===== src/Region/Placing.antt =====
-- Placing and removing a medium keeps the current index in range, and no other medium plays.
use xibo_linux.Base.{
  ℕ, ◌≡◌, inl, inr, true, false, Option, none, some, arith, Bool-cases, Option-cases, get_elem?,
  is_empty,
}
use xibo_linux.DateTime.{PosixTime}
use xibo_linux.UnsafeStore.{UnsafeItems}
use xibo_linux.Media.{Media, start, stop, stop_player}
use xibo_linux.Region.{Region, set_at, place_at, place_media, start_at, remove_media}
use xibo_linux.Region.Plays.{
  none_plays, in_range, is_ordered, none-only, set_at-only_plays, set_at-none_plays,
  only_plays-missing, length-set_at, is_empty-set_at, get_elem?-bound,
}

module _ {T : Type 0} (time : PosixTime T) (now : T) where
  pub stop-playing : (media : Media T) → (stop time now media).0.player.playing ≡ false
  unfolding stop stop_player
  stop-playing media = ground arith

  pub start_at_of_some :
      (index : ℕ) (r : Region T) (media : Media T)
      → get_elem? r.media_list index ≡ some media
      → start_at time now index r ≡ record r {
        current_media_index = index;
        media_list = set_at r.media_list index (start time now media);
      }
  unfolding start_at
  start_at_of_some index r media e = ground (arith, e)

  pub start_at_of_none :
      (index : ℕ) (r : Region T)
      → get_elem? r.media_list index ≡ none
      → start_at time now index r ≡ r
  unfolding start_at
  start_at_of_none index r e = ground (arith, e)

  pub remove_media_of_some :
      (index : ℕ) (r : Region T) (media : Media T)
      → get_elem? r.media_list index ≡ some media
      → (remove_media time now index r).0
        ≡ record r { media_list = set_at r.media_list index (stop time now media).0 }
  unfolding remove_media
  remove_media_of_some index r media e = ground (arith, e)

  pub remove_media_of_none :
      (index : ℕ) (r : Region T)
      → get_elem? r.media_list index ≡ none
      → (remove_media time now index r).0 ≡ r
  unfolding remove_media
  remove_media_of_none index r e = ground (arith, e)

  pub start_at-is_ordered :
      (index : ℕ) (r : Region T)
      → in_range r ≡ true
      → none_plays r.media_list ≡ true
      → is_ordered (start_at time now index r) ≡ true
  start_at-is_ordered index r h k = elim (Option-cases (get_elem? r.media_list index)) [
    | inl e ↦
        rw (start_at_of_none index r e)
          (ground (arith, none-only r.current_media_index r.media_list))
    | inr (media, e) ↦ rw (start_at_of_some index r media e) (
        ground (
          arith,
          length-set_at r.media_list index (start time now media),
          get_elem?-bound r.media_list index media e,
          set_at-only_plays index r.media_list (start time now media) k,
        ))
  ]

  pub remove_media-stops :
      (r : Region T)
      → is_ordered r ≡ true
      → (none_plays (remove_media time now r.current_media_index r).0.media_list ≡ true)
        × (in_range (remove_media time now r.current_media_index r).0 ≡ true)
  remove_media-stops r h = elim (Option-cases (get_elem? r.media_list r.current_media_index)) [
    | inl e ↦
        rw (remove_media_of_none r.current_media_index r e)
          (only_plays-missing r.current_media_index r.media_list (ground arith) e, ground arith)
    | inr (media, e) ↦ rw (remove_media_of_some r.current_media_index r media e) (
      set_at-none_plays r.current_media_index r.media_list _ (ground arith) (stop-playing media),
      ground (
        arith,
        length-set_at r.media_list r.current_media_index (stop time now media).0,
        is_empty-set_at r.media_list r.current_media_index (stop time now media).0,
      ),
    )
  ]

  pub place_at-is_ordered :
      (r : Region T) (found : Option ℕ × UnsafeItems T)
      → in_range r ≡ true
      → none_plays r.media_list ≡ true
      → is_ordered (place_at time now r found).0 ≡ true
  unfolding place_at
  place_at-is_ordered r (none, items) h k =
      ground (arith, none-only r.current_media_index r.media_list)
  place_at-is_ordered r (some index, items) h k = start_at-is_ordered index r h k

  pub place_media-is_ordered :
      (index : ℕ) (r : Region T) (items : UnsafeItems T)
      → in_range r ≡ true
      → none_plays r.media_list ≡ true
      → is_ordered (place_media time now index r items).0 ≡ true
  unfolding place_media
  place_media-is_ordered index r items h k = elim (Bool-cases (is_empty r.media_list)) [
    | inl e ↦ rw e (ground (arith, none-only r.current_media_index r.media_list))
    | inr e ↦ rw e (place_at-is_ordered r _ h k)
  ]

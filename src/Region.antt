-- ===== src/Region.antt =====
-- control/region/RegionImpl: the media of a region and which of them plays. `now` is what
-- DateTime::now() reads during the call, and `unsafe_items` the items of UnsafeItemStore::instance().
pub mod Position
pub mod Plays
pub mod Placing
pub mod Order
pub mod Candidate
pub mod Cyclic
use xibo_linux.Base.{
  ℕ, zero, suc, ◌+◌, ◌-◌, ◌*◌, ◌/◌, ◌%◌, ◌≤◌, ◌<◌, String, ◌≡◌, refl, sym, ap, subst, ◌∙◌, ◌≢◌, ◌↔◌,
  ◌⊎◌, inl, inr, Bool, true, false, not, ◌&&◌, ◌||◌, Option, none, some, List, [], ◌∷◌, ◌++◌, map,
  append_assoc, append-nil, arith, ltb, leb, ◌==◌, if◌then◌else◌, Bool-cases, Option-cases,
  &&-eq-true, ◌>>=◌, is_some, >>=-eq_of_some, >>=-eq-some, ℤ, pos, negsuc, ◌+ℤ◌, ◌-ℤ◌, ◌≤ℤ◌, ltb_ℤ,
  leb_ℤ, ◌==ℤ◌, ==ℤ_iff, ==ℤ_refl, length, get_elem?, filter, any, all, find, is_empty, filter_idem,
  filter-append, all-filter, filter_of_all, all-append, any-append, length-append, get_elem?_lt,
  str_eq, str_eq_iff, ◌++ₛ◌, contains, to_string, stoi,
}
use xibo_linux.DateTime.{PosixTime}
use xibo_linux.UnsafeStore.{UnsafeItems, region, is_unsafe_widget, is_unsafe_media, add_unsafe_item}
use xibo_linux.Media.{
  Player, Media, MediaSignal, PlayingTime, finished, stat_ready, start, stop,
  set_remaining_duration, extend_remaining_duration,
}
use xibo_linux.Region.Position.{get_media_x, get_media_y}

pub data Loop : Type 0 where
  disable enable : Loop

pub record RegionOptions : Type 0 where
  pub layout_id : ℤ
  pub id : ℤ
  pub width : ℤ
  pub height : ℤ
  pub loop : Loop

-- The container of the region: `children` holds the position of each medium with a widget.
pub record Container : Type 0 where
  pub width : ℤ
  pub height : ℤ
  pub shown : Bool
  pub children : List (ℤ × ℤ)

pub record Region (T : Type 0) : Type 0 where
  pub options : RegionOptions
  pub view : Container
  pub media_list : List (Media T)
  pub current_media_index : ℕ

-- What a call emits: regionExpired_, and the statReady_ of one of the media, by its id.
pub data RegionSignal (T : Type 0) : Type 0 where
  expired : ℤ → RegionSignal T
  media_stat_ready : ℤ → PlayingTime T → RegionSignal T

-- The region, the items of the UnsafeItemStore and the signals emitted.
abbrev pub Outcome : Type 0 → Type 0
Outcome T = Region T × UnsafeItems T × List (RegionSignal T)

-- std::vector's operator[] and a write through it. Out of range, which C++ leaves undefined, the
-- first is none and the second changes nothing.
abbrev pub set_at : {A : Type 0} → List A → ℕ → A → List A
set_at [] i a = []
set_at (x ∷ xs) zero a = a ∷ xs
set_at (x ∷ xs) (suc i) a = x ∷ set_at xs i a

abbrev pub media_signals : {T : Type 0} → ℤ → List (MediaSignal T) → List (RegionSignal T)
media_signals id [] = []
media_signals id (finished ∷ signals) = media_signals id signals
media_signals id (stat_ready interval ∷ signals) =
    media_stat_ready id interval ∷ media_signals id signals

abbrev pub has_finished : {T : Type 0} → List (MediaSignal T) → Bool
has_finished [] = false
has_finished (finished ∷ signals) = true
has_finished (stat_ready interval ∷ signals) = has_finished signals

module _ {T : Type 0} where
  abbrev pub create : RegionOptions → Region T
  create options = record {
    options = options;
    view = record { width = options.width; height = options.height; shown = false; children = [] };
    media_list = [];
    current_media_index = 0;
  }

  unfoldable pub calc_media_position : Container → Media T → Option (ℤ × ℤ)
  calc_media_position view media = elim (media.player.widget) [
    | none ↦ none
    | some widget ↦ some (
      get_media_x view.width widget.width media.player.align,
      get_media_y view.height widget.height media.player.valign,
    )
  ]

  unfoldable pub add_media : Media T → Region T → Region T
  unfolding calc_media_position
  add_media media r = elim (calc_media_position r.view media) [
    | none ↦ record r { media_list = r.media_list ++ (media ∷ []) }
    | some at ↦ record r {
      view = record r.view { children = r.view.children ++ (at ∷ []) };
      media_list = r.media_list ++ (media ∷ []);
    }
  ]

  unfoldable pub index_from : ℕ → ℤ → List (Media T) → Option ℕ
  index_from index id [] = none
  index_from index id (media ∷ rest) =
      if media.player.id ==ℤ id then some index else index_from (index + 1) id rest

  unfoldable pub media_index_by_id : ℤ → Region T → Option ℕ
  unfolding index_from
  media_index_by_id id r = index_from 0 id r.media_list

  unfoldable pub has_media_id : ℤ → Region T → Bool
  unfolding media_index_by_id
  has_media_id id r = is_some (media_index_by_id id r)

  -- hasActiveMediaId. A list with media has one at the current index, see Region/Order.
  unfoldable pub has_active_media_id : ℤ → Region T → Bool
  has_active_media_id id r = elim (get_elem? r.media_list r.current_media_index) [
    | none ↦ false
    | some media ↦ media.player.id ==ℤ id
  ]

  unfoldable pub should_be_media_replaced : Region T → Bool
  should_be_media_replaced r = elim (r.options.loop) [
    | enable ↦ true
    | disable ↦ ltb 1 (length r.media_list)
  ]

  unfoldable pub next_index : Region T → ℕ → ℕ
  next_index r index = if leb (length r.media_list) (index + 1) then 0 else index + 1

  unfoldable pub get_next_media_index : Region T → ℕ
  unfolding next_index
  get_next_media_index r = next_index r r.current_media_index

  unfoldable pub is_expired : Region T → Bool
  is_expired r = r.current_media_index == 0

module _ {T : Type 0} (time : PosixTime T) (now : T) where
  abbrev pub no_content : Region T → UnsafeItems T → UnsafeItems T
  no_content r unsafe_items =
      add_unsafe_item time now region (pos 5000) r.options.layout_id (to_string r.options.id)
        "There are no valid widgets inside one of the regions in this layout" (pos 60) unsafe_items

  -- The condition of placeMedia's loop. The second query runs only if the first fails.
  unfoldable pub is_unsafe : Media T → UnsafeItems T → Bool × UnsafeItems T
  is_unsafe media unsafe_items =
      let (flagged, items) = is_unsafe_widget time now (to_string media.player.id) unsafe_items in
      if flagged then (true, items) else is_unsafe_media time now (to_string media.player.id) items

  -- The loop of placeMedia from a candidate, with `attempts` left: the first candidate that is not
  -- unsafe, or none.
  unfoldable pub find_candidate : Region T → ℕ → ℕ → UnsafeItems T → Option ℕ × UnsafeItems T
  unfolding is_unsafe next_index
  find_candidate r zero index unsafe_items = (none, unsafe_items)
  find_candidate r (suc attempts) index unsafe_items = elim (get_elem? r.media_list index) [
    | none ↦ (none, unsafe_items)
    | some media ↦
        let (flagged, items) = is_unsafe media unsafe_items in
        let rest = find_candidate r attempts (next_index r index) items in
        if flagged then rest else (some index, items)
  ]

  unfoldable pub start_at : ℕ → Region T → Region T
  start_at index r = elim (get_elem? r.media_list index) [
    | none ↦ r
    | some media ↦ record r {
      current_media_index = index;
      media_list = set_at r.media_list index (start time now media);
    }
  ]

  unfoldable pub place_at : Region T → Option ℕ × UnsafeItems T → Outcome T
  unfolding start_at
  place_at r (none, unsafe_items) = (r, no_content r unsafe_items, expired r.options.id ∷ [])
  place_at r (some index, unsafe_items) = (start_at index r, unsafe_items, [])

  unfoldable pub place_media : ℕ → Region T → UnsafeItems T → Outcome T
  unfolding find_candidate place_at
  place_media index r unsafe_items =
      if is_empty r.media_list
      then (r, unsafe_items, [])
      else place_at r (find_candidate r (length r.media_list) index unsafe_items)

  unfoldable pub remove_media : ℕ → Region T → Region T × List (RegionSignal T)
  remove_media index r = elim (get_elem? r.media_list index) [
    | none ↦ (r, [])
    | some media ↦
        let (stopped, signals) = stop time now media in
        (
          record r { media_list = set_at r.media_list index stopped },
          media_signals media.player.id signals,
        )
  ]

  -- The signals of a call that follows others.
  abbrev pub after : List (RegionSignal T) → Outcome T → Outcome T
  after signals (r, items, more) = (r, items, signals ++ more)

  abbrev pub expire : Outcome T → Outcome T
  expire (r, items, signals) =
      (r, items, if is_expired r then signals ++ (expired r.options.id ∷ []) else signals)

  unfoldable pub on_media_duration_timeout : Region T → UnsafeItems T → Outcome T
  unfolding should_be_media_replaced remove_media place_media get_next_media_index is_expired
  on_media_duration_timeout r unsafe_items =
      if should_be_media_replaced r
      then (let (removed, signals) = remove_media r.current_media_index r in
          expire (after signals (place_media (get_next_media_index removed) removed unsafe_items)))
      else expire (r, unsafe_items, [])

  unfoldable pub start_region : Region T → UnsafeItems T → Outcome T
  unfolding place_media
  start_region r unsafe_items =
      if is_empty r.media_list
      then (r, no_content r unsafe_items, expired r.options.id ∷ [])
      else place_media 0 (record r { view = record r.view { shown = true } }) unsafe_items

  unfoldable pub stop_all : List (Media T) → List (Media T) × List (RegionSignal T)
  stop_all [] = ([], [])
  stop_all (media ∷ rest) =
      let (stopped, signals) = stop time now media in
      let (others, more) = stop_all rest in
      (stopped ∷ others, media_signals media.player.id signals ++ more)

  unfoldable pub stop_region : Region T → Region T × List (RegionSignal T)
  unfolding stop_all
  stop_region r =
      let (stopped, signals) = stop_all r.media_list in
      (record r { media_list = stopped; view = record r.view { shown = false } }, signals)

  -- navigateToMediaId, for the index of the medium and the one that is current.
  unfoldable pub navigate_to : ℕ → Option (Media T) → Region T → UnsafeItems T → Bool × Outcome T
  unfolding remove_media place_media
  navigate_to index none r unsafe_items = (false, (r, unsafe_items, []))
  navigate_to index (some media) r unsafe_items =
      if r.current_media_index == index
      then (true, (r, unsafe_items, []))
      else (let (removed, signals) =
            if media.player.playing then remove_media r.current_media_index r else (r, []) in
          (true, after signals (place_media index removed unsafe_items)))

  -- navigateToMediaId, for the index of the medium, if it is found.
  unfoldable pub navigate_found : Option ℕ → Region T → UnsafeItems T → Bool × Outcome T
  unfolding navigate_to
  navigate_found none r unsafe_items = (false, (r, unsafe_items, []))
  navigate_found (some index) r unsafe_items =
      navigate_to index (get_elem? r.media_list r.current_media_index) r unsafe_items

  unfoldable pub navigate_to_media_id : ℤ → Region T → UnsafeItems T → Bool × Outcome T
  unfolding navigate_found media_index_by_id
  navigate_to_media_id id r unsafe_items = navigate_found (media_index_by_id id r) r unsafe_items

  unfoldable pub show_next_media : Region T → UnsafeItems T → Bool × Outcome T
  unfolding on_media_duration_timeout
  show_next_media r unsafe_items =
      if is_empty r.media_list
      then (false, (r, unsafe_items, []))
      else (true, on_media_duration_timeout r unsafe_items)

  -- What a change of the current medium gave. If it finishes, the region's slot runs before the call
  -- returns.
  unfoldable pub changed_to :
      Bool × Media T × List (MediaSignal T) → Region T → UnsafeItems T → Bool × Outcome T
  unfolding on_media_duration_timeout
  changed_to (changed, new_media, signals) r unsafe_items =
      let new_region = record r {
        media_list = set_at r.media_list r.current_media_index new_media;
      } in
      (
        changed,
        if has_finished signals
            then on_media_duration_timeout new_region unsafe_items
            else (new_region, unsafe_items, []),
      )

  unfoldable pub change_current :
      (Media T → Bool × Media T × List (MediaSignal T))
      → Option (Media T)
      → Region T
      → UnsafeItems T
      → Bool × Outcome T
  unfolding changed_to
  change_current change none r unsafe_items = (false, (r, unsafe_items, []))
  change_current change (some media) r unsafe_items = changed_to (change media) r unsafe_items

  unfoldable pub change_active :
      (Media T → Bool × Media T × List (MediaSignal T))
      → Region T
      → UnsafeItems T
      → Bool × Outcome T
  unfolding change_current
  change_active change r unsafe_items =
      change_current change (get_elem? r.media_list r.current_media_index) r unsafe_items

  unfoldable pub set_active_media_duration : ℤ → Region T → UnsafeItems T → Bool × Outcome T
  unfolding change_active
  set_active_media_duration duration = change_active (set_remaining_duration time now duration)

  unfoldable pub extend_active_media_duration : ℤ → Region T → UnsafeItems T → Bool × Outcome T
  unfolding change_active
  extend_active_media_duration duration =
      change_active (extend_remaining_duration time now duration)

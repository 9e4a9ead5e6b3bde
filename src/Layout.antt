-- ===== src/Layout.antt =====
-- control/layout/MainLayoutImpl: the regions of a layout, which of them expired, and the intervals to
-- report. `now` is what DateTime::now() reads during the call, and `unsafe_items` the items of
-- UnsafeItemStore::instance(). What is connected to the layout's own signals is not part of the
-- class: they are recorded as a trace. The background is not modelled.
pub mod Regions
use xibo_linux.Base.{
  ℕ, zero, suc, ◌+◌, ◌-◌, ◌*◌, ◌/◌, ◌%◌, ◌≤◌, ◌<◌, String, ◌≡◌, refl, sym, ap, subst, ◌∙◌, ◌≢◌, ◌↔◌,
  ◌⊎◌, inl, inr, Bool, true, false, not, ◌&&◌, ◌||◌, Option, none, some, List, [], ◌∷◌, ◌++◌, map,
  append_assoc, append-nil, arith, ltb, leb, ◌==◌, if◌then◌else◌, Bool-cases, Option-cases,
  &&-eq-true, ◌>>=◌, is_some, >>=-eq_of_some, >>=-eq-some, ℤ, pos, negsuc, ◌+ℤ◌, ◌-ℤ◌, ◌≤ℤ◌, ltb_ℤ,
  leb_ℤ, ◌==ℤ◌, ==ℤ_iff, ==ℤ_refl, length, get_elem?, filter, any, all, find, is_empty, filter_idem,
  filter-append, all-filter, filter_of_all, all-append, any-append, length-append, get_elem?_lt,
  str_eq, str_eq_iff, ◌++ₛ◌, contains, to_string, stoi,
}
use xibo_linux.DateTime.{PosixTime}
use xibo_linux.UnsafeStore.{UnsafeItems}
use xibo_linux.Media.{PlayingTime, cleared}
use xibo_linux.Region.{
  Region, RegionSignal, Outcome, expired, media_stat_ready, set_at, start_region, stop_region,
  has_media_id, has_active_media_id, navigate_to_media_id, on_media_duration_timeout,
  show_next_media, set_active_media_duration, extend_active_media_duration,
}

-- std::multimap<int, Stats::PlayingTime>, by ascending id, equal ids in the order of insertion.
abbrev pub MediaPlayingTime : Type 0 → Type 0
MediaPlayingTime T = List (ℤ × PlayingTime T)

pub data LayoutSignal (T : Type 0) : Type 0 where
  layout_expired : LayoutSignal T
  layout_stat_ready : PlayingTime T → LayoutSignal T
  media_stats_ready : MediaPlayingTime T → LayoutSignal T

-- The members of MainLayoutImpl; of options_, what its functions read. `children` holds the position and
-- the order of each region's view.
pub record MainLayout (T : Type 0) : Type 0 where
  pub id : ℤ
  pub stat_enabled : Bool
  pub children : List (ℤ × ℤ × ℤ)
  pub interval : PlayingTime T
  pub media_intervals : MediaPlayingTime T
  pub regions : List (Region T)
  pub expired_regions : List ℤ

abbrev pub LayoutOutcome : Type 0 → Type 0
LayoutOutcome T = MainLayout T × UnsafeItems T × List (LayoutSignal T)

-- std::multimap::emplace
unfoldable pub emplace : {A : Type 0} → ℤ → A → List (ℤ × A) → List (ℤ × A)
emplace id a [] = (id, a) ∷ []
emplace id a ((key, value) ∷ rest) =
    let inserted = emplace id a rest in
    if ltb_ℤ id key then (id, a) ∷ (key, value) ∷ rest else (key, value) ∷ inserted

-- std::set<int>::insert
unfoldable pub insert : ℤ → List ℤ → List ℤ
insert id [] = id ∷ []
insert id (key ∷ rest) =
    let inserted = insert id rest in
    if id ==ℤ key then key ∷ rest else if ltb_ℤ id key then id ∷ key ∷ rest else key ∷ inserted

-- The first region with a property, as its index.
unfoldable pub find_region : {T : Type 0} → (Region T → Bool) → ℕ → List (Region T) → Option ℕ
find_region p index [] = none
find_region p index (region ∷ rest) =
    if p region then some index else find_region p (index + 1) rest

-- The slots of statReady that monitorMediaStats connects.
unfoldable pub record_stats :
    {T : Type 0} → List (RegionSignal T) → MediaPlayingTime T → MediaPlayingTime T
unfolding emplace
record_stats [] intervals = intervals
record_stats (expired id ∷ signals) intervals = record_stats signals intervals
record_stats (media_stat_ready id interval ∷ signals) intervals =
    record_stats signals (emplace id interval intervals)

module _ {T : Type 0} where
  unfoldable pub add_region : Region T → ℤ → ℤ → ℤ → MainLayout T → MainLayout T
  add_region region left top zorder l = record l {
    children = l.children ++ ((left, top, zorder) ∷ []);
    regions = l.regions ++ (region ∷ []);
  }

  unfoldable pub region_by_id : ℤ → MainLayout T → Option ℕ
  unfolding find_region
  region_by_id id l = find_region (λ region. region.options.id ==ℤ id) 0 l.regions

  unfoldable pub region_by_widget_id : ℤ → MainLayout T → Option ℕ
  unfolding find_region
  region_by_widget_id id l = find_region (has_media_id id) 0 l.regions

  unfoldable pub region_by_source_id : ℤ → MainLayout T → Option ℕ
  unfolding find_region region_by_id
  region_by_source_id id l =
      if leb_ℤ id (pos 0) then none else elim (find_region (has_active_media_id id) 0 l.regions) [
        | none ↦ region_by_id id l
        | some index ↦ some index
      ]

  -- The region that navigateToWidget asks.
  unfoldable pub navigation_target : ℤ → ℤ → MainLayout T → Option ℕ
  unfolding region_by_id region_by_widget_id
  navigation_target widget_id region_id l =
      if ltb_ℤ (pos 0) region_id
      then elim (region_by_id region_id l) [
        | none ↦ none
        | some index ↦ elim (get_elem? l.regions index) [
          | none ↦ none
          | some region ↦ if has_media_id widget_id region then some index else none
        ]
      ]
      else region_by_widget_id widget_id l

  unfoldable pub are_all_regions_expired : MainLayout T → Bool
  are_all_regions_expired l = length l.expired_regions == length l.regions

module _ {T : Type 0} (time : PosixTime T) (now : T) where
  -- stopRegions, with the statistics that the regions report.
  unfoldable pub stop_regions :
      List (Region T) → MediaPlayingTime T → List (Region T) × MediaPlayingTime T
  unfolding record_stats
  stop_regions [] intervals = ([], intervals)
  stop_regions (region ∷ rest) intervals =
      let (stopped, signals) = stop_region time now region in
      let (others, all_intervals) = stop_regions rest (record_stats signals intervals) in
      (stopped ∷ others, all_intervals)

  unfoldable pub stop_layout : MainLayout T → MainLayout T
  unfolding stop_regions
  stop_layout l =
      let (stopped, intervals) = stop_regions l.regions l.media_intervals in
      record l {
        interval = record l.interval { finished = now };
        regions = stopped;
        media_intervals = intervals;
      }

  unfoldable pub on_all_regions_expired : MainLayout T → MainLayout T × List (LayoutSignal T)
  unfolding stop_layout
  on_all_regions_expired l =
      let stopped = stop_layout l in
      (
        stopped,
        (if stopped.stat_enabled then layout_stat_ready stopped.interval ∷ [] else [])
            ++ (if is_empty stopped.media_intervals
                then []
                else media_stats_ready stopped.media_intervals ∷ [])
            ++ (layout_expired ∷ []),
      )

  unfoldable pub on_region_expired : ℤ → MainLayout T → MainLayout T × List (LayoutSignal T)
  unfolding insert are_all_regions_expired on_all_regions_expired
  on_region_expired id l =
      let marked = record l { expired_regions = insert id l.expired_regions } in
      if are_all_regions_expired marked then on_all_regions_expired marked else (marked, [])

  -- The slots that addRegion connects, for what a region emits.
  unfoldable pub handle :
      List (RegionSignal T) → MainLayout T → MainLayout T × List (LayoutSignal T)
  unfolding emplace on_region_expired
  handle [] l = (l, [])
  handle (media_stat_ready id interval ∷ signals) l =
      handle signals (record l { media_intervals = emplace id interval l.media_intervals })
  handle (expired id ∷ signals) l =
      let (handled, first) = on_region_expired id l in
      let (final, more) = handle signals handled in (final, first ++ more)

  -- A call of the region at an index: its outcome is written back and its signals reach the slots.
  unfoldable pub deliver : ℕ → Outcome T → MainLayout T → LayoutOutcome T
  unfolding handle
  deliver index (region, unsafe_items, signals) l =
      let (handled, emitted) =
        handle signals (record l { regions = set_at l.regions index region }) in
      (handled, unsafe_items, emitted)

  -- startRegions, from the region at an index and for the number of those left.
  unfoldable pub start_regions : ℕ → ℕ → MainLayout T → UnsafeItems T → LayoutOutcome T
  unfolding deliver
  start_regions zero index l unsafe_items = (l, unsafe_items, [])
  start_regions (suc left) index l unsafe_items = elim (get_elem? l.regions index) [
    | none ↦ (l, unsafe_items, [])
    | some region ↦
        let (started, items, first) = deliver index (start_region time now region unsafe_items) l in
        let (final, final_items, more) = start_regions left (index + 1) started items in
        (final, final_items, first ++ more)
  ]

  unfoldable pub start_layout : MainLayout T → UnsafeItems T → LayoutOutcome T
  unfolding start_regions
  start_layout l unsafe_items =
      start_regions (length l.regions) 0
        (record l { interval = record l.interval { started = now } }) unsafe_items

  unfoldable pub restart : MainLayout T → UnsafeItems T → LayoutOutcome T
  unfolding stop_layout start_layout
  restart l unsafe_items =
      start_layout
        (record (stop_layout l) {
          interval = cleared time;
          media_intervals = [];
          expired_regions = [];
        })
        unsafe_items

  -- A call that returns a Boolean, of the region at an index that was found or not.
  unfoldable pub call_region :
      (Region T → UnsafeItems T → Bool × Outcome T)
      → ℕ
      → Option (Region T)
      → MainLayout T
      → UnsafeItems T
      → Bool × LayoutOutcome T
  unfolding deliver
  call_region call index none l unsafe_items = (false, (l, unsafe_items, []))
  call_region call index (some region) l unsafe_items =
      let (result, outcome) = call region unsafe_items in (result, deliver index outcome l)

  unfoldable pub call_at :
      (Region T → UnsafeItems T → Bool × Outcome T)
      → Option ℕ
      → MainLayout T
      → UnsafeItems T
      → Bool × LayoutOutcome T
  unfolding call_region
  call_at call none l unsafe_items = (false, (l, unsafe_items, []))
  call_at call (some index) l unsafe_items =
      call_region call index (get_elem? l.regions index) l unsafe_items

  -- The slot of a medium's `finished` in the region at an index, when the medium's timer fires.
  unfoldable pub media_finished : ℕ → MainLayout T → UnsafeItems T → LayoutOutcome T
  unfolding call_at
  media_finished index l unsafe_items =
      (call_at (λ region items. (true, on_media_duration_timeout time now region items))
        (some index) l unsafe_items).1

  unfoldable pub navigate_to_widget : ℤ → ℤ → MainLayout T → UnsafeItems T → Bool × LayoutOutcome T
  unfolding call_at navigation_target
  navigate_to_widget widget_id region_id l =
      call_at (navigate_to_media_id time now widget_id) (navigation_target widget_id region_id l) l

  unfoldable pub expire_duration_target : ℤ → MainLayout T → UnsafeItems T → Bool × LayoutOutcome T
  unfolding call_at region_by_source_id
  expire_duration_target source_id l =
      call_at (show_next_media time now) (region_by_source_id source_id l) l

  unfoldable pub extend_duration_target :
      ℤ → ℤ → MainLayout T → UnsafeItems T → Bool × LayoutOutcome T
  unfolding call_at region_by_source_id
  extend_duration_target source_id duration l =
      call_at (extend_active_media_duration time now duration) (region_by_source_id source_id l) l

  unfoldable pub set_duration_target : ℤ → ℤ → MainLayout T → UnsafeItems T → Bool × LayoutOutcome T
  unfolding call_at region_by_source_id
  set_duration_target source_id duration l =
      call_at (set_active_media_duration time now duration) (region_by_source_id source_id l) l

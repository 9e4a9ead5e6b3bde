-- ===== src/Examples/Playback.antt =====
-- The theorems on media, regions and layouts at a concrete layout.
use xibo_linux.Base.{
  ◌%◌, ◌+◌, ℕ, ◌<◌, ◌≡◌, refl, ◌⊎◌, true, false, Option, none, some, [], ◌∷◌, arith, ℤ, pos, ◌+ℤ◌,
  ◌≤ℤ◌, get_elem?,
}
use xibo_linux.DateTime.{valid}
use xibo_linux.UnsafeStore.{UnsafeItems, media}
use xibo_linux.Media.{
  Media, Player, center, middle, top, start, stop, set_remaining_duration,
  extend_remaining_duration, cleared,
}
use xibo_linux.Media.Timing.{is_timed, operations-is_timed}
use xibo_linux.Region.{
  Region, disable, expired, set_at, place_media, on_media_duration_timeout, navigate_to_media_id,
  show_next_media, set_active_media_duration, extend_active_media_duration, stop_region,
  start_region,
}
use xibo_linux.Region.Position.{get_media_x, get_media_y, media_position-bounds}
use xibo_linux.Region.Plays.{is_ordered}
use xibo_linux.Region.Order.{calls-is_ordered}
use xibo_linux.Region.Cyclic.{is_flagged, holds_round, place_media_lem}
use xibo_linux.Layout.{
  MainLayout, navigate_to_widget, expire_duration_target, extend_duration_target,
  set_duration_target, media_finished, on_region_expired, are_all_regions_expired, insert,
  on_all_regions_expired,
}
use xibo_linux.Layout.Regions.{
  are_ordered, nothing_plays, calls-are_ordered, on_region_expired-silent,
}
use xibo_linux.Examples.Clock.{clock, at}

abbrev player_of : ℤ → Player (Option ℤ)
player_of id = record {
  id = id;
  duration = pos 10;
  stat_enabled = true;
  align = center;
  valign = middle;
  interval = cleared clock;
  playing = false;
  expires_at = none;
  timer = none;
  widget = some (record { width = pos 40; height = pos 30; shown = false });
}

abbrev medium : ℤ → Media (Option ℤ)
medium id = record { player = player_of id; attached = [] }

-- A medium that plays since 100, for 10 seconds.
abbrev playing_medium : ℤ → Media (Option ℤ)
playing_medium id = record {
  player = record (player_of id) { playing = true; expires_at = at 110; timer = some (pos 10) };
  attached = [];
}

-- The first medium of a region with two of them plays.
abbrev playing_region : Region (Option ℤ)
playing_region = record {
  options = record {
    layout_id = pos 7;
    id = pos 5;
    width = pos 100;
    height = pos 100;
    loop = disable;
  };
  view = record { width = pos 100; height = pos 100; shown = true; children = [] };
  media_list = playing_medium (pos 31) ∷ medium (pos 32) ∷ [];
  current_media_index = 0;
}

abbrev one_region : MainLayout (Option ℤ)
one_region = record {
  id = pos 7;
  stat_enabled = true;
  children = (pos 0, pos 0, pos 0) ∷ [];
  interval = record { started = at 100; finished = none };
  media_intervals = [];
  regions = playing_region ∷ [];
  expired_regions = [];
}

-- The first medium of the region is flagged.
abbrev flags : UnsafeItems (Option ℤ)
flags =
    (record {
      date_time = at 100;
      kind = media;
      code = pos 2001;
      layout_id = pos 7;
      id = "31";
      reason = "";
      ttl = pos 60;
    })
    ∷ []

operations-is_timed_example :
    (is_timed clock (start clock (at 103) (playing_medium (pos 31))).player ≡ true)
    × (is_timed clock (stop clock (at 103) (playing_medium (pos 31))).0.player ≡ true)
    × (is_timed clock
          (set_remaining_duration clock (at 103) (pos 4) (playing_medium (pos 31))).1.player
        ≡ true)
    × (is_timed clock
          (extend_remaining_duration clock (at 103) (pos 4) (playing_medium (pos 31))).1.player
        ≡ true)
unfolding valid
operations-is_timed_example =
    operations-is_timed clock (at 103) (pos 4) (playing_medium (pos 31)) (λ n. refl) refl

media_position-bounds_example :
    (pos 0 ≤ℤ get_media_x (pos 100) (pos 40) center)
    × (get_media_x (pos 100) (pos 40) center +ℤ pos 40 ≤ℤ pos 100)
    × (pos 0 ≤ℤ get_media_y (pos 80) (pos 30) top)
    × (get_media_y (pos 80) (pos 30) top +ℤ pos 30 ≤ℤ pos 80)
media_position-bounds_example =
    media_position-bounds (pos 100) (pos 80) (pos 40) (pos 30) center top (omega arith)
      (omega arith) (omega arith) (omega arith)

calls-is_ordered_example :
    (is_ordered (on_media_duration_timeout clock (at 110) playing_region flags).0 ≡ true)
    × (is_ordered (navigate_to_media_id clock (at 110) (pos 32) playing_region flags).1.0 ≡ true)
    × (is_ordered (show_next_media clock (at 110) playing_region flags).1.0 ≡ true)
    × (is_ordered (set_active_media_duration clock (at 110) (pos 4) playing_region flags).1.0
        ≡ true)
    × (is_ordered (extend_active_media_duration clock (at 110) (pos 4) playing_region flags).1.0
        ≡ true)
    × (is_ordered (stop_region clock (at 110) playing_region).0 ≡ true)
    × (is_ordered
          (start_region clock (at 110) (stop_region clock (at 110) playing_region).0 flags).0
        ≡ true)
calls-is_ordered_example =
    calls-is_ordered clock (at 110) (pos 32) (pos 4) playing_region flags refl

place_media_lem_example :
    let (r', _, signals) = place_media clock (at 110) 0 playing_region flags in
    (r' ≡ playing_region)
      × (signals ≡ expired (pos 5) ∷ [])
      × (holds_round (is_flagged clock (at 110) flags) playing_region.media_list 0 2 ≡ true)
    ⊎ ((skipped : ℕ) × (chosen : Media (Option ℤ)) × (skipped < 2)
        × (get_elem? playing_region.media_list ((0 + skipped) % 2) ≡ some chosen)
        × (is_flagged clock (at 110) flags chosen ≡ false)
        × (holds_round (is_flagged clock (at 110) flags) playing_region.media_list 0 skipped ≡ true)
        × (r' ≡ record playing_region {
          current_media_index = (0 + skipped) % 2;
          media_list =
              set_at playing_region.media_list ((0 + skipped) % 2) (start clock (at 110) chosen);
        })
        × (signals ≡ []))
place_media_lem_example = place_media_lem clock (at 110) playing_region 0 flags (omega arith)

calls-are_ordered_example :
    (are_ordered (navigate_to_widget clock (at 110) (pos 32) (pos 5) one_region flags).1.0.regions
      ≡ true)
    × (are_ordered (expire_duration_target clock (at 110) (pos 31) one_region flags).1.0.regions
        ≡ true)
    × (are_ordered
          (extend_duration_target clock (at 110) (pos 31) (pos 4) one_region flags).1.0.regions
        ≡ true)
    × (are_ordered
          (set_duration_target clock (at 110) (pos 31) (pos 4) one_region flags).1.0.regions
        ≡ true)
    × (are_ordered (media_finished clock (at 110) 0 one_region flags).0.regions ≡ true)
calls-are_ordered_example =
    calls-are_ordered clock (at 110) (pos 32) (pos 5) (pos 31) (pos 4) 0 one_region flags refl

on_region_expired-silent_example :
    nothing_plays (on_region_expired clock (at 110) (pos 5) one_region).0.regions ≡ true
unfolding on_region_expired are_all_regions_expired insert on_all_regions_expired
on_region_expired-silent_example =
    on_region_expired-silent clock (at 110) (pos 5) one_region refl refl

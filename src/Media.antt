-- ===== src/Media.antt =====
-- control/media/MediaImpl: a medium of a region, with its timer. `now` is what DateTime::now() reads
-- during the call. The widgets that override onStarted and onStopped (video, web page) and the
-- transitions, which this class only stores, are not modelled.
pub mod Timing
use xibo_linux.Base.{
  ℕ, zero, suc, ◌+◌, ◌-◌, ◌*◌, ◌/◌, ◌%◌, ◌≤◌, ◌<◌, String, ◌≡◌, refl, sym, ap, subst, ◌∙◌, ◌≢◌, ◌↔◌,
  ◌⊎◌, inl, inr, Bool, true, false, not, ◌&&◌, ◌||◌, Option, none, some, List, [], ◌∷◌, ◌++◌, map,
  append_assoc, append-nil, arith, ltb, leb, ◌==◌, if◌then◌else◌, Bool-cases, Option-cases,
  &&-eq-true, ◌>>=◌, is_some, >>=-eq_of_some, >>=-eq-some, ℤ, pos, negsuc, ◌+ℤ◌, ◌-ℤ◌, ◌≤ℤ◌, ltb_ℤ,
  leb_ℤ, ◌==ℤ◌, ==ℤ_iff, ==ℤ_refl, length, get_elem?, filter, any, all, find, is_empty, filter_idem,
  filter-append, all-filter, filter_of_all, all-append, any-append, length-append, get_elem?_lt,
  str_eq, str_eq_iff, ◌++ₛ◌, contains, to_string, stoi,
}
use xibo_linux.DateTime.{PosixTime, valid}

-- MediaGeometry::Align and MediaGeometry::Valign.
pub data Align : Type 0 where
  left center right : Align

pub data Valign : Type 0 where
  top middle bottom : Valign

-- What the class uses of Xibo::Widget.
pub record Widget : Type 0 where
  pub width : ℤ
  pub height : ℤ
  pub shown : Bool

pub record PlayingTime (T : Type 0) : Type 0 where
  pub started : T
  pub finished : T

-- The members of MediaImpl but the attached medium. `timer` is the delay of the pending call of
-- `finished_`.
pub record Player (T : Type 0) : Type 0 where
  pub id : ℤ
  pub duration : ℤ
  pub stat_enabled : Bool
  pub align : Align
  pub valign : Valign
  pub interval : PlayingTime T
  pub playing : Bool
  pub expires_at : T
  pub timer : Option ℤ
  pub widget : Option Widget

-- A medium, with the medium attached to it, the one attached to that, and so on.
pub record Media (T : Type 0) : Type 0 where
  pub player : Player T
  pub attached : List (Player T)

-- What a call emits through `finished_` and `statReady_`.
pub data MediaSignal (T : Type 0) : Type 0 where
  finished : MediaSignal T
  stat_ready : PlayingTime T → MediaSignal T

abbrev pub set_shown : Bool → Option Widget → Option Widget
set_shown shown none = none
set_shown shown (some widget) = some (record widget { shown = shown })

module _ {T : Type 0} (time : PosixTime T) where
  -- PlayingTime::clear
  abbrev pub cleared : PlayingTime T
  cleared = record { started = time.not_a_date_time; finished = time.not_a_date_time }

  module _ (now : T) where
    unfoldable pub start_timer : ℤ → Player T → Player T
    start_timer duration player =
        if ltb_ℤ (pos 0) duration
        then record player { expires_at = time.add_seconds now duration; timer = some duration }
        else player

    -- start, but for the attached medium, when the medium is not playing.
    unfoldable pub start_player : Player T → Player T
    unfolding start_timer
    start_player player =
        let started = start_timer player.duration (record player {
          playing = true;
          expires_at = time.not_a_date_time;
          interval =
              if player.stat_enabled then record cleared { started = now } else player.interval;
        }) in
        record started { widget = set_shown true started.widget }

    unfoldable pub start_players : List (Player T) → List (Player T)
    unfolding start_player
    start_players [] = []
    start_players (player ∷ attached) =
        if player.playing then player ∷ attached else start_player player ∷ start_players attached

    unfoldable pub start : Media T → Media T
    unfolding start_player start_players
    start media =
        if media.player.playing
        then media
        else record { player = start_player media.player; attached = start_players media.attached }

    -- stop, but for the attached medium, when the medium is playing.
    unfoldable pub stop_player : Player T → Player T
    stop_player player = record player {
      playing = false;
      interval =
          if player.stat_enabled
          then record player.interval { finished = now }
          else player.interval;
      timer = none;
      expires_at = time.not_a_date_time;
      widget = set_shown false player.widget;
    }

    unfoldable pub stop_players : List (Player T) → List (Player T)
    unfolding stop_player
    stop_players [] = []
    stop_players (player ∷ attached) =
        if player.playing then stop_player player ∷ stop_players attached else player ∷ attached

    -- Nothing is connected to the signals of an attached medium, so they are left out.
    unfoldable pub stop : Media T → Media T × List (MediaSignal T)
    unfolding stop_player stop_players
    stop media =
        if media.player.playing
        then (
          record { player = stop_player media.player; attached = stop_players media.attached },
          if media.player.stat_enabled
              then stat_ready (stop_player media.player).interval ∷ []
              else [],
        )
        else (media, [])

    unfoldable pub restart_timer_with_remaining_duration :
        ℤ → Player T → Player T × List (MediaSignal T)
    restart_timer_with_remaining_duration remaining player =
        if leb_ℤ remaining (pos 0)
        then (record player { timer = none; expires_at = time.not_a_date_time }, finished ∷ [])
        else (
          record player { timer = some remaining; expires_at = time.add_seconds now remaining },
          [],
        )

    abbrev with_player :
        Media T → Player T × List (MediaSignal T) → Bool × Media T × List (MediaSignal T)
    with_player media (player, signals) = (true, record media { player = player }, signals)

    unfoldable pub set_remaining_duration : ℤ → Media T → Bool × Media T × List (MediaSignal T)
    unfolding restart_timer_with_remaining_duration
    set_remaining_duration seconds media =
        if media.player.playing
        then with_player media (restart_timer_with_remaining_duration seconds media.player)
        else (false, media, [])

    -- What is left until `expires_at`, 0 if it is not set or has passed.
    unfoldable pub remaining_seconds : Player T → ℤ
    unfolding valid
    remaining_seconds player =
        if valid time player.expires_at
        then (let left = time.seconds_between player.expires_at now in
            if ltb_ℤ (pos 0) left then left else pos 0)
        else pos 0

    unfoldable pub extend_remaining_duration : ℤ → Media T → Bool × Media T × List (MediaSignal T)
    unfolding restart_timer_with_remaining_duration remaining_seconds
    extend_remaining_duration seconds media =
        if not media.player.playing || (seconds ==ℤ pos 0)
        then (false, media, [])
        else with_player media (
            restart_timer_with_remaining_duration (remaining_seconds media.player +ℤ seconds)
              media.player)

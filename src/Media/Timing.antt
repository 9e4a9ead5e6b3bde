-- ===== src/Media/Timing.antt =====
-- The timer of a medium runs only while the medium plays, and a medium reports one interval, from its
-- start to its stop.
use xibo_linux.Base.{
  ◌≡◌, refl, sym, ap, ◌∙◌, inl, inr, Bool, true, false, ◌&&◌, Option, none, some, List, [], ◌∷◌,
  arith, if◌then◌else◌, Bool-cases, ℤ, pos, ◌+ℤ◌, ltb_ℤ, leb_ℤ, ◌==ℤ◌, +ℤ_assoc,
}
use xibo_linux.DateTime.{PosixTime, valid}
use xibo_linux.Media.{
  Player, Media, MediaSignal, stat_ready, start, stop, start_timer, start_player, stop_player,
  remaining_seconds, set_remaining_duration, extend_remaining_duration,
  restart_timer_with_remaining_duration,
}

-- If a timer is pending, the medium plays, its delay is positive and the time of expiry is set.
abbrev pub is_timed : {T : Type 0} → PosixTime T → Player T → Bool
is_timed time player = elim (player.timer) [
  | none ↦ true
  | some delay ↦ player.playing && ltb_ℤ (pos 0) delay && valid time player.expires_at
]

module _ {T : Type 0} (time : PosixTime T) where
  start_timer-is_timed :
      (now : T) (duration : ℤ) (player : Player T)
      → player.playing ≡ true
      → valid time (time.add_seconds now duration) ≡ true
      → player.timer ≡ none
      → is_timed time (start_timer time now duration player) ≡ true
  unfolding start_timer
  start_timer-is_timed now duration player playing reaches idle = ground arith

  start_player-is_timed :
      (now : T) (player : Player T)
      → valid time (time.add_seconds now player.duration) ≡ true
      → player.timer ≡ none
      → is_timed time (start_player time now player) ≡ true
  unfolding start_player start_timer
  start_player-is_timed now player reaches idle = ground arith

  restart-is_timed :
      (now : T) (remaining : ℤ) (player : Player T)
      → player.playing ≡ true
      → valid time (time.add_seconds now remaining) ≡ true
      → is_timed time (restart_timer_with_remaining_duration time now remaining player).0 ≡ true
  unfolding restart_timer_with_remaining_duration
  restart-is_timed now remaining player playing reaches = ground arith

  restart-playing :
      (now : T) (remaining : ℤ) (player : Player T)
      → (restart_timer_with_remaining_duration time now remaining player).0.playing ≡ player.playing
  unfolding restart_timer_with_remaining_duration
  restart-playing now remaining player = ground arith

  -- An extension that is made restarts the timer with what remains and the extension.
  extend_of_ne :
      (now : T) (seconds : ℤ) (media : Media T)
      → media.player.playing ≡ true
      → (seconds ==ℤ pos 0) ≡ false
      → extend_remaining_duration time now seconds media ≡ (
        true,
        record media {
          player =
              (restart_timer_with_remaining_duration time now
                (remaining_seconds time now media.player +ℤ seconds)
                media.player).0;
        },
        (restart_timer_with_remaining_duration time now
            (remaining_seconds time now media.player +ℤ seconds)
            media.player).1,
      )
  unfolding extend_remaining_duration
  extend_of_ne now seconds media plays h = rw (plays, h) refl

  extend_of_eq :
      (now : T) (seconds : ℤ) (media : Media T)
      → media.player.playing ≡ true
      → (seconds ==ℤ pos 0) ≡ true
      → extend_remaining_duration time now seconds media ≡ (false, media, [])
  unfolding extend_remaining_duration
  extend_of_eq now seconds media plays h = rw (plays, h) refl

  extend-is_timed :
      (now : T) (seconds : ℤ) (media : Media T)
      → ((n : ℤ) → valid time (time.add_seconds now n) ≡ true)
      → media.player.playing ≡ true
      → is_timed time media.player ≡ true
      → is_timed time (extend_remaining_duration time now seconds media).1.player ≡ true
  extend-is_timed now seconds media reaches plays h = elim (Bool-cases (seconds ==ℤ pos 0)) [
    | inl nothing ↦ rw (extend_of_eq now seconds media plays nothing) h
    | inr some_change ↦
        rw (extend_of_ne now seconds media plays some_change)
          (restart-is_timed now _ media.player plays (reaches _))
  ]

  restart_of_pos :
      (now : T) (remaining : ℤ) (player : Player T)
      → ltb_ℤ (pos 0) remaining ≡ true
      → restart_timer_with_remaining_duration time now remaining player ≡ (
        record player { timer = some remaining; expires_at = time.add_seconds now remaining },
        [],
      )
  unfolding restart_timer_with_remaining_duration
  restart_of_pos now remaining player h = ground arith

  restart-overwrites :
      (now : T) (remaining : ℤ) (player : Player T) (timer : Option ℤ) (expires_at : T)
      → restart_timer_with_remaining_duration time now remaining
          (record player { timer = timer; expires_at = expires_at })
        ≡ restart_timer_with_remaining_duration time now remaining player
  unfolding restart_timer_with_remaining_duration
  restart-overwrites now remaining player timer expires_at =
      elim (Bool-cases (leb_ℤ remaining (pos 0))) [ inl e ↦ rw e refl | inr e ↦ rw e refl ]

  remaining_seconds_of_valid :
      (now : T) (player : Player T) (left : ℤ)
      → valid time player.expires_at ≡ true
      → time.seconds_between player.expires_at now ≡ left
      → ltb_ℤ (pos 0) left ≡ true
      → remaining_seconds time now player ≡ left
  unfolding remaining_seconds
  remaining_seconds_of_valid now player left is_set e h = ground arith

  -- Whatever is called, a timer is pending only while the medium plays, with a positive delay and the
  -- time of expiry set, if it was so before and seconds added to the time of the call give a time that is
  -- not the special value not_a_date_time.
  pub operations-is_timed :
      (now : T) (seconds : ℤ) (media : Media T)
      → ((n : ℤ) → valid time (time.add_seconds now n) ≡ true)
      → is_timed time media.player ≡ true
      → (is_timed time (start time now media).player ≡ true)
        × (is_timed time (stop time now media).0.player ≡ true)
        × (is_timed time (set_remaining_duration time now seconds media).1.player ≡ true)
        × (is_timed time (extend_remaining_duration time now seconds media).1.player ≡ true)
  unfolding start stop stop_player set_remaining_duration extend_remaining_duration
  operations-is_timed now seconds media reaches h = elim (Bool-cases media.player.playing) [
    | inl plays ↦ (
      ground arith,
      ground arith,
      ground (arith, restart-is_timed now seconds media.player plays (reaches seconds)),
      extend-is_timed now seconds media reaches plays h,
    )
    | inr idle ↦ (
      ground (arith, start_player-is_timed now media.player (reaches media.player.duration)),
      ground arith,
      ground arith,
      ground arith,
    )
  ]

  -- A medium that is started when it does not play and stopped later reports, if its statistics are
  -- enabled, the one interval from the start to the stop, and nothing otherwise; starting it twice or
  -- stopping it twice is like once.
  stop-start :
      (now later after_that : T) (media : Media T)
      → media.player.playing ≡ false
      → ((stop time later (start time now media)).1 ≡ (
          if media.player.stat_enabled
          then stat_ready (record { started = now; finished = later }) ∷ []
          else []))
        × (start time later (start time now media) ≡ start time now media)
        × (stop time after_that (stop time later (start time now media)).0
            ≡ ((stop time later (start time now media)).0, []))
  unfolding stop start start_player stop_player start_timer
  stop-start now later after_that media idle = (ground arith, ground arith, ground arith)

  -- Extending a playing medium twice at one time is like extending it once by the sum, if neither change
  -- is 0 and something remains after the first.
  pub extend_remaining_duration-add :
      (now : T) (first second : ℤ) (media : Media T)
      → ((n : ℤ)
          → (valid time (time.add_seconds now n) ≡ true)
            × (time.seconds_between (time.add_seconds now n) now ≡ n))
      → media.player.playing ≡ true
      → (first ==ℤ pos 0) ≡ false
      → (second ==ℤ pos 0) ≡ false
      → ((first +ℤ second) ==ℤ pos 0) ≡ false
      → ltb_ℤ (pos 0) (remaining_seconds time now media.player +ℤ first) ≡ true
      → extend_remaining_duration time now second (extend_remaining_duration time now first media).1
        ≡ extend_remaining_duration time now (first +ℤ second) media
  extend_remaining_duration-add now first second media laws plays h1 h2 h3 left =
      let remaining = remaining_seconds time now media.player in
      let (reaches, exact) = laws (remaining +ℤ first) in
      let extended = record media {
        player = record media.player {
          timer = some (remaining +ℤ first);
          expires_at = time.add_seconds now (remaining +ℤ first);
        };
      } in
      let with_restart : Player T × List (MediaSignal T) → Bool × Media T × List (MediaSignal T) =
        λ step. (true, record media { player = step.0 }, step.1) in
      ap (λ step. extend_remaining_duration time now second step.1)
        (extend_of_ne now first media plays h1)
      ∙ ap (λ step. extend_remaining_duration time now second (record media { player = step.0 }))
          (restart_of_pos now _ media.player left)
      ∙ extend_of_ne now second extended plays h2
      ∙ ap
          (λ rest.
            with_restart
              (restart_timer_with_remaining_duration time now (rest +ℤ second) extended.player))
          (remaining_seconds_of_valid now extended.player _ reaches exact left)
      ∙ ap with_restart (restart-overwrites now _ media.player _ _)
      ∙ ap
          (λ total.
            with_restart (restart_timer_with_remaining_duration time now total media.player))
          (+ℤ_assoc remaining first second)
      ∙ sym (extend_of_ne now (first +ℤ second) media plays h3)

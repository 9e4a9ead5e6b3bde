-- ===== src/Schedule/Scheduler/Overrides.antt =====
-- Layout overrides: what nextLayout plays while one is set, and when one ends.
use xibo_linux.Base.{
  String, ◌≡◌, refl, ap, ◌∙◌, ◌≢◌, Bool, true, false, Option, none, some, arith, >>=-eq_of_some, ℤ,
  pos, ==ℤ_iff,
}
use xibo_linux.DateTime.{PosixTime}
use xibo_linux.UnsafeStore.{cleanup_expired}
use xibo_linux.Schedule.Item.{LayoutSchedule}
use xibo_linux.Schedule.Queue.{RegularLayoutQueue, next}
use xibo_linux.Schedule.Queue.Order.{next-total}
use xibo_linux.Schedule.Scheduler.State.{LayoutOverride, Scheduler}
use xibo_linux.Schedule.Scheduler.Internal.{override_expired, keep_override, refresh}
use xibo_linux.Schedule.Scheduler.{
  override_with, apply_layout_override, next_from_queue, next_for, next_layout,
}
use xibo_linux.Schedule.Scheduler.Eligible.{is_playable, layout_valid_lem}
use xibo_linux.Schedule.Scheduler.Total.{restart_timer-frame, IsReady, refresh-total}
use xibo_linux.Schedule.Scheduler.Cleaned.{refresh-IsCleaned}

module _ {T : Type 0} (time : PosixTime T) (cache_valid : String → Bool) (now : T) where
  -- An override that is set, has not expired and is playable at `now`, under the schedule that is set.
  pub record Plays (s : Scheduler T) (o : LayoutOverride T) (schedule : LayoutSchedule T)
      : Type 0 where
    pub set : s.layout_override ≡ some o
    pub unexpired : override_expired time now o ≡ false
    pub scheduled : s.schedule ≡ some schedule
    pub playable :
        is_playable time cache_valid now schedule.global_dependants s.unsafe_items o.layout.id
          o.layout.dependants
        ≡ true

  next_for-plays :
      (schedule : LayoutSchedule T) (o : LayoutOverride T) (s : Scheduler T)
      → is_playable time cache_valid now schedule.global_dependants s.unsafe_items o.layout.id
          o.layout.dependants
        ≡ true
      → next_for time cache_valid now (some schedule) (some o) s
        ≡ some (
          o.layout.id,
          record s {
            unsafe_items = cleanup_expired time now s.unsafe_items;
            layout_override = some (record o { played = true });
          },
        )
  unfolding next_for
  next_for-plays schedule o s h = rw (layout_valid_lem, h)

  keep_override-unexpired :
      (o : LayoutOverride T)
      → override_expired time now o ≡ false
      → keep_override time now (some o) ≡ some o
  unfolding keep_override
  keep_override-unexpired o h = rw h

  keep_override-expired :
      (o : LayoutOverride T)
      → override_expired time now o ≡ true
      → keep_override time now (some o) ≡ none
  unfolding keep_override
  keep_override-expired o h = rw h

  next_for-none :
      (schedule : Option (LayoutSchedule T)) (s : Scheduler T) (id : ℤ)
      (queue : RegularLayoutQueue T)
      → next s.regular_queue ≡ some (id, queue)
      → next_for time cache_valid now schedule none s
        ≡ some (id, record s { regular_queue = queue })
  unfolding next_for next_from_queue
  next_for-none schedule s id queue h = rw h

  -- While an override that has not expired is set and playable, nextLayout succeeds, answers its
  -- layout, marks it as played, and does not move the regular queue on beyond what the first lines of
  -- the method do.
  pub next_layout-override :
      (s : Scheduler T) (o : LayoutOverride T) (schedule : LayoutSchedule T)
      → IsReady s
      → Plays s o schedule
      → (s1 : Scheduler T) × (s' : Scheduler T) × (refresh time cache_valid now s ≡ some s1)
        × (next_layout time cache_valid now s ≡ some (o.layout.id, s'))
        × (s'.layout_override ≡ some (record o { played = true }))
        × (s'.regular_queue ≡ s1.regular_queue)
  unfolding next_layout
  next_layout-override s o schedule ready h =
      let (s1, refreshed, ready1, kept) = refresh-total time cache_valid now s ready in
      let c = refresh-IsCleaned time cache_valid now s s1 refreshed in
      let still_set : s1.layout_override ≡ some o =
        c.override_kept
        ∙ ap (keep_override time now) h.set
        ∙ keep_override-unexpired o h.unexpired in
      (
        s1,
        record s1 {
          unsafe_items = cleanup_expired time now s1.unsafe_items;
          layout_override = some (record o { played = true });
        },
        refreshed,
        >>=-eq_of_some (refresh time cache_valid now s) _ s1 refreshed
            ∙ ap (λ c. next_for time cache_valid now c s1.layout_override s1) (kept ∙ h.scheduled)
            ∙ ap (λ c. next_for time cache_valid now (some schedule) c s1) still_set
            ∙ next_for-plays schedule o s1 (rw c.items_kept h.playable),
        refl,
        refl,
      )

  -- Once the override has expired (a timed one by its end, a one-shot one by having been played),
  -- nextLayout drops it and answers what the regular queue gives next.
  pub next_layout-expired :
      (s : Scheduler T) (o : LayoutOverride T)
      → IsReady s
      → s.layout_override ≡ some o
      → override_expired time now o ≡ true
      → (s1 : Scheduler T) × (id : ℤ) × (s' : Scheduler T) × (refresh time cache_valid now s
          ≡ some s1)
        × (next_layout time cache_valid now s ≡ some (id, s'))
        × (next s1.regular_queue ≡ some (id, s'.regular_queue))
        × (s'.layout_override ≡ none)
  unfolding next_layout
  next_layout-expired s o ready set expired =
      let (s1, refreshed, ready1, kept) = refresh-total time cache_valid now s ready in
      let c = refresh-IsCleaned time cache_valid now s s1 refreshed in
      let gone : s1.layout_override ≡ none =
        c.override_kept ∙ ap (keep_override time now) set ∙ keep_override-expired o expired in
      let (id, queue, found, _, _, _) = next-total s1.regular_queue ready1.in_range in
      (
        s1,
        id,
        record s1 { regular_queue = queue },
        refreshed,
        >>=-eq_of_some (refresh time cache_valid now s) _ s1 refreshed
            ∙ ap (λ c. next_for time cache_valid now s1.schedule c s1) gone
            ∙ next_for-none s1.schedule s1 id queue found,
        found,
        gone,
      )

  override_of :
      (id : ℤ) (created_dt : T) (duration : ℤ) (s : Scheduler T)
      → (apply_layout_override time now id created_dt duration s).layout_override
        ≡ some (override_with time now id created_dt duration)
  unfolding apply_layout_override
  override_of id created_dt duration s = rw restart_timer-frame

  -- An override that was applied with duration 0 plays once: it does not expire before it has been
  -- played, at any time, and has expired as soon as it has been.
  pub one_shot_once :
      (id : ℤ) (created_dt later : T) (s : Scheduler T)
      → (o : LayoutOverride T) × ((apply_layout_override time now id created_dt
            (pos 0)
            s).layout_override
          ≡ some o)
        × (o.layout.id ≡ id)
        × (override_expired time later o ≡ false)
        × (override_expired time later (record o { played = true }) ≡ true)
  unfolding override_with override_expired
  one_shot_once id created_dt later s = (
    override_with time now id created_dt (pos 0),
    override_of id created_dt (pos 0) s,
    refl,
    refl,
    refl,
  )

  -- An override that was applied with another duration lasts until its end, played or not: at any
  -- later time it has expired exactly if the creation time plus the duration is not after that time.
  pub timed_until_end :
      (id : ℤ) (created_dt later : T) (duration : ℤ) (played : Bool) (s : Scheduler T)
      → duration ≢ pos 0
      → (o : LayoutOverride T) × ((apply_layout_override time now id created_dt duration
            s).layout_override
          ≡ some o)
        × (o.layout.id ≡ id)
        × (override_expired time later (record o { played = played })
            ≡ time.le (time.add_seconds created_dt duration) later)
  unfolding override_with override_expired
  timed_until_end id created_dt later duration played s h = (
    override_with time now id created_dt duration,
    override_of id created_dt duration s,
    refl,
    ground (arith, ==ℤ_iff duration (pos 0)),
  )

-- ===== src/Schedule/Scheduler/Reloads.antt =====
-- When a schedule is taken over, and what a trigger by id answers.
use xibo_linux.Base.{
  String, ◌≡◌, refl, ap, ◌∙◌, ◌⊎◌, inl, inr, Bool, true, false, some, arith, Bool-cases, is_some, ℤ,
  pos, List, [], ◌∷◌, Option, none, find, any, ◌||◌, ◌==ℤ◌,
}
use xibo_linux.DateTime.{PosixTime}
use xibo_linux.Schedule.Item.{LayoutSchedule, ScheduledLayout}
use xibo_linux.Schedule.Item.Equality.Decides.{Decides, schedule_eq-Decides}
use xibo_linux.Schedule.Scheduler.State.{Scheduler, LayoutOverride}
use xibo_linux.Schedule.Scheduler.Internal.{refresh, override_expired}
use xibo_linux.Schedule.Scheduler.Lookup.{layout_on, listed_layout}
use xibo_linux.Schedule.Scheduler.Total.{IsReady, refresh-total}
use xibo_linux.Schedule.Scheduler.Overrides.{one_shot_once}
use xibo_linux.Schedule.Scheduler.{
  reload_schedule, trigger_layout_by_id, trigger_on, apply_layout_override,
}

module _ {T : Type 0} (time : PosixTime T) (cache_valid : String → Bool) (now : T) where
  -- Where == of two times decides their equality, a reload with the schedule that is set already changes
  -- nothing and emits nothing.
  pub reload_schedule-same :
      (schedule : LayoutSchedule T) (s : Scheduler T)
      → Decides time.eq
      → s.schedule ≡ some schedule
      → reload_schedule time cache_valid now schedule s ≡ some s
  unfolding reload_schedule
  reload_schedule-same schedule s decides e =
      ground (arith, e, (schedule_eq-Decides time decides schedule schedule).1 refl)

  -- A layout of the id is in the override or in the schedule, as a regular or an overlay layout.
  abbrev pub is_known : ℤ → LayoutSchedule T → Option (LayoutOverride T) → Bool
  is_known id schedule o =
      elim o [ none ↦ false | some override ↦ override.layout.id ==ℤ id ]
      || any (λ layout. layout.id ==ℤ id) schedule.regular_layouts
      || any (λ layout. layout.id ==ℤ id) schedule.overlay_layouts

  is_some-find :
      (p : ScheduledLayout T → Bool) (layouts : List (ScheduledLayout T))
      → is_some (find p layouts) ≡ any p layouts
  is_some-find p [] = refl
  is_some-find p (layout ∷ layouts) = elim (Bool-cases (p layout)) [
    | inl found ↦ rw found refl
    | inr other ↦ rw other (is_some-find p layouts)
  ]

  is_some-listed_layout :
      (schedule : LayoutSchedule T) (id : ℤ)
      → is_some (listed_layout schedule id) ≡ (
          any (λ layout. layout.id ==ℤ id) schedule.regular_layouts
          || any (λ layout. layout.id ==ℤ id) schedule.overlay_layouts)
  unfolding listed_layout
  is_some-listed_layout schedule id =
      let regular = is_some-find (λ layout. layout.id ==ℤ id) schedule.regular_layouts in
      let overlay = is_some-find (λ layout. layout.id ==ℤ id) schedule.overlay_layouts in
      ground (arith, regular, overlay)

  is_some-layout_on :
      (schedule : LayoutSchedule T) (o : Option (LayoutOverride T)) (id : ℤ)
      → is_some (layout_on schedule o id) ≡ is_known id schedule o
  unfolding layout_on
  is_some-layout_on schedule none id = is_some-listed_layout schedule id
  is_some-layout_on schedule (some o) id = elim (Bool-cases (o.layout.id ==ℤ id)) [
    | inl same ↦ rw same refl
    | inr other ↦ rw other (is_some-listed_layout schedule id)
  ]

  trigger_on-known :
      (schedule : LayoutSchedule T) (id : ℤ) (s : Scheduler T)
      → is_some (layout_on schedule s.layout_override id) ≡ true
      → trigger_on time now (some schedule) id s
        ≡ (true, apply_layout_override time now id now (pos 0) s)
  unfolding trigger_on
  trigger_on-known schedule id s h = rw h refl

  trigger_on-unknown :
      (schedule : LayoutSchedule T) (id : ℤ) (s : Scheduler T)
      → is_some (layout_on schedule s.layout_override id) ≡ false
      → trigger_on time now (some schedule) id s ≡ (false, s)
  unfolding trigger_on
  trigger_on-unknown schedule id s h = rw h refl

  -- From a ready scheduler triggerLayoutById succeeds. After what it does first it answers false and
  -- changes nothing more, if neither the override nor the schedule has a layout of the id; else it
  -- answers true and sets an override of that layout that does not expire, at any later time, before it
  -- has been played.
  pub trigger_layout_by_id_lem :
      (id : ℤ) (later : T) (schedule : LayoutSchedule T) (s : Scheduler T)
      → IsReady s
      → s.schedule ≡ some schedule
      → (s1 : Scheduler T) × (refresh time cache_valid now s ≡ some s1)
        × ((is_known id schedule s1.layout_override ≡ false)
              × (trigger_layout_by_id time cache_valid now id s ≡ some (false, s1))
            ⊎ (is_known id schedule s1.layout_override ≡ true)
              × (s' : Scheduler T) × (o : LayoutOverride T) × (trigger_layout_by_id time cache_valid
                    now id s
                  ≡ some (true, s'))
              × (s'.layout_override ≡ some o)
              × (o.layout.id ≡ id)
              × (override_expired time later o ≡ false))
  unfolding trigger_layout_by_id
  trigger_layout_by_id_lem id later schedule s ready e =
      let (s1, refreshed, ready1, kept) = refresh-total time cache_valid now s ready in
      let same1 = is_some-layout_on schedule s1.layout_override id in
      (
        s1,
        refreshed,
        elim (Bool-cases (is_known id schedule s1.layout_override)) [
          | inl known ↦
              let (o, set, same, lasts, _) = one_shot_once time cache_valid now id now later s1 in
              inr (
                known,
                apply_layout_override time now id now (pos 0) s1,
                o,
                rw (refreshed, kept ∙ e)
                    (ap some (trigger_on-known schedule id s1 (same1 ∙ known))),
                set,
                same,
                lasts,
              )
          | inr unknown ↦ inl (
            unknown,
            rw (refreshed, kept ∙ e)
                (ap some (trigger_on-unknown schedule id s1 (same1 ∙ unknown))),
          )
        ],
      )

-- ===== src/Schedule/Item/Equality/Decides.antt =====
-- The comparison operators of schedules decide equality.
use xibo_linux.Base.{
  ◌≡◌, refl, subst, ◌↔◌, Bool, true, List, [], ◌∷◌, arith, ==ℤ_iff, str_eq, str_eq_iff,
}
use xibo_linux.DateTime.{PosixTime}
use xibo_linux.Schedule.Item.{LayoutSchedule}
use xibo_linux.Schedule.Item.Equality.{
  elements_equal, containers_equal, criteria_eq, default_layout_eq, layout_eq, schedule_eq,
}

-- `eq` answers true exactly for equal values.
abbrev pub Decides {ℓ} : {A : Type ℓ} → (A → A → Bool) → Type ℓ
Decides {A = A} eq = (a b : A) → (eq a b ≡ true) ↔ (a ≡ b)

module _ {ℓ} {A : Type ℓ} (eq : A → A → Bool) (decides : Decides eq) where
  containers_equal_sound : (xs ys : List A) → containers_equal eq xs ys ≡ true → xs ≡ ys
  unfolding containers_equal elements_equal
  containers_equal_sound [] [] h = refl
  containers_equal_sound [] (y ∷ ys) h = ground arith
  containers_equal_sound (x ∷ xs) [] h = ground arith
  containers_equal_sound (x ∷ xs) (y ∷ ys) h =
      ground (arith, decides x y, containers_equal_sound xs ys)

  containers_equal_refl : (xs : List A) → containers_equal eq xs xs ≡ true
  unfolding containers_equal elements_equal
  containers_equal_refl [] = refl
  containers_equal_refl (x ∷ xs) = ground (arith, decides x x, containers_equal_refl xs)

  pub containers_equal-Decides : Decides (containers_equal eq)
  containers_equal-Decides xs ys = (
    containers_equal_sound xs ys,
    λ p. subst (λ zs. containers_equal eq xs zs ≡ true) p (containers_equal_refl xs),
  )

pub texts-Decides : Decides (containers_equal str_eq)
texts-Decides = containers_equal-Decides str_eq str_eq_iff

pub criteria_eq-Decides : Decides criteria_eq
unfolding criteria_eq
criteria_eq-Decides a b = (
  λ h. ground (
    arith,
    str_eq_iff a.metric b.metric,
    str_eq_iff a.value b.value,
    str_eq_iff a.kind b.kind,
    str_eq_iff a.condition b.condition,
  ),
  λ h. ground (
    arith,
    str_eq_iff a.metric b.metric,
    str_eq_iff a.value b.value,
    str_eq_iff a.kind b.kind,
    str_eq_iff a.condition b.condition,
  ),
)

pub criterias-Decides : Decides (containers_equal criteria_eq)
criterias-Decides = containers_equal-Decides criteria_eq criteria_eq-Decides

pub default_layout_eq-Decides : Decides default_layout_eq
unfolding default_layout_eq
default_layout_eq-Decides a b = (
  λ h. ground (arith, ==ℤ_iff a.id b.id, texts-Decides a.dependants b.dependants),
  λ h. ground (arith, ==ℤ_iff a.id b.id, texts-Decides a.dependants b.dependants),
)

module _ {T : Type 0} (time : PosixTime T) (decides : Decides time.eq) where
  layout_eq-Decides : Decides (layout_eq time)
  unfolding layout_eq
  layout_eq-Decides a b = (
    λ h. ground (
      arith,
      ==ℤ_iff a.schedule_id b.schedule_id,
      ==ℤ_iff a.id b.id,
      ==ℤ_iff a.priority b.priority,
      decides a.start_dt b.start_dt,
      decides a.end_dt b.end_dt,
      texts-Decides a.dependants b.dependants,
      criterias-Decides a.criterias b.criterias,
    ),
    λ h. ground (
      arith,
      ==ℤ_iff a.schedule_id b.schedule_id,
      ==ℤ_iff a.id b.id,
      ==ℤ_iff a.priority b.priority,
      decides a.start_dt b.start_dt,
      decides a.end_dt b.end_dt,
      texts-Decides a.dependants b.dependants,
      criterias-Decides a.criterias b.criterias,
    ),
  )

  layouts-Decides : Decides (containers_equal (layout_eq time))
  layouts-Decides = containers_equal-Decides (layout_eq time) layout_eq-Decides

  -- Where == of two times decides their equality, == of two schedules answers true exactly for
  -- equal schedules: every layout, dependant and criterion of them is compared.
  pub schedule_eq-Decides : (a b : LayoutSchedule T) → (schedule_eq time a b ≡ true) ↔ (a ≡ b)
  unfolding schedule_eq
  schedule_eq-Decides a b = (
    λ h. ground (
      arith,
      decides a.generated_time b.generated_time,
      default_layout_eq-Decides a.default_layout b.default_layout,
      layouts-Decides a.regular_layouts b.regular_layouts,
      layouts-Decides a.overlay_layouts b.overlay_layouts,
      texts-Decides a.global_dependants b.global_dependants,
    ),
    λ h. ground (
      arith,
      decides a.generated_time b.generated_time,
      default_layout_eq-Decides a.default_layout b.default_layout,
      layouts-Decides a.regular_layouts b.regular_layouts,
      layouts-Decides a.overlay_layouts b.overlay_layouts,
      texts-Decides a.global_dependants b.global_dependants,
    ),
  )

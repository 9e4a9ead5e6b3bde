-- ===== src/App/Control/Routes.antt =====
-- A trigger that names a widget reaches the layouts manager.
use xibo_linux.Base.{
  ℕ, zero, suc, ◌+◌, ◌-◌, ◌*◌, ◌/◌, ◌%◌, ◌≤◌, ◌<◌, String, ◌≡◌, refl, sym, ap, subst, ◌∙◌, ◌≢◌, ◌↔◌,
  ◌⊎◌, inl, inr, Bool, true, false, not, ◌&&◌, ◌||◌, Option, none, some, List, [], ◌∷◌, ◌++◌, map,
  append_assoc, append-nil, arith, ltb, leb, ◌==◌, if◌then◌else◌, Bool-cases, Option-cases,
  &&-eq-true, ◌>>=◌, is_some, >>=-eq_of_some, >>=-eq-some, ℤ, pos, negsuc, ◌+ℤ◌, ◌-ℤ◌, ◌≤ℤ◌, ltb_ℤ,
  leb_ℤ, ◌==ℤ◌, ==ℤ_iff, ==ℤ_refl, length, get_elem?, filter, any, all, find, is_empty, filter_idem,
  filter-append, all-filter, filter_of_all, all-append, any-append, length-append, get_elem?_lt,
  str_eq, str_eq_iff, ◌++ₛ◌, contains, to_string, stoi,
}
use xibo_linux.Base.Scan.{has_prefix, map_lower}
use xibo_linux.App.Triggers.{trim, to_lower, parse_nav_widget_target}
use xibo_linux.App.Triggers.Parsed.{
  region_and_widget, trim_dark, dark-append, pair_dark, has_prefix-append, map_lower-append,
  empty-append_left, parse_nav_widget_target-to_string,
}
use xibo_linux.App.Control.{
  Components, TriggerRequest, XiboApp, navigate, widget_or_other, handle_trigger_request,
}

not_the_text :
    (s text prefix : String)
    → has_prefix s prefix ≡ true
    → has_prefix text prefix ≡ false
    → str_eq s text ≡ false
not_the_text s text prefix h k = elim (Bool-cases (str_eq s text)) [
  | inl same ↦
      absurd (ground (arith, h, k, ap (λ t. has_prefix t prefix) ((str_eq_iff s text).0 same)))
  | inr other ↦ other
]

-- The code of a widget, by the numbers of a region and of the widget.
abbrev pub nav_widget_code : ℕ → ℕ → String
nav_widget_code r w = "navWidget:" ++ₛ region_and_widget r w

code_trimmed : (r w : ℕ) → trim (nav_widget_code r w) ≡ nav_widget_code r w
unfolding xibo_linux.Base.Text.codes
code_trimmed r w =
    trim_dark (nav_widget_code r w)
      (dark-append "navWidget:" (region_and_widget r w) refl (pair_dark r w))

code_lowered :
    (r w : ℕ) → to_lower (nav_widget_code r w) ≡ "navwidget:" ++ₛ map_lower (region_and_widget r w)
unfolding to_lower map_lower
code_lowered r w = map_lower-append "navWidget:" (region_and_widget r w)

positive : (r : ℕ) → ltb_ℤ (pos 0) (pos r) ≡ ltb 0 r
positive r = ground arith

module _ {T S : Type 0} (on : Components T S) where
  other_than_words :
      (rest : String) (request : TriggerRequest) (app : XiboApp S)
      → to_lower (trim request.trigger) ≡ "navwidget:" ++ₛ rest
      → handle_trigger_request on request app
        ≡ widget_or_other on request.id
            (trim request.trigger)
            (to_lower (trim request.trigger))
            (parse_nav_widget_target (trim request.trigger))
            app
  unfolding handle_trigger_request has_prefix xibo_linux.Base.Text.codes
  other_than_words rest request app e =
      let prefixed = has_prefix-append "navwidget:" rest in
      rw
        (
          e,
          empty-append_left "navwidget:" rest refl,
          not_the_text ("navwidget:" ++ₛ rest) "next" "navwidget:" prefixed refl,
          not_the_text ("navwidget:" ++ₛ rest) "previous" "navwidget:" prefixed refl,
          not_the_text ("navwidget:" ++ₛ rest) "prev" "navwidget:" prefixed refl,
        )
        refl

  navigate_lem :
      (r w : ℕ) (source_id : ℤ) (app : XiboApp S)
      → navigate on source_id (record { widget_id = pos w; region_id = pos r }) app ≡ (
          if on.has_layout_manager app.parts
          then record app {
            parts =
                (on.navigate_to_widget (pos w) (if ltb 0 r then pos r else source_id) app.parts).1;
          }
          else app)
  unfolding navigate
  navigate_lem r w source_id app = elim (Bool-cases (on.has_layout_manager app.parts)) [
    | inl set ↦ rw (set, positive r) refl
    | inr missing ↦ rw missing refl
  ]

  -- The trigger `navWidget:` with the texts of two numbers of `int` that are not negative, and a colon between them,
  -- makes the layouts manager navigate to the widget of the second number, in the region of the first; if
  -- that is 0, in the region that the request names as its source. Without a layouts manager it changes
  -- nothing.
  pub handle_trigger-nav_widget :
      (r w : ℕ) (source_id : ℤ) (app : XiboApp S)
      → r < 2147483648
      → w < 2147483648
      → handle_trigger_request on (record { id = source_id; trigger = nav_widget_code r w }) app ≡ (
          if on.has_layout_manager app.parts
          then record app {
            parts =
                (on.navigate_to_widget (pos w) (if ltb 0 r then pos r else source_id) app.parts).1;
          }
          else app)
  unfolding widget_or_other
  handle_trigger-nav_widget r w source_id app lt_r lt_w =
      let request : TriggerRequest = record { id = source_id; trigger = nav_widget_code r w } in
      other_than_words (map_lower (region_and_widget r w)) request app
        (ap to_lower (code_trimmed r w) ∙ code_lowered r w)
      ∙ rw (code_trimmed r w, (parse_nav_widget_target-to_string r w lt_r lt_w).0)
          (navigate_lem r w source_id app)

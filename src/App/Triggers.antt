-- ===== src/App/Triggers.antt =====
-- XiboApp.cpp: the codes of triggers. A function that returns false is `none`: its callers then do
-- not read what it wrote. Characters stand for bytes, which agree on all the codes that are compared.
pub mod Parsed
use xibo_linux.Base.{
  ℕ, zero, suc, ◌+◌, ◌-◌, ◌*◌, ◌/◌, ◌%◌, ◌≤◌, ◌<◌, String, ◌≡◌, refl, sym, ap, subst, ◌∙◌, ◌≢◌, ◌↔◌,
  ◌⊎◌, inl, inr, Bool, true, false, not, ◌&&◌, ◌||◌, Option, none, some, List, [], ◌∷◌, ◌++◌, map,
  append_assoc, append-nil, arith, ltb, leb, ◌==◌, if◌then◌else◌, Bool-cases, Option-cases,
  &&-eq-true, ◌>>=◌, is_some, >>=-eq_of_some, >>=-eq-some, ℤ, pos, negsuc, ◌+ℤ◌, ◌-ℤ◌, ◌≤ℤ◌, ltb_ℤ,
  leb_ℤ, ◌==ℤ◌, ==ℤ_iff, ==ℤ_refl, length, get_elem?, filter, any, all, find, is_empty, filter_idem,
  filter-append, all-filter, filter_of_all, all-append, any-append, length-append, get_elem?_lt,
  str_eq, str_eq_iff, ◌++ₛ◌, contains, to_string, stoi,
}
use xibo_linux.Base.Scan.{
  trim_start, trim_end, map_lower, all_digits, text_is_empty, has_prefix, substr_from, split_at,
}

unfoldable pub trim : String → String
trim value = trim_end (trim_start value)

unfoldable pub to_lower : String → String
to_lower value = map_lower value

unfoldable pub parse_int : String → Option ℤ
unfolding trim
parse_int input =
    let raw = trim input in
    if text_is_empty raw then none else if not (all_digits raw) then none else stoi raw

-- The loop over the prefixes of parseLayoutIdFromTrigger; a prefix stands with its length.
layout_id_after : List (String × ℕ) → String → Option ℤ
unfolding parse_int
layout_id_after [] trigger_code = none
layout_id_after ((prefix, size) ∷ prefixes) trigger_code =
    if has_prefix trigger_code prefix
    then parse_int (substr_from size trigger_code)
    else layout_id_after prefixes trigger_code

abbrev layout_prefixes : List (String × ℕ)
layout_prefixes = ("navlayout:", 10) ∷ ("layout:", 7) ∷ ("layoutid:", 9) ∷ []

unfoldable pub parse_layout_id_from_trigger : String → Option ℤ
unfolding parse_int layout_id_after
parse_layout_id_from_trigger trigger_code = elim (parse_int trigger_code) [
  | some id ↦ some id
  | none ↦ layout_id_after layout_prefixes trigger_code
]

pub record NavWidgetTarget : Type 0 where
  pub widget_id : ℤ
  pub region_id : ℤ

target_of : Option ℤ → Option ℤ → Option NavWidgetTarget
target_of region_id widget_id = do
  region ← region_id
  widget ← widget_id
  some (record { widget_id = widget; region_id = region })

target_parts : String → Option (String × String) → Option NavWidgetTarget
unfolding target_of parse_int
target_parts payload none = target_of (some (pos 0)) (parse_int payload)
target_parts payload (some (region, widget)) = target_of (parse_int region) (parse_int widget)

unfoldable pub target_from : String → Option NavWidgetTarget
unfolding target_parts trim
target_from payload =
    let trimmed = trim payload in
    if text_is_empty trimmed then none else target_parts trimmed (split_at b':' trimmed)

unfoldable pub parse_nav_widget_target : String → Option NavWidgetTarget
unfolding trim to_lower target_from
parse_nav_widget_target trigger_code =
    let raw = trim trigger_code in
    let lowered = to_lower raw in
    if has_prefix lowered "navwidget:"
    then target_from (substr_from 10 raw)
    else if has_prefix lowered "widget:"
    then target_from (substr_from 7 raw)
    else none

non_empty : String → Option String
non_empty payload = if text_is_empty payload then none else some payload

unfoldable pub parse_command_payload : String → Option String
unfolding trim to_lower non_empty
parse_command_payload trigger_code =
    let raw = trim trigger_code in
    let lowered = to_lower raw in
    if has_prefix lowered "command:"
    then non_empty (trim (substr_from 8 raw))
    else if has_prefix lowered "exec:"
    then non_empty (trim (substr_from 5 raw))
    else none

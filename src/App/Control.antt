-- ===== src/App/Control.antt =====
-- XiboApp.cpp: what the application does with the requests of the embedded server and the signals of
-- XmrManager, once they reach the UI thread. The scheduler, the layouts manager and the intervals are an
-- interface; `executed` are the commands that were passed on to std::system.
pub mod Disabled
pub mod Routes
use xibo_linux.Base.{
  ℕ, zero, suc, ◌+◌, ◌-◌, ◌*◌, ◌/◌, ◌%◌, ◌≤◌, ◌<◌, String, ◌≡◌, refl, sym, ap, subst, ◌∙◌, ◌≢◌, ◌↔◌,
  ◌⊎◌, inl, inr, Bool, true, false, not, ◌&&◌, ◌||◌, Option, none, some, List, [], ◌∷◌, ◌++◌, map,
  append_assoc, append-nil, arith, ltb, leb, ◌==◌, if◌then◌else◌, Bool-cases, Option-cases,
  &&-eq-true, ◌>>=◌, is_some, >>=-eq_of_some, >>=-eq-some, ℤ, pos, negsuc, ◌+ℤ◌, ◌-ℤ◌, ◌≤ℤ◌, ltb_ℤ,
  leb_ℤ, ◌==ℤ◌, ==ℤ_iff, ==ℤ_refl, length, get_elem?, filter, any, all, find, is_empty, filter_idem,
  filter-append, all-filter, filter_of_all, all-append, any-append, length-append, get_elem?_lt,
  str_eq, str_eq_iff, ◌++ₛ◌, contains, to_string, stoi,
}
use xibo_linux.Base.Scan.{text_is_empty, split_at}
use xibo_linux.Schedule.Item.{empty_layout_id}
use xibo_linux.Xmr.{
  CriteriaUpdate, XmrMessage, XmrAction, collection_interval, screenshot, revert_to_schedule,
  purge_all, layout_change, overlay_layout, criteria_update, command_action, data_update,
  trigger_webhook,
}
use xibo_linux.App.Triggers.{
  trim, to_lower, NavWidgetTarget, parse_nav_widget_target, parse_command_payload,
  parse_layout_id_from_trigger,
}

-- The parts that XiboApp calls, on their common state `S`. Those with `has` say whether a pointer is set.
pub record Components (T S : Type 0) : Type 0 where
  pub trigger_next_layout : S → S
  pub trigger_previous_layout : S → S
  pub trigger_layout_by_id : ℤ → S → Bool × S
  pub apply_layout_override : ℤ → T → ℤ → S → S
  pub add_overlay_override : ℤ → T → ℤ → S → S
  pub clear_overrides : S → S
  pub reload_queue : S → S
  pub add_or_replace_criteria : String → String → ℤ → S → S
  pub has_layout_manager : S → Bool
  pub navigate_to_widget : ℤ → ℤ → S → Bool × S
  pub expire_duration_target : ℤ → S → Bool × S
  pub extend_duration_target : ℤ → ℤ → S → Bool × S
  pub set_duration_target : ℤ → ℤ → S → Bool × S
  pub has_collection_interval : S → Bool
  pub collect_now : S → S
  pub has_screen_shot_interval : S → Bool
  pub take_screen_shot : S → S
  pub add_unsafe_widget : ℤ → String → String → ℤ → S → S
  -- purgeAllCachedResources up to its last two calls
  pub purge_cached_resources : S → S

pub record TriggerRequest : Type 0 where
  pub id : ℤ
  pub trigger : String

pub record DurationRequest : Type 0 where
  pub operation : String
  pub id : ℤ
  pub duration : ℤ

pub record FaultRequest : Type 0 where
  pub code : ℤ
  pub key : String
  pub ttl : ℤ
  pub reason : String

-- The members of XiboApp that the handlers use.
pub record XiboApp (S : Type 0) : Type 0 where
  pub parts : S
  pub enable_shell_commands : Bool
  pub executed : List String
  pub control_count : ℕ
  pub last_trigger : TriggerRequest
  pub last_duration : DurationRequest
  pub last_fault : FaultRequest

pub data ControlEvent (T : Type 0) : Type 0 where
  criteria_received : List CriteriaUpdate → ControlEvent T
  trigger_received : TriggerRequest → ControlEvent T
  duration_received : DurationRequest → ControlEvent T
  fault_received : FaultRequest → ControlEvent T
  xmr_posted : XmrAction T → ControlEvent T

module _ {S : Type 0} where
  abbrev with_parts : S → XiboApp S → XiboApp S
  with_parts parts app = record app { parts = parts }

  unfoldable pub handle_command_trigger : String → XiboApp S → XiboApp S
  handle_command_trigger command app =
      if not app.enable_shell_commands
      then app
      else record app { executed = app.executed ++ (command ∷ []) }

module _ {T S : Type 0} (on : Components T S) where
  -- The branch of handleTriggerRequest for a widget, with the source of the request.
  navigate : ℤ → NavWidgetTarget → XiboApp S → XiboApp S
  navigate source_id target app =
      if not (on.has_layout_manager app.parts)
      then app
      else let region_id =
          (if ltb_ℤ (pos 0) target.region_id then target.region_id else source_id) in
        with_parts (on.navigate_to_widget target.widget_id region_id app.parts).1 app

  play_layout : Option ℤ → XiboApp S → XiboApp S
  play_layout none app = app
  play_layout (some layout_id) app = with_parts (on.trigger_layout_by_id layout_id app.parts).1 app

  command_or_layout : Option String → String → XiboApp S → XiboApp S
  unfolding handle_command_trigger play_layout parse_layout_id_from_trigger
  command_or_layout (some command) normalized app = handle_command_trigger command app
  command_or_layout none normalized app = play_layout (parse_layout_id_from_trigger normalized) app

  widget_or_other : ℤ → String → String → Option NavWidgetTarget → XiboApp S → XiboApp S
  unfolding navigate command_or_layout parse_command_payload
  widget_or_other source_id trigger normalized (some target) app = navigate source_id target app
  widget_or_other source_id trigger normalized none app =
      command_or_layout (parse_command_payload trigger) normalized app

  unfoldable pub handle_trigger_request : TriggerRequest → XiboApp S → XiboApp S
  unfolding widget_or_other trim to_lower parse_nav_widget_target
  handle_trigger_request request app =
      let trigger = trim request.trigger in
      let normalized = to_lower trigger in
      if text_is_empty normalized
      then app
      else if str_eq normalized "next"
      then with_parts (on.trigger_next_layout app.parts) app
      else if str_eq normalized "previous" || str_eq normalized "prev"
      then with_parts (on.trigger_previous_layout app.parts) app
      else widget_or_other request.id trigger normalized (parse_nav_widget_target trigger) app

  expire_or_next : Bool × S → XiboApp S → XiboApp S
  expire_or_next (true, parts) app = with_parts parts app
  expire_or_next (false, parts) app = with_parts (on.trigger_next_layout parts) app

  unfoldable pub handle_duration_request : DurationRequest → XiboApp S → XiboApp S
  unfolding expire_or_next trim to_lower
  handle_duration_request request app =
      let operation = to_lower (trim request.operation) in
      if not (on.has_layout_manager app.parts)
      then app
      else if str_eq operation "expire"
      then expire_or_next (on.expire_duration_target request.id app.parts) app
      else if str_eq operation "extend"
      then with_parts (on.extend_duration_target request.id request.duration app.parts).1 app
      else if str_eq operation "set"
      then with_parts (on.set_duration_target request.id request.duration app.parts).1 app
      else app

  unfoldable pub apply_criteria : List CriteriaUpdate → S → S
  apply_criteria [] parts = parts
  apply_criteria (update ∷ updates) parts =
      apply_criteria updates
        (on.add_or_replace_criteria update.metric update.value update.ttl parts)

  -- The text behind the first `_` of a key, unless it is empty.
  widget_of : Option (String × String) → Option String
  widget_of none = none
  widget_of (some (before, behind)) = if text_is_empty behind then none else some behind

  flag_widget : FaultRequest → Option String → S → S
  flag_widget request none parts = parts
  flag_widget request (some widget_id) parts =
      on.add_unsafe_widget request.code widget_id request.reason request.ttl parts

  collect_if_ready : S → S
  collect_if_ready parts = if on.has_collection_interval parts then on.collect_now parts else parts

  unfoldable pub purge_all_cached_resources : S → S
  unfolding collect_if_ready
  purge_all_cached_resources parts =
      collect_if_ready (on.reload_queue (on.purge_cached_resources parts))

  abbrev download_first : XmrMessage T → S → S
  download_first message parts = if message.download_required then collect_if_ready parts else parts

  -- The slots that createXmrManager connects.
  unfoldable pub handle_xmr_action : XmrAction T → XiboApp S → XiboApp S
  unfolding collect_if_ready apply_criteria handle_command_trigger handle_trigger_request
      purge_all_cached_resources
  handle_xmr_action collection_interval app = with_parts (collect_if_ready app.parts) app
  handle_xmr_action screenshot app =
      if on.has_screen_shot_interval app.parts
      then with_parts (on.take_screen_shot app.parts) app
      else app
  handle_xmr_action (layout_change m) app =
      with_parts
        (on.apply_layout_override m.layout_id m.created_dt m.duration (download_first m app.parts))
        app
  handle_xmr_action (overlay_layout m) app =
      with_parts
        (on.add_overlay_override m.layout_id m.created_dt m.duration (download_first m app.parts))
        app
  handle_xmr_action revert_to_schedule app = with_parts (on.clear_overrides app.parts) app
  handle_xmr_action (criteria_update m) app =
      with_parts (apply_criteria m.criteria_updates app.parts) app
  handle_xmr_action (command_action m) app =
      let payload = (if not (text_is_empty m.command) then m.command else m.command_code) in
      if text_is_empty payload then app else handle_command_trigger payload app
  handle_xmr_action (data_update m) app = with_parts (collect_if_ready app.parts) app
  handle_xmr_action (trigger_webhook m) app =
      if text_is_empty m.trigger_code
      then app
      else handle_trigger_request (record { id = m.source_id; trigger = m.trigger_code }) app
  handle_xmr_action purge_all app = with_parts (purge_all_cached_resources app.parts) app

  -- The handlers of the embedded server, and the signals of XmrManager.
  unfoldable pub handle_event : ControlEvent T → XiboApp S → XiboApp S
  unfolding apply_criteria handle_trigger_request handle_duration_request flag_widget widget_of
      handle_xmr_action
  handle_event (criteria_received updates) app = with_parts (apply_criteria updates app.parts) app
  handle_event (trigger_received request) app =
      handle_trigger_request request
        (record app { control_count = app.control_count + 1; last_trigger = request })
  handle_event (duration_received request) app =
      handle_duration_request request
        (record app { control_count = app.control_count + 1; last_duration = request })
  handle_event (fault_received request) app = record app {
    control_count = app.control_count + 1;
    last_fault = request;
    parts = flag_widget request (widget_of (split_at b'_' request.key)) app.parts;
  }
  handle_event (xmr_posted action) app = handle_xmr_action action app

  abbrev pub handle_events : List (ControlEvent T) → XiboApp S → XiboApp S
  handle_events [] app = app
  handle_events (event ∷ events) app = handle_events events (handle_event event app)

-- ===== src/App/Control/Disabled.antt =====
-- With shell commands disabled no command is executed.
use xibo_linux.Base.{
  String, ◌≡◌, refl, sym, subst, Bool, true, false, not, Option, none, some, List, [], ◌∷◌, ◌++◌,
  if◌then◌else◌, ℤ,
}
use xibo_linux.Xmr.{
  XmrAction, collection_interval, screenshot, revert_to_schedule, purge_all, layout_change,
  overlay_layout, criteria_update, command_action, data_update, trigger_webhook,
}
use xibo_linux.App.Triggers.{NavWidgetTarget, parse_command_payload, parse_layout_id_from_trigger}
use xibo_linux.App.Control.{
  Components, TriggerRequest, DurationRequest, XiboApp, ControlEvent, criteria_received,
  trigger_received, duration_received, fault_received, xmr_posted, with_parts,
  handle_command_trigger, navigate, play_layout, command_or_layout, widget_or_other,
  handle_trigger_request, expire_or_next, handle_duration_request, handle_xmr_action, handle_event,
  handle_events,
}

module _ {S : Type 0} where
  -- Commands are disabled, and none has been executed since `app`.
  record IsIdle (app app' : XiboApp S) : Type 0 where
    disabled : app'.enable_shell_commands ≡ false
    executed_kept : app'.executed ≡ app.executed

  IsIdle-if :
      (b : Bool) (app x y : XiboApp S)
      → IsIdle app x
      → IsIdle app y
      → IsIdle app (if b then x else y)
  IsIdle-if true app x y h k = h
  IsIdle-if false app x y h k = k

  moved : (parts : S) (app app' : XiboApp S) → IsIdle app app' → IsIdle app (with_parts parts app')
  moved parts app app' h = record { disabled = h.disabled; executed_kept = h.executed_kept }

  command-IsIdle :
      (command : String) (app app' : XiboApp S)
      → IsIdle app app'
      → IsIdle app (handle_command_trigger command app')
  unfolding handle_command_trigger
  command-IsIdle command app app' h =
      subst
        (λ b.
          IsIdle app
            (if not b then app' else record app' { executed = app'.executed ++ (command ∷ []) }))
        (sym h.disabled) h

module _ {T S : Type 0} (on : Components T S) where
  navigate-IsIdle :
      (source_id : ℤ) (target : NavWidgetTarget) (app app' : XiboApp S)
      → IsIdle app app'
      → IsIdle app (navigate on source_id target app')
  unfolding navigate
  navigate-IsIdle source_id target app app' h = search (IsIdle-if, moved)

  play_layout-IsIdle :
      (id : Option ℤ) (app app' : XiboApp S) → IsIdle app app' → IsIdle app (play_layout on id app')
  unfolding play_layout
  play_layout-IsIdle none app app' h = h
  play_layout-IsIdle (some id) app app' h = moved _ app app' h

  command_or_layout-IsIdle :
      (command : Option String) (normalized : String) (app app' : XiboApp S)
      → IsIdle app app'
      → IsIdle app (command_or_layout on command normalized app')
  unfolding command_or_layout
  command_or_layout-IsIdle (some command) normalized app app' h = command-IsIdle command app app' h
  command_or_layout-IsIdle none normalized app app' h =
      play_layout-IsIdle (parse_layout_id_from_trigger normalized) app app' h

  widget_or_other-IsIdle :
      (source_id : ℤ) (trigger normalized : String) (target : Option NavWidgetTarget)
      (app app' : XiboApp S)
      → IsIdle app app'
      → IsIdle app (widget_or_other on source_id trigger normalized target app')
  unfolding widget_or_other
  widget_or_other-IsIdle source_id trigger normalized (some target) app app' h =
      navigate-IsIdle source_id target app app' h
  widget_or_other-IsIdle source_id trigger normalized none app app' h =
      command_or_layout-IsIdle (parse_command_payload trigger) normalized app app' h

  trigger-IsIdle :
      (request : TriggerRequest) (app app' : XiboApp S)
      → IsIdle app app'
      → IsIdle app (handle_trigger_request on request app')
  unfolding handle_trigger_request
  trigger-IsIdle request app app' h = search (IsIdle-if, moved, widget_or_other-IsIdle)

  expire_or_next-IsIdle :
      (result : Bool × S) (app app' : XiboApp S)
      → IsIdle app app'
      → IsIdle app (expire_or_next on result app')
  unfolding expire_or_next
  expire_or_next-IsIdle (true, parts) app app' h = moved parts app app' h
  expire_or_next-IsIdle (false, parts) app app' h = moved _ app app' h

  duration-IsIdle :
      (request : DurationRequest) (app app' : XiboApp S)
      → IsIdle app app'
      → IsIdle app (handle_duration_request on request app')
  unfolding handle_duration_request
  duration-IsIdle request app app' h = search (IsIdle-if, moved, expire_or_next-IsIdle)

  xmr-IsIdle :
      (action : XmrAction T) (app app' : XiboApp S)
      → IsIdle app app'
      → IsIdle app (handle_xmr_action on action app')
  unfolding handle_xmr_action
  xmr-IsIdle collection_interval app app' h = moved _ app app' h
  xmr-IsIdle screenshot app app' h = search (IsIdle-if, moved)
  xmr-IsIdle (layout_change m) app app' h = moved _ app app' h
  xmr-IsIdle (overlay_layout m) app app' h = moved _ app app' h
  xmr-IsIdle revert_to_schedule app app' h = moved _ app app' h
  xmr-IsIdle (criteria_update m) app app' h = moved _ app app' h
  xmr-IsIdle (command_action m) app app' h = search (IsIdle-if, command-IsIdle)
  xmr-IsIdle (data_update m) app app' h = moved _ app app' h
  xmr-IsIdle (trigger_webhook m) app app' h = search (IsIdle-if, trigger-IsIdle)
  xmr-IsIdle purge_all app app' h = moved _ app app' h

  event-IsIdle :
      (event : ControlEvent T) (app app' : XiboApp S)
      → IsIdle app app'
      → IsIdle app (handle_event on event app')
  unfolding handle_event
  event-IsIdle (criteria_received updates) app app' h = moved _ app app' h
  event-IsIdle (trigger_received request) app app' h =
      trigger-IsIdle request app _
        (record { disabled = h.disabled; executed_kept = h.executed_kept })
  event-IsIdle (duration_received request) app app' h =
      duration-IsIdle request app _
        (record { disabled = h.disabled; executed_kept = h.executed_kept })
  event-IsIdle (fault_received request) app app' h = record {
    disabled = h.disabled;
    executed_kept = h.executed_kept;
  }
  event-IsIdle (xmr_posted action) app app' h = xmr-IsIdle action app app' h

  events-IsIdle :
      (events : List (ControlEvent T)) (app app' : XiboApp S)
      → IsIdle app app'
      → IsIdle app (handle_events on events app')
  events-IsIdle [] app app' h = h
  events-IsIdle (event ∷ events) app app' h =
      events-IsIdle events app (handle_event on event app') (event-IsIdle event app app' h)

  -- With shell commands disabled, no sequence of requests of the embedded server and signals of XmrManager
  -- executes a command.
  pub handle_events_disabled :
      (events : List (ControlEvent T)) (app : XiboApp S)
      → app.enable_shell_commands ≡ false
      → (handle_events on events app).executed ≡ app.executed
  handle_events_disabled events app h =
      (events-IsIdle events app app (record { disabled = h; executed_kept = refl })).executed_kept

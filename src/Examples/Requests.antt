-- ===== src/Examples/Requests.antt =====
-- The theorems on the requests that reach XiboApp and on its files, at concrete requests and files.
use xibo_linux.Base.{
  String, ◌≡◌, refl, Bool, true, false, Option, none, some, List, [], ◌∷◌, ◌++◌, arith,
  if◌then◌else◌, ℤ, pos, str_eq, ◌++ₛ◌, to_string,
}
use xibo_linux.FileCache.{Entries, valid, cached_files}
use xibo_linux.Xmr.{purge_all}
use xibo_linux.App.Triggers.{parse_nav_widget_target}
use xibo_linux.App.Triggers.Parsed.{parse_nav_widget_target-to_string}
use xibo_linux.App.Control.{
  Components, XiboApp, trigger_received, xmr_posted, handle_trigger_request, handle_events,
}
use xibo_linux.App.Control.Disabled.{handle_events_disabled}
use xibo_linux.App.Control.Routes.{nav_widget_code, handle_trigger-nav_widget}
use xibo_linux.App.Resources.{Directory, check_resource_directory, purge_cached_resources}
use xibo_linux.App.Resources.Checked.{IsIntact, check_resource_directory-IsIntact}

parse_nav_widget_target-to_string_example :
    (parse_nav_widget_target
        ("navWidget:" ++ₛ to_string (pos 12) ++ₛ String.◌∷◌ ":" (to_string (pos 345)))
      ≡ some (record { widget_id = pos 345; region_id = pos 12 }))
    × (parse_nav_widget_target ("navWidget:" ++ₛ to_string (pos 345))
        ≡ some (record { widget_id = pos 345; region_id = pos 0 }))
parse_nav_widget_target-to_string_example =
    parse_nav_widget_target-to_string 12 345 (omega arith) (omega arith)

-- The widgets and regions that were navigated to.
abbrev Visits : Type 0
Visits = List (ℤ × ℤ)

abbrev visit : ℤ → ℤ → Visits → Bool × Visits
visit widget_id region_id visits = (true, visits ++ ((widget_id, region_id) ∷ []))

abbrev components : Components (Option ℤ) Visits
components = record {
  trigger_next_layout = λ visits. [];
  trigger_previous_layout = λ visits. [];
  trigger_layout_by_id = λ id visits. (false, visits);
  apply_layout_override = λ id created_dt duration visits. [];
  add_overlay_override = λ id created_dt duration visits. visits;
  clear_overrides = λ visits. visits;
  reload_queue = λ visits. [];
  add_or_replace_criteria = λ metric value ttl visits. visits;
  has_layout_manager = λ visits. true;
  navigate_to_widget = visit;
  expire_duration_target = λ id visits. (false, visits);
  extend_duration_target = λ id duration visits. (false, visits);
  set_duration_target = λ id duration visits. (false, visits);
  has_collection_interval = λ visits. false;
  collect_now = λ visits. visits;
  has_screen_shot_interval = λ visits. false;
  take_screen_shot = λ visits. visits;
  add_unsafe_widget = λ code id reason ttl visits. visits;
  purge_cached_resources = λ visits. visits;
}

abbrev app : XiboApp Visits
app = record {
  parts = [];
  enable_shell_commands = false;
  executed = [];
  control_count = 0;
  last_trigger = record { id = pos 0; trigger = "" };
  last_duration = record { operation = ""; id = pos 0; duration = pos 0 };
  last_fault = record { code = pos 0; key = ""; ttl = pos 0; reason = "" };
}

handle_trigger-nav_widget_example :
    handle_trigger_request components (record { id = pos 5; trigger = nav_widget_code 12 345 }) app
    ≡ record app { parts = (pos 345, pos 12) ∷ [] }
handle_trigger-nav_widget_example =
    handle_trigger-nav_widget components 12 345 (pos 5) app (omega arith) (omega arith)

handle_events_disabled_example :
    (handle_events components
      (trigger_received (record { id = pos 5; trigger = "command: reboot" })
        ∷ xmr_posted purge_all
        ∷ [])
      app).executed
    ≡ []
handle_events_disabled_example =
    handle_events_disabled components
      (trigger_received (record { id = pos 5; trigger = "command: reboot" })
        ∷ xmr_posted purge_all
        ∷ [])
      app refl

abbrev cache : Entries
cache =
    ("file", record { name = some "7.xlf"; md5 = some "aa"; updated = none; valid = some true })
    ∷ ("file", record { name = some "31.png"; md5 = some "bb"; updated = none; valid = some true })
    ∷ []

abbrev directory : Directory
directory name = if str_eq name "7.xlf" then some "aa" else none

abbrev same_text : String → String
same_text text = text

check_resource_directory-IsIntact_example :
    IsIntact same_text directory "7.xlf" (check_resource_directory same_text directory cache)
unfolding cached_files valid check_resource_directory
check_resource_directory-IsIntact_example =
    check_resource_directory-IsIntact same_text directory "7.xlf" cache refl refl

missing_is_invalid : valid "31.png" (check_resource_directory same_text directory cache) ≡ false
unfolding valid check_resource_directory
missing_is_invalid = refl

-- ===== src/Examples/Channel.antt =====
-- The theorems on XmrManager at a concrete manager.
use xibo_linux.Base.{
  ℕ, zero, suc, ◌+◌, ◌-◌, ◌*◌, ◌/◌, ◌%◌, ◌≤◌, ◌<◌, String, ◌≡◌, refl, sym, ap, subst, ◌∙◌, ◌≢◌, ◌↔◌,
  ◌⊎◌, inl, inr, Bool, true, false, not, ◌&&◌, ◌||◌, Option, none, some, List, [], ◌∷◌, ◌++◌, map,
  append_assoc, append-nil, arith, ltb, leb, ◌==◌, if◌then◌else◌, Bool-cases, Option-cases,
  &&-eq-true, ◌>>=◌, is_some, >>=-eq_of_some, >>=-eq-some, ℤ, pos, negsuc, ◌+ℤ◌, ◌-ℤ◌, ◌≤ℤ◌, ltb_ℤ,
  leb_ℤ, ◌==ℤ◌, ==ℤ_iff, ==ℤ_refl, length, get_elem?, filter, any, all, find, is_empty, filter_idem,
  filter-append, all-filter, filter_of_all, all-append, any-append, length-append, get_elem?_lt,
  str_eq, str_eq_iff, ◌++ₛ◌, contains, to_string, stoi,
}
use xibo_linux.Base.Scan.{has_prefix, substr_from, size, split_at}
use xibo_linux.App.Triggers.{trim, to_lower}
use xibo_linux.Xmr.{TextServices, XmrManager, XmrConfig, XmrMessage, new_manager, connect}
use xibo_linux.Xmr.Connection.{IsLinked}
use xibo_linux.Xmr.Again.{connect_again}
use xibo_linux.Xmr.Messages.{JsonTree, process_web_socket_message, process_multipart_message}
use xibo_linux.Xmr.Dispatch.{transports_agree, message_of, signals_of, main_channel_messages}
use xibo_linux.Xmr.Runs.{connects, zmq_brings, run, run-IsLinked}
use xibo_linux.Settings.{
  xmr_config, PlayerSettings, default_settings, CmsAccess, from_fields, on_xmr_setting,
}
use xibo_linux.Settings.Followed.{xmr_changes, from_fields_lem}
use xibo_linux.Examples.Clock.{clock, at}

abbrev scheme_of : Option (String × String) → Option String
scheme_of none = none
scheme_of (some (before, behind)) = some before

-- In place of Boost, for lower-case text.
abbrev services : TextServices
services = record {
  trim_copy = trim;
  to_lower = to_lower;
  istarts_with = λ text prefix. has_prefix (to_lower text) prefix;
  ireplace_first = λ text prefix new. new ++ₛ substr_from (size prefix) text;
  uri_scheme = λ text. scheme_of (split_at b':' text);
}

-- A tree that is its text, which is the action; all times are 100.
abbrev flat : JsonTree String
flat = record {
  from_string = some;
  get_text = λ text key. if str_eq key "action" || str_eq key "createdDt" then some text else none;
  get_int = λ text key. if str_eq key "ttl" then some (pos 60) else none;
  get_bool = λ text key. none;
  get_items = λ text key. none;
}

abbrev one_hundred : String → Option (Option ℤ)
one_hundred text = some (at 100)

abbrev plain : String → String → Option String
plain key message = some message

abbrev config : XmrConfig
config = record {
  host = "cms.example";
  xmr_type = " WS ";
  web_socket_address = "";
  cms_key = "key";
  cms_address = "https://cms.example/";
}

abbrev manager : XmrManager (Option ℤ)
manager = new_manager clock "channel"

run-IsLinked_example : IsLinked (
    run clock services one_hundred flat plain
      (record { now_utc = at 110; now = at 110; call = connects config }
        ∷ record {
          now_utc = at 120;
          now = at 120;
          call = zmq_brings ("channel" ∷ "k" ∷ "collectNow" ∷ []);
        }
        ∷ [])
      manager)
run-IsLinked_example = run-IsLinked clock services one_hundred flat plain "channel" (
    record { now_utc = at 110; now = at 110; call = connects config }
    ∷ record {
      now_utc = at 120;
      now = at 120;
      call = zmq_brings ("channel" ∷ "k" ∷ "collectNow" ∷ []);
    }
    ∷ [])

connects_to : (connect services config manager).info.host ≡ "wss://cms.example/xmr"
unfolding connect to_lower xibo_linux.Base.Scan.map_lower trim xibo_linux.Base.Scan.trim_end
    xibo_linux.Base.Scan.trim_start has_prefix substr_from size xibo_linux.Base.Scan.ends_with_char
    split_at
connects_to = refl

connect_again_example :
    connect services config (connect services config manager) ≡ connect services config manager
connect_again_example = connect_again services config manager (rw connects_to refl)

transports_agree_example :
    process_multipart_message clock
      (at 110)
      (at 110)
      one_hundred
      flat
      plain
      ("channel" ∷ "k" ∷ "collectNow" ∷ [])
      manager
    ≡ process_web_socket_message clock (at 110) (at 110) one_hundred flat "collectNow" manager
transports_agree_example =
    transports_agree clock (at 110) (at 110) one_hundred flat plain "k" "collectNow" "collectNow" []
      manager refl (λ e. ground (arith, (str_eq_iff "collectNow" "H").1 e))

main_channel_messages_example :
    let s' =
      process_multipart_message clock
        (at 110)
        (at 110)
        one_hundred
        flat
        plain
        ("channel" ∷ "k" ∷ "collectNow" ∷ [])
        manager in
    (message_of clock (at 110) (at 110) one_hundred flat plain ("k" ∷ "collectNow" ∷ []) ≡ none)
      × (s' ≡ manager)
    ⊎ (m : XmrMessage (Option ℤ)) × (message_of clock
          (at 110)
          (at 110)
          one_hundred
          flat
          plain
          ("k" ∷ "collectNow" ∷ [])
        ≡ some m)
      × (s'.posted ≡ manager.posted ++ signals_of clock (at 110) (at 110) one_hundred flat plain m)
      × (s'.info.last_message_dt ≡ at 110)
      × (s'.info.host ≡ manager.info.host)
      × (s'.zmq ≡ manager.zmq)
      × (s'.ws ≡ manager.ws)
main_channel_messages_example =
    main_channel_messages clock (at 110) (at 110) one_hundred flat plain ("k" ∷ "collectNow" ∷ [])
      manager

abbrev cms : CmsAccess
cms = record { address = "https://cms.example/"; key = "key" }

abbrev web_socket_settings : PlayerSettings
web_socket_settings = record default_settings {
  xmr_network_address = "cms.example";
  xmr_type = "ws";
}

from_fields_lem_example :
    let (settings, manager') =
      from_fields (on_xmr_setting services cms) web_socket_settings (default_settings, manager) in
    (settings ≡ web_socket_settings)
    × ((xmr_changes default_settings web_socket_settings ≡ false) × (manager' ≡ manager)
        ⊎ (xmr_changes default_settings web_socket_settings ≡ true)
          × (before : XmrManager (Option ℤ)) × (manager'
              ≡ connect services (xmr_config cms web_socket_settings) before))
from_fields_lem_example = from_fields_lem services cms default_settings manager web_socket_settings

-- ===== src/Xmr.antt =====
-- xmr/XmrManager: the connection to the XMR server. boost::algorithm, the grammar of Uri and the two
-- subscribers' threads are outside: a subscriber holds what it was last run with, and the calls that
-- start and stop the subscribers are recorded in `calls`.
pub mod Connection
pub mod Again
pub mod Runs
pub mod Messages
pub mod Dispatch
use xibo_linux.DateTime.{PosixTime}
use xibo_linux.Base.{
  ℕ, zero, suc, ◌+◌, ◌-◌, ◌*◌, ◌/◌, ◌%◌, ◌≤◌, ◌<◌, String, ◌≡◌, refl, sym, ap, subst, ◌∙◌, ◌≢◌, ◌↔◌,
  ◌⊎◌, inl, inr, Bool, true, false, not, ◌&&◌, ◌||◌, Option, none, some, List, [], ◌∷◌, ◌++◌, map,
  append_assoc, append-nil, arith, ltb, leb, ◌==◌, if◌then◌else◌, Bool-cases, Option-cases,
  &&-eq-true, ◌>>=◌, is_some, >>=-eq_of_some, >>=-eq-some, ℤ, pos, negsuc, ◌+ℤ◌, ◌-ℤ◌, ◌≤ℤ◌, ltb_ℤ,
  leb_ℤ, ◌==ℤ◌, ==ℤ_iff, ==ℤ_refl, length, get_elem?, filter, any, all, find, is_empty, filter_idem,
  filter-append, all-filter, filter_of_all, all-append, any-append, length-append, get_elem?_lt,
  str_eq, str_eq_iff, ◌++ₛ◌, contains, to_string, stoi,
}
use xibo_linux.Base.Scan.{ends_with_char}

-- trim_copy, to_lower, istarts_with and ireplace_first of boost::algorithm, and the scheme of
-- Uri::fromString as text, with `none` where it throws.
pub record TextServices : Type 0 where
  pub trim_copy : String → String
  pub to_lower : String → String
  pub istarts_with : String → String → Bool
  pub ireplace_first : String → String → String → String
  pub uri_scheme : String → Option String

-- A message for the slots of XmrManager, which MainLoop::pushToUiThread queues.
pub record CriteriaUpdate : Type 0 where
  pub metric : String
  pub value : String
  pub ttl : ℤ

pub record XmrMessage (T : Type 0) : Type 0 where
  pub action : String
  pub created_dt : T
  pub ttl : ℤ
  pub layout_id : ℤ
  pub duration : ℤ
  pub download_required : Bool
  pub widget_id : ℤ
  pub source_id : ℤ
  pub trigger_code : String
  pub command_code : String
  pub command : String
  pub criteria_updates : List CriteriaUpdate

-- The signals of XmrManager, with what they pass on.
pub data XmrAction (T : Type 0) : Type 0 where
  collection_interval screenshot revert_to_schedule purge_all : XmrAction T
  layout_change overlay_layout criteria_update command_action data_update trigger_webhook :
      XmrMessage T → XmrAction T

pub record XmrStatus (T : Type 0) : Type 0 where
  pub host : String
  pub last_message_dt : T
  pub last_heartbeat_dt : T

-- run and stop of Zmq::Subscriber and Ws::Subscriber.
pub data SubscriberCall : Type 0 where
  zmq_stop ws_stop : SubscriberCall
  zmq_run : String → List String → SubscriberCall
  ws_run : String → String → String → SubscriberCall

-- The members of XmrManager. `zmq` and `ws` hold what the subscribers run with, and `posted` the signals
-- that wait for the UI thread.
pub record XmrManager (T : Type 0) : Type 0 where
  pub main_channel : String
  pub xmr_host : String
  pub xmr_type : String
  pub web_socket_address : String
  pub cms_key : String
  pub cms_address : String
  pub using_web_socket : Bool
  pub zmq : Option (String × List String)
  pub ws : Option (String × String × String)
  pub calls : List SubscriberCall
  pub info : XmrStatus T
  pub posted : List (XmrAction T)

abbrev pub heartbeat_channel : String
heartbeat_channel = "H"

abbrev pub new_manager : {T : Type 0} → PosixTime T → String → XmrManager T
new_manager time channel = record {
  main_channel = channel;
  xmr_host = "";
  xmr_type = "";
  web_socket_address = "";
  cms_key = "";
  cms_address = "";
  using_web_socket = false;
  zmq = none;
  ws = none;
  calls = [];
  info = record {
    host = "";
    last_message_dt = time.not_a_date_time;
    last_heartbeat_dt = time.not_a_date_time;
  };
  posted = [];
}

-- What connect is called with.
pub record XmrConfig : Type 0 where
  pub host : String
  pub xmr_type : String
  pub web_socket_address : String
  pub cms_key : String
  pub cms_address : String

unfoldable pub normalize_zmq_endpoint : String → String
normalize_zmq_endpoint host = if contains host "://" then host else "tcp://" ++ₛ host

module _ {T : Type 0} where
  abbrev set_host : String → XmrManager T → XmrManager T
  set_host host m = record m { info = record m.info { host = host } }

  -- subscriber_.stop() and wsSubscriber_.stop()
  unfoldable pub stop_subscribers : XmrManager T → XmrManager T
  stop_subscribers m = record m {
    zmq = none;
    ws = none;
    calls = m.calls ++ (zmq_stop ∷ ws_stop ∷ []);
  }

  unfoldable pub stop : XmrManager T → XmrManager T
  unfolding stop_subscribers
  stop m = record (stop_subscribers m) { using_web_socket = false }

module _ (text : TextServices) where
  unfoldable pub normalize_type : String → String
  normalize_type kind =
      let normalized = text.to_lower (text.trim_copy kind) in
      if str_eq normalized "" then "zmq" else normalized

  unfoldable pub default_web_socket_endpoint : String → String
  default_web_socket_endpoint cms_address =
      if str_eq cms_address ""
      then ""
      else let endpoint =
          (if text.istarts_with cms_address "https://"
            then text.ireplace_first cms_address "https://" "wss://"
            else if text.istarts_with cms_address "http://"
            then text.ireplace_first cms_address "http://" "ws://"
            else cms_address) in
        (if not (str_eq endpoint "") && not (ends_with_char b'/' endpoint)
          then endpoint ++ₛ "/"
          else endpoint)
        ++ₛ "xmr"

  -- The normalised arguments of connect.
  unfoldable pub normalize : XmrConfig → XmrConfig
  unfolding normalize_type
  normalize c = record {
    host = text.trim_copy c.host;
    xmr_type = normalize_type c.xmr_type;
    web_socket_address = text.trim_copy c.web_socket_address;
    cms_key = text.trim_copy c.cms_key;
    cms_address = text.trim_copy c.cms_address;
  }

  unfoldable pub requested_web_socket_endpoint : XmrConfig → String
  unfolding default_web_socket_endpoint
  requested_web_socket_endpoint c =
      if not (str_eq c.web_socket_address "")
      then c.web_socket_address
      else default_web_socket_endpoint c.cms_address

  abbrev pub should_use_web_socket : XmrConfig → Bool
  should_use_web_socket c = str_eq c.xmr_type "ws"

  unfoldable pub endpoint_of : XmrConfig → String
  unfolding requested_web_socket_endpoint normalize_zmq_endpoint
  endpoint_of c =
      if should_use_web_socket c
      then requested_web_socket_endpoint c
      else normalize_zmq_endpoint c.host

  module _ {T : Type 0} where
    unfoldable pub is_same_config : XmrConfig → XmrManager T → Bool
    unfolding endpoint_of
    is_same_config c m =
        if should_use_web_socket c
        then str_eq m.xmr_host c.host
          && str_eq m.xmr_type c.xmr_type
          && str_eq m.web_socket_address c.web_socket_address
          && str_eq m.cms_key c.cms_key
          && str_eq m.cms_address c.cms_address
          && str_eq m.info.host (endpoint_of c)
        else str_eq m.xmr_host c.host
          && str_eq m.xmr_type c.xmr_type
          && str_eq m.info.host (endpoint_of c)

    -- The assignments of connect, of a normalised configuration.
    unfoldable pub store_config : XmrConfig → XmrManager T → XmrManager T
    store_config c m = record m {
      xmr_host = c.host;
      xmr_type = c.xmr_type;
      web_socket_address = c.web_socket_address;
      cms_key = c.cms_key;
      cms_address = c.cms_address;
      info = record m.info { host = endpoint_of c };
    }

    -- The catch block of connect.
    web_socket_failed : XmrManager T → XmrManager T
    web_socket_failed m = set_host "" (record m { using_web_socket = false })

    -- The try block of connect, for the scheme of the endpoint.
    run_web_socket : String → XmrConfig → Option String → XmrManager T → XmrManager T
    unfolding web_socket_failed
    run_web_socket endpoint c none m = web_socket_failed m
    run_web_socket endpoint c (some scheme) m =
        let lowered = text.to_lower scheme in
        if not (str_eq lowered "ws") && not (str_eq lowered "wss")
        then web_socket_failed m
        else if str_eq c.cms_key ""
        then set_host "" m
        else record m {
          ws = some (endpoint, c.cms_key, m.main_channel);
          calls = m.calls ++ (ws_run endpoint c.cms_key m.main_channel ∷ []);
          using_web_socket = true;
        }

    connect_web_socket : XmrConfig → XmrManager T → XmrManager T
    unfolding run_web_socket requested_web_socket_endpoint
    connect_web_socket c m =
        let endpoint = requested_web_socket_endpoint c in
        if str_eq endpoint ""
        then set_host "" m
        else run_web_socket endpoint c (text.uri_scheme endpoint) m

    connect_zmq : XmrConfig → XmrManager T → XmrManager T
    unfolding normalize_zmq_endpoint
    connect_zmq c m =
        let endpoint = normalize_zmq_endpoint c.host in
        let channels = m.main_channel ∷ heartbeat_channel ∷ [] in
        record (set_host endpoint m) {
          zmq = some (endpoint, channels);
          calls = m.calls ++ (zmq_run endpoint channels ∷ []);
          using_web_socket = false;
        }

    -- What connect does after its assignments.
    reconnect : XmrConfig → XmrManager T → XmrManager T
    unfolding stop_subscribers connect_web_socket connect_zmq
    reconnect c m =
        if str_eq c.host "" || str_eq c.host "DISABLED"
        then set_host "" (record (stop_subscribers m) { using_web_socket = false })
        else if should_use_web_socket c
        then connect_web_socket c (stop_subscribers m)
        else connect_zmq c (stop_subscribers m)

    unfoldable pub connect : XmrConfig → XmrManager T → XmrManager T
    unfolding normalize is_same_config store_config reconnect
    connect config m =
        let c = normalize config in if is_same_config c m then m else reconnect c (store_config c m)

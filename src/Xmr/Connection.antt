-- ===== src/Xmr/Connection.antt =====
-- XmrManager::connect: one subscriber at most runs, and with the status's host; a configuration that connected is not connected again.
use xibo_linux.Base.{
  String, ◌≡◌, refl, ◌∙◌, inl, inr, Bool, true, false, not, ◌&&◌, ◌||◌, Option, none, some, List,
  [], ◌∷◌, if◌then◌else◌, Bool-cases, str_eq,
}
use xibo_linux.Xmr.{
  TextServices, XmrManager, XmrConfig, heartbeat_channel, set_host, stop_subscribers, stop,
  normalize, requested_web_socket_endpoint, should_use_web_socket, endpoint_of, is_same_config,
  store_config, web_socket_failed, run_web_socket, connect_web_socket, connect_zmq, reconnect,
  connect, normalize_zmq_endpoint,
}

-- What the subscribers of a manager of a channel run with, by the host of its status and by whether it
-- takes itself to use a web socket: none of them runs, or one does, with that host.
pub data Link (channel : String)
    : Option (String × List String)
      → Option (String × String × String)
      → String
      → Bool
      → Type 0 where
  idle : (host : String) (using_web_socket : Bool) → Link channel none none host using_web_socket
  by_zmq :
      (host : String) → Link channel (some (host, channel ∷ heartbeat_channel ∷ [])) none host false
  by_web_socket :
      (host key : String)
      → str_eq key "" ≡ false
      → Link channel none (some (host, key, channel)) host true

abbrev pub IsLinked : {T : Type 0} → XmrManager T → Type 0
IsLinked m = Link m.main_channel m.zmq m.ws m.info.host m.using_web_socket

module _ {T : Type 0} where
  pub stop-IsLinked : (m : XmrManager T) → IsLinked (stop m)
  unfolding stop stop_subscribers
  stop-IsLinked m = idle m.info.host false

  IsLinked-if :
      (b : Bool) (x y : XmrManager T) → IsLinked x → IsLinked y → IsLinked (if b then x else y)
  IsLinked-if true x y h k = h
  IsLinked-if false x y h k = k

  idle-IsLinked : (m : XmrManager T) → m.zmq ≡ none → m.ws ≡ none → IsLinked m
  idle-IsLinked m z w = rw (z, w) (idle m.info.host m.using_web_socket)

module _ (text : TextServices) {T : Type 0} where
  run_web_socket-IsLinked :
      (endpoint : String) (c : XmrConfig) (scheme : Option String) (m : XmrManager T)
      → m.zmq ≡ none
      → m.ws ≡ none
      → m.info.host ≡ endpoint
      → IsLinked (run_web_socket text endpoint c scheme m)
  unfolding run_web_socket web_socket_failed
  run_web_socket-IsLinked endpoint c none m z w h = idle-IsLinked (web_socket_failed text m) z w
  run_web_socket-IsLinked endpoint c (some scheme) m z w h =
      let lowered = text.to_lower scheme in
      elim (Bool-cases (not (str_eq lowered "ws") && not (str_eq lowered "wss"))) [
        | inl other ↦ rw other (idle-IsLinked (web_socket_failed text m) z w)
        | inr known ↦ rw known (elim (Bool-cases (str_eq c.cms_key "")) [
          | inl empty ↦ rw empty (idle-IsLinked (set_host "" m) z w)
          | inr key ↦ rw (key, z, h) (by_web_socket endpoint c.cms_key key)
        ])
      ]

  connect_web_socket-IsLinked :
      (c : XmrConfig) (m : XmrManager T)
      → m.info.host ≡ requested_web_socket_endpoint text c
      → IsLinked (connect_web_socket text c (stop_subscribers m))
  unfolding connect_web_socket stop_subscribers
  connect_web_socket-IsLinked c m h =
      elim (Bool-cases (str_eq (requested_web_socket_endpoint text c) "")) [
        | inl empty ↦ rw empty (idle "" m.using_web_socket)
        | inr some_endpoint ↦ rw some_endpoint (
            run_web_socket-IsLinked (requested_web_socket_endpoint text c) c
              (text.uri_scheme (requested_web_socket_endpoint text c)) (stop_subscribers m) refl
              refl h)
      ]

  reconnect-IsLinked :
      (c : XmrConfig) (m : XmrManager T)
      → m.info.host ≡ endpoint_of text c
      → IsLinked (reconnect text c m)
  unfolding reconnect stop_subscribers connect_zmq endpoint_of
  reconnect-IsLinked c m h = elim (Bool-cases (str_eq c.host "" || str_eq c.host "DISABLED")) [
    | inl disabled ↦ rw disabled (idle "" false)
    | inr enabled ↦ rw enabled (elim (Bool-cases (should_use_web_socket text c)) [
      | inl uses ↦ rw uses (connect_web_socket-IsLinked c m (h ∙ rw uses refl))
      | inr uses ↦ rw uses (by_zmq (normalize_zmq_endpoint c.host))
    ])
  ]

  pub connect-IsLinked :
      (c : XmrConfig) (m : XmrManager T) → IsLinked m → IsLinked (connect text c m)
  unfolding connect store_config
  connect-IsLinked c m h =
      IsLinked-if (is_same_config text (normalize text c) m) m
        (reconnect text (normalize text c) (store_config text (normalize text c) m)) h
        (reconnect-IsLinked (normalize text c) (store_config text (normalize text c) m) refl)

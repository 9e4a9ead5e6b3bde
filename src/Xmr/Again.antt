-- ===== src/Xmr/Again.antt =====
-- XmrManager::connect: a configuration that connected is not connected again.
use xibo_linux.Base.{
  String, ◌≡◌, refl, ◌∙◌, ◌⊎◌, inl, inr, true, false, not, ◌&&◌, ◌||◌, Option, none, some, arith,
  if◌then◌else◌, Bool-cases, str_eq, str_eq_iff,
}
use xibo_linux.Xmr.{
  TextServices, XmrManager, XmrConfig, set_host, stop_subscribers, normalize,
  requested_web_socket_endpoint, should_use_web_socket, endpoint_of, is_same_config, store_config,
  web_socket_failed, run_web_socket, connect_web_socket, connect_zmq, reconnect, connect,
}

module _ (text : TextServices) {T : Type 0} where
  -- A manager that holds a configuration, and whose status has the endpoint of it or no host.
  record IsStored (c : XmrConfig) (m : XmrManager T) : Type 0 where
    xmr_host : m.xmr_host ≡ c.host
    xmr_type : m.xmr_type ≡ c.xmr_type
    web_socket_address : m.web_socket_address ≡ c.web_socket_address
    cms_key : m.cms_key ≡ c.cms_key
    cms_address : m.cms_address ≡ c.cms_address
    host : (m.info.host ≡ "") ⊎ (m.info.host ≡ endpoint_of text c)

  no_host : (c : XmrConfig) (m : XmrManager T) → IsStored c m → IsStored c (set_host "" m)
  no_host c m h = record {
    xmr_host = h.xmr_host;
    xmr_type = h.xmr_type;
    web_socket_address = h.web_socket_address;
    cms_key = h.cms_key;
    cms_address = h.cms_address;
    host = inl refl;
  }

  -- The members that IsStored does not read.
  with_links :
      (c : XmrConfig) (m m' : XmrManager T)
      → m'.xmr_host ≡ m.xmr_host
      → m'.xmr_type ≡ m.xmr_type
      → m'.web_socket_address ≡ m.web_socket_address
      → m'.cms_key ≡ m.cms_key
      → m'.cms_address ≡ m.cms_address
      → (m'.info.host ≡ "") ⊎ (m'.info.host ≡ endpoint_of text c)
      → IsStored c m
      → IsStored c m'
  with_links c m m' a b d e f g h = record {
    xmr_host = a ∙ h.xmr_host;
    xmr_type = b ∙ h.xmr_type;
    web_socket_address = d ∙ h.web_socket_address;
    cms_key = e ∙ h.cms_key;
    cms_address = f ∙ h.cms_address;
    host = g;
  }

  run_web_socket-IsStored :
      (endpoint : String) (c : XmrConfig) (scheme : Option String) (m : XmrManager T)
      → IsStored c m
      → IsStored c (run_web_socket text endpoint c scheme m)
  unfolding run_web_socket web_socket_failed
  run_web_socket-IsStored endpoint c none m h =
      with_links c m (web_socket_failed text m) refl refl refl refl refl (inl refl) h
  run_web_socket-IsStored endpoint c (some scheme) m h =
      let lowered = text.to_lower scheme in
      elim (Bool-cases (not (str_eq lowered "ws") && not (str_eq lowered "wss"))) [
        | inl other ↦
            rw other
              (with_links c m (web_socket_failed text m) refl refl refl refl refl (inl refl) h)
        | inr known ↦ rw known (elim (Bool-cases (str_eq c.cms_key "")) [
          | inl empty ↦ rw empty (no_host c m h)
          | inr key ↦ rw key (with_links c m _ refl refl refl refl refl h.host h)
        ])
      ]

  connect_web_socket-IsStored :
      (c : XmrConfig) (m : XmrManager T) → IsStored c m → IsStored c (connect_web_socket text c m)
  unfolding connect_web_socket
  connect_web_socket-IsStored c m h =
      elim (Bool-cases (str_eq (requested_web_socket_endpoint text c) "")) [
        | inl empty ↦ rw empty (no_host c m h)
        | inr some_endpoint ↦ rw some_endpoint (
            run_web_socket-IsStored (requested_web_socket_endpoint text c) c
              (text.uri_scheme (requested_web_socket_endpoint text c)) m h)
      ]

  stop_subscribers-IsStored :
      (c : XmrConfig) (m : XmrManager T) → IsStored c m → IsStored c (stop_subscribers m)
  unfolding stop_subscribers
  stop_subscribers-IsStored c m h =
      with_links c m (stop_subscribers m) refl refl refl refl refl h.host h

  reconnect-IsStored :
      (c : XmrConfig) (m : XmrManager T) → IsStored c m → IsStored c (reconnect text c m)
  unfolding reconnect connect_zmq endpoint_of
  reconnect-IsStored c m h =
      let stopped = stop_subscribers-IsStored c m h in
      elim (Bool-cases (str_eq c.host "" || str_eq c.host "DISABLED")) [
        | inl disabled ↦
            rw disabled
              (with_links c (stop_subscribers m) _ refl refl refl refl refl (inl refl) stopped)
        | inr enabled ↦ rw enabled (elim (Bool-cases (should_use_web_socket text c)) [
          | inl uses ↦ rw uses (connect_web_socket-IsStored c (stop_subscribers m) stopped)
          | inr uses ↦ rw uses (
              with_links c (stop_subscribers m) _ refl refl refl refl refl (inr (rw uses refl))
                stopped)
        ])
      ]

  same_of-IsStored :
      (c : XmrConfig) (m : XmrManager T)
      → IsStored c m
      → str_eq m.info.host "" ≡ false
      → is_same_config text c m ≡ true
  unfolding is_same_config
  same_of-IsStored c m h connected = ground (
    arith,
    h.xmr_host,
    h.xmr_type,
    h.web_socket_address,
    h.cms_key,
    h.cms_address,
    h.host,
    str_eq_iff m.info.host "",
    str_eq_iff m.info.host (endpoint_of text c),
    str_eq_iff m.xmr_host c.host,
    str_eq_iff m.xmr_type c.xmr_type,
    str_eq_iff m.web_socket_address c.web_socket_address,
    str_eq_iff m.cms_key c.cms_key,
    str_eq_iff m.cms_address c.cms_address,
  )

  connect_normal :
      (c : XmrConfig) (m : XmrManager T)
      → str_eq
          (if is_same_config text c m
            then m
            else reconnect text c (store_config text c m)).info.host
          ""
        ≡ false
      → is_same_config text c
          (if is_same_config text c m then m else reconnect text c (store_config text c m))
        ≡ true
  unfolding store_config
  connect_normal c m h = elim (Bool-cases (is_same_config text c m)) [
    | inl same ↦ rw (same, same) refl
    | inr other ↦ rw other (
        same_of-IsStored c (reconnect text c (store_config text c m))
          (reconnect-IsStored c (store_config text c m) (record {
            xmr_host = refl;
            xmr_type = refl;
            web_socket_address = refl;
            cms_key = refl;
            cms_address = refl;
            host = inr refl;
          }))
          (rw other at h))
  ]

  -- Once a call of connect has left the status with a host, a second call with the same arguments changes
  -- nothing, and so stops and starts no subscriber.
  pub connect_again :
      (c : XmrConfig) (m : XmrManager T)
      → str_eq (connect text c m).info.host "" ≡ false
      → connect text c (connect text c m) ≡ connect text c m
  unfolding connect
  connect_again c m h = rw (connect_normal (normalize text c) m h) refl

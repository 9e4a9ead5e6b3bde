-- ===== src/Settings.antt =====
-- config/PlayerSettings: the settings, and how settings from the CMS are taken over. What a field of them
-- emits when it changes reaches `on_changed`, at the time at which the source emits it. Reading and
-- writing the file of the settings is not modelled.
pub mod TakenOver
pub mod Followed
use xibo_linux.Base.{
  ℕ, zero, suc, ◌+◌, ◌-◌, ◌*◌, ◌/◌, ◌%◌, ◌≤◌, ◌<◌, String, ◌≡◌, refl, sym, ap, subst, ◌∙◌, ◌≢◌, ◌↔◌,
  ◌⊎◌, inl, inr, Bool, true, false, not, ◌&&◌, ◌||◌, Option, none, some, List, [], ◌∷◌, ◌++◌, map,
  append_assoc, append-nil, arith, ltb, leb, ◌==◌, if◌then◌else◌, Bool-cases, Option-cases,
  &&-eq-true, ◌>>=◌, is_some, >>=-eq_of_some, >>=-eq-some, ℤ, pos, negsuc, ◌+ℤ◌, ◌-ℤ◌, ◌≤ℤ◌, ltb_ℤ,
  leb_ℤ, ◌==ℤ◌, ==ℤ_iff, ==ℤ_refl, length, get_elem?, filter, any, all, find, is_empty, filter_idem,
  filter-append, all-filter, filter_of_all, all-append, any-append, length-append, get_elem?_lt,
  str_eq, str_eq_iff, ◌++ₛ◌, contains, to_string, stoi,
}
use xibo_linux.Xmr.{TextServices, XmrManager, XmrConfig, connect}

pub record PlayerSettings : Type 0 where
  pub collect_interval : ℤ
  pub stats_enabled : Bool
  pub xmr_network_address : String
  pub xmr_type : String
  pub xmr_web_socket_address : String
  pub xmr_cms_key : String
  pub size : ℤ × ℤ
  pub position : ℤ × ℤ
  pub log_level : String
  pub screenshot_interval : ℤ
  pub enable_shell_commands : Bool
  pub embedded_server_port : ℕ
  pub prevent_sleep : Bool
  pub display_name : String

abbrev pub default_settings : PlayerSettings
default_settings = record {
  collect_interval = pos 900;
  stats_enabled = false;
  xmr_network_address = "";
  xmr_type = "zmq";
  xmr_web_socket_address = "";
  xmr_cms_key = "";
  size = (pos 0, pos 0);
  position = (pos 0, pos 0);
  log_level = "debug";
  screenshot_interval = pos 0;
  enable_shell_commands = false;
  embedded_server_port = 9696;
  prevent_sleep = false;
  display_name = "Display";
}

-- The fields, by their names.
pub data Setting : Type 0 where
  collect_interval_setting stats_enabled_setting xmr_network_address_setting xmr_type_setting
        xmr_web_socket_address_setting :
      Setting
  xmr_cms_key_setting size_setting position_setting log_level_setting screenshot_interval_setting :
      Setting
  enable_shell_commands_setting embedded_server_port_setting prevent_sleep_setting
        display_name_setting :
      Setting

abbrev int_eq : ℤ → ℤ → Bool
int_eq a b = a ==ℤ b

abbrev port_eq : ℕ → ℕ → Bool
port_eq a b = a == b

abbrev bool_eq : Bool → Bool → Bool
bool_eq true b = b
bool_eq false b = not b

abbrev pair_eq : ℤ × ℤ → ℤ × ℤ → Bool
pair_eq (a, b) (c, d) = int_eq a c && int_eq b d

module _ {S : Type 0} (on_changed : Setting → PlayerSettings → S → S) where
  -- setIfChanged and setTupleIfChanged, for a field with its test, its value and its change.
  unfoldable pub set_if_changed :
      {A : Type 0}
      → Setting
      → (A → A → Bool)
      → (PlayerSettings → A)
      → (PlayerSettings → A → PlayerSettings)
      → A
      → PlayerSettings × S
      → PlayerSettings × S
  set_if_changed setting eq get set value (settings, state) =
      if not (eq (get settings) value)
      then (set settings value, on_changed setting (set settings value) state)
      else (settings, state)

  collect_interval_step : PlayerSettings → PlayerSettings × S → PlayerSettings × S
  unfolding set_if_changed
  collect_interval_step new =
      set_if_changed collect_interval_setting int_eq (λ s. s.collect_interval)
        (λ s value. record s { collect_interval = value }) new.collect_interval

  stats_enabled_step : PlayerSettings → PlayerSettings × S → PlayerSettings × S
  unfolding set_if_changed
  stats_enabled_step new =
      set_if_changed stats_enabled_setting bool_eq (λ s. s.stats_enabled)
        (λ s value. record s { stats_enabled = value }) new.stats_enabled

  xmr_network_address_step : PlayerSettings → PlayerSettings × S → PlayerSettings × S
  unfolding set_if_changed
  xmr_network_address_step new =
      set_if_changed xmr_network_address_setting str_eq (λ s. s.xmr_network_address)
        (λ s value. record s { xmr_network_address = value }) new.xmr_network_address

  xmr_type_step : PlayerSettings → PlayerSettings × S → PlayerSettings × S
  unfolding set_if_changed
  xmr_type_step new =
      set_if_changed xmr_type_setting str_eq (λ s. s.xmr_type)
        (λ s value. record s { xmr_type = value }) new.xmr_type

  xmr_web_socket_address_step : PlayerSettings → PlayerSettings × S → PlayerSettings × S
  unfolding set_if_changed
  xmr_web_socket_address_step new =
      set_if_changed xmr_web_socket_address_setting str_eq (λ s. s.xmr_web_socket_address)
        (λ s value. record s { xmr_web_socket_address = value }) new.xmr_web_socket_address

  xmr_cms_key_step : PlayerSettings → PlayerSettings × S → PlayerSettings × S
  unfolding set_if_changed
  xmr_cms_key_step new =
      set_if_changed xmr_cms_key_setting str_eq (λ s. s.xmr_cms_key)
        (λ s value. record s { xmr_cms_key = value }) new.xmr_cms_key

  size_step : PlayerSettings → PlayerSettings × S → PlayerSettings × S
  unfolding set_if_changed
  size_step new =
      set_if_changed size_setting pair_eq (λ s. s.size) (λ s value. record s { size = value })
        new.size

  position_step : PlayerSettings → PlayerSettings × S → PlayerSettings × S
  unfolding set_if_changed
  position_step new =
      set_if_changed position_setting pair_eq (λ s. s.position)
        (λ s value. record s { position = value }) new.position

  log_level_step : PlayerSettings → PlayerSettings × S → PlayerSettings × S
  unfolding set_if_changed
  log_level_step new =
      set_if_changed log_level_setting str_eq (λ s. s.log_level)
        (λ s value. record s { log_level = value }) new.log_level

  screenshot_interval_step : PlayerSettings → PlayerSettings × S → PlayerSettings × S
  unfolding set_if_changed
  screenshot_interval_step new =
      set_if_changed screenshot_interval_setting int_eq (λ s. s.screenshot_interval)
        (λ s value. record s { screenshot_interval = value }) new.screenshot_interval

  enable_shell_commands_step : PlayerSettings → PlayerSettings × S → PlayerSettings × S
  unfolding set_if_changed
  enable_shell_commands_step new =
      set_if_changed enable_shell_commands_setting bool_eq (λ s. s.enable_shell_commands)
        (λ s value. record s { enable_shell_commands = value }) new.enable_shell_commands

  embedded_server_port_step : PlayerSettings → PlayerSettings × S → PlayerSettings × S
  unfolding set_if_changed
  embedded_server_port_step new =
      set_if_changed embedded_server_port_setting port_eq (λ s. s.embedded_server_port)
        (λ s value. record s { embedded_server_port = value }) new.embedded_server_port

  prevent_sleep_step : PlayerSettings → PlayerSettings × S → PlayerSettings × S
  unfolding set_if_changed
  prevent_sleep_step new =
      set_if_changed prevent_sleep_setting bool_eq (λ s. s.prevent_sleep)
        (λ s value. record s { prevent_sleep = value }) new.prevent_sleep

  display_name_step : PlayerSettings → PlayerSettings × S → PlayerSettings × S
  unfolding set_if_changed
  display_name_step new =
      set_if_changed display_name_setting str_eq (λ s. s.display_name)
        (λ s value. record s { display_name = value }) new.display_name

  unfoldable pub from_fields : PlayerSettings → PlayerSettings × S → PlayerSettings × S
  unfolding collect_interval_step stats_enabled_step xmr_network_address_step xmr_type_step
      xmr_web_socket_address_step xmr_cms_key_step size_step position_step log_level_step
      screenshot_interval_step enable_shell_commands_step embedded_server_port_step
      prevent_sleep_step display_name_step
  from_fields new x = display_name_step new (
      prevent_sleep_step new (
        embedded_server_port_step new (
          enable_shell_commands_step new (
            screenshot_interval_step new (
              log_level_step new (
                position_step new (
                  size_step new (
                    xmr_cms_key_step new (
                      xmr_web_socket_address_step new (
                        xmr_type_step new (
                          xmr_network_address_step new
                            (stats_enabled_step new (collect_interval_step new x)))))))))))))

-- The values of CmsSettings that applyXmrConfiguration reads.
pub record CmsAccess : Type 0 where
  pub address : String
  pub key : String

abbrev pub xmr_config : CmsAccess → PlayerSettings → XmrConfig
xmr_config cms settings = record {
  host = settings.xmr_network_address;
  xmr_type = settings.xmr_type;
  web_socket_address = settings.xmr_web_socket_address;
  cms_key = if str_eq settings.xmr_cms_key "" then cms.key else settings.xmr_cms_key;
  cms_address = cms.address;
}

module _ (text : TextServices) (cms : CmsAccess) {T : Type 0} where
  -- applyXmrConfiguration
  unfoldable pub apply_xmr_configuration : PlayerSettings → XmrManager T → XmrManager T
  unfolding connect
  apply_xmr_configuration settings manager = connect text (xmr_config cms settings) manager

  -- The slots that createXmrManager connects to the fields.
  unfoldable pub on_xmr_setting : Setting → PlayerSettings → XmrManager T → XmrManager T
  unfolding apply_xmr_configuration
  on_xmr_setting xmr_network_address_setting settings manager =
      apply_xmr_configuration settings manager
  on_xmr_setting xmr_type_setting settings manager = apply_xmr_configuration settings manager
  on_xmr_setting xmr_web_socket_address_setting settings manager =
      apply_xmr_configuration settings manager
  on_xmr_setting xmr_cms_key_setting settings manager = apply_xmr_configuration settings manager
  on_xmr_setting _ settings manager = manager

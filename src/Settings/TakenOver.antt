-- ===== src/Settings/TakenOver.antt =====
-- PlayerSettings::fromFields: the settings are those that came.
use xibo_linux.Base.{
  ℕ, String, ◌≡◌, refl, sym, ap, ◌∙◌, inl, inr, Bool, true, false, arith, Bool-cases, &&-eq-true, ℤ,
  ==ℤ_iff, str_eq, str_eq_iff,
}
use xibo_linux.Settings.{
  PlayerSettings, Setting, int_eq, port_eq, bool_eq, pair_eq, set_if_changed, from_fields,
  collect_interval_setting, stats_enabled_setting, xmr_network_address_setting, xmr_type_setting,
  xmr_web_socket_address_setting, xmr_cms_key_setting, size_setting, position_setting,
  log_level_setting, screenshot_interval_setting, enable_shell_commands_setting,
  embedded_server_port_setting, prevent_sleep_setting, display_name_setting, collect_interval_step,
  stats_enabled_step, xmr_network_address_step, xmr_type_step, xmr_web_socket_address_step,
  xmr_cms_key_step, size_step, position_step, log_level_step, screenshot_interval_step,
  enable_shell_commands_step, embedded_server_port_step, prevent_sleep_step, display_name_step,
}

int_eq_sound : (a b : ℤ) → int_eq a b ≡ true → a ≡ b
int_eq_sound a b h = (==ℤ_iff a b).0 h

port_eq_sound : (a b : ℕ) → port_eq a b ≡ true → a ≡ b
port_eq_sound a b h = ground arith

bool_eq_sound : (a b : Bool) → bool_eq a b ≡ true → a ≡ b
bool_eq_sound true b h = sym h
bool_eq_sound false true h = h
bool_eq_sound false false h = refl

text_eq_sound : (a b : String) → str_eq a b ≡ true → a ≡ b
text_eq_sound a b h = (str_eq_iff a b).0 h

pair_eq_sound : (a b : ℤ × ℤ) → pair_eq a b ≡ true → a ≡ b
pair_eq_sound (a, b) (c, d) h =
    let (first, second) = (&&-eq-true (int_eq a c) (int_eq b d)).0 h in
    ap (λ x. (x, b)) (int_eq_sound a c first) ∙ ap (λ y. (c, y)) (int_eq_sound b d second)

module _ {S : Type 0} (on_changed : Setting → PlayerSettings → S → S) where
  set_if_changed_lem :
      {A : Type 0} (setting : Setting) (eq : A → A → Bool) (get : PlayerSettings → A)
      (set : PlayerSettings → A → PlayerSettings) (value : A) (x : PlayerSettings × S)
      → ((a b : A) → eq a b ≡ true → a ≡ b)
      → ((s : PlayerSettings) → set s (get s) ≡ s)
      → (set_if_changed on_changed setting eq get set value x).0 ≡ set x.0 value
  unfolding set_if_changed
  set_if_changed_lem setting eq get set value (settings, state) sound same =
      elim (Bool-cases (eq (get settings) value)) [
        | inl equal ↦
            rw equal (sym (same settings) ∙ ap (set settings) (sound (get settings) value equal))
        | inr differs ↦ rw differs refl
      ]

  collect_interval_lem :
      (new : PlayerSettings) (x : PlayerSettings × S)
      → (collect_interval_step on_changed new x).0
        ≡ record x.0 { collect_interval = new.collect_interval }
  unfolding collect_interval_step
  collect_interval_lem new x =
      set_if_changed_lem collect_interval_setting int_eq (λ s. s.collect_interval)
        (λ s value. record s { collect_interval = value }) new.collect_interval x int_eq_sound
        (λ s. refl)

  stats_enabled_lem :
      (new : PlayerSettings) (x : PlayerSettings × S)
      → (stats_enabled_step on_changed new x).0 ≡ record x.0 { stats_enabled = new.stats_enabled }
  unfolding stats_enabled_step
  stats_enabled_lem new x =
      set_if_changed_lem stats_enabled_setting bool_eq (λ s. s.stats_enabled)
        (λ s value. record s { stats_enabled = value }) new.stats_enabled x bool_eq_sound
        (λ s. refl)

  xmr_network_address_lem :
      (new : PlayerSettings) (x : PlayerSettings × S)
      → (xmr_network_address_step on_changed new x).0
        ≡ record x.0 { xmr_network_address = new.xmr_network_address }
  unfolding xmr_network_address_step
  xmr_network_address_lem new x =
      set_if_changed_lem xmr_network_address_setting str_eq (λ s. s.xmr_network_address)
        (λ s value. record s { xmr_network_address = value }) new.xmr_network_address x
        text_eq_sound (λ s. refl)

  xmr_type_lem :
      (new : PlayerSettings) (x : PlayerSettings × S)
      → (xmr_type_step on_changed new x).0 ≡ record x.0 { xmr_type = new.xmr_type }
  unfolding xmr_type_step
  xmr_type_lem new x =
      set_if_changed_lem xmr_type_setting str_eq (λ s. s.xmr_type)
        (λ s value. record s { xmr_type = value }) new.xmr_type x text_eq_sound (λ s. refl)

  xmr_web_socket_address_lem :
      (new : PlayerSettings) (x : PlayerSettings × S)
      → (xmr_web_socket_address_step on_changed new x).0
        ≡ record x.0 { xmr_web_socket_address = new.xmr_web_socket_address }
  unfolding xmr_web_socket_address_step
  xmr_web_socket_address_lem new x =
      set_if_changed_lem xmr_web_socket_address_setting str_eq (λ s. s.xmr_web_socket_address)
        (λ s value. record s { xmr_web_socket_address = value }) new.xmr_web_socket_address x
        text_eq_sound (λ s. refl)

  xmr_cms_key_lem :
      (new : PlayerSettings) (x : PlayerSettings × S)
      → (xmr_cms_key_step on_changed new x).0 ≡ record x.0 { xmr_cms_key = new.xmr_cms_key }
  unfolding xmr_cms_key_step
  xmr_cms_key_lem new x =
      set_if_changed_lem xmr_cms_key_setting str_eq (λ s. s.xmr_cms_key)
        (λ s value. record s { xmr_cms_key = value }) new.xmr_cms_key x text_eq_sound (λ s. refl)

  size_lem :
      (new : PlayerSettings) (x : PlayerSettings × S)
      → (size_step on_changed new x).0 ≡ record x.0 { size = new.size }
  unfolding size_step
  size_lem new x =
      set_if_changed_lem size_setting pair_eq (λ s. s.size) (λ s value. record s { size = value })
        new.size x pair_eq_sound (λ s. refl)

  position_lem :
      (new : PlayerSettings) (x : PlayerSettings × S)
      → (position_step on_changed new x).0 ≡ record x.0 { position = new.position }
  unfolding position_step
  position_lem new x =
      set_if_changed_lem position_setting pair_eq (λ s. s.position)
        (λ s value. record s { position = value }) new.position x pair_eq_sound (λ s. refl)

  log_level_lem :
      (new : PlayerSettings) (x : PlayerSettings × S)
      → (log_level_step on_changed new x).0 ≡ record x.0 { log_level = new.log_level }
  unfolding log_level_step
  log_level_lem new x =
      set_if_changed_lem log_level_setting str_eq (λ s. s.log_level)
        (λ s value. record s { log_level = value }) new.log_level x text_eq_sound (λ s. refl)

  screenshot_interval_lem :
      (new : PlayerSettings) (x : PlayerSettings × S)
      → (screenshot_interval_step on_changed new x).0
        ≡ record x.0 { screenshot_interval = new.screenshot_interval }
  unfolding screenshot_interval_step
  screenshot_interval_lem new x =
      set_if_changed_lem screenshot_interval_setting int_eq (λ s. s.screenshot_interval)
        (λ s value. record s { screenshot_interval = value }) new.screenshot_interval x int_eq_sound
        (λ s. refl)

  enable_shell_commands_lem :
      (new : PlayerSettings) (x : PlayerSettings × S)
      → (enable_shell_commands_step on_changed new x).0
        ≡ record x.0 { enable_shell_commands = new.enable_shell_commands }
  unfolding enable_shell_commands_step
  enable_shell_commands_lem new x =
      set_if_changed_lem enable_shell_commands_setting bool_eq (λ s. s.enable_shell_commands)
        (λ s value. record s { enable_shell_commands = value }) new.enable_shell_commands x
        bool_eq_sound (λ s. refl)

  embedded_server_port_lem :
      (new : PlayerSettings) (x : PlayerSettings × S)
      → (embedded_server_port_step on_changed new x).0
        ≡ record x.0 { embedded_server_port = new.embedded_server_port }
  unfolding embedded_server_port_step
  embedded_server_port_lem new x =
      set_if_changed_lem embedded_server_port_setting port_eq (λ s. s.embedded_server_port)
        (λ s value. record s { embedded_server_port = value }) new.embedded_server_port x
        port_eq_sound (λ s. refl)

  prevent_sleep_lem :
      (new : PlayerSettings) (x : PlayerSettings × S)
      → (prevent_sleep_step on_changed new x).0 ≡ record x.0 { prevent_sleep = new.prevent_sleep }
  unfolding prevent_sleep_step
  prevent_sleep_lem new x =
      set_if_changed_lem prevent_sleep_setting bool_eq (λ s. s.prevent_sleep)
        (λ s value. record s { prevent_sleep = value }) new.prevent_sleep x bool_eq_sound
        (λ s. refl)

  display_name_lem :
      (new : PlayerSettings) (x : PlayerSettings × S)
      → (display_name_step on_changed new x).0 ≡ record x.0 { display_name = new.display_name }
  unfolding display_name_step
  display_name_lem new x =
      set_if_changed_lem display_name_setting str_eq (λ s. s.display_name)
        (λ s value. record s { display_name = value }) new.display_name x text_eq_sound (λ s. refl)

  pub settings_lem :
      (new : PlayerSettings) (x : PlayerSettings × S) → (from_fields on_changed new x).0 ≡ new
  unfolding from_fields
  settings_lem new x0 =
      let x1 = collect_interval_step on_changed new x0 in
      let x2 = stats_enabled_step on_changed new x1 in
      let x3 = xmr_network_address_step on_changed new x2 in
      let x4 = xmr_type_step on_changed new x3 in
      let x5 = xmr_web_socket_address_step on_changed new x4 in
      let x6 = xmr_cms_key_step on_changed new x5 in
      let x7 = size_step on_changed new x6 in
      let x8 = position_step on_changed new x7 in
      let x9 = log_level_step on_changed new x8 in
      let x10 = screenshot_interval_step on_changed new x9 in
      let x11 = enable_shell_commands_step on_changed new x10 in
      let x12 = embedded_server_port_step on_changed new x11 in
      let x13 = prevent_sleep_step on_changed new x12 in
      let e1 = collect_interval_lem new x0 in
      let e2 =
        stats_enabled_lem new x1
        ∙ ap {A = PlayerSettings} {B = PlayerSettings}
            (λ s. record s { stats_enabled = new.stats_enabled }) e1 in
      let e3 =
        xmr_network_address_lem new x2
        ∙ ap {A = PlayerSettings} {B = PlayerSettings}
            (λ s. record s { xmr_network_address = new.xmr_network_address }) e2 in
      let e4 =
        xmr_type_lem new x3
        ∙ ap {A = PlayerSettings} {B = PlayerSettings} (λ s. record s { xmr_type = new.xmr_type })
            e3 in
      let e5 =
        xmr_web_socket_address_lem new x4
        ∙ ap {A = PlayerSettings} {B = PlayerSettings}
            (λ s. record s { xmr_web_socket_address = new.xmr_web_socket_address }) e4 in
      let e6 =
        xmr_cms_key_lem new x5
        ∙ ap {A = PlayerSettings} {B = PlayerSettings}
            (λ s. record s { xmr_cms_key = new.xmr_cms_key }) e5 in
      let e7 =
        size_lem new x6
        ∙ ap {A = PlayerSettings} {B = PlayerSettings} (λ s. record s { size = new.size }) e6 in
      let e8 =
        position_lem new x7
        ∙ ap {A = PlayerSettings} {B = PlayerSettings} (λ s. record s { position = new.position })
            e7 in
      let e9 =
        log_level_lem new x8
        ∙ ap {A = PlayerSettings} {B = PlayerSettings} (λ s. record s { log_level = new.log_level })
            e8 in
      let e10 =
        screenshot_interval_lem new x9
        ∙ ap {A = PlayerSettings} {B = PlayerSettings}
            (λ s. record s { screenshot_interval = new.screenshot_interval }) e9 in
      let e11 =
        enable_shell_commands_lem new x10
        ∙ ap {A = PlayerSettings} {B = PlayerSettings}
            (λ s. record s { enable_shell_commands = new.enable_shell_commands }) e10 in
      let e12 =
        embedded_server_port_lem new x11
        ∙ ap {A = PlayerSettings} {B = PlayerSettings}
            (λ s. record s { embedded_server_port = new.embedded_server_port }) e11 in
      let e13 =
        prevent_sleep_lem new x12
        ∙ ap {A = PlayerSettings} {B = PlayerSettings}
            (λ s. record s { prevent_sleep = new.prevent_sleep }) e12 in
      display_name_lem new x13
      ∙ ap {A = PlayerSettings} {B = PlayerSettings}
          (λ s. record s { display_name = new.display_name }) e13

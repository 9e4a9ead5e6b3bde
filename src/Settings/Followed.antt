-- ===== src/Settings/Followed.antt =====
-- PlayerSettings::fromFields and XmrManager: the manager follows the settings.
use xibo_linux.Base.{
  String, ap, ◌∙◌, true, false, not, ◌||◌, arith, ◌≡◌, refl, subst, ◌⊎◌, inl, inr, Bool, Bool-cases,
  str_eq,
}
use xibo_linux.Xmr.{TextServices, XmrManager, XmrConfig, connect}
use xibo_linux.Settings.{
  PlayerSettings, Setting, int_eq, port_eq, bool_eq, pair_eq, set_if_changed, from_fields,
  CmsAccess, xmr_config, apply_xmr_configuration, on_xmr_setting, collect_interval_setting,
  stats_enabled_setting, xmr_network_address_setting, xmr_type_setting,
  xmr_web_socket_address_setting, xmr_cms_key_setting, size_setting, position_setting,
  log_level_setting, screenshot_interval_setting, enable_shell_commands_setting,
  embedded_server_port_setting, prevent_sleep_setting, display_name_setting, collect_interval_step,
  stats_enabled_step, xmr_network_address_step, xmr_type_step, xmr_web_socket_address_step,
  xmr_cms_key_step, size_step, position_step, log_level_step, screenshot_interval_step,
  enable_shell_commands_step, embedded_server_port_step, prevent_sleep_step, display_name_step,
}
use xibo_linux.Settings.TakenOver.{settings_lem}

-- Whether one of the values that the manager is connected with changes.
abbrev pub xmr_changes : PlayerSettings → PlayerSettings → Bool
xmr_changes old new =
    not (str_eq old.xmr_cms_key new.xmr_cms_key)
    || (not (str_eq old.xmr_web_socket_address new.xmr_web_socket_address)
        || (not (str_eq old.xmr_type new.xmr_type)
            || not (str_eq old.xmr_network_address new.xmr_network_address)))

module _ (text : TextServices) (cms : CmsAccess) {T : Type 0} (old : PlayerSettings)
    (manager : XmrManager T) where
  -- Nothing has changed and the manager is as it was, or something has and the last call of connect was with
  -- the configuration of the settings.
  abbrev pub IsConfigured : Bool → PlayerSettings → XmrManager T → Type 0
  IsConfigured changed settings manager' =
      (changed ≡ false) × (xmr_config cms settings ≡ xmr_config cms old) × (manager' ≡ manager)
      ⊎ (changed ≡ true)
        × (before : XmrManager T) × (manager' ≡ connect text (xmr_config cms settings) before)

  abbrev slot : Setting → PlayerSettings → XmrManager T → XmrManager T
  slot = on_xmr_setting text cms

  abbrev IsFollowed : Bool → PlayerSettings × XmrManager T → Type 0
  IsFollowed changed x = IsConfigured changed x.0 x.1

  carried :
      (changed : Bool) (c d : XmrConfig) (manager' : XmrManager T)
      → d ≡ c
      → (changed ≡ false) × (c ≡ xmr_config cms old) × (manager' ≡ manager)
        ⊎ (changed ≡ true) × (before : XmrManager T) × (manager' ≡ connect text c before)
      → (changed ≡ false) × (d ≡ xmr_config cms old) × (manager' ≡ manager)
        ⊎ (changed ≡ true) × (before : XmrManager T) × (manager' ≡ connect text d before)
  carried changed c d manager' e h = rw e h

  kept :
      {A : Type 0} (field : PlayerSettings → String) (setting : Setting) (eq : A → A → Bool)
      (get : PlayerSettings → A) (set : PlayerSettings → A → PlayerSettings) (value : A)
      (x : PlayerSettings × XmrManager T)
      → ((s : PlayerSettings) → field (set s value) ≡ field s)
      → field (set_if_changed slot setting eq get set value x).0 ≡ field x.0
  unfolding set_if_changed
  kept field setting eq get set value (settings, state) same =
      elim (Bool-cases (eq (get settings) value)) [
        | inl equal ↦ rw equal refl
        | inr differs ↦ rw differs (same settings)
      ]

  xmr_step :
      {A : Type 0} (changed : Bool) (setting : Setting) (eq : A → A → Bool)
      (get : PlayerSettings → A) (set : PlayerSettings → A → PlayerSettings) (value : A)
      (x : PlayerSettings × XmrManager T)
      → ((s : PlayerSettings) (m : XmrManager T)
          → slot setting s m ≡ connect text (xmr_config cms s) m)
      → IsFollowed changed x
      → IsFollowed
          (not (eq (get x.0) value) || changed)
          (set_if_changed slot setting eq get set value x)
  unfolding set_if_changed
  xmr_step changed setting eq get set value (settings, state) connects h =
      elim (Bool-cases (eq (get settings) value)) [
        | inl equal ↦ rw equal h
        | inr differs ↦ rw differs (inr (refl, state, connects (set settings value) state))
      ]

  other_step :
      {A : Type 0} (changed : Bool) (setting : Setting) (eq : A → A → Bool)
      (get : PlayerSettings → A) (set : PlayerSettings → A → PlayerSettings) (value : A)
      (x : PlayerSettings × XmrManager T)
      → ((s : PlayerSettings) (m : XmrManager T) → slot setting s m ≡ m)
      → ((s : PlayerSettings) → xmr_config cms (set s value) ≡ xmr_config cms s)
      → IsFollowed changed x
      → IsFollowed changed (set_if_changed slot setting eq get set value x)
  unfolding set_if_changed
  other_step changed setting eq get set value (settings, state) silent same h =
      elim (Bool-cases (eq (get settings) value)) [
        | inl equal ↦ rw equal h
        | inr differs ↦
            rw (differs, silent (set settings value) state)
              (carried changed (xmr_config cms settings) (xmr_config cms (set settings value)) state
                (same settings) h)
      ]

  follows :
      (new : PlayerSettings)
      → IsFollowed (xmr_changes old new) (from_fields slot new (old, manager))
  unfolding from_fields on_xmr_setting apply_xmr_configuration collect_interval_step
      stats_enabled_step xmr_network_address_step xmr_type_step xmr_web_socket_address_step
      xmr_cms_key_step size_step position_step log_level_step screenshot_interval_step
      enable_shell_commands_step embedded_server_port_step prevent_sleep_step display_name_step
  follows new =
      let x0 : PlayerSettings × XmrManager T = (old, manager) in
      let x1 = collect_interval_step slot new x0 in
      let x2 = stats_enabled_step slot new x1 in
      let x3 = xmr_network_address_step slot new x2 in
      let x4 = xmr_type_step slot new x3 in
      let x5 = xmr_web_socket_address_step slot new x4 in
      let x6 = xmr_cms_key_step slot new x5 in
      let x7 = size_step slot new x6 in
      let x8 = position_step slot new x7 in
      let x9 = log_level_step slot new x8 in
      let x10 = screenshot_interval_step slot new x9 in
      let x11 = enable_shell_commands_step slot new x10 in
      let x12 = embedded_server_port_step slot new x11 in
      let x13 = prevent_sleep_step slot new x12 in
      let same_xmr_network_address : x2.0.xmr_network_address ≡ old.xmr_network_address =
        kept (λ s. s.xmr_network_address) stats_enabled_setting bool_eq (λ s. s.stats_enabled)
          (λ s value. record s { stats_enabled = value }) new.stats_enabled x1 (λ s. refl)
        ∙ kept (λ s. s.xmr_network_address) collect_interval_setting int_eq
            (λ s. s.collect_interval) (λ s value. record s { collect_interval = value })
            new.collect_interval x0 (λ s. refl) in
      let same_xmr_type : x3.0.xmr_type ≡ old.xmr_type =
        kept (λ s. s.xmr_type) xmr_network_address_setting str_eq (λ s. s.xmr_network_address)
          (λ s value. record s { xmr_network_address = value }) new.xmr_network_address x2
          (λ s. refl)
        ∙ kept (λ s. s.xmr_type) stats_enabled_setting bool_eq (λ s. s.stats_enabled)
            (λ s value. record s { stats_enabled = value }) new.stats_enabled x1 (λ s. refl)
        ∙ kept (λ s. s.xmr_type) collect_interval_setting int_eq (λ s. s.collect_interval)
            (λ s value. record s { collect_interval = value }) new.collect_interval x0
            (λ s. refl) in
      let same_xmr_web_socket_address : x4.0.xmr_web_socket_address ≡ old.xmr_web_socket_address =
        kept (λ s. s.xmr_web_socket_address) xmr_type_setting str_eq (λ s. s.xmr_type)
          (λ s value. record s { xmr_type = value }) new.xmr_type x3 (λ s. refl)
        ∙ kept (λ s. s.xmr_web_socket_address) xmr_network_address_setting str_eq
            (λ s. s.xmr_network_address) (λ s value. record s { xmr_network_address = value })
            new.xmr_network_address x2 (λ s. refl)
        ∙ kept (λ s. s.xmr_web_socket_address) stats_enabled_setting bool_eq (λ s. s.stats_enabled)
            (λ s value. record s { stats_enabled = value }) new.stats_enabled x1 (λ s. refl)
        ∙ kept (λ s. s.xmr_web_socket_address) collect_interval_setting int_eq
            (λ s. s.collect_interval) (λ s value. record s { collect_interval = value })
            new.collect_interval x0 (λ s. refl) in
      let same_xmr_cms_key : x5.0.xmr_cms_key ≡ old.xmr_cms_key =
        kept (λ s. s.xmr_cms_key) xmr_web_socket_address_setting str_eq
          (λ s. s.xmr_web_socket_address) (λ s value. record s { xmr_web_socket_address = value })
          new.xmr_web_socket_address x4 (λ s. refl)
        ∙ kept (λ s. s.xmr_cms_key) xmr_type_setting str_eq (λ s. s.xmr_type)
            (λ s value. record s { xmr_type = value }) new.xmr_type x3 (λ s. refl)
        ∙ kept (λ s. s.xmr_cms_key) xmr_network_address_setting str_eq (λ s. s.xmr_network_address)
            (λ s value. record s { xmr_network_address = value }) new.xmr_network_address x2
            (λ s. refl)
        ∙ kept (λ s. s.xmr_cms_key) stats_enabled_setting bool_eq (λ s. s.stats_enabled)
            (λ s value. record s { stats_enabled = value }) new.stats_enabled x1 (λ s. refl)
        ∙ kept (λ s. s.xmr_cms_key) collect_interval_setting int_eq (λ s. s.collect_interval)
            (λ s value. record s { collect_interval = value }) new.collect_interval x0
            (λ s. refl) in
      let h0 : IsFollowed false x0 = inl (refl, refl, refl) in
      let h1 =
        other_step false collect_interval_setting int_eq (λ s. s.collect_interval)
          (λ s value. record s { collect_interval = value }) new.collect_interval x0 (λ s m. refl)
          (λ s. refl) h0 in
      let h2 =
        other_step false stats_enabled_setting bool_eq (λ s. s.stats_enabled)
          (λ s value. record s { stats_enabled = value }) new.stats_enabled x1 (λ s m. refl)
          (λ s. refl) h1 in
      let h3 =
        xmr_step false xmr_network_address_setting str_eq (λ s. s.xmr_network_address)
          (λ s value. record s { xmr_network_address = value }) new.xmr_network_address x2
          (λ s m. refl) h2 in
      let h4 =
        xmr_step (not (str_eq x2.0.xmr_network_address new.xmr_network_address) || false)
          xmr_type_setting str_eq (λ s. s.xmr_type) (λ s value. record s { xmr_type = value })
          new.xmr_type x3 (λ s m. refl) h3 in
      let h5 =
        xmr_step
          (not (str_eq x3.0.xmr_type new.xmr_type)
            || (not (str_eq x2.0.xmr_network_address new.xmr_network_address) || false))
          xmr_web_socket_address_setting str_eq (λ s. s.xmr_web_socket_address)
          (λ s value. record s { xmr_web_socket_address = value }) new.xmr_web_socket_address x4
          (λ s m. refl) h4 in
      let h6 =
        xmr_step
          (not (str_eq x4.0.xmr_web_socket_address new.xmr_web_socket_address)
            || (not (str_eq x3.0.xmr_type new.xmr_type)
                || (not (str_eq x2.0.xmr_network_address new.xmr_network_address) || false)))
          xmr_cms_key_setting str_eq (λ s. s.xmr_cms_key)
          (λ s value. record s { xmr_cms_key = value }) new.xmr_cms_key x5 (λ s m. refl) h5 in
      let h7 =
        other_step
          (not (str_eq x5.0.xmr_cms_key new.xmr_cms_key)
            || (not (str_eq x4.0.xmr_web_socket_address new.xmr_web_socket_address)
                || (not (str_eq x3.0.xmr_type new.xmr_type)
                    || (not (str_eq x2.0.xmr_network_address new.xmr_network_address) || false))))
          size_setting pair_eq (λ s. s.size) (λ s value. record s { size = value }) new.size x6
          (λ s m. refl) (λ s. refl) h6 in
      let h8 =
        other_step
          (not (str_eq x5.0.xmr_cms_key new.xmr_cms_key)
            || (not (str_eq x4.0.xmr_web_socket_address new.xmr_web_socket_address)
                || (not (str_eq x3.0.xmr_type new.xmr_type)
                    || (not (str_eq x2.0.xmr_network_address new.xmr_network_address) || false))))
          position_setting pair_eq (λ s. s.position) (λ s value. record s { position = value })
          new.position x7 (λ s m. refl) (λ s. refl) h7 in
      let h9 =
        other_step
          (not (str_eq x5.0.xmr_cms_key new.xmr_cms_key)
            || (not (str_eq x4.0.xmr_web_socket_address new.xmr_web_socket_address)
                || (not (str_eq x3.0.xmr_type new.xmr_type)
                    || (not (str_eq x2.0.xmr_network_address new.xmr_network_address) || false))))
          log_level_setting str_eq (λ s. s.log_level) (λ s value. record s { log_level = value })
          new.log_level x8 (λ s m. refl) (λ s. refl) h8 in
      let h10 =
        other_step
          (not (str_eq x5.0.xmr_cms_key new.xmr_cms_key)
            || (not (str_eq x4.0.xmr_web_socket_address new.xmr_web_socket_address)
                || (not (str_eq x3.0.xmr_type new.xmr_type)
                    || (not (str_eq x2.0.xmr_network_address new.xmr_network_address) || false))))
          screenshot_interval_setting int_eq (λ s. s.screenshot_interval)
          (λ s value. record s { screenshot_interval = value }) new.screenshot_interval x9
          (λ s m. refl) (λ s. refl) h9 in
      let h11 =
        other_step
          (not (str_eq x5.0.xmr_cms_key new.xmr_cms_key)
            || (not (str_eq x4.0.xmr_web_socket_address new.xmr_web_socket_address)
                || (not (str_eq x3.0.xmr_type new.xmr_type)
                    || (not (str_eq x2.0.xmr_network_address new.xmr_network_address) || false))))
          enable_shell_commands_setting bool_eq (λ s. s.enable_shell_commands)
          (λ s value. record s { enable_shell_commands = value }) new.enable_shell_commands x10
          (λ s m. refl) (λ s. refl) h10 in
      let h12 =
        other_step
          (not (str_eq x5.0.xmr_cms_key new.xmr_cms_key)
            || (not (str_eq x4.0.xmr_web_socket_address new.xmr_web_socket_address)
                || (not (str_eq x3.0.xmr_type new.xmr_type)
                    || (not (str_eq x2.0.xmr_network_address new.xmr_network_address) || false))))
          embedded_server_port_setting port_eq (λ s. s.embedded_server_port)
          (λ s value. record s { embedded_server_port = value }) new.embedded_server_port x11
          (λ s m. refl) (λ s. refl) h11 in
      let h13 =
        other_step
          (not (str_eq x5.0.xmr_cms_key new.xmr_cms_key)
            || (not (str_eq x4.0.xmr_web_socket_address new.xmr_web_socket_address)
                || (not (str_eq x3.0.xmr_type new.xmr_type)
                    || (not (str_eq x2.0.xmr_network_address new.xmr_network_address) || false))))
          prevent_sleep_setting bool_eq (λ s. s.prevent_sleep)
          (λ s value. record s { prevent_sleep = value }) new.prevent_sleep x12 (λ s m. refl)
          (λ s. refl) h12 in
      let h14 =
        other_step
          (not (str_eq x5.0.xmr_cms_key new.xmr_cms_key)
            || (not (str_eq x4.0.xmr_web_socket_address new.xmr_web_socket_address)
                || (not (str_eq x3.0.xmr_type new.xmr_type)
                    || (not (str_eq x2.0.xmr_network_address new.xmr_network_address) || false))))
          display_name_setting str_eq (λ s. s.display_name)
          (λ s value. record s { display_name = value }) new.display_name x13 (λ s m. refl)
          (λ s. refl) h13 in
      let now : (not (str_eq x5.0.xmr_cms_key new.xmr_cms_key)
            || (not (str_eq x4.0.xmr_web_socket_address new.xmr_web_socket_address)
                || (not (str_eq x3.0.xmr_type new.xmr_type)
                    || (not (str_eq x2.0.xmr_network_address new.xmr_network_address) || false))))
          ≡ xmr_changes old new =
        ground (
          arith, same_xmr_network_address, same_xmr_type, same_xmr_web_socket_address,
          same_xmr_cms_key,
        ) in
      subst (λ changed. IsFollowed changed (from_fields slot new x0)) now h14

  -- After fromFields the settings are those that came. XmrManager is as it was, if none of its type, its two
  -- addresses and its key has changed; else its last call of connect was with all of the new values, though
  -- each of them that changes connects it at once, with the later fields as they were.
  pub from_fields_lem :
      (new : PlayerSettings)
      → let (settings, manager') = from_fields slot new (old, manager) in
        (settings ≡ new)
        × ((xmr_changes old new ≡ false) × (manager' ≡ manager)
            ⊎ (xmr_changes old new ≡ true)
              × (before : XmrManager T) × (manager' ≡ connect text (xmr_config cms new) before))
  from_fields_lem new =
      let e = settings_lem slot new (old, manager) in
      (
        e,
        elim (follows new) [
          | inl (unchanged, _, same) ↦ inl (unchanged, same)
          | inr (changed, before, connected) ↦
              inr (changed, before, connected ∙ ap (λ s. connect text (xmr_config cms s) before) e)
        ],
      )

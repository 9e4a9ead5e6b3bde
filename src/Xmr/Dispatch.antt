-- ===== src/Xmr/Dispatch.antt =====
-- XmrManager: the two transports, and what a message changes.
use xibo_linux.Base.{
  String, ◌≡◌, refl, sym, ap, ◌∙◌, ◌≢◌, ◌⊎◌, inl, inr, true, Option, none, some, List, [], ◌∷◌,
  ◌++◌, append-nil, arith, if◌then◌else◌, Bool-cases, Option-cases, ◌>>=◌, get_elem?, str_eq,
  str_eq_iff,
}
use xibo_linux.DateTime.{PosixTime}
use xibo_linux.Xmr.{
  collection_interval, screenshot, revert_to_schedule, purge_all, layout_change, overlay_layout,
  criteria_update, command_action, data_update, trigger_webhook, XmrMessage, XmrAction, XmrManager,
  heartbeat_channel,
}
use xibo_linux.Xmr.Messages.{
  JsonTree, parse_message, action_of, is_message_expired, process_xmr_message, process_read,
  process_web_socket_message, process_multipart_message,
}

text_refl : (t : String) → str_eq t t ≡ true
text_refl t = (str_eq_iff t t).1 refl

-- The actions that a message can ask for, each with the signal for it.
module _ {T : Type 0} where
  abbrev pub known_actions : List (String × (XmrMessage T → XmrAction T))
  known_actions =
      ("collectNow", λ m. collection_interval)
      ∷ ("rekeyAction", λ m. collection_interval)
      ∷ ("licenceCheck", λ m. collection_interval)
      ∷ ("clearStatsAndLogs", λ m. collection_interval)
      ∷ ("screenShot", λ m. screenshot)
      ∷ ("changeLayout", layout_change)
      ∷ ("overlayLayout", overlay_layout)
      ∷ ("revertToSchedule", λ m. revert_to_schedule)
      ∷ ("criteriaUpdate", criteria_update)
      ∷ ("commandAction", command_action)
      ∷ ("dataUpdate", data_update)
      ∷ ("triggerWebhook", trigger_webhook)
      ∷ ("purgeAll", λ m. purge_all)
      ∷ []

  abbrev pub posted_for :
      String → List (String × (XmrMessage T → XmrAction T)) → XmrMessage T → Option (XmrAction T)
  posted_for action [] m = none
  posted_for action ((name, signal) ∷ known) m =
      let later = posted_for action known m in if str_eq action name then some (signal m) else later

  action_of_lem : (m : XmrMessage T) → action_of m ≡ posted_for m.action known_actions m
  unfolding action_of
  action_of_lem m = ground arith

module _ {T : Type 0} (time : PosixTime T) (now_utc now : T) (from_iso : String → Option T)
    {J : Type 0} (json : JsonTree J) (decrypt : String → String → Option String) where
  -- On the main channel, three parts whose key and message decrypt to a text that is not a heartbeat have
  -- the effect of this text on the web socket.
  pub transports_agree :
      (key message text : String) (more : List String) (s : XmrManager T)
      → decrypt key message ≡ some text
      → text ≢ heartbeat_channel
      → process_multipart_message time now_utc now from_iso json decrypt
          (s.main_channel ∷ key ∷ message ∷ more)
          s
        ≡ process_web_socket_message time now_utc now from_iso json text s
  unfolding process_multipart_message process_web_socket_message
  transports_agree key message text more s e ne =
      ground (arith, e, str_eq_iff s.main_channel s.main_channel, str_eq_iff text heartbeat_channel)

  -- The message that the parts behind the channel carry.
  abbrev pub message_of : List String → Option (XmrMessage T)
  message_of parts = do
    key ← get_elem? parts 0
    message ← get_elem? parts 1
    text ← decrypt key message
    parse_message time from_iso json text

  -- A message posts nothing after its time to live, else the one signal of its action, if that is known.
  abbrev pub signals_of : XmrMessage T → List (XmrAction T)
  signals_of m =
      if time.lt (time.add_seconds m.created_dt m.ttl) now_utc
      then []
      else elim (posted_for m.action known_actions m) [ none ↦ [] | some signal ↦ signal ∷ [] ]

  unchanged : (s : XmrManager T) → s ≡ record s { posted = s.posted ++ [] }
  unchanged s = ap (λ posted. record s { posted = posted }) (sym (append-nil s.posted))

  process_xmr_message_lem :
      (m : XmrMessage T) (s : XmrManager T)
      → process_xmr_message time now_utc now m s ≡ record s { posted = s.posted ++ signals_of m }
  unfolding process_xmr_message is_message_expired
  process_xmr_message_lem m s =
      elim (Bool-cases (time.lt (time.add_seconds m.created_dt m.ttl) now_utc)) [
        | inl expired ↦ rw expired (unchanged s)
        | inr live ↦
            rw (live, action_of_lem m)
              (elim (Option-cases (posted_for m.action known_actions m)) [
                | inl unknown ↦ rw unknown (unchanged s)
                | inr (action, known) ↦ rw known refl
              ])
      ]

  main_channel_lem :
      (parts : List String) (s : XmrManager T)
      → process_multipart_message time now_utc now from_iso json decrypt (s.main_channel ∷ parts) s
        ≡ process_read time now_utc now (message_of parts) s
  unfolding process_multipart_message process_read
  main_channel_lem [] s = rw (text_refl s.main_channel) refl
  main_channel_lem (key ∷ []) s = rw (text_refl s.main_channel) refl
  main_channel_lem (key ∷ message ∷ more) s = rw (text_refl s.main_channel) refl

  read_lem :
      (m : XmrMessage T) (s : XmrManager T)
      → process_read time now_utc now (some m) s ≡ record s {
        posted = s.posted ++ signals_of m;
        info = record s.info { last_message_dt = now };
      }
  unfolding process_read
  read_lem m s = rw (process_xmr_message_lem m s) refl

  -- What the main channel brings changes nothing where parts are missing, do not decrypt or do not parse.
  -- A message that is read is the last one from now on; it posts the one signal of its action, if it has
  -- not expired and the action is known, and leaves the connection alone.
  pub main_channel_messages :
      (parts : List String) (s : XmrManager T)
      → let s' =
          process_multipart_message time now_utc now from_iso json decrypt
            (s.main_channel ∷ parts)
            s in
        (message_of parts ≡ none) × (s' ≡ s)
        ⊎ (m : XmrMessage T) × (message_of parts ≡ some m)
          × (s'.posted ≡ s.posted ++ signals_of m)
          × (s'.info.last_message_dt ≡ now)
          × (s'.info.host ≡ s.info.host)
          × (s'.zmq ≡ s.zmq)
          × (s'.ws ≡ s.ws)
  unfolding process_read
  main_channel_messages parts s = elim (Option-cases (message_of parts)) [
    | inl missing ↦ inl (missing, main_channel_lem parts s ∙ rw missing refl)
    | inr (m, read) ↦
        let e =
          main_channel_lem parts s
          ∙ ap (λ o. process_read time now_utc now o s) read
          ∙ read_lem m s in
        inr (
          m,
          read,
          ap (λ t. t.posted) e,
          ap (λ t. t.info.last_message_dt) e,
          ap (λ t. t.info.host) e,
          ap (λ t. t.zmq) e,
          ap (λ t. t.ws) e,
        )
  ]

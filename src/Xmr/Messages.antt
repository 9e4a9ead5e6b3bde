-- ===== src/Xmr/Messages.antt =====
-- xmr/XmrManager: the messages that the subscribers receive. Boost's JSON trees, the decryption by RSA and
-- RC4 and the calendar are outside; `none` is an exception. Characters stand for bytes in the text of a
-- creation time.
use xibo_linux.Base.{
  ℕ, zero, suc, ◌+◌, ◌-◌, ◌*◌, ◌/◌, ◌%◌, ◌≤◌, ◌<◌, String, ◌≡◌, refl, sym, ap, subst, ◌∙◌, ◌≢◌, ◌↔◌,
  ◌⊎◌, inl, inr, Bool, true, false, not, ◌&&◌, ◌||◌, Option, none, some, List, [], ◌∷◌, ◌++◌, map,
  append_assoc, append-nil, arith, ltb, leb, ◌==◌, if◌then◌else◌, Bool-cases, Option-cases,
  &&-eq-true, ◌>>=◌, is_some, >>=-eq_of_some, >>=-eq-some, ℤ, pos, negsuc, ◌+ℤ◌, ◌-ℤ◌, ◌≤ℤ◌, ltb_ℤ,
  leb_ℤ, ◌==ℤ◌, ==ℤ_iff, ==ℤ_refl, length, get_elem?, filter, any, all, find, is_empty, filter_idem,
  filter-append, all-filter, filter_of_all, all-append, any-append, length-append, get_elem?_lt,
  str_eq, str_eq_iff, ◌++ₛ◌, contains, to_string, stoi,
}
use xibo_linux.Base.Scan.{
  ends_with_char, drop_last, substr_from, substr_to, size, find_last, split_at, has_prefix,
}
use xibo_linux.DateTime.{PosixTime}
use xibo_linux.Schedule.Item.{empty_layout_id}
use xibo_linux.Xmr.{
  CriteriaUpdate, XmrMessage, XmrAction, XmrManager, heartbeat_channel, collection_interval,
  screenshot, revert_to_schedule, purge_all, layout_change, overlay_layout, criteria_update,
  command_action, data_update, trigger_webhook,
}

-- JsonNode, a tree of Boost, and what Parsing::jsonFromString makes of a text. The getters are `none`
-- where the member is missing or does not convert; `get_items` are the children of a member.
pub record JsonTree (J : Type 0) : Type 0 where
  pub from_string : String → Option J
  pub get_text : J → String → Option String
  pub get_int : J → String → Option ℤ
  pub get_bool : J → String → Option Bool
  pub get_items : J → String → Option (List J)

abbrev or_default : {A : Type 0} → A → Option A → A
or_default a none = a
or_default a (some b) = b

-- A number of `int` times a small natural number.
infixl 70 ◌*ℤ◌
abbrev ◌*ℤ◌ : ℤ → ℕ → ℤ
pos a *ℤ k = pos (a * k)
negsuc a *ℤ k = pos 0 -ℤ pos ((a + 1) * k)

-- std::stoi(text.substr(from, 2)), which throws past the end of the text.
two_digits_at : ℕ → String → Option ℤ
two_digits_at from text =
    if ltb (size text) from then none else stoi (substr_to 2 (substr_from from text))

signed : Bool → ℤ → ℤ
signed negative seconds = if negative then pos 0 -ℤ seconds else seconds

is_sign : ℕ → Bool
is_sign c = c == b'+' || c == b'-'

-- The offset that stands in a text after a position, in seconds, and the text before it.
offset_at : ℕ → String → Option (String × ℤ)
unfolding two_digits_at signed
offset_at start text = do
  hours ← two_digits_at (start + 1) text
  minutes ← two_digits_at (start + 4) text
  some (
    substr_to start text,
    signed (has_prefix (substr_from start text) "-") ((hours *ℤ 60 +ℤ minutes) *ℤ 60),
  )

-- What parseCreatedDt does before it looks for decimals.
unfoldable pub split_offset : String → Option (String × ℤ)
unfolding offset_at is_sign
split_offset created_dt =
    if ends_with_char b'Z' created_dt
    then some (drop_last created_dt, pos 0)
    else if leb 25 (size created_dt)
    then elim (find_last is_sign created_dt) [
      | none ↦ some (created_dt, pos 0)
      | some start ↦ if ltb 10 start then offset_at start created_dt else some (created_dt, pos 0)
    ]
    else some (created_dt, pos 0)

without_decimals : String → String
without_decimals text = elim (split_at b'.' text) [ none ↦ text | some (before, behind) ↦ before ]

-- `from_iso` is DateTime::fromIsoExtendedString, `decrypt` is decryptMessage.
module _ {T : Type 0} (time : PosixTime T) (from_iso : String → Option T) where
  unfoldable pub parse_created_dt : String → Option T
  unfolding split_offset without_decimals
  parse_created_dt created_dt = do
    (text, offset) ← split_offset created_dt
    parsed ← from_iso (without_decimals text)
    some (
        if ltb_ℤ (pos 0) offset
        then time.sub_seconds parsed offset
        else time.add_seconds parsed (pos 0 -ℤ offset))

  module _ {J : Type 0} (json : JsonTree J) where
    parse_update : J → Option CriteriaUpdate
    parse_update item = do
      metric ← json.get_text item "metric"
      value ← json.get_text item "value"
      some (record {
        metric = metric;
        value = value;
        ttl = or_default (pos 300) (json.get_int item "ttl");
      })

    parse_updates : List J → Option (List CriteriaUpdate)
    unfolding parse_update
    parse_updates [] = some []
    parse_updates (item ∷ items) = do
      update ← parse_update item
      updates ← parse_updates items
      some (update ∷ updates)

    -- parseMessage from a tree.
    message_from : J → Option (XmrMessage T)
    unfolding parse_created_dt parse_updates
    message_from tree = do
      action ← json.get_text tree "action"
      created_text ← json.get_text tree "createdDt"
      created_dt ← parse_created_dt created_text
      ttl ← json.get_int tree "ttl"
      updates ← parse_updates (or_default [] (json.get_items tree "criteriaUpdates"))
      some (record {
        action = action;
        created_dt = created_dt;
        ttl = ttl;
        layout_id = or_default empty_layout_id (json.get_int tree "layoutId");
        duration = or_default (pos 0) (json.get_int tree "duration");
        download_required = or_default false (json.get_bool tree "downloadRequired");
        widget_id = or_default (pos 0) (json.get_int tree "widgetId");
        source_id = or_default (pos 0) (json.get_int tree "sourceId");
        trigger_code = or_default "" (json.get_text tree "triggerCode");
        command_code = or_default "" (json.get_text tree "commandCode");
        command = or_default "" (json.get_text tree "command");
        criteria_updates = updates;
      })

    unfoldable pub parse_message : String → Option (XmrMessage T)
    unfolding message_from
    parse_message text = do tree ← json.from_string text; message_from tree

module _ {T : Type 0} where
  -- The signal that processXmrMessage posts for an action.
  unfoldable pub action_of : XmrMessage T → Option (XmrAction T)
  action_of m =
      if str_eq m.action "collectNow"
        || str_eq m.action "rekeyAction"
        || str_eq m.action "licenceCheck"
        || str_eq m.action "clearStatsAndLogs"
      then some collection_interval
      else if str_eq m.action "screenShot"
      then some screenshot
      else if str_eq m.action "changeLayout"
      then some (layout_change m)
      else if str_eq m.action "overlayLayout"
      then some (overlay_layout m)
      else if str_eq m.action "revertToSchedule"
      then some revert_to_schedule
      else if str_eq m.action "criteriaUpdate"
      then some (criteria_update m)
      else if str_eq m.action "commandAction"
      then some (command_action m)
      else if str_eq m.action "dataUpdate"
      then some (data_update m)
      else if str_eq m.action "triggerWebhook"
      then some (trigger_webhook m)
      else if str_eq m.action "purgeAll"
      then some purge_all
      else none

  abbrev pub posted_with : Option (XmrAction T) → XmrManager T → XmrManager T
  posted_with none s = s
  posted_with (some action) s = record s { posted = s.posted ++ (action ∷ []) }

-- `now` and `now_utc` are what DateTime::now() and DateTime::nowUtc() read during the call.
module _ {T : Type 0} (time : PosixTime T) (now_utc now : T) where
  unfoldable pub is_message_expired : XmrMessage T → Bool
  is_message_expired m = time.lt (time.add_seconds m.created_dt m.ttl) now_utc

  unfoldable pub process_xmr_message : XmrMessage T → XmrManager T → XmrManager T
  unfolding is_message_expired action_of
  process_xmr_message m s = if is_message_expired m then s else posted_with (action_of m) s

  abbrev heartbeat : XmrManager T → XmrManager T
  heartbeat s = record s { info = record s.info { last_heartbeat_dt = now } }

  -- The try blocks: a message that could not be read changes nothing.
  unfoldable pub process_read : Option (XmrMessage T) → XmrManager T → XmrManager T
  unfolding process_xmr_message
  process_read none s = s
  process_read (some m) s =
      let s' = process_xmr_message m s in
      record s' { info = record s'.info { last_message_dt = now } }

  module _ (from_iso : String → Option T) {J : Type 0} (json : JsonTree J) where
    unfoldable pub process_web_socket_message : String → XmrManager T → XmrManager T
    unfolding process_read parse_message
    process_web_socket_message message s =
        if str_eq message heartbeat_channel
        then heartbeat s
        else process_read (parse_message time from_iso json message) s

    unfoldable pub process_multipart_message :
        (String → String → Option String) → List String → XmrManager T → XmrManager T
    unfolding process_read parse_message
    process_multipart_message decrypt [] s = s
    process_multipart_message decrypt (channel ∷ parts) s =
        if not (str_eq channel s.main_channel) then heartbeat s else elim parts [
          | [] ↦ s
          | key ∷ rest ↦ elim rest [
            | [] ↦ s
            | message ∷ more ↦
                process_read
                  (do decrypted ← decrypt key message; parse_message time from_iso json decrypted) s
          ]
        ]

reads_offset : split_offset "2024-05-01T10:00:00-05:30" ≡ some ("2024-05-01T10:00:00", negsuc 19799)
unfolding split_offset ends_with_char size find_last xibo_linux.Base.Text.stoi substr_to substr_from
    has_prefix
reads_offset = refl

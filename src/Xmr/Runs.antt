-- ===== src/Xmr/Runs.antt =====
-- XmrManager: sequences of calls and messages, each at its own time.
use xibo_linux.Base.{String, inl, inr, false, Option, none, some, List, [], ◌∷◌, Bool-cases, str_eq}
use xibo_linux.DateTime.{PosixTime}
use xibo_linux.Xmr.{
  TextServices, XmrManager, XmrConfig, XmrMessage, XmrAction, new_manager, connect, stop,
}
use xibo_linux.Xmr.Connection.{IsLinked, idle, connect-IsLinked, stop-IsLinked}
use xibo_linux.Xmr.Messages.{
  JsonTree, action_of, posted_with, is_message_expired, process_xmr_message, process_read,
  process_web_socket_message, process_multipart_message,
}

pub data XmrCall : Type 0 where
  connects : XmrConfig → XmrCall
  stops : XmrCall
  web_socket_brings : String → XmrCall
  zmq_brings : List String → XmrCall

pub record XmrEvent (T : Type 0) : Type 0 where
  pub now_utc : T
  pub now : T
  pub call : XmrCall

module _ {T : Type 0} (time : PosixTime T) (text : TextServices) (from_iso : String → Option T)
    {J : Type 0} (json : JsonTree J) (decrypt : String → String → Option String) where
  abbrev pub step : T → T → XmrCall → XmrManager T → XmrManager T
  step now_utc now (connects c) s = connect text c s
  step now_utc now stops s = stop s
  step now_utc now (web_socket_brings message) s =
      process_web_socket_message time now_utc now from_iso json message s
  step now_utc now (zmq_brings parts) s =
      process_multipart_message time now_utc now from_iso json decrypt parts s

  abbrev pub run : List (XmrEvent T) → XmrManager T → XmrManager T
  run [] s = s
  run (e ∷ events) s = run events (step e.now_utc e.now e.call s)

  posted_with-IsLinked :
      (action : Option (XmrAction T)) (s : XmrManager T)
      → IsLinked s
      → IsLinked (posted_with action s)
  posted_with-IsLinked none s h = h
  posted_with-IsLinked (some action) s h = h

  process_xmr_message-IsLinked :
      (now_utc now : T) (m : XmrMessage T) (s : XmrManager T)
      → IsLinked s
      → IsLinked (process_xmr_message time now_utc now m s)
  unfolding process_xmr_message
  process_xmr_message-IsLinked now_utc now m s h =
      elim (Bool-cases (is_message_expired time now_utc now m)) [
        | inl expired ↦ rw expired h
        | inr live ↦ rw live (posted_with-IsLinked (action_of m) s h)
      ]

  process_read-IsLinked :
      (now_utc now : T) (m : Option (XmrMessage T)) (s : XmrManager T)
      → IsLinked s
      → IsLinked (process_read time now_utc now m s)
  unfolding process_read
  process_read-IsLinked now_utc now none s h = h
  process_read-IsLinked now_utc now (some m) s h = process_xmr_message-IsLinked now_utc now m s h

  process_multipart_message-IsLinked :
      (now_utc now : T) (parts : List String) (s : XmrManager T)
      → IsLinked s
      → IsLinked (process_multipart_message time now_utc now from_iso json decrypt parts s)
  unfolding process_multipart_message
  process_multipart_message-IsLinked now_utc now [] s h = h
  process_multipart_message-IsLinked now_utc now (channel ∷ []) s h =
      elim (Bool-cases (str_eq channel s.main_channel)) [
        | inr other ↦ rw other h
        | inl main ↦ rw main h
      ]
  process_multipart_message-IsLinked now_utc now (channel ∷ key ∷ []) s h =
      elim (Bool-cases (str_eq channel s.main_channel)) [
        | inr other ↦ rw other h
        | inl main ↦ rw main h
      ]
  process_multipart_message-IsLinked now_utc now (channel ∷ key ∷ message ∷ more) s h =
      elim (Bool-cases (str_eq channel s.main_channel)) [
        | inr other ↦ rw other h
        | inl main ↦ rw main (process_read-IsLinked now_utc now _ s h)
      ]

  step-IsLinked :
      (now_utc now : T) (call : XmrCall) (s : XmrManager T)
      → IsLinked s
      → IsLinked (step now_utc now call s)
  unfolding process_web_socket_message
  step-IsLinked now_utc now (connects c) s h = connect-IsLinked text c s h
  step-IsLinked now_utc now stops s h = stop-IsLinked s
  step-IsLinked now_utc now (web_socket_brings message) s h =
      elim (Bool-cases (str_eq message "H")) [
        | inl heartbeat ↦ rw heartbeat h
        | inr other ↦ rw other (process_read-IsLinked now_utc now _ s h)
      ]
  step-IsLinked now_utc now (zmq_brings parts) s h =
      process_multipart_message-IsLinked now_utc now parts s h

  run_on-IsLinked :
      (events : List (XmrEvent T)) (s : XmrManager T) → IsLinked s → IsLinked (run events s)
  run_on-IsLinked [] s h = h
  run_on-IsLinked (e ∷ events) s h =
      run_on-IsLinked events (step e.now_utc e.now e.call s)
        (step-IsLinked e.now_utc e.now e.call s h)

  -- After any calls of connect and stop and any messages, in any order, from a new manager: at most one
  -- subscriber runs; it runs on the manager's channel and with the host of the status, and the flag for
  -- the web socket says which one it is. A web socket runs only with a key.
  pub run-IsLinked :
      (channel : String) (events : List (XmrEvent T))
      → IsLinked (run events (new_manager time channel))
  run-IsLinked channel events = run_on-IsLinked events (new_manager time channel) (idle "" false)

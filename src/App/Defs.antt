-- ===== src/App/Defs.antt =====
-- The state of the `app` and its handlers. A session is a pointer in the program and an index into
-- `sessions` here. A handler runs on the goroutine of `run`; the two goroutines of a session end by
-- `bridge_end` and `say`, at any moment.
use espnetwork_serial.Prelude.{
  ℕ, zero, suc, Bool, true, false, not, ◌||◌, List, [], ◌∷◌, ◌++◌, Option, none, some, ltb, ◌==◌,
  if◌then◌else◌,
}
use espnetwork_serial.Prelude.Bytes.{Bytes, codes, same}
use espnetwork_serial.Prelude.Text.{trim_space}
use espnetwork_serial.App.Command.{match_hello, atoi}

abbrev pub protocol_version : ℕ
protocol_version = 1

-- `response`; a version of 0 and a missing description are left out of the JSON.
pub record Response : Type 0 where
  pub event_type : Bytes
  pub message : Bytes
  pub error : Bool
  pub version : ℕ
  pub port_description : Option Bytes

-- A session, with whether its `once` has fired and which of its ends are closed.
pub record Session : Type 0 where
  pub ended : Bool
  pub board_closed : Bool
  pub client_closed : Bool

pub record App : Type 0 where
  pub initialized : Bool
  pub active : Option ℕ
  pub sessions : List Session
  -- How many connections have been opened, and not closed, that no session holds.
  pub loose : ℕ
  -- The sessions that a goroutine has ended and cleared from `active` with the response still to be
  -- sent, and the message.
  pub owed : List (ℕ × Bytes)
  pub out : List Response

abbrev pub fresh_session : Session
fresh_session = record { ended = false; board_closed = false; client_closed = false }

abbrev pub closed_session : Session
closed_session = record { ended = true; board_closed = true; client_closed = true }

unfoldable pub new_app : App
new_app = record {
  initialized = false;
  active = none;
  sessions = [];
  loose = 0;
  owed = [];
  out = [];
}

abbrev pub send : App → Response → App
send a r = record a { out = a.out ++ r ∷ [] }

abbrev pub plain : Bytes → Bytes → Bool → Response
plain event message is_error = record {
  event_type = event;
  message = message;
  error = is_error;
  version = 0;
  port_description = none;
}

abbrev pub ok : App → Bytes → App
ok a event = send a (plain event (codes "OK") false)

abbrev pub fail : App → Bytes → Bytes → App
fail a event message = send a (plain event message true)

-- Whether an end of the session is open.
unfoldable pub holds_conns : List Session → ℕ → Bool
holds_conns [] s = false
holds_conns (x ∷ xs) zero = not x.board_closed || not x.client_closed
holds_conns (x ∷ xs) (suc s) = holds_conns xs s

-- Whether the session's `once` has fired. There is no session without an index.
unfoldable pub has_ended : List Session → ℕ → Bool
has_ended [] s = true
has_ended (x ∷ xs) zero = x.ended
has_ended (x ∷ xs) (suc s) = has_ended xs s

unfoldable pub close_session : List Session → ℕ → List Session
close_session [] s = []
close_session (x ∷ xs) zero = closed_session ∷ xs
close_session (x ∷ xs) (suc s) = x ∷ close_session xs s

abbrev pub clear_active : Option ℕ → ℕ → Option ℕ
clear_active none s = none
clear_active (some t) s = if t == s then none else some t

-- The first part of `endSession`: both connections are closed, and the session is cleared.
abbrev pub close_now : App → ℕ → App
close_now a s = record a { sessions = close_session a.sessions s; active = clear_active a.active s }

-- The responses that are still to be sent for a session, and what is then left.
unfoldable pub said : List (ℕ × Bytes) → ℕ → List Response
said [] s = []
said ((t, message) ∷ owed) s =
    let rest = said owed s in
    if t == s then plain (codes "port_closed") message true ∷ rest else rest

unfoldable pub unsaid : List (ℕ × Bytes) → ℕ → List (ℕ × Bytes)
unsaid [] s = []
unsaid ((t, message) ∷ owed) s =
    let rest = unsaid owed s in if t == s then rest else (t, message) ∷ rest

-- A goroutine sends the response of the session that it has ended.
abbrev pub say : App → ℕ → App
say a s = record a { out = a.out ++ said a.owed s; owed = unsaid a.owed s }

-- What `endSession` does the first time; with no event type it sends nothing.
unfoldable pub end_now : App → ℕ → Bytes → Bytes → Bool → App
end_now a s event message is_error =
    if same event [] then close_now a s else send (close_now a s) (plain event message is_error)

-- `endSession` from a handler, and whether this call ended the session. If a goroutine has begun to
-- end it, `once.Do` waits until the response is sent.
unfoldable pub end_session : App → ℕ → Bytes → Bytes → Bool → App × Bool
unfolding end_now said unsaid
end_session a s event message is_error =
    if has_ended a.sessions s then (say a s, false) else (end_now a s event message is_error, true)

-- How `io.Copy` returns: with no error, with `net.ErrClosed`, or with another error and its text.
pub data CopyResult : Type 0 where
  copied copy_closed : CopyResult
  copy_failed : Bytes → CopyResult

abbrev pub bridge_message : Bytes → CopyResult → Bytes
bridge_message label (copy_failed text) = label ++ codes ": " ++ text
bridge_message label _ = label

-- The end of one of the two goroutines of a session.
pub record BridgeEnd : Type 0 where
  pub session : ℕ
  pub label : Bytes
  pub result : CopyResult

-- `endSession` at the end of `bridge`, up to where the response is to be sent: another goroutine may
-- run before it is. No handler looks at the connections of a session, so that they are closed and the
-- session cleared in one step.
unfoldable pub bridge_end : App → BridgeEnd → App
bridge_end a b = if has_ended a.sessions b.session then a else record (close_now a b.session) {
  owed = a.owed ++ (b.session, bridge_message b.label b.result) ∷ [];
}

-- What the goroutines of the sessions do while a handler runs or between two.
pub data Event : Type 0 where
  ends : BridgeEnd → Event
  says : (session : ℕ) → Event

unfoldable pub happen : App → List Event → App
unfolding bridge_end said unsaid
happen a [] = a
happen a (ends b ∷ es) = happen (bridge_end a b) es
happen a (says s ∷ es) = happen (say a s) es

unfoldable pub hello : App → Bytes → App
hello a rest =
    if a.initialized
    then fail a (codes "hello") (codes "HELLO already called")
    else elim (match_hello rest) [
      | none ↦ fail a (codes "hello") (codes "Invalid HELLO command")
      | some digits ↦ elim (atoi digits) [
        | none ↦ fail a (codes "hello") (codes "Unsupported protocol version: " ++ digits)
        | some requested ↦
            if ltb requested protocol_version
            then fail a (codes "hello") (codes "Unsupported protocol version: " ++ digits)
            else send (record a { initialized = true })
                (record {
                  event_type = codes "hello";
                  message = codes "OK";
                  error = false;
                  version = protocol_version;
                  port_description = none;
                })
      ]
    ]

unfoldable pub describe : App → Bytes → App
describe a rest =
    if not (same rest [])
    then fail a (codes "describe") (codes "DESCRIBE does not accept parameters")
    else send a (record {
      event_type = codes "describe";
      message = codes "OK";
      error = false;
      version = 0;
      port_description = some (codes "network");
    })

unfoldable pub configure : App → Bytes → App
configure a rest =
    if same (trim_space rest) []
    then fail a (codes "configure") (codes "Invalid CONFIGURE command")
    else fail a (codes "configure")
        (codes "ESPNetworkSerial network transport has no configurable monitor parameters")

-- `meanwhile` is what the goroutines do between the look at the session and its end.
unfoldable pub close_command : List Event → App → Bytes → App
unfolding end_session happen
close_command meanwhile a rest =
    if not (same (trim_space rest) [])
    then fail a (codes "close") (codes "CLOSE does not accept parameters")
    else elim a.active [
      | none ↦ fail a (codes "close") (codes "port already closed")
      | some s ↦
          let (a', ended) = end_session (happen a meanwhile) s (codes "close") (codes "OK") false in
          if not ended then fail a' (codes "close") (codes "port already closed") else a'
    ]

unfoldable pub close_silently : App → App
unfolding end_session
close_silently a = elim a.active [ none ↦ a | some s ↦ (end_session a s [] [] false).0 ]

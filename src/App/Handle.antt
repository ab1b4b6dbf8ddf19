-- ===== src/App/Handle.antt =====
-- The handlers of OPEN and of a command line, and the loop of `run`.
use espnetwork_serial.Prelude.{
  ◌+◌, ◌-◌, Bool, true, false, not, ◌&&◌, ◌||◌, List, [], ◌∷◌, ◌++◌, Option, none, some, length,
  if◌then◌else◌,
}
use espnetwork_serial.Prelude.Bytes.{Bytes, codes, same}
use espnetwork_serial.Prelude.Text.{trim_space, cut_byte}
use espnetwork_serial.App.Command.{split_command}
use espnetwork_serial.App.Address.{
  trim_quotes, address, bad_address, Texts, normalize_board_address,
}
use espnetwork_serial.App.Defs.{
  App, fresh_session, ok, fail, Event, happen, hello, describe, configure, close_command,
  close_silently,
}

-- What a command meets outside: the text of the error of each of the two connections of OPEN, if
-- there is one, and what the goroutines do while OPEN connects or CLOSE is about to end a session.
pub record OpenEnv : Type 0 where
  pub board_error : Option Bytes
  pub client_error : Option Bytes
  pub meanwhile : List Event

-- The end of `open`: the second test for a session, and the new session, which takes both
-- connections; if there is a session by now they are closed.
unfoldable pub install : App → App
install a = elim a.active [
  | some _ ↦ fail (record a { loose = a.loose - 2 }) (codes "open") (codes "port already opened")
  | none ↦
      ok
        (record a {
          active = some (length a.sessions);
          sessions = a.sessions ++ fresh_session ∷ [];
          loose = a.loose - 2;
        })
        (codes "open")
]

-- The two connections, once the address is known.
unfoldable pub connect : OpenEnv → App → Bytes → Bytes → App
unfolding install happen
connect env a client_address board_address =
    let a' = happen a env.meanwhile in
    let with_board = record a' { loose = a'.loose + 1 } in
    elim env.board_error [
      | some text ↦
          fail a' (codes "open")
            (codes "could not connect to ESP32 at " ++ (board_address ++ (codes ": " ++ text)))
      | none ↦ elim env.client_error [
        | some text ↦
            fail (record with_board { loose = with_board.loose - 1 }) (codes "open")
              (codes "could not connect back to Arduino IDE at "
                ++ (client_address ++ (codes ": " ++ text)))
        | none ↦ install (record with_board { loose = with_board.loose + 1 })
      ]
    ]

unfoldable pub open_ports : Texts → OpenEnv → App → Bytes → Bytes → App
unfolding connect
open_ports texts env a client_address board_port =
    if same client_address [] || same board_port []
    then fail a (codes "open") (codes "Invalid OPEN command")
    else elim a.active [
      | some _ ↦ fail a (codes "open") (codes "port already opened")
      | none ↦ elim (normalize_board_address texts board_port) [
        | bad_address text ↦ fail a (codes "open") text
        | address board_address ↦ connect env a client_address board_address
      ]
    ]

unfoldable pub open_command : Texts → OpenEnv → App → Bytes → App
unfolding open_ports
open_command texts env a rest = elim (cut_byte b' ' (trim_space rest)) [
  | none ↦ fail a (codes "open") (codes "Invalid OPEN command")
  | some (first, second) ↦
      open_ports texts env a (trim_space first) (trim_quotes (trim_space second))
]

-- What stands outside of the handlers.
pub record World : Type 0 where
  pub tables : Bytes → Bytes
  pub texts : Texts

-- The cases of the `switch` of `handleCommand`.
pub data Case : Type 0 where
  hello_case describe_case configure_case open_case close_case quit_case default_case : Case

unfoldable pub case_of : Bytes → Case
case_of command =
    if same command (codes "HELLO")
    then hello_case
    else if same command (codes "DESCRIBE")
    then describe_case
    else if same command (codes "CONFIGURE")
    then configure_case
    else if same command (codes "OPEN")
    then open_case
    else if same command (codes "CLOSE")
    then close_case
    else if same command (codes "QUIT")
    then quit_case
    else default_case

-- The body of each case; the flag says whether to quit.
unfoldable pub dispatch : World → OpenEnv → App → Case → Bytes → Bytes → App × Bool
dispatch w env a hello_case command rest = (hello a rest, false)
dispatch w env a describe_case command rest = (describe a rest, false)
dispatch w env a configure_case command rest = (configure a rest, false)
dispatch w env a open_case command rest = (open_command w.texts env a rest, false)
dispatch w env a close_case command rest = (close_command env.meanwhile a rest, false)
dispatch w env a quit_case command rest =
    if not (same (trim_space rest) [])
    then (fail a (codes "quit") (codes "QUIT does not accept parameters"), false)
    else (ok a (codes "quit"), true)
dispatch w env a default_case command rest = (
  fail a (codes "command_error") (codes "Command " ++ (command ++ codes " not supported")),
  false,
)

unfoldable pub handle_command : World → OpenEnv → App → Bytes → App × Bool
unfolding dispatch case_of
handle_command w env a line =
    let (command, rest) = split_command w.tables line in
    if not (same command (codes "HELLO")) && not (same command (codes "QUIT")) && not a.initialized
    then (
      fail a (codes "command_error")
          (codes "First command must be HELLO, but got '" ++ (command ++ codes "'")),
      false,
    )
    else dispatch w env a (case_of command) command rest

-- The loop of `run`: each line with what OPEN would meet, and what the goroutines did before it.
pub record Input : Type 0 where
  pub before : List Event
  pub line : Bytes
  pub open_env : OpenEnv

unfoldable pub run : World → App → List Input → App
unfolding handle_command happen close_silently
run w a [] = close_silently a
run w a (i ∷ is) =
    let a' = happen a i.before in
    let text = trim_space i.line in
    let (a'', quit) = handle_command w i.open_env a' text in
    elim (same text []) [
      | true ↦ run w a' is
      | false ↦ elim quit [ true ↦ close_silently a'' | false ↦ run w a'' is ]
    ]

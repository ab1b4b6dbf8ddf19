-- ===== src/App/Responding.antt =====
-- The response of each handler, on every branch.
use espnetwork_serial.Prelude.{
  ℕ, ◌-◌, refl, Bool, true, false, not, ◌||◌, List, [], ◌∷◌, ◌++◌, ltb, none, some, if◌then◌else◌,
  length, Bool-cases, Option-cases, inl, inr,
}
use espnetwork_serial.Prelude.Bytes.{Bytes, codes, same}
use espnetwork_serial.Prelude.Text.{trim_space, cut_byte}
use espnetwork_serial.App.Command.{match_hello, atoi, split_command}
use espnetwork_serial.App.Defs.{
  protocol_version, App, end_session, end_now, say, has_ended, Event, happen, ok, fresh_session,
  fail, hello, describe, configure, close_command,
}
use espnetwork_serial.App.Keeps.{needs_hello}
use espnetwork_serial.App.Address.{
  address, bad_address, Texts, normalize_board_address, trim_quotes,
}
use espnetwork_serial.App.Handle.{
  OpenEnv, install, connect, open_ports, open_command, World, dispatch, Case, hello_case,
  describe_case, configure_case, open_case, close_case, quit_case, default_case, case_of,
  handle_command,
}
use espnetwork_serial.App.Replies.{
  Quiet, Answers, Quiet-loose, Quiet-Answers, say-Quiet, answers, happen-Quiet,
}

if-Answers :
    (event : Bytes) (a : App) (b : Bool) (x y : App)
    → Answers event a x
    → Answers event a y
    → Answers event a (if b then x else y)
if-Answers event a true x y hx hy = hx
if-Answers event a false x y hx hy = hy

guard-Answers :
    (a : App) (b : Bool) (event event' : Bytes) (x y : App × Bool)
    → Answers event a x.0
    → Answers event' a y.0
    → Answers (if b then event else event') a (if b then x else y).0
guard-Answers a true event event' x y hx hy = hx
guard-Answers a false event event' x y hx hy = hy

hello-Answers : (a : App) (rest : Bytes) → Answers (codes "hello") a (hello a rest)
unfolding hello
hello-Answers a rest =
    if-Answers _ a a.initialized _ _ (answers a _ _ refl) (elim (Option-cases (match_hello rest)) [
      | inl q ↦ rw q (answers a _ _ refl)
      | inr (digits, q) ↦ elim (Option-cases (atoi digits)) [
        | inl q' ↦ rw (q, q') (answers a _ _ refl)
        | inr (n, q') ↦ elim (Bool-cases (ltb n protocol_version)) [
          | inl lt ↦ rw (q, q', lt) (answers a _ _ refl)
          | inr lt ↦ rw (q, q', lt) (answers a _ _ refl)
        ]
      ]
    ])

describe-Answers : (a : App) (rest : Bytes) → Answers (codes "describe") a (describe a rest)
unfolding describe
describe-Answers a rest = elim (Bool-cases (not (same rest []))) [
  | inl q ↦ rw q (answers a _ _ refl)
  | inr q ↦ rw q (answers a _ _ refl)
]

configure-Answers : (a : App) (rest : Bytes) → Answers (codes "configure") a (configure a rest)
unfolding configure
configure-Answers a rest = elim (Bool-cases (same (trim_space rest) [])) [
  | inl q ↦ rw q (answers a _ _ refl)
  | inr q ↦ rw q (answers a _ _ refl)
]

install-Answers : (a b : App) → Quiet a b → Answers (codes "open") a (install b)
unfolding install
install-Answers a b h =
    elim b.active
      as (λ o. Answers (codes "open") a (elim o as (λ _. App) [
        | some _ ↦
            fail (record b { loose = b.loose - 2 }) (codes "open") (codes "port already opened")
        | none ↦
            ok
              (record b {
                active = some (length b.sessions);
                sessions = b.sessions ++ fresh_session ∷ [];
                loose = b.loose - 2;
              })
              (codes "open")
      ])) [
        | some _ ↦ Quiet-Answers a b _ h (answers b _ _ refl)
        | none ↦ Quiet-Answers a b _ h (answers b _ _ refl)
      ]

connect-Answers :
    (env : OpenEnv) (a : App) (client_address board_address : Bytes)
    → Answers (codes "open") a (connect env a client_address board_address)
unfolding connect
connect-Answers env a client_address board_address =
    let b = happen a env.meanwhile in
    let h = happen-Quiet a env.meanwhile in
    elim (Option-cases env.board_error) [
      | inr (text, q) ↦ rw (connect, q) (Quiet-Answers a b _ h (answers b _ _ refl))
      | inl q ↦ elim (Option-cases env.client_error) [
        | inr (text, q') ↦ rw (connect, q, q') (Quiet-Answers a b _ h (answers b _ _ refl))
        | inl q' ↦ rw (connect, q, q') (install-Answers a _ (Quiet-loose a b _ h))
      ]
    ]

open_ports-Answers :
    (texts : Texts) (env : OpenEnv) (a : App) (client_address board_port : Bytes)
    → Answers (codes "open") a (open_ports texts env a client_address board_port)
unfolding open_ports
open_ports-Answers texts env a client_address board_port =
    if-Answers _ a (same client_address [] || same board_port []) _ _ (answers a _ _ refl)
      (elim a.active
        as (λ o. Answers (codes "open") a (elim o as (λ _. App) [
          | some _ ↦ fail a (codes "open") (codes "port already opened")
          | none ↦ elim (normalize_board_address texts board_port) as (λ _. App) [
            | bad_address text ↦ fail a (codes "open") text
            | address board_address ↦ connect env a client_address board_address
          ]
        ])) [
          | some _ ↦ answers a _ _ refl
          | none ↦
              elim (normalize_board_address texts board_port)
                as (λ r. Answers (codes "open") a (elim r as (λ _. App) [
                  | bad_address text ↦ fail a (codes "open") text
                  | address board_address ↦ connect env a client_address board_address
                ])) [
                  | bad_address text ↦ answers a _ _ refl
                  | address board_address ↦ connect-Answers env a client_address board_address
                ]
        ])

open_command-Answers :
    (texts : Texts) (env : OpenEnv) (a : App) (rest : Bytes)
    → Answers (codes "open") a (open_command texts env a rest)
unfolding open_command
open_command-Answers texts env a rest = elim (Option-cases (cut_byte b' ' (trim_space rest))) [
  | inl q ↦ rw (open_command, q) (answers a _ _ refl)
  | inr ((first, second), q) ↦
      rw (open_command, q)
        (open_ports-Answers texts env a (trim_space first) (trim_quotes (trim_space second)))
]

close_active-Answers :
    (a : App) (s : ℕ)
    → Answers (codes "close") a (
        let (a', ended) = end_session a s (codes "close") (codes "OK") false in
        if not ended then fail a' (codes "close") (codes "port already closed") else a')
unfolding end_session end_now same
close_active-Answers a s = elim (Bool-cases (has_ended a.sessions s)) [
  | inl q ↦
      rw (end_session, q) (Quiet-Answers a (say a s) _ (say-Quiet a s) (answers (say a s) _ _ refl))
  | inr q ↦ rw (end_session, q) (answers a _ _ refl)
]

close_command-Answers :
    (meanwhile : List Event) (a : App) (rest : Bytes)
    → Answers (codes "close") a (close_command meanwhile a rest)
unfolding close_command
close_command-Answers meanwhile a rest =
    if-Answers _ a (not (same (trim_space rest) [])) _ _ (answers a _ _ refl)
      (elim a.active
        as (λ o. Answers (codes "close") a (elim o as (λ _. App) [
          | none ↦ fail a (codes "close") (codes "port already closed")
          | some s ↦
              let (a', ended) =
                end_session (happen a meanwhile) s (codes "close") (codes "OK") false in
              if not ended then fail a' (codes "close") (codes "port already closed") else a'
        ])) [
          | none ↦ answers a _ _ refl
          | some s ↦
              Quiet-Answers a (happen a meanwhile) _ (happen-Quiet a meanwhile)
                (close_active-Answers (happen a meanwhile) s)
        ])

-- The event type of the response to each command.
abbrev pub event_of : Case → Bytes
event_of hello_case = codes "hello"
event_of describe_case = codes "describe"
event_of configure_case = codes "configure"
event_of open_case = codes "open"
event_of close_case = codes "close"
event_of quit_case = codes "quit"
event_of default_case = codes "command_error"

dispatch-Answers :
    (w : World) (env : OpenEnv) (a : App) (c : Case) (command rest : Bytes)
    → Answers (event_of c) a (dispatch w env a c command rest).0
unfolding dispatch
dispatch-Answers w env a hello_case command rest = hello-Answers a rest
dispatch-Answers w env a describe_case command rest = describe-Answers a rest
dispatch-Answers w env a configure_case command rest = configure-Answers a rest
dispatch-Answers w env a open_case command rest = open_command-Answers w.texts env a rest
dispatch-Answers w env a close_case command rest = close_command-Answers env.meanwhile a rest
dispatch-Answers w env a quit_case command rest =
    elim (Bool-cases (not (same (trim_space rest) []))) [
      | inl q ↦ rw q (answers a _ _ refl)
      | inr q ↦ rw q (answers a _ _ refl)
    ]
dispatch-Answers w env a default_case command rest = answers a _ _ refl

-- The event type of the response to a command line: before HELLO, only HELLO and QUIT have one of
-- their own.
abbrev pub expected_event : World → App → Bytes → Bytes
expected_event w a line =
    let (command, _) = split_command w.tables line in
    if needs_hello a command then codes "command_error" else event_of (case_of command)

-- To every command line there is exactly one response of the event type that belongs to the
-- command, an error or not, and it is the last that is written while the command runs; before it there
-- are only responses that say that a session has ended by itself. Such a response may also come later
-- than the response to a command that has already met no active session.
pub handle_command-Answers :
    (w : World) (env : OpenEnv) (a : App) (line : Bytes)
    → Answers (expected_event w a line) a (handle_command w env a line).0
unfolding handle_command
handle_command-Answers w env a line =
    let (command, rest) = split_command w.tables line in
    guard-Answers a (needs_hello a command) _ _ _ _ (answers a _ _ refl)
      (dispatch-Answers w env a (case_of command) command rest)

-- ===== src/App/Keeps.antt =====
-- The invariant under each handler of commands.
use espnetwork_serial.Prelude.{
  ℕ, ◌≡◌, refl, Bool, false, not, ◌&&◌, ◌||◌, List, [], Option, none, arith, Bool-cases,
  Option-cases, inl, inr,
}
use espnetwork_serial.Prelude.Bytes.{Bytes, codes, same}
use espnetwork_serial.Prelude.Text.{trim_space, cut_byte}
use espnetwork_serial.App.Command.{split_command}
use espnetwork_serial.App.Defs.{
  Session, App, Event, happen, fail, hello, describe, configure, close_command,
}
use espnetwork_serial.App.Address.{
  address, bad_address, Texts, normalize_board_address, trim_quotes,
}
use espnetwork_serial.App.Handle.{
  OpenEnv, install, connect, open_ports, open_command, World, dispatch, Case, hello_case,
  describe_case, configure_case, open_case, close_case, quit_case, default_case, case_of,
  handle_command,
}
use espnetwork_serial.App.Invariant.{Holds, Inv, append-Holds, end_session-Inv, happen-Inv}

-- Making a session of the two connections that OPEN has made.
install-Inv : (a : App) → Holds a.sessions a.active 0 → a.loose ≡ 2 → Inv (install a)
unfolding install
install-Inv a h two = elim (Option-cases a.active) [
  | inl q ↦ let h' : Holds a.sessions none 0 = rw q at h in rw (q, two) (append-Holds h')
  | inr (s, q) ↦ rw (q, two) (rw q at h)
]

Holds-loose :
    {xs : List Session} {act : Option ℕ} {n : ℕ} (m : ℕ) → Holds xs act n → m ≡ 0 → Holds xs act m
Holds-loose m h z = record {
  live = h.live;
  at_active = h.at_active;
  conns = h.conns;
  none_loose = z;
}

connect-Inv :
    (env : OpenEnv) (a : App) (client_address board_address : Bytes)
    → Inv a
    → Inv (connect env a client_address board_address)
unfolding connect
connect-Inv env a client_address board_address i =
    let h = happen-Inv a env.meanwhile i in
    let zero_loose = h.none_loose in
    elim (Option-cases env.board_error) [
      | inr (text, q) ↦ rw q h
      | inl q ↦ elim (Option-cases env.client_error) [
        | inr (text, q') ↦ rw (q, q') (Holds-loose _ h (omega arith))
        | inl q' ↦ rw (q, q') (install-Inv _ (Holds-loose 0 h refl) (omega arith))
      ]
    ]

open_ports-Inv :
    (texts : Texts) (env : OpenEnv) (a : App) (client_address board_port : Bytes)
    → Inv a
    → Inv (open_ports texts env a client_address board_port)
unfolding open_ports
open_ports-Inv texts env a client_address board_port i =
    elim (Bool-cases (same client_address [] || same board_port [])) [
      | inl q ↦ rw q i
      | inr q ↦ elim (Option-cases a.active) [
        | inr (s, q') ↦ rw (q, q') i
        | inl q' ↦
            rw (q, q')
              (elim (normalize_board_address texts board_port)
                as (λ r. Inv (elim r [
                  | bad_address text ↦ fail a (codes "open") text
                  | address board_address ↦ connect env a client_address board_address
                ])) [
                  | bad_address text ↦ i
                  | address board_address ↦ connect-Inv env a client_address board_address i
                ])
      ]
    ]

open_command-Inv :
    (texts : Texts) (env : OpenEnv) (a : App) (rest : Bytes)
    → Inv a
    → Inv (open_command texts env a rest)
unfolding open_command
open_command-Inv texts env a rest i = elim (Option-cases (cut_byte b' ' (trim_space rest))) [
  | inl q ↦ rw (open_command, q) i
  | inr ((first, second), q) ↦
      rw (open_command, q)
        (open_ports-Inv texts env a (trim_space first) (trim_quotes (trim_space second)) i)
]

hello-Inv : (a : App) (rest : Bytes) → Inv a → Inv (hello a rest)
unfolding hello
hello-Inv a rest i = ground arith

close_command-Inv :
    (meanwhile : List Event) (a : App) (rest : Bytes) → Inv a → Inv (close_command meanwhile a rest)
unfolding close_command
close_command-Inv meanwhile a rest i = elim (Bool-cases (not (same (trim_space rest) []))) [
  | inl q ↦ rw q i
  | inr q ↦ elim (Option-cases a.active) [
    | inl q' ↦ rw (q, q') i
    | inr (s, q') ↦
        let h =
          end_session-Inv (happen a meanwhile) s (codes "close") (codes "OK") false
            (happen-Inv a meanwhile i) in
        rw (q, q') (ground (arith, h))
  ]
]

dispatch-Inv :
    (w : World) (env : OpenEnv) (a : App) (c : Case) (command rest : Bytes)
    → Inv a
    → Inv (dispatch w env a c command rest).0
unfolding dispatch describe configure
dispatch-Inv w env a hello_case command rest i = hello-Inv a rest i
dispatch-Inv w env a describe_case command rest i = ground arith
dispatch-Inv w env a configure_case command rest i = ground arith
dispatch-Inv w env a open_case command rest i = open_command-Inv w.texts env a rest i
dispatch-Inv w env a close_case command rest i = close_command-Inv env.meanwhile a rest i
dispatch-Inv w env a quit_case command rest i = ground arith
dispatch-Inv w env a default_case command rest i = i

-- The guard of a command before HELLO.
abbrev pub needs_hello : App → Bytes → Bool
needs_hello a command =
    not (same command (codes "HELLO")) && not (same command (codes "QUIT")) && not a.initialized

-- A command line, whatever it is and whatever it meets outside, keeps the invariant: a session is live
-- exactly if it is the active one, has its connections open exactly while it is live, and no other
-- connection is open.
pub handle_command-Inv :
    (w : World) (env : OpenEnv) (a : App) (line : Bytes)
    → Inv a
    → Inv (handle_command w env a line).0
unfolding handle_command
handle_command-Inv w env a line i =
    let (command, rest) = split_command w.tables line in
    elim (Bool-cases (needs_hello a command)) [
      | inl q ↦ rw q i
      | inr q ↦ rw q (dispatch-Inv w env a (case_of command) command rest i)
    ]

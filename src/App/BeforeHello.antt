-- ===== src/App/BeforeHello.antt =====
-- Command lines before HELLO.
use espnetwork_serial.Prelude.{
  ◌≡◌, refl, Bool, true, false, not, [], if◌then◌else◌, arith, Bool-cases, inl, inr, ◌⊎◌,
}
use espnetwork_serial.Prelude.Bytes.{Bytes, codes, same, same_iff}
use espnetwork_serial.Prelude.Text.{trim_space}
use espnetwork_serial.App.Command.{split_command}
use espnetwork_serial.App.Defs.{App, hello}
use espnetwork_serial.App.Handle.{
  OpenEnv, World, hello_case, quit_case, case_of, dispatch, handle_command,
}
use espnetwork_serial.App.Keeps.{needs_hello}

-- `b` has the sessions and the connections of `a`.
pub record SameSessions (a b : App) : Type 0 where
  pub sessions : b.sessions ≡ a.sessions
  pub active : b.active ≡ a.active
  pub loose : b.loose ≡ a.loose

-- What a command may do before HELLO.
abbrev pub IsUnopened : App → Bytes → App → Type 0
IsUnopened a command b = SameSessions a b × ((b.initialized ≡ false) ⊎ (command ≡ codes "HELLO"))

hello-SameSessions : (a : App) (rest : Bytes) → SameSessions a (hello a rest)
unfolding hello
hello-SameSessions a rest = record {
  sessions = ground arith;
  active = ground arith;
  loose = ground arith;
}

case_of-quit_case : (command : Bytes) → command ≡ codes "QUIT" → case_of command ≡ quit_case
unfolding case_of same
case_of-quit_case command e = rw e refl

case_of-hello_case : (command : Bytes) → command ≡ codes "HELLO" → case_of command ≡ hello_case
unfolding case_of same
case_of-hello_case command e = rw e refl

quit_case-IsUnopened :
    (w : World) (env : OpenEnv) (a : App) (command rest : Bytes)
    → a.initialized ≡ false
    → IsUnopened a command (dispatch w env a quit_case command rest).0
unfolding dispatch
quit_case-IsUnopened w env a command rest fresh =
    elim (Bool-cases (not (same (trim_space rest) []))) [
      | inl q ↦
          rw (dispatch, q) (record { sessions = refl; active = refl; loose = refl }, inl fresh)
      | inr q ↦
          rw (dispatch, q) (record { sessions = refl; active = refl; loose = refl }, inl fresh)
    ]

guard-IsUnopened :
    (a : App) (command : Bytes) (b : Bool) (x y : App × Bool)
    → IsUnopened a command x.0
    → (b ≡ false → IsUnopened a command y.0)
    → IsUnopened a command (if b then x else y).0
guard-IsUnopened a command true x y hx hy = hx
guard-IsUnopened a command false x y hx hy = hy refl

first_command :
    (a : App) (command : Bytes)
    → a.initialized ≡ false
    → needs_hello a command ≡ false
    → (command ≡ codes "HELLO") ⊎ (command ≡ codes "QUIT")
first_command a command fresh e =
    ground (arith, same_iff command (codes "HELLO"), same_iff command (codes "QUIT"))

-- Before HELLO, no command line opens or ends a session or leaves a connection open, and only the
-- command HELLO can make the monitor ready for the other commands.
pub handle_command-before_hello :
    (w : World) (env : OpenEnv) (a : App) (line : Bytes)
    → a.initialized ≡ false
    → IsUnopened a (split_command w.tables line).0 (handle_command w env a line).0
unfolding handle_command
handle_command-before_hello w env a line fresh =
    let (command, rest) = split_command w.tables line in
    guard-IsUnopened a command (needs_hello a command) _ _
      (record { sessions = refl; active = refl; loose = refl }, inl fresh)
      (λ e. elim (first_command a command fresh e) [
        | inl h ↦
            rw (case_of-hello_case command h)
              (unfold dispatch in (hello-SameSessions a rest, inr h))
        | inr h ↦ rw (case_of-quit_case command h) (quit_case-IsUnopened w env a command rest fresh)
      ])

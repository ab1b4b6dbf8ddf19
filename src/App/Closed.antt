-- ===== src/App/Closed.antt =====
-- The sessions at the end of `run`.
use espnetwork_serial.Prelude.{
  ℕ, ◌≡◌, refl, Bool, true, false, not, ◌≢◌, List, [], ◌∷◌, none, some, Bool-cases, inl, inr,
}
use espnetwork_serial.Prelude.Bytes.{Bytes, same}
use espnetwork_serial.Prelude.Text.{trim_space}
use espnetwork_serial.App.Defs.{
  App, end_session, say, has_ended, holds_conns, end_now, clear_active, happen, close_silently,
}
use espnetwork_serial.App.Handle.{World, handle_command, Input, run}
use espnetwork_serial.App.Sessions.{clear_active-same, has_ended-close_same}
use espnetwork_serial.App.Invariant.{Inv, end_session-Inv, happen-Inv}
use espnetwork_serial.App.Keeps.{handle_command-Inv}

-- What `run` leaves: all sessions ended, their connections closed, no connection open beside.
pub record AllClosed (a : App) : Type 0 where
  none_live : (t : ℕ) → has_ended a.sessions t ≡ true
  none_open : (t : ℕ) → holds_conns a.sessions t ≡ false
  none_active : a.active ≡ none
  none_loose : a.loose ≡ 0

Inv-AllClosed : (a : App) → Inv a → a.active ≡ none → AllClosed a
Inv-AllClosed a i e =
    let none_live : (t : ℕ) → has_ended a.sessions t ≡ true =
      λ t. elim (Bool-cases (has_ended a.sessions t)) [ inl q ↦ q | inr q ↦ cc (i.live t q, e) ] in
    record {
      none_live = none_live;
      none_open = λ t. rw (i.conns t, none_live t) refl;
      none_active = e;
      none_loose = i.none_loose;
    }

end_session-active :
    (a : App) (s : ℕ) (event message : Bytes) (is_error : Bool)
    → Inv a
    → a.active ≡ some s
    → (end_session a s event message is_error).0.active ≡ none
unfolding end_session end_now
end_session-active a s event message is_error i e =
    let live = i.at_active s e in
    let cleared : clear_active a.active s ≡ none = cc (e, clear_active-same s) in
    rw live (elim (Bool-cases (same event [])) [ inl q ↦ rw q cleared | inr q ↦ rw q cleared ])

close_silently-Inv : (a : App) → Inv a → Inv (close_silently a)
unfolding close_silently
close_silently-Inv a i =
    elim a.active as (λ o. Inv (elim o [ none ↦ a | some s ↦ (end_session a s [] [] false).0 ])) [
      | none ↦ i
      | some s ↦ end_session-Inv a s [] [] false i
    ]

close_silently-active : (a : App) → Inv a → (close_silently a).active ≡ none
unfolding close_silently
close_silently-active a i =
    elim a.active
        as (λ o.
          a.active ≡ o
          → (elim o as (λ _. App) [ none ↦ a | some s ↦ (end_session a s [] [] false).0 ]).active
            ≡ none) [ none ↦ λ e. e | some s ↦ λ e. end_session-active a s [] [] false i e ]
      refl

close_silently-AllClosed : (a : App) → Inv a → AllClosed (close_silently a)
close_silently-AllClosed a i = Inv-AllClosed _ (close_silently-Inv a i) (close_silently-active a i)

-- From a state with the invariant, whatever lines come in, and whenever the goroutines of a session
-- end, after `run` every session has ended, both connections of every session are closed, no session
-- is active, and no connection has been left open beside.
pub run-AllClosed : (w : World) (a : App) (is : List Input) → Inv a → AllClosed (run w a is)
unfolding run
run-AllClosed w a [] i = close_silently-AllClosed a i
run-AllClosed w a (x ∷ is) i =
    let before = happen-Inv a x.before i in
    let text = trim_space x.line in
    let after = handle_command-Inv w x.open_env (happen a x.before) text before in
    elim (Bool-cases (same text [])) [
      | inl q ↦ rw (run, q) (run-AllClosed w (happen a x.before) is before)
      | inr q ↦ elim (Bool-cases (handle_command w x.open_env (happen a x.before) text).1) [
        | inl q' ↦ rw (run, q, q') (close_silently-AllClosed _ after)
        | inr q' ↦
            rw (run, q, q')
              (run-AllClosed w (handle_command w x.open_env (happen a x.before) text).0 is after)
      ]
    ]

end_now-has_ended :
    (a : App) (s : ℕ) (event message : Bytes) (is_error : Bool)
    → has_ended (end_now a s event message is_error).sessions s ≡ true
unfolding end_now
end_now-has_ended a s event message is_error = elim (Bool-cases (same event [])) [
  | inl q ↦ rw q (has_ended-close_same a.sessions s)
  | inr q ↦ rw q (has_ended-close_same a.sessions s)
]

-- What is so once a handler has called `endSession` for the session `s` and got `b`.
pub record Ended (b : App) (s : ℕ) : Type 0 where
  pub ended : has_ended b.sessions s ≡ true
  pub no_conns : holds_conns b.sessions s ≡ false
  pub inactive : b.active ≢ some s

end_session-has_ended :
    (a : App) (s : ℕ) (event message : Bytes) (is_error : Bool)
    → has_ended (end_session a s event message is_error).0.sessions s ≡ true
unfolding end_session
end_session-has_ended a s event message is_error = elim (Bool-cases (has_ended a.sessions s)) [
  | inl q ↦ rw (q, q) refl
  | inr q ↦ rw q (end_now-has_ended a s event message is_error)
]

end_session-first :
    (a : App) (s : ℕ) (event message : Bytes) (is_error : Bool)
    → (end_session a s event message is_error).1 ≡ not (has_ended a.sessions s)
unfolding end_session
end_session-first a s event message is_error = elim (Bool-cases (has_ended a.sessions s)) [
  | inl q ↦ rw q refl
  | inr q ↦ rw q refl
]

end_session-again :
    (b : App) (s : ℕ) (event message : Bytes) (is_error : Bool)
    → has_ended b.sessions s ≡ true
    → end_session b s event message is_error ≡ (say b s, false)
unfolding end_session
end_session-again b s event message is_error e = rw (end_session, e) refl

-- In a state with the invariant, after a call of `endSession` for a session it has ended, both its
-- connections are closed and it is not the active one, whoever ended it; the call says whether it was
-- the one that ended it. A further call says that it was not, and sends no response of its own.
pub end_session-Ended :
    (a : App) (s : ℕ) (event message event' message' : Bytes) (is_error is_error' : Bool)
    → Inv a
    → let (b, first) = end_session a s event message is_error in
      Ended b s
      × (first ≡ not (has_ended a.sessions s))
      × (end_session b s event' message' is_error' ≡ (say b s, false))
end_session-Ended a s event message event' message' is_error is_error' i =
    let h = end_session-Inv a s event message is_error i in
    let e = end_session-has_ended a s event message is_error in
    (
      record {
        ended = e;
        no_conns = rw (h.conns s, e) refl;
        inactive = λ q. cc (h.at_active s q, e);
      },
      end_session-first a s event message is_error,
      end_session-again _ s event' message' is_error' e,
    )

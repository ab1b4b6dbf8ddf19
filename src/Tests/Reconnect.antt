-- ===== src/Tests/Reconnect.antt =====
-- A write of five bytes over a connection that breaks after two of them; then the board is closed.
use espnetwork_serial.Prelude.{ℕ, true, none, ◌≡◌, refl, arith}
use espnetwork_serial.Reconnect.Defs.{
  Effect, publish, writing, got, Pc, has_dialed, unlocking, returned,
}
use espnetwork_serial.Reconnect.Moves.{
  Move, start_read, start_write, finish, found, lost_closed, lost, lock, gone, open_before,
  still_open, in_time, dial_ok, install, unlock_got, io_ok, io_fail, drop_current, close_done,
  close_held, shut_done, next_call, System, pick, Reach, start, later,
}
use espnetwork_serial.Reconnect.Duties.{searching, new_of, spent_of}
use espnetwork_serial.Reconnect.Leak.{no_leak, closed-AllShut, Placed}
use espnetwork_serial.Reconnect.Exclusive.{
  reconnect-exclusive, has_dialed-Installed, Installed, closed-apart, no_more, more,
  apart_from_board,
}
use espnetwork_serial.Reconnect.Contract.{Contract, returned-Contract}
use espnetwork_serial.Reconnect.Deadline.{Timed, Step-Timed}

-- A state, and how the system gets there.
record Run : Type 0 where
  state : System
  reach : Reach 100 state

abbrev first : Run
first = record { state = _; reach = start }

abbrev go : (r : Run) (i : ℕ) {e : Effect} {p : Pc} → Move r.state.mem (r.state.pc i) e p → Run
go r i mv = record { state = _; reach = later r.reach (pick i mv) }

abbrev broken : Run
broken =
    go
      (go (go (go (go first 0 (start_write {len = 5})) 0 (found refl refl refl)) 0 (io_fail 2 refl))
        0 (drop_current refl))
      0 close_done

abbrev dialed_again : Run
dialed_again =
    go
      (go
        (go
          (go (go (go (go broken 0 (lost refl refl)) 0 (lock refl)) 0 (gone refl)) 0
            (open_before refl))
          0 (still_open refl))
        0 (in_time (omega arith)))
      0 dial_ok

abbrev written : Run
written =
    go (go (go (go dialed_again 0 (install refl refl)) 0 unlock_got) 0 (io_ok 3 refl)) 0
      (finish refl)

abbrev closed_board : Run
closed_board = go (go (go written 0 next_call) 0 (close_held refl refl)) 0 shut_done

dialed_again-pc : dialed_again.state.pc 0 ≡ has_dialed (writing 5 2) 15100 1
dialed_again-pc = refl

written-pc : written.state.pc 0 ≡ returned (writing 5 5) 5 none
written-pc = refl

closed_board-conn : closed_board.state.mem.conn ≡ none
closed_board-conn = refl

closed_board-quiet :
    (i : ℕ)
    → (new_of (closed_board.state.pc i) ≡ none) × (spent_of (closed_board.state.pc i) ≡ none)
closed_board-quiet i = ground arith

reconnect-exclusive_example :
    ◌≡◌ {A = ℕ} 0 0
    × (searching (dialed_again.state.pc 0) ≡ true → dialed_again.state.mem.conn ≡ none)
reconnect-exclusive_example = reconnect-exclusive dialed_again.reach 0 0 refl refl

has_dialed-Installed_example :
    Installed dialed_again.state.mem 15100 1
      (writing 5 2)
      (publish 1)
      (unlocking (writing 5 2) 15100 (got 1))
has_dialed-Installed_example = has_dialed-Installed dialed_again.reach 0 refl (install refl refl)

returned-Contract_example : Contract (writing 5 5) 5 none
returned-Contract_example = returned-Contract written.reach 0 refl

Step-Timed_example : Timed 100 (broken.state.pc 0) ((go broken 0 (lost refl refl)).state.pc 0)
Step-Timed_example = Step-Timed {s = broken.state} (pick 0 (lost refl refl)) 0

no_leak_example : Placed closed_board.state 0
no_leak_example = no_leak closed_board.reach 0 (omega arith)

closed-AllShut_example : closed_board.state.mem.shut 1 ≡ true
closed-AllShut_example = closed-AllShut closed_board.reach refl closed_board-quiet 1 (omega arith)

abbrev called_again : Run
called_again = go (go closed_board 1 (start_read {len = 9})) 1 (lost_closed refl refl)

closed-apart_example :
    (called_again.state.mem.closed ≡ true) × (apart_from_board (called_again.state.pc 1) ≡ true)
closed-apart_example =
    closed-apart {s = closed_board.state} {t = called_again.state}
      (more (more no_more (pick 1 (start_read {len = 9}))) (pick 1 (lost_closed refl refl))) refl 1
      refl

-- ===== src/Reconnect/Moves.antt =====
-- The steps of one goroutine, and of all of them in any order.
use espnetwork_serial.Prelude.{
  ℕ, suc, ◌+◌, ◌-◌, min, ◌≤◌, ◌<◌, true, false, Option, none, some, ◌≡◌, ◌≢◌, ◌==◌, if◌then◌else◌,
  Bool-cases, inl, inr, arith,
}
use espnetwork_serial.Reconnect.Defs.{
  Mem, new_reconnecting_tcp, Effect, keep, take_lock, drop_lock, dial, forget, close_board, publish,
  shut_conn, apply, Job, reading, writing, closed_error, timed_out, Failure, Result, got, failed,
  Pc, idle, connect, waiting, locked, checking, trying, timing, dialing, has_dialed, discarding,
  unlocking, using, dropping, closing, shutting, returned, set_deadline, dial_timeout,
  reconnect_interval, sleeping, moved, goes_on, room, after_io, after_drop,
}

-- One step of a goroutine. What the connection and `dialESPNS` answer, and which call is made, is
-- left open; a call on the connection moves no more bytes than it was given, and `dialESPNS` takes what time
-- it takes, whatever its timeout.
pub data Move (m : Mem) : Pc → Effect → Pc → Type 0 where
  start_read : {len : ℕ} → Move m idle keep (connect (reading len) none)
  start_write : {len : ℕ} → Move m idle keep (connect (writing len 0) none)
  finish :
      {job : Job} {dl : Option ℕ}
      → goes_on job ≡ false
      → Move m (connect job dl) keep (returned job (moved job) none)
  found :
      {job : Job} {dl : Option ℕ} {c : ℕ}
      → goes_on job ≡ true
      → m.closed ≡ false
      → m.conn ≡ some c
      → Move m (connect job dl) keep (using job dl c)
  lost_closed :
      {job : Job} {dl : Option ℕ}
      → goes_on job ≡ true
      → m.closed ≡ true
      → Move m (connect job dl) keep (waiting job (set_deadline dl m.now))
  lost :
      {job : Job} {dl : Option ℕ}
      → goes_on job ≡ true
      → m.conn ≡ none
      → Move m (connect job dl) keep (waiting job (set_deadline dl m.now))
  lock : {job : Job} {d : ℕ} → m.lock ≡ none → Move m (waiting job d) take_lock (locked job d)
  found_again :
      {job : Job} {d c : ℕ}
      → m.closed ≡ false
      → m.conn ≡ some c
      → Move m (locked job d) keep (unlocking job d (got c))
  gone_closed : {job : Job} {d : ℕ} → m.closed ≡ true → Move m (locked job d) keep (checking job d)
  gone : {job : Job} {d : ℕ} → m.conn ≡ none → Move m (locked job d) keep (checking job d)
  shut_before :
      {job : Job} {d : ℕ}
      → m.closed ≡ true
      → Move m (checking job d) keep (unlocking job d (failed closed_error))
  open_before : {job : Job} {d : ℕ} → m.closed ≡ false → Move m (checking job d) keep (trying job d)
  shut_meanwhile :
      {job : Job} {d : ℕ}
      → m.closed ≡ true
      → Move m (trying job d) keep (unlocking job d (failed closed_error))
  still_open : {job : Job} {d : ℕ} → m.closed ≡ false → Move m (trying job d) keep (timing job d)
  late :
      {job : Job} {d : ℕ}
      → d ≤ m.now
      → Move m (timing job d) keep (unlocking job d (failed timed_out))
  in_time :
      {job : Job} {d : ℕ}
      → m.now < d
      → Move m (timing job d) keep (dialing job d (d - m.now) (min dial_timeout (d - m.now)))
  dial_ok : {job : Job} {d r t : ℕ} → Move m (dialing job d r t) dial (has_dialed job d m.dialed)
  dial_fail :
      {job : Job} {d r t : ℕ}
      → Move m (dialing job d r t) keep (sleeping job d (m.now + min reconnect_interval r))
  wake :
      {job : Job} {d until : ℕ} → until ≤ m.now → Move m (sleeping job d until) keep (trying job d)
  too_late :
      {job : Job} {d c : ℕ}
      → m.closed ≡ true
      → Move m (has_dialed job d c) keep (discarding job d c (failed closed_error))
  install :
      {job : Job} {d c : ℕ}
      → m.closed ≡ false
      → m.conn ≡ none
      → Move m (has_dialed job d c) (publish c) (unlocking job d (got c))
  existing :
      {job : Job} {d c c' : ℕ}
      → m.closed ≡ false
      → m.conn ≡ some c'
      → Move m (has_dialed job d c) keep (discarding job d c (got c'))
  discard :
      {job : Job} {d c : ℕ} {r : Result}
      → Move m (discarding job d c r) (shut_conn c) (unlocking job d r)
  unlock_got :
      {job : Job} {d c : ℕ} → Move m (unlocking job d (got c)) drop_lock (using job (some d) c)
  unlock_failed :
      {job : Job} {d : ℕ} {e : Failure}
      → Move m (unlocking job d (failed e)) drop_lock (returned job (moved job) (some e))
  io_ok :
      {job : Job} {dl : Option ℕ} {c : ℕ} (n : ℕ)
      → room job n ≡ true
      → Move m (using job dl c) keep (after_io job dl n)
  io_fail :
      {job : Job} {dl : Option ℕ} {c : ℕ} (n : ℕ)
      → room job n ≡ true
      → Move m (using job dl c) keep (dropping job dl c n)
  drop_current :
      {job : Job} {dl : Option ℕ} {c n : ℕ}
      → m.conn ≡ some c
      → Move m (dropping job dl c n) forget (closing job dl c n)
  drop_other :
      {job : Job} {dl : Option ℕ} {c n : ℕ}
      → m.conn ≢ some c
      → Move m (dropping job dl c n) keep (closing job dl c n)
  close_done :
      {job : Job} {dl : Option ℕ} {c n : ℕ}
      → Move m (closing job dl c n) (shut_conn c) (after_drop job dl n)
  close_again : m.closed ≡ true → Move m idle keep idle
  close_held : {c : ℕ} → m.closed ≡ false → m.conn ≡ some c → Move m idle close_board (shutting c)
  close_empty : m.closed ≡ false → m.conn ≡ none → Move m idle close_board idle
  shut_done : {c : ℕ} → Move m (shutting c) (shut_conn c) idle
  next_call : {job : Job} {n : ℕ} {e : Option Failure} → Move m (returned job n e) keep idle

pub record System : Type 0 where
  pub mem : Mem
  pub pc : ℕ → Pc

abbrev pub update : (ℕ → Pc) → ℕ → Pc → ℕ → Pc
update f i p j = if i == j then p else f j

pub update-all {ℓ} :
    (P : Pc → Type ℓ) (f : ℕ → Pc) (i : ℕ) (p : Pc) (j : ℕ)
    → (i ≡ j → P p)
    → (i ≢ j → P (f j))
    → P (update f i p j)
update-all P f i p j here there = elim (Bool-cases (i == j)) [
  | inl q ↦ rw q (here (ground arith))
  | inr q ↦ rw q (there (ground arith))
]

pub data Step (s : System) : System → Type 0 where
  pick :
      (i : ℕ) {e : Effect} {p : Pc}
      → Move s.mem (s.pc i) e p
      → Step s (record { mem = apply i e s.mem; pc = update s.pc i p })
  tick : Step s (record s { mem = record s.mem { now = suc s.mem.now } })

pub data Reach (now : ℕ) : System → Type 0 where
  start : Reach now (record { mem = new_reconnecting_tcp now; pc = λ i. idle })
  later : {s t : System} → Reach now s → Step s t → Reach now t

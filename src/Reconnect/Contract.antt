-- ===== src/Reconnect/Contract.antt =====
-- What `Read` and `Write` promise their callers, and how long they wait.
use espnetwork_serial.Prelude.{ℕ, ◌≤◌, ◌<◌, true, false, Option, none, some, ◌≡◌, subst, arith}
use espnetwork_serial.Reconnect.Defs.{
  Mem, Effect, Job, reading, writing, Failure, Pc, connect, waiting, locked, checking, trying,
  timing, dialing, sleeping, has_dialed, discarding, unlocking, using, dropping, closing, returned,
  moved, goes_on, room, after_io, after_drop,
}
use espnetwork_serial.Reconnect.Moves.{
  Move, finish, found, lost_closed, lost, unlock_failed, io_ok, io_fail, close_done, System,
  update-all, pick, tick, Reach, start, later,
}

-- There are bytes left to move.
abbrev Going : Job → Type 0
Going (reading len) = Unit
Going (writing len total) = total < len

-- The contracts of io.Reader and io.Writer: `Read` gives at most the bytes there is room for, and
-- none with an error; `Write` has sent all bytes with no error, and fewer with one.
abbrev pub Contract : Job → ℕ → Option Failure → Type 0
Contract (reading len) n none = n ≤ len
Contract (reading len) n (some e) = n ≡ 0
Contract (writing len total) n none = n ≡ len
Contract (writing len total) n (some e) = n < len

abbrev Counted : Pc → Type 0
Counted (connect (writing len total) dl) = total ≤ len
Counted (waiting job d) = Going job
Counted (locked job d) = Going job
Counted (checking job d) = Going job
Counted (trying job d) = Going job
Counted (timing job d) = Going job
Counted (dialing job d r t) = Going job
Counted (sleeping job d until) = Going job
Counted (has_dialed job d c) = Going job
Counted (discarding job d c r) = Going job
Counted (unlocking job d r) = Going job
Counted (using job dl c) = Going job
Counted (dropping job dl c n) = Going job × (room job n ≡ true)
Counted (closing job dl c n) = Going job × (room job n ≡ true)
Counted (returned job n e) = Contract job n e
Counted _ = Unit

goes_on-Going : (job : Job) → goes_on job ≡ true → Going job
goes_on-Going job h = ground arith

after_io-Counted :
    (job : Job) (dl : Option ℕ) (n : ℕ)
    → Going job
    → room job n ≡ true
    → Counted (after_io job dl n)
after_io-Counted job dl n g h = ground arith

after_drop-Counted :
    (job : Job) (dl : Option ℕ) (n : ℕ)
    → Going job
    → room job n ≡ true
    → Counted (after_drop job dl n)
after_drop-Counted job dl n g h = ground arith

finish-Contract :
    (job : Job) (dl : Option ℕ)
    → goes_on job ≡ false
    → Counted (connect job dl)
    → Contract job (moved job) none
finish-Contract job dl g h = ground arith

failed-Contract : (job : Job) (e : Failure) → Going job → Contract job (moved job) (some e)
failed-Contract job e h = ground arith

Move-Counted : {m : Mem} {p p' : Pc} {e : Effect} → Move m p e p' → Counted p → Counted p'
Move-Counted (found {job} g o k) h = goes_on-Going job g
Move-Counted (lost {job} g k) h = goes_on-Going job g
Move-Counted (lost_closed {job} g k) h = goes_on-Going job g
Move-Counted (io_ok {job} {dl} n k) h = after_io-Counted job dl n h k
Move-Counted (io_fail n k) h = (h, k)
Move-Counted (close_done {job} {dl} {c} {n}) h = after_drop-Counted job dl n h.0 h.1
Move-Counted (finish {job} {dl} g) h = finish-Contract job dl g h
Move-Counted (unlock_failed {job} {d} {e}) h = failed-Contract job e h
Move-Counted mv h = ground arith

Reach-Counted : {now : ℕ} {s : System} → Reach now s → (i : ℕ) → Counted (s.pc i)
Reach-Counted start i = tt
Reach-Counted (later {s} r (pick j {e} {p} mv)) i =
    update-all Counted s.pc j p i (λ q. Move-Counted mv (Reach-Counted r j))
      (λ n. Reach-Counted r i)
Reach-Counted (later r tick) i = Reach-Counted r i

-- However often the connection breaks and is dialed again in the middle of a call, and whatever else
-- is done to the board meanwhile, a call that returns keeps the contract of io.Reader or io.Writer.
pub returned-Contract :
    {now : ℕ} {s : System}
    → Reach now s
    → (i : ℕ) {job : Job} {n : ℕ} {e : Option Failure} → s.pc i ≡ returned job n e
    → Contract job n e
returned-Contract r i q = subst Counted q (Reach-Counted r i)

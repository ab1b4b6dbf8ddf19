-- ===== src/Reconnect/Deadline.antt =====
-- How long a call waits for the board.
use espnetwork_serial.Prelude.{
  ℕ, ◌+◌, ◌≤◌, ◌<◌, Bool, true, false, Option, none, some, ◌≡◌, ◌≢◌, ◌⊎◌, inl, refl, subst, arith,
}
use espnetwork_serial.Reconnect.Defs.{
  Mem, Effect, Job, timed_out, failed, Pc, connect, waiting, locked, checking, trying, timing,
  dialing, sleeping, dial_timeout, has_dialed, discarding, unlocking, using, dropping, closing,
  returned, reconnect_grace, after_io, after_drop,
}
use espnetwork_serial.Reconnect.Moves.{
  Move, late, in_time, io_ok, close_done, System, update-all, Step, pick, tick,
}

-- The deadline that a call has set.
abbrev pub deadline_of : Pc → Option ℕ
deadline_of (connect job dl) = dl
deadline_of (waiting job d) = some d
deadline_of (locked job d) = some d
deadline_of (checking job d) = some d
deadline_of (trying job d) = some d
deadline_of (timing job d) = some d
deadline_of (dialing job d r t) = some d
deadline_of (sleeping job d until) = some d
deadline_of (has_dialed job d c) = some d
deadline_of (discarding job d c r) = some d
deadline_of (unlocking job d r) = some d
deadline_of (using job dl c) = dl
deadline_of (dropping job dl c n) = dl
deadline_of (closing job dl c n) = dl
deadline_of _ = none

-- Whether `reconnect` has given up on the time.
abbrev pub gave_up : Pc → Bool
gave_up (discarding job d c (failed timed_out)) = true
gave_up (unlocking job d (failed timed_out)) = true
gave_up _ = false

-- The call of a goroutine has returned.
abbrev pub is_returned : Pc → Bool
is_returned (returned job n e) = true
is_returned _ = false

-- What a step from `p` to `p'` at the time `now` does to the deadline of the call.
pub record Timed (now : ℕ) (p p' : Pc) : Type 0 where
  pub kept : (d : ℕ) → deadline_of p ≡ some d → (deadline_of p' ≡ some d) ⊎ (is_returned p' ≡ true)
  pub set : (d : ℕ) → deadline_of p ≡ none → deadline_of p' ≡ some d → d ≡ now + reconnect_grace
  pub dials :
      (job : Job) (d r t : ℕ)
      → p ≢ p'
      → p' ≡ dialing job d r t
      → (now < d) × (now + t ≤ d) × (t ≤ dial_timeout)
  pub gives_up : (d : ℕ) → gave_up p ≡ false → gave_up p' ≡ true → deadline_of p' ≡ some d → d ≤ now

Timed-refl : (now : ℕ) (p : Pc) → Timed now p p
Timed-refl now p = record {
  kept = λ d h. inl h;
  set = λ d h k. cc (h, k);
  dials = λ job d r t ne h. absurd (ne refl);
  gives_up = λ d h k. cc (h, k);
}

after_io-kept :
    (job : Job) (dl : Option ℕ) (n d : ℕ)
    → dl ≡ some d
    → (deadline_of (after_io job dl n) ≡ some d) ⊎ (is_returned (after_io job dl n) ≡ true)
after_io-kept job dl n d h = ground arith

after_drop-kept :
    (job : Job) (dl : Option ℕ) (n d : ℕ)
    → dl ≡ some d
    → (deadline_of (after_drop job dl n) ≡ some d) ⊎ (is_returned (after_drop job dl n) ≡ true)
after_drop-kept job dl n d h = ground arith

Move-kept :
    {m : Mem} {p p' : Pc} {e : Effect}
    → Move m p e p'
    → (d : ℕ) → deadline_of p ≡ some d
    → (deadline_of p' ≡ some d) ⊎ (is_returned p' ≡ true)
Move-kept (io_ok {job} {dl} n k) d h = after_io-kept job dl n d h
Move-kept (close_done {job} {dl} {c} {n}) d h = after_drop-kept job dl n d h
Move-kept mv d h = ground arith

after_io-deadline_of :
    (job : Job) (dl : Option ℕ) (n d : ℕ) → deadline_of (after_io job dl n) ≡ some d → dl ≡ some d
after_io-deadline_of job dl n d h = ground arith

after_drop-deadline_of :
    (job : Job) (dl : Option ℕ) (n d : ℕ) → deadline_of (after_drop job dl n) ≡ some d → dl ≡ some d
after_drop-deadline_of job dl n d h = ground arith

Move-set :
    {m : Mem} {p p' : Pc} {e : Effect}
    → Move m p e p'
    → (d : ℕ) → deadline_of p ≡ none
    → deadline_of p' ≡ some d
    → d ≡ m.now + reconnect_grace
Move-set (io_ok {job} {dl} n k) d h q = cc (h, after_io-deadline_of job dl n d q)
Move-set (close_done {job} {dl} {c} {n}) d h q = cc (h, after_drop-deadline_of job dl n d q)
Move-set mv d h q = ground arith

Move-dials :
    {m : Mem} {p p' : Pc} {e : Effect}
    → Move m p e p'
    → (job : Job) (d r t : ℕ) → p' ≡ dialing job d r t
    → (m.now < d) × (m.now + t ≤ d) × (t ≤ dial_timeout)
Move-dials (in_time k) job d r t q = ground (arith, k)
Move-dials mv job d r t q = absurd (ground arith)

Move-gives_up :
    {m : Mem} {p p' : Pc} {e : Effect}
    → Move m p e p'
    → (d : ℕ) → gave_up p ≡ false
    → gave_up p' ≡ true
    → deadline_of p' ≡ some d
    → d ≤ m.now
Move-gives_up (late k) d h g q = ground (arith, k)
Move-gives_up mv d h g q = ground arith

-- Within one call of `Read` or `Write`, the deadline is set once, when the connection is first found
-- missing, to `reconnectGrace` from then, and stays until the call returns, even if a new connection
-- works in the meantime. `reconnect` starts to dial only before the deadline, with a timeout that does
-- not go beyond it and is at most `dialTimeout`, and times out only when the deadline has passed.
pub Step-Timed : {s t : System} → Step s t → (i : ℕ) → Timed s.mem.now (s.pc i) (t.pc i)
Step-Timed {s} (pick j {e} {p} mv) i =
    update-all (Timed s.mem.now (s.pc i)) s.pc j p i
      (λ q.
        subst (λ k. Timed s.mem.now (s.pc k) p) q
          (record {
            kept = Move-kept mv;
            set = Move-set mv;
            dials = λ job d r t ne h. Move-dials mv job d r t h;
            gives_up = Move-gives_up mv;
          }))
      (λ n. Timed-refl s.mem.now (s.pc i))
Step-Timed {s} tick i = Timed-refl s.mem.now (s.pc i)

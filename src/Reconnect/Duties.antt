-- ===== src/Reconnect/Duties.antt =====
-- What a goroutine has in its hands, and what a step does to that.
use espnetwork_serial.Prelude.{
  ℕ, Bool, true, false, Option, none, some, ◌≡◌, ◌⊎◌, inl, inr, refl, arith,
}
use espnetwork_serial.Reconnect.Defs.{
  Mem, Effect, keep, take_lock, drop_lock, dial, forget, close_board, publish, shut_conn, Result,
  got, failed, Pc, locked, checking, trying, timing, dialing, sleeping, has_dialed, discarding,
  unlocking, using, dropping, closing, shutting,
}
use espnetwork_serial.Reconnect.Moves.{
  Move, lock, install, discard, unlock_got, unlock_failed, close_done, shut_done,
}

-- Between `Lock` and `Unlock` of `reconnectMu`.
abbrev pub inside : Pc → Bool
inside (locked job d) = true
inside (checking job d) = true
inside (trying job d) = true
inside (timing job d) = true
inside (dialing job d r t) = true
inside (sleeping job d until) = true
inside (has_dialed job d c) = true
inside (discarding job d c r) = true
inside (unlocking job d r) = true
inside _ = false

-- In `reconnect`, after its `current` found no connection and before it has one to return.
abbrev pub searching : Pc → Bool
searching (checking job d) = true
searching (trying job d) = true
searching (timing job d) = true
searching (dialing job d r t) = true
searching (sleeping job d until) = true
searching (has_dialed job d c) = true
searching _ = false

-- A connection that was dialed here and that no other goroutine has seen.
abbrev pub new_of : Pc → Option ℕ
new_of (has_dialed job d c) = some c
new_of (discarding job d c r) = some c
new_of _ = none

abbrev result_conn : Result → Option ℕ
result_conn (got c) = some c
result_conn (failed e) = none

-- A connection that was read from `conn`.
abbrev pub old_of : Pc → Option ℕ
old_of (discarding job d c r) = result_conn r
old_of (unlocking job d r) = result_conn r
old_of (using job dl c) = some c
old_of (dropping job dl c n) = some c
old_of (closing job dl c n) = some c
old_of (shutting c) = some c
old_of _ = none

-- A connection that was removed from `conn` and is still to be closed.
abbrev pub spent_of : Pc → Option ℕ
spent_of (closing job dl c n) = some c
spent_of (shutting c) = some c
spent_of _ = none

pub searching-inside : (p : Pc) → searching p ≡ true → inside p ≡ true
searching-inside p h = ground arith

pub new_of-inside : (p : Pc) (c : ℕ) → new_of p ≡ some c → inside p ≡ true
new_of-inside p c h = ground arith

pub spent_of-old_of : (p : Pc) (c : ℕ) → spent_of p ≡ some c → old_of p ≡ some c
spent_of-old_of p c h = ground arith

-- What a step needs for what it changes.
abbrev pub Permits : Mem → Pc → Effect → Type 0
Permits m p keep = Unit
Permits m p take_lock = m.lock ≡ none
Permits m p drop_lock = inside p ≡ true
Permits m p dial = Unit
Permits m p forget = Unit
Permits m p close_board = Unit
Permits m p (publish c) = (new_of p ≡ some c) × (searching p ≡ true) × (m.closed ≡ false)
Permits m p (shut_conn c) = (new_of p ≡ some c) ⊎ (spent_of p ≡ some c)

pub Move-Permits : {m : Mem} {p p' : Pc} {e : Effect} → Move m p e p' → Permits m p e
Move-Permits (lock h) = h
Move-Permits (install o n) = (refl, refl, o)
Move-Permits discard = inl refl
Move-Permits close_done = inr refl
Move-Permits shut_done = inr refl
Move-Permits unlock_got = refl
Move-Permits unlock_failed = refl
Move-Permits _ = tt

-- ===== src/Reconnect/Exclusive.antt =====
-- One goroutine at a time looks for a new connection, and what it finds is installed.
use espnetwork_serial.Prelude.{ℕ, Bool, true, false, none, ◌≡◌, refl, sym, subst, arith}
use espnetwork_serial.Reconnect.Defs.{
  Mem, Effect, keep, publish, Job, closed_error, got, failed, Pc, has_dialed, discarding, unlocking,
  using, dropping, closing,
}
use espnetwork_serial.Reconnect.Moves.{
  Move, found, found_again, too_late, install, existing, System, update-all, Step, pick, tick,
  Reach,
}
use espnetwork_serial.Reconnect.Duties.{inside, searching}
use espnetwork_serial.Reconnect.Reachable.{Reach-Steady}

-- Two goroutines are never inside `reconnectMu` together, so no two dial at the same time; and while
-- one is looking for a new connection, there is no current one.
pub reconnect-exclusive :
    {now : ℕ} {s : System}
    → Reach now s
    → (i j : ℕ) → inside (s.pc i) ≡ true
    → inside (s.pc j) ≡ true
    → (i ≡ j) × (searching (s.pc i) ≡ true → s.mem.conn ≡ none)
reconnect-exclusive r i j hi hj = (
  grind (arith, ((Reach-Steady r).oks i).held, ((Reach-Steady r).oks j).held),
  ((Reach-Steady r).oks i).alone,
)

-- What becomes of a connection that was just dialed.
pub data Installed (m : Mem) (d c : ℕ) (job : Job) : Effect → Pc → Type 0 where
  installed : m.closed ≡ false → Installed m d c job (publish c) (unlocking job d (got c))
  given_up : m.closed ≡ true → Installed m d c job keep (discarding job d c (failed closed_error))

-- A connection that was just dialed is installed and returned if the board is open, and discarded
-- with `net.ErrClosed` if it was closed meanwhile: the third way in the code, to discard it for a
-- connection that is already there, is never taken.
pub has_dialed-Installed :
    {now : ℕ} {s : System}
    → Reach now s
    → (i : ℕ) {job : Job} {d c : ℕ} {e : Effect} {p : Pc} → s.pc i ≡ has_dialed job d c
    → Move s.mem (s.pc i) e p
    → Installed s.mem d c job e p
has_dialed-Installed {s} r i {job} {d} {c} {e} {p} q mv =
    placed (subst (λ x. Move s.mem x e p) q mv)
  where
    empty : s.mem.conn ≡ none
    empty = ((Reach-Steady r).oks i).alone (rw q refl)

    placed :
        {e' : Effect} {p' : Pc}
        → Move s.mem (has_dialed job d c) e' p'
        → Installed s.mem d c job e' p'
    placed (too_late h) = given_up h
    placed (install h n) = installed h
    placed (existing h n) = absurd (ground (arith, empty))

-- Where a goroutine neither uses a connection nor has got one to use. It may have dialed one that
-- `reconnect` has not returned, or be about to close one.
abbrev pub apart_from_board : Pc → Bool
apart_from_board (discarding job d c (got c')) = false
apart_from_board (unlocking job d (got c)) = false
apart_from_board (using job dl c) = false
apart_from_board (dropping job dl c n) = false
apart_from_board (closing job dl c n) = false
apart_from_board _ = true

-- Steps one after the other.
pub data Steps (s : System) : System → Type 0 where
  no_more : Steps s s
  more : {t u : System} → Steps s t → Step t u → Steps s u

Move-apart :
    {m : Mem} {p p' : Pc} {e : Effect}
    → m.closed ≡ true
    → Move m p e p'
    → apart_from_board p ≡ true
    → apart_from_board p' ≡ true
Move-apart h (found g o k) q = absurd (ground arith)
Move-apart h (found_again o k) q = absurd (ground arith)
Move-apart h (install o k) q = absurd (ground arith)
Move-apart h (existing o k) q = absurd (ground arith)
Move-apart h mv q = ground arith

Step-closed : {s t : System} → Step s t → s.mem.closed ≡ true → t.mem.closed ≡ true
Step-closed (pick i {e} mv) h = ground arith
Step-closed tick h = h

Step-apart :
    {s t : System}
    → Step s t
    → s.mem.closed ≡ true
    → (i : ℕ) → apart_from_board (s.pc i) ≡ true
    → apart_from_board (t.pc i) ≡ true
Step-apart {s} (pick j {e} {p} mv) h i q =
    update-all (λ x. apart_from_board x ≡ true) s.pc j p i
      (λ k. Move-apart h mv (subst (λ x. apart_from_board (s.pc x) ≡ true) (sym k) q)) (λ other. q)
Step-apart tick h i q = q

-- `Close` is final: a goroutine that, when the board is closed, neither uses a connection nor has got
-- one to use from `current` or `reconnect`, never reads or writes on one again, whatever calls it makes
-- and however the goroutines run. What it may still dial it does not get to use.
pub closed-apart :
    {s t : System}
    → Steps s t
    → s.mem.closed ≡ true
    → (i : ℕ) → apart_from_board (s.pc i) ≡ true
    → (t.mem.closed ≡ true) × (apart_from_board (t.pc i) ≡ true)
closed-apart no_more h i q = (h, q)
closed-apart (more ss st) h i q =
    let (h', q') = closed-apart ss h i q in (Step-closed st h', Step-apart st h' i q')

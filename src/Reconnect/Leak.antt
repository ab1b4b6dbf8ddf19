-- ===== src/Reconnect/Leak.antt =====
-- No connection is lost: each that was dialed is closed, current, or in the hands of one goroutine.
use espnetwork_serial.Prelude.{
  ℕ, ◌<◌, true, none, some, ◌≡◌, ◌⊎◌, inl, inr, refl, sym, subst, arith, ap,
}
use native.Mathlib.Decide.{dec_lt, ℕ_discrete}
use espnetwork_serial.Reconnect.Defs.{Mem, Effect, apply, Pc}
use espnetwork_serial.Reconnect.Moves.{
  Move, dial_ok, too_late, install, existing, discard, drop_current, close_done, close_held,
  close_empty, shut_done, System, update, update-all, Step, pick, tick, Reach, start, later,
}
use espnetwork_serial.Reconnect.Duties.{new_of, spent_of}
use espnetwork_serial.Reconnect.Reachable.{Reach-Steady}

-- The goroutine that stands at `p` will close `c`, or publish it.
pub data Carries (p : Pc) (c : ℕ) : Type 0 where
  new : new_of p ≡ some c → Carries p c
  spent : spent_of p ≡ some c → Carries p c

-- Where a connection is.
pub data Placed (s : System) (c : ℕ) : Type 0 where
  shut : s.mem.shut c ≡ true → Placed s c
  current : s.mem.conn ≡ some c → Placed s c
  carried : (i : ℕ) → Carries (s.pc i) c → Placed s c

-- Where `c` is after a step to `p`.
data After (c : ℕ) (m : Mem) (p : Pc) : Type 0 where
  shut' : m.shut c ≡ true → After c m p
  current' : m.conn ≡ some c → After c m p
  carried' : Carries p c → After c m p

Move-shut : (m : Mem) (i c : ℕ) (e : Effect) → m.shut c ≡ true → (apply i e m).shut c ≡ true
Move-shut m i c e h = ground arith

module _ {m : Mem} (i : ℕ) (c : ℕ) where
  Move-current :
      {p p' : Pc} {e : Effect} → Move m p e p' → m.conn ≡ some c → After c (apply i e m) p'
  Move-current (install o n) h = absurd (ground arith)
  Move-current (drop_current q) h = carried' (spent (ground arith))
  Move-current (close_held o q) h = carried' (spent (ground arith))
  Move-current (close_empty o q) h = absurd (ground arith)
  Move-current mv h = current' (ground arith)

  Move-new : {p p' : Pc} {e : Effect} → Move m p e p' → new_of p ≡ some c → After c (apply i e m) p'
  Move-new (too_late o) h = carried' (new h)
  Move-new (existing o q) h = carried' (new h)
  Move-new (install o n) h = current' h
  Move-new discard h = shut' (ground arith)
  Move-new mv h = absurd (ground arith)

  Move-spent :
      {p p' : Pc} {e : Effect} → Move m p e p' → spent_of p ≡ some c → After c (apply i e m) p'
  Move-spent close_done h = shut' (ground arith)
  Move-spent shut_done h = shut' (ground arith)
  Move-spent mv h = absurd (ground arith)

  Move-dialed :
      {p p' : Pc} {e : Effect}
      → Move m p e p'
      → c < (apply i e m).dialed
      → (c < m.dialed) ⊎ Carries p' c
  Move-dialed dial_ok h = elim (dec_lt c m.dialed) [
    | yes q ↦ inl q
    | no q ↦ inr (new (ap some (omega arith)))
  ]
  Move-dialed mv h = inl (ground arith)

Move-Placed :
    (s : System) (i c : ℕ) {e : Effect} {p : Pc}
    → Move s.mem (s.pc i) e p
    → After c (apply i e s.mem) p
    → Placed (record { mem = apply i e s.mem; pc = update s.pc i p }) c
Move-Placed s i c mv (shut' h) = shut h
Move-Placed s i c mv (current' h) = current h
Move-Placed s i c {e} {p} mv (carried' h) =
    carried i (update-all (λ q. Carries q c) s.pc i p i (λ q. h) (λ other. absurd (other refl)))

Carries-After :
    {m : Mem} (i c : ℕ) {p p' : Pc} {e : Effect}
    → Move m p e p'
    → Carries p c
    → After c (apply i e m) p'
Carries-After i c mv (new h) = Move-new i c mv h
Carries-After i c mv (spent h) = Move-spent i c mv h

Step-Placed : {s t : System} (c : ℕ) → Step s t → Placed s c → Placed t c
Step-Placed {s} c (pick i {e} mv) (shut h) = shut (Move-shut s.mem i c e h)
Step-Placed {s} c (pick i mv) (current h) = Move-Placed s i c mv (Move-current i c mv h)
Step-Placed {s} c (pick i {e} {p} mv) (carried j h) = elim (ℕ_discrete i j) [
  | yes q ↦ Move-Placed s i c mv (Carries-After i c mv (subst (λ k. Carries (s.pc k) c) (sym q) h))
  | no other ↦ carried j (update-all (λ q. Carries q c) s.pc i p j (λ q. absurd (other q)) (λ n. h))
]
Step-Placed c tick (shut h) = shut h
Step-Placed c tick (current h) = current h
Step-Placed c tick (carried j h) = carried j h

Step-dialed : {s t : System} (c : ℕ) → Step s t → c < t.mem.dialed → (c < s.mem.dialed) ⊎ Placed t c
Step-dialed {s} c (pick i mv) h = elim (Move-dialed i c mv h) [
  | inl q ↦ inl q
  | inr q ↦ inr (Move-Placed s i c mv (carried' q))
]
Step-dialed c tick h = inl h

-- In whatever order the goroutines run: each connection that was dialed is closed, or is the current
-- one, or some goroutine is about to publish it or to close it.
pub no_leak : {now : ℕ} {s : System} → Reach now s → (c : ℕ) → c < s.mem.dialed → Placed s c
no_leak start c h = current (ap some (omega arith))
no_leak (later r st) c h = elim (Step-dialed c st h) [
  | inl q ↦ Step-Placed c st (no_leak r c q)
  | inr q ↦ q
]

-- Once `Close` was called on the board and no goroutine is about to publish or to close a connection,
-- every connection that was dialed is closed.
pub closed-AllShut :
    {now : ℕ} {s : System}
    → Reach now s
    → s.mem.closed ≡ true
    → ((i : ℕ) → (new_of (s.pc i) ≡ none) × (spent_of (s.pc i) ≡ none))
    → (c : ℕ) → c < s.mem.dialed
    → s.mem.shut c ≡ true
closed-AllShut {s} r h quiet c lt = elim (no_leak r c lt) [
  | shut q ↦ q
  | current q ↦ absurd (grind (arith, (Reach-Steady r).sound.current c))
  | carried i (new q) ↦ absurd (grind (arith, quiet i))
  | carried i (spent q) ↦ absurd (grind (arith, quiet i))
]

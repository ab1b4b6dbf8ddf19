-- ===== src/Reconnect/Reachable.antt =====
-- Each step keeps what the goroutines rely on, so it holds in every reachable state.
use espnetwork_serial.Prelude.{
  ℕ, ◌<◌, true, false, none, some, ◌≡◌, ◌≢◌, inl, inr, refl, subst, arith, Option-cases,
}
use espnetwork_serial.Reconnect.Defs.{Mem, Effect, apply, Pc, idle}
use espnetwork_serial.Reconnect.Moves.{
  Move, found, lock, found_again, gone_closed, gone, dial_ok, install, existing, drop_other,
  close_held, System, update-all, Step, pick, tick, Reach, start, later,
}
use espnetwork_serial.Reconnect.Duties.{inside, searching, new_of, old_of, spent_of, Move-Permits}
use espnetwork_serial.Reconnect.Invariant.{Sound, Ok, Permits-Sound, Permits-Ok}

-- After its own step a goroutine may rely on what it needs where it then stands.
module _ {m : Mem} (sound : Sound m) {i : ℕ} where
  Move-held :
      {p p' : Pc} {e : Effect}
      → Ok m i p
      → Move m p e p'
      → inside p' ≡ true
      → (apply i e m).lock ≡ some i
  Move-held ok (lock h) k = refl
  Move-held ok mv k = ground (arith, ok.held)

  Move-alone :
      {p p' : Pc} {e : Effect}
      → Ok m i p
      → Move m p e p'
      → searching p' ≡ true
      → (apply i e m).conn ≡ none
  Move-alone ok (gone h) k = h
  Move-alone ok (gone_closed h) k = elim (Option-cases m.conn) [
    | inl q ↦ q
    | inr (c, q) ↦ absurd (grind (arith, sound.current c))
  ]
  Move-alone ok mv k = ground (arith, ok.alone)

  Move-fresh :
      {p p' : Pc} {e : Effect}
      → Ok m i p
      → Move m p e p'
      → (x : ℕ) → new_of p' ≡ some x
      → ((apply i e m).published x ≡ false)
        × ((apply i e m).shut x ≡ false)
        × (x < (apply i e m).dialed)
  Move-fresh ok dial_ok x k = grind (arith, sound.known x, sound.dead x)
  Move-fresh ok mv x k = ground (arith, ok.fresh x)

  Move-old :
      {p p' : Pc} {e : Effect}
      → Ok m i p
      → Move m p e p'
      → (x : ℕ) → old_of p' ≡ some x
      → (apply i e m).published x ≡ true
  Move-old ok (found g o h) x k = ground (arith, sound.current x)
  Move-old ok (found_again o h) x k = ground (arith, sound.current x)
  Move-old ok (existing o h) x k = ground (arith, sound.current x)
  Move-old ok (install o h) x k = ground (arith, ok.fresh x)
  Move-old ok (close_held o h) x k = ground (arith, sound.current x)
  Move-old ok mv x k = ground (arith, ok.old x)

  Move-spent :
      {p p' : Pc} {e : Effect}
      → Ok m i p
      → Move m p e p'
      → (x : ℕ) → spent_of p' ≡ some x
      → (apply i e m).conn ≢ some x
  Move-spent ok (drop_other h) x k = ground arith
  Move-spent ok mv x k = ground (arith, ok.spent x)

pub Move-Ok :
    {m : Mem} {i : ℕ} {p p' : Pc} {e : Effect}
    → Sound m
    → Ok m i p
    → Move m p e p'
    → Ok (apply i e m) i p'
Move-Ok sound ok mv = record {
  held = Move-held sound ok mv;
  alone = Move-alone sound ok mv;
  fresh = Move-fresh sound ok mv;
  old = Move-old sound ok mv;
  spent = Move-spent sound ok mv;
}

-- The invariant of the system.
pub record Steady (s : System) : Type 0 where
  pub sound : Sound s.mem
  pub oks : (j : ℕ) → Ok s.mem j (s.pc j)

idle-Ok : (m : Mem) (i : ℕ) → Ok m i idle
idle-Ok m i = record {
  held = λ k. cc;
  alone = λ k. cc;
  fresh = λ c k. absurd (ground arith);
  old = λ c k. cc;
  spent = λ c k. absurd (ground arith);
}

Step-Steady : {s t : System} → Step s t → Steady s → Steady t
Step-Steady {s} (pick i {e} {p} mv) ok = record {
  sound = Permits-Sound ok.sound i (ok.oks i) e (Move-Permits mv);
  oks = λ j.
      update-all (λ q. Ok (apply i e s.mem) j q) s.pc i p j
        (λ q. subst (λ k. Ok (apply i e s.mem) k p) q (Move-Ok ok.sound (ok.oks i) mv))
        (λ other. Permits-Ok ok.sound i (ok.oks i) j other (ok.oks j) e (Move-Permits mv));
}
Step-Steady tick ok = record {
  sound = record { current = ok.sound.current; known = ok.sound.known; dead = ok.sound.dead };
  oks = λ j. record {
    held = (ok.oks j).held;
    alone = (ok.oks j).alone;
    fresh = (ok.oks j).fresh;
    old = (ok.oks j).old;
    spent = (ok.oks j).spent;
  };
}

pub Reach-Steady : {now : ℕ} {s : System} → Reach now s → Steady s
Reach-Steady {now} start = record {
  sound = record { current = λ c q. ground arith; known = λ c q. ground arith; dead = λ c q. cc };
  oks = λ j. idle-Ok _ j;
}
Reach-Steady (later r st) = Step-Steady st (Reach-Steady r)

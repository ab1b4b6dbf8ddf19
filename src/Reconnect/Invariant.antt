-- ===== src/Reconnect/Invariant.antt =====
-- What holds of the connections in every reachable state, whoever runs when.
use espnetwork_serial.Prelude.{ℕ, ◌<◌, true, false, none, some, ◌≡◌, ◌≢◌, arith}
use espnetwork_serial.Reconnect.Defs.{
  Mem, Effect, take_lock, drop_lock, dial, publish, shut_conn, apply, Pc,
}
use espnetwork_serial.Reconnect.Duties.{
  inside, searching, new_of, old_of, spent_of, searching-inside, new_of-inside, spent_of-old_of,
  Permits,
}

-- What `conn` and the connections satisfy.
pub record Sound (m : Mem) : Type 0 where
  pub current :
      (c : ℕ) → m.conn ≡ some c → (m.closed ≡ false) × (m.published c ≡ true) × (m.shut c ≡ false)
  pub known : (c : ℕ) → m.published c ≡ true → c < m.dialed
  pub dead : (c : ℕ) → m.shut c ≡ true → c < m.dialed

-- What goroutine `i` may rely on where it stands.
pub record Ok (m : Mem) (i : ℕ) (p : Pc) : Type 0 where
  pub held : inside p ≡ true → m.lock ≡ some i
  pub alone : searching p ≡ true → m.conn ≡ none
  pub fresh :
      (c : ℕ) → new_of p ≡ some c → (m.published c ≡ false) × (m.shut c ≡ false) × (c < m.dialed)
  pub old : (c : ℕ) → old_of p ≡ some c → m.published c ≡ true
  pub spent : (c : ℕ) → spent_of p ≡ some c → m.conn ≢ some c

module _ {m : Mem} (sound : Sound m) (i : ℕ) {p : Pc} (mine : Ok m i p) where
  open sound use {current, known, dead}

  pub Permits-Sound : (e : Effect) → Permits m p e → Sound (apply i e m)
  Permits-Sound (publish c) (new, lone, open_) = record {
    current = λ x q. grind (arith, current x, mine.fresh c);
    known = λ x q. grind (arith, known x, mine.fresh c);
    dead = dead;
  }
  Permits-Sound (shut_conn c) h = record {
    current = λ x q. grind (arith, current x, mine.fresh c, mine.spent c);
    known = known;
    dead = λ x q. grind (arith, dead x, known c, mine.fresh c, mine.old c, spent_of-old_of p c);
  }
  Permits-Sound e h = record {
    current = λ x q. ground (arith, current x);
    known = λ x q. ground (arith, known x);
    dead = λ x q. ground (arith, dead x);
  }

  -- A step of goroutine `i` leaves alone what another one relies on.
  module _ (j : ℕ) (other : i ≢ j) {q : Pc} (theirs : Ok m j q) where
    apart : inside p ≡ true → inside q ≡ true → ⊥
    apart h k = grind (arith, mine.held, theirs.held)

    pub Permits-Ok : (e : Effect) → Permits m p e → Ok (apply i e m) j q
    Permits-Ok take_lock h = record {
      held = λ k. grind (arith, theirs.held);
      alone = theirs.alone;
      fresh = theirs.fresh;
      old = theirs.old;
      spent = theirs.spent;
    }
    Permits-Ok drop_lock h = record {
      held = λ k. absurd (apart h k);
      alone = theirs.alone;
      fresh = theirs.fresh;
      old = theirs.old;
      spent = theirs.spent;
    }
    Permits-Ok (publish c) (new, lone, o) = record {
      held = theirs.held;
      alone = λ k. absurd (apart (searching-inside p lone) (searching-inside q k));
      fresh = λ x k. absurd (apart (searching-inside p lone) (new_of-inside q x k));
      old = λ x k. ground (arith, theirs.old x);
      spent = λ x k. grind (arith, theirs.old x, mine.fresh c, spent_of-old_of q x);
    }
    Permits-Ok (shut_conn c) h = record {
      held = theirs.held;
      alone = theirs.alone;
      fresh = λ x k. grind (
        arith,
        apart,
        theirs.fresh x,
        mine.old c,
        new_of-inside p c,
        new_of-inside q x,
        spent_of-old_of p c,
      );
      old = theirs.old;
      spent = theirs.spent;
    }
    Permits-Ok dial h = record {
      held = theirs.held;
      alone = theirs.alone;
      fresh = λ x k. ground (arith, theirs.fresh x);
      old = theirs.old;
      spent = theirs.spent;
    }
    Permits-Ok e h = record {
      held = λ k. ground (arith, theirs.held);
      alone = λ k. ground (arith, theirs.alone);
      fresh = λ x k. ground (arith, theirs.fresh x);
      old = λ x k. ground (arith, theirs.old x);
      spent = λ x k. ground (arith, theirs.spent x);
    }

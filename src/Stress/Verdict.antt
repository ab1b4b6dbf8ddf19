-- ===== src/Stress/Verdict.antt =====
-- The loop over the cycles ends with a verdict that is right.
use espnetwork_serial.Prelude.{
  ℕ, zero, suc, ◌+◌, ◌-◌, min, ◌*◌, Bool, true, false, not, List, [], ◌∷◌, ◌≡◌, ◌⊎◌, inl, inr, refl,
  arith, ap, subst, ◌∙◌, if◌then◌else◌,
}
use espnetwork_serial.Prelude.Int.{natural}
use espnetwork_serial.Prelude.Bytes.{Bytes, same, same_iff}
use espnetwork_serial.Stress.Defs.{
  StressOptions, fill_stress_payload, Echo, Dial, refused, accepted, Break, connect_failed,
  StressError, bad_bytes, bad_cycles, bad_timeout, bad_pause, bad_recover_timeout, wrong_address,
  broken, no_recovery, mismatch, close_failed, Transfer, received, interrupted, transfer, Phase,
  connecting, recovering, Turn, again, cycle_done, stop, after_break, after_transfer, turn,
  StressOutcome, passed, failed, running, run_cycles, out_of_dials,
}
use espnetwork_serial.Stress.Claims.{
  Echoes, echoes, no_more, skip, heard, garbles, here, there, close_fails, Breaks, no_connection,
  breaks, Silent, over, refusal, Lost, lost, later, Waits, Blames, Verdict,
}

-- A wait that goes on from `phase'` behind `d` makes one that goes on from `phase`, or a loss.
abbrev Passes : StressOptions → Phase → Dial → Phase → Type 0
Passes o phase d phase' =
    (dials : List Dial) → Waits phase' dials → Waits phase (d ∷ dials) ⊎ Lost o (d ∷ dials)

-- What one dial shows.
abbrev Shows : StressOptions → ℕ → Phase → Dial → Turn → Type 0
Shows o cycle phase d (again phase') = (o.recover ≡ true) × Passes o phase d phase'
Shows o cycle phase d cycle_done = Echoes o cycle d
Shows o cycle phase d (stop e) = (dials : List Dial) → Blames o phase (d ∷ dials) e

abbrev Allowed : StressOptions → Phase → Type 0
Allowed o connecting = Unit
Allowed o (recovering n) = o.recover ≡ true

pub if-all {ℓ} :
    {A : Type ℓ} (P : A → Type 0) (b : Bool) {x y : A}
    → (b ≡ true → P x)
    → (b ≡ false → P y)
    → P (if b then x else y)
if-all P true h k = h refl
if-all P false h k = k refl

after_break-Shows :
    (o : StressOptions) (cycle : ℕ) (phase : Phase) (d : Dial) (b : Break)
    → Breaks o b d
    → Shows o cycle phase d (after_break o cycle b)
unfolding after_break
after_break-Shows o cycle phase d b k =
    if-all (Shows o cycle phase d) (not o.recover) (λ q dials. (ground arith, here k))
      (λ q. (ground arith, λ dials w. inr (lost k w)))

after_transfer-Shows :
    (o : StressOptions) (cycle : ℕ) (phase : Phase) (e : Echo) (t : Transfer)
    → transfer (natural o.payload_bytes) e ≡ t
    → Shows o cycle phase (accepted e) (after_transfer o cycle e t)
unfolding after_transfer
after_transfer-Shows o cycle phase e (interrupted b) q =
    after_break-Shows o cycle phase (accepted e) b (breaks e q)
after_transfer-Shows o cycle phase e (received bytes) q =
    if-all (Shows o cycle phase (accepted e)) (not (same bytes pattern))
      (λ f dials. here (garbles e bytes q (λ k. grind (arith, same_iff bytes pattern))))
      (λ f.
        if-all (Shows o cycle phase (accepted e)) e.close_fails
          (λ g dials. here (close_fails e (whole f) g)) (λ g. echoes e (whole f) g))
  where
    pattern : Bytes
    pattern = fill_stress_payload (natural o.payload_bytes) cycle

    whole :
        not (same bytes pattern) ≡ false → transfer (natural o.payload_bytes) e ≡ received pattern
    whole f = q ∙ ap received (grind (arith, same_iff bytes pattern))

refused-Passes :
    (o : StressOptions) (n took : ℕ)
    → Passes o (recovering n) (refused took) (recovering (n - took - min 250 n))
refused-Passes o n took dials w =
    let same_wait : n - took - min 250 n ≡ n - (took + 250) = omega arith in
    inl (refusal (subst (λ k. Silent k dials) same_wait w))

turn-Shows :
    (o : StressOptions) (cycle : ℕ) (phase : Phase) (d : Dial)
    → Allowed o phase
    → Shows o cycle phase d (turn o cycle phase d)
unfolding turn
turn-Shows o cycle connecting (refused took) h =
    after_break-Shows o cycle connecting (refused took) connect_failed no_connection
turn-Shows o cycle connecting (accepted e) h = after_transfer-Shows o cycle connecting e _ refl
turn-Shows o cycle (recovering zero) d h = λ dials. (h, inl over)
turn-Shows o cycle (recovering (suc n)) (refused took) h = (h, refused-Passes o (suc n) took)
turn-Shows o cycle (recovering (suc n)) (accepted e) h =
    after_transfer-Shows o cycle (recovering (suc n)) e _ refl

Blames-behind :
    (o : StressOptions) (phase phase' : Phase) (d : Dial) (dials : List Dial) (e : StressError)
    → Passes o phase d phase'
    → Blames o phase' dials e
    → Blames o phase (d ∷ dials) e
Blames-behind o phase phase' d dials (mismatch cycle) f h = there h
Blames-behind o phase phase' d dials (close_failed cycle) f h = there h
Blames-behind o phase phase' d dials (broken cycle b) f (r, h) = (r, there h)
Blames-behind o phase phase' d dials (no_recovery cycle) f (r, inl w) = (r, f dials w)
Blames-behind o phase phase' d dials (no_recovery cycle) f (r, inr l) = (r, inr (later l))
Blames-behind o phase phase' d dials bad_bytes f h = elim h [ ]
Blames-behind o phase phase' d dials bad_cycles f h = elim h [ ]
Blames-behind o phase phase' d dials bad_timeout f h = elim h [ ]
Blames-behind o phase phase' d dials bad_pause f h = elim h [ ]
Blames-behind o phase phase' d dials bad_recover_timeout f h = elim h [ ]
Blames-behind o phase phase' d dials wrong_address f h = elim h [ ]

Verdict-again :
    (o : StressOptions) (cycle left total : ℕ) (phase phase' : Phase) (d : Dial) (dials : List Dial)
    (r : StressOutcome)
    → (o.recover ≡ true) × Passes o phase d phase'
    → Verdict o cycle left total phase' dials r
    → Verdict o cycle left total phase (d ∷ dials) r
Verdict-again o cycle left total phase phase' d dials (passed t) q (h, k) = (h, skip k)
Verdict-again o cycle left total phase phase' d dials (failed e) (q, f) h =
    Blames-behind o phase phase' d dials e f h
Verdict-again o cycle left total phase phase' d dials running (q, f) h = inl q

Verdict-next :
    (o : StressOptions) (cycle left total : ℕ) (phase : Phase) (d : Dial) (dials : List Dial)
    (r : StressOutcome)
    → Echoes o cycle d
    → Verdict o (cycle + 1) left (total + (natural o.payload_bytes) * 2) connecting dials r
    → Verdict o cycle (suc left) total phase (d ∷ dials) r
Verdict-next o cycle left total phase d dials (passed t) q (h, k) = (omega arith, heard q k)
Verdict-next o cycle left total phase d dials (failed e) q h =
    Blames-behind o phase connecting d dials e (λ ds w. elim w [ ]) h
Verdict-next o cycle left total phase d dials running q (inl h) = inl h
Verdict-next o cycle left total phase d dials running q (inr h) = inr (omega arith)

out_of_dials-Verdict :
    (o : StressOptions) (cycle left total : ℕ) (phase : Phase)
    → Allowed o phase
    → Verdict o cycle left total phase [] (out_of_dials cycle phase)
out_of_dials-Verdict o cycle left total connecting h = inr (omega arith)
out_of_dials-Verdict o cycle left total (recovering zero) h = (h, inl over)
out_of_dials-Verdict o cycle left total (recovering (suc n)) h = inl h

Turn-cases :
    (t : Turn)
    → ((phase : Phase) × (t ≡ again phase)) ⊎ (t ≡ cycle_done) ⊎ ((e : StressError) × (t ≡ stop e))
Turn-cases (again phase) = inl (phase, refl)
Turn-cases cycle_done = inr (inl refl)
Turn-cases (stop e) = inr (inr (e, refl))

again-Allowed : (o : StressOptions) (phase : Phase) → o.recover ≡ true → Allowed o phase
again-Allowed o connecting q = tt
again-Allowed o (recovering n) q = q

pub run_cycles-Verdict :
    (o : StressOptions) (cycle left : ℕ) (phase : Phase) (total : ℕ) (dials : List Dial)
    → Allowed o phase
    → Verdict o cycle left total phase dials (run_cycles o cycle left phase total dials)
unfolding run_cycles
run_cycles-Verdict o cycle left phase total [] h = out_of_dials-Verdict o cycle left total phase h
run_cycles-Verdict o cycle left phase total (d ∷ dials) h =
    elim (Turn-cases (turn o cycle phase d)) [
      | inl (phase', q) ↦
          rw (run_cycles, q)
            (Verdict-again o cycle left total phase phase' d dials _
              (subst (Shows o cycle phase d) q shown)
              (run_cycles-Verdict o cycle left phase' total dials
                (again-Allowed o phase' (subst (Shows o cycle phase d) q shown).0)))
      | inr (inl q) ↦
          rw (run_cycles, q)
            (elim left
              as (λ k. Verdict o cycle k total phase (d ∷ dials) (elim k as (λ x. StressOutcome) [
                | zero ↦ passed (total + (natural o.payload_bytes) * 2)
                | suc n ↦
                    run_cycles o (cycle + 1) n connecting (total + (natural o.payload_bytes) * 2)
                      dials
              ])) [
                | zero ↦ (omega arith, heard (subst (Shows o cycle phase d) q shown) no_more)
                | suc n ↦
                    Verdict-next o cycle n total phase d dials _
                      (subst (Shows o cycle phase d) q shown)
                      (run_cycles-Verdict o (cycle + 1) n connecting
                        (total + (natural o.payload_bytes) * 2) dials tt)
              ])
      | inr (inr (e, q)) ↦ rw (run_cycles, q) ((subst (Shows o cycle phase d) q shown) dials)
    ]
  where
    shown : Shows o cycle phase d (turn o cycle phase d)
    shown = turn-Shows o cycle phase d h

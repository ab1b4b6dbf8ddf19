-- ===== src/Stress/Claims.antt =====
-- What the test can have seen of the board.
use espnetwork_serial.Prelude.{
  ℕ, suc, ◌+◌, ◌-◌, ◌*◌, ◌≤◌, true, false, List, ◌∷◌, ◌≡◌, ◌≢◌, ◌⊎◌, length,
}
use espnetwork_serial.Prelude.Int.{natural}
use espnetwork_serial.Prelude.Bytes.{Bytes}
use espnetwork_serial.Stress.Defs.{
  StressOptions, Break, connect_failed, interrupted, Phase, connecting, recovering,
  fill_stress_payload, Echo, Dial, refused, accepted, StressError, broken, no_recovery, mismatch,
  close_failed, received, transfer, StressOutcome, passed, failed, running,
}

-- The whole pattern of the cycle came back, and the connection was closed with no error.
pub data Echoes (o : StressOptions) (cycle : ℕ) : Dial → Type 0 where
  echoes :
      (e : Echo)
      → transfer (natural o.payload_bytes) e
        ≡ received (fill_stress_payload (natural o.payload_bytes) cycle)
      → e.close_fails ≡ false
      → Echoes o cycle (accepted e)

-- Of the dials, one after the other, one in each of `n` cycles from `cycle` on echoes the pattern.
pub data AllEchoed (o : StressOptions) : (cycle n : ℕ) → List Dial → Type 0 where
  no_more : {cycle : ℕ} {dials : List Dial} → AllEchoed o cycle 0 dials
  skip :
      {cycle n : ℕ} {d : Dial} {dials : List Dial}
      → AllEchoed o cycle n dials
      → AllEchoed o cycle n (d ∷ dials)
  heard :
      {cycle n : ℕ} {d : Dial} {dials : List Dial}
      → Echoes o cycle d
      → AllEchoed o (cycle + 1) n dials
      → AllEchoed o cycle (suc n) (d ∷ dials)

-- The dial brought a connection that gave as many bytes as were sent, and others.
pub data Garbles (o : StressOptions) (cycle : ℕ) : Dial → Type 0 where
  garbles :
      (e : Echo) (bytes : Bytes)
      → transfer (natural o.payload_bytes) e ≡ received bytes
      → bytes ≢ fill_stress_payload (natural o.payload_bytes) cycle
      → Garbles o cycle (accepted e)

pub data Some (P : Dial → Type 0) : List Dial → Type 0 where
  here : {d : Dial} {dials : List Dial} → P d → Some P (d ∷ dials)
  there : {d : Dial} {dials : List Dial} → Some P dials → Some P (d ∷ dials)

-- The whole pattern came back, but the connection was closed with an error.
pub data CloseFails (o : StressOptions) (cycle : ℕ) : Dial → Type 0 where
  close_fails :
      (e : Echo)
      → transfer (natural o.payload_bytes) e
        ≡ received (fill_stress_payload (natural o.payload_bytes) cycle)
      → e.close_fails ≡ true
      → CloseFails o cycle (accepted e)

-- The dial brought no connection, or one on which the transfer broke in this way.
pub data Breaks (o : StressOptions) : Break → Dial → Type 0 where
  no_connection : {took : ℕ} → Breaks o connect_failed (refused took)
  breaks :
      {b : Break} (e : Echo)
      → transfer (natural o.payload_bytes) e ≡ interrupted b
      → Breaks o b (accepted e)

-- Nothing but refusals for `n` milliseconds, with a pause of 250 behind each.
pub data Silent : ℕ → List Dial → Type 0 where
  over : {dials : List Dial} → Silent 0 dials
  refusal :
      {n took : ℕ} {dials : List Dial}
      → Silent (n - (took + 250)) dials
      → Silent n (refused took ∷ dials)

-- Behind a break the board was silent for as long as the test waits.
pub data Lost (o : StressOptions) : List Dial → Type 0 where
  lost :
      {b : Break} {d : Dial} {dials : List Dial}
      → Breaks o b d
      → Silent (natural o.recover_timeout) dials
      → Lost o (d ∷ dials)
  later : {d : Dial} {dials : List Dial} → Lost o dials → Lost o (d ∷ dials)

-- The wait that is under way ends with no connection.
abbrev pub Waits : Phase → List Dial → Type 0
Waits connecting dials = ⊥
Waits (recovering n) dials = Silent n dials

-- What an error of a cycle says.
abbrev pub Blames : StressOptions → Phase → List Dial → StressError → Type 0
Blames o phase dials (broken cycle b) = (o.recover ≡ false) × Some (Breaks o b) dials
Blames o phase dials (no_recovery cycle) = (o.recover ≡ true) × (Waits phase dials ⊎ Lost o dials)
Blames o phase dials (mismatch cycle) = Some (Garbles o cycle) dials
Blames o phase dials (close_failed cycle) = Some (CloseFails o cycle) dials
Blames o phase dials _ = ⊥

-- The end of the test, from `cycle` on with `left` more cycles behind it.
abbrev pub Verdict :
    StressOptions → (cycle left total : ℕ) → Phase → List Dial → StressOutcome → Type 0
Verdict o cycle left total phase dials (passed t) =
    (t ≡ total + suc left * ((natural o.payload_bytes) * 2)) × AllEchoed o cycle (suc left) dials
Verdict o cycle left total phase dials (failed e) = Blames o phase dials e
Verdict o cycle left total phase dials running = (o.recover ≡ true) ⊎ (length dials ≤ left)

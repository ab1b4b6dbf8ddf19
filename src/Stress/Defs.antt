-- ===== src/Stress/Defs.antt =====
-- `stressModeWithOptions`, `waitForStressRecovery` and `fillStressPayload`.
use Prim.Native.Nat.{bit_xor}
use espnetwork_serial.Prelude.{
  ℕ, zero, suc, ◌+◌, ◌-◌, ◌*◌, ◌/◌, ◌%◌, ◌^◌, min, Bool, not, ◌&&◌, List, [], ◌∷◌, ◌++◌, ◌==◌,
  if◌then◌else◌, length, take,
}
use espnetwork_serial.Prelude.Int.{ℤ, is_positive, is_negative, natural}
use espnetwork_serial.Prelude.Bytes.{Bytes, same}
use espnetwork_serial.App.Address.{Texts, address, bad_address, normalize_board_address}

-- Durations are in milliseconds. The pause between two cycles only sleeps: it is no more than tested.
pub record StressOptions : Type 0 where
  pub payload_bytes : ℤ
  pub cycles : ℤ
  pub cycle_timeout : ℤ
  pub cycle_pause : ℤ
  pub recover : Bool
  pub recover_timeout : ℤ

-- One round of the generator, on 32 bits.
unfoldable pub next_state : ℕ → ℕ
next_state s =
    let a = bit_xor s (s * 2 ^ 13 % 2 ^ 32) in
    let b = bit_xor a (a / 2 ^ 17) in bit_xor b (b * 2 ^ 5 % 2 ^ 32)

unfoldable pub fill_loop : ℕ → ℕ → Bytes
fill_loop zero state = []
fill_loop (suc n) state = next_state state % 256 ∷ fill_loop n (next_state state)

-- The pattern of a cycle, `n` bytes of it.
unfoldable pub fill_stress_payload : ℕ → ℕ → Bytes
fill_stress_payload n cycle = fill_loop n (bit_xor 0x9e3779b9 (cycle * 0x45d9f3b % 2 ^ 64 % 2 ^ 32))

-- What a connection does during one cycle: the bytes that each `Read` gives, and whether an error
-- comes with them; whether `Write` fails; whether `Close` fails.
pub record Echo : Type 0 where
  pub reads : List (Bytes × Bool)
  pub write_fails : Bool
  pub close_fails : Bool

-- What a call of `dialESPNS` brings; a refusal takes its time.
pub data Dial : Type 0 where
  refused : (took : ℕ) → Dial
  accepted : Echo → Dial

pub data Break : Type 0 where
  connect_failed read_failed no_progress write_failed : Break

pub data StressError : Type 0 where
  bad_bytes bad_cycles bad_timeout bad_pause bad_recover_timeout wrong_address : StressError
  broken : (cycle : ℕ) → Break → StressError
  no_recovery mismatch close_failed : (cycle : ℕ) → StressError

-- What was received, or why the transfer ended.
pub data Transfer : Type 0 where
  received : Bytes → Transfer
  interrupted : Break → Transfer

-- The loop over `Read`, with `want` bytes to come behind `got`. A connection that has nothing left
-- gives no byte; a `Read` gives no more than there is room for.
unfoldable pub receive_echo : ℕ → Bytes → List (Bytes × Bool) → Transfer
receive_echo zero got reads = received got
receive_echo (suc want) got [] = interrupted no_progress
receive_echo (suc want) got ((bytes, fails) ∷ reads) =
    let chunk = take (suc want) bytes in
    let rest = receive_echo (suc want - length chunk) (got ++ chunk) reads in
    if fails
    then interrupted read_failed
    else if length chunk == 0
    then interrupted no_progress
    else rest

abbrev with_write : Bool → Transfer → Transfer
with_write fails (received bytes) = if fails then interrupted write_failed else received bytes
with_write fails (interrupted b) = interrupted b

-- The transfer of one cycle, over `n` bytes.
unfoldable pub transfer : ℕ → Echo → Transfer
transfer n e = with_write e.write_fails (receive_echo n [] e.reads)

-- Before the dial of a cycle, or in `waitForStressRecovery` with so much time left.
pub data Phase : Type 0 where
  connecting : Phase
  recovering : (remaining : ℕ) → Phase

pub data Turn : Type 0 where
  again : Phase → Turn
  cycle_done : Turn
  stop : StressError → Turn

unfoldable pub after_break : StressOptions → ℕ → Break → Turn
after_break o cycle b =
    if not o.recover then stop (broken cycle b) else again (recovering (natural o.recover_timeout))

unfoldable pub after_transfer : StressOptions → ℕ → Echo → Transfer → Turn
after_transfer o cycle e (interrupted b) = after_break o cycle b
after_transfer o cycle e (received bytes) =
    if not (same bytes (fill_stress_payload (natural o.payload_bytes) cycle))
    then stop (mismatch cycle)
    else if e.close_fails
    then stop (close_failed cycle)
    else cycle_done

-- What one dial leads to.
unfoldable pub turn : StressOptions → ℕ → Phase → Dial → Turn
turn o cycle connecting (refused took) = after_break o cycle connect_failed
turn o cycle connecting (accepted e) =
    after_transfer o cycle e (transfer (natural o.payload_bytes) e)
turn o cycle (recovering zero) d = stop (no_recovery cycle)
turn o cycle (recovering (suc n)) (refused took) =
    again (recovering (suc n - took - min 250 (suc n)))
turn o cycle (recovering (suc n)) (accepted e) =
    after_transfer o cycle e (transfer (natural o.payload_bytes) e)

-- How the test ends: PASS with the number of bytes, an error, or not before the next dial answers.
pub data StressOutcome : Type 0 where
  passed : (total : ℕ) → StressOutcome
  failed : StressError → StressOutcome
  running : StressOutcome

abbrev pub out_of_dials : ℕ → Phase → StressOutcome
out_of_dials cycle connecting = running
out_of_dials cycle (recovering zero) = failed (no_recovery cycle)
out_of_dials cycle (recovering (suc n)) = running

-- From `cycle` on, with `left` more cycles behind it; `total` bytes have been counted.
unfoldable pub run_cycles : StressOptions → ℕ → ℕ → Phase → ℕ → List Dial → StressOutcome
run_cycles o cycle left phase total [] = out_of_dials cycle phase
run_cycles o cycle left phase total (d ∷ dials) = elim (turn o cycle phase d) [
  | again phase' ↦ run_cycles o cycle left phase' total dials
  | stop e ↦ failed e
  | cycle_done ↦ elim left [
    | zero ↦ passed (total + (natural o.payload_bytes) * 2)
    | suc left' ↦
        run_cycles o (cycle + 1) left' connecting (total + (natural o.payload_bytes) * 2) dials
  ]
]

-- All cycles, for a number of cycles that is not 0.
abbrev pub first_cycle : StressOptions → List Dial → StressOutcome
first_cycle o dials = run_cycles o 1 (natural o.cycles - 1) connecting 0 dials

unfoldable pub stress_mode_with_options : Texts → StressOptions → Bytes → List Dial → StressOutcome
stress_mode_with_options texts o target dials =
    if not (is_positive o.payload_bytes)
    then failed bad_bytes
    else if not (is_positive o.cycles)
    then failed bad_cycles
    else if not (is_positive o.cycle_timeout)
    then failed bad_timeout
    else if is_negative o.cycle_pause
    then failed bad_pause
    else if o.recover && not (is_positive o.recover_timeout)
    then failed bad_recover_timeout
    else elim (normalize_board_address texts target) [
      | bad_address _ ↦ failed wrong_address
      | address _ ↦ first_cycle o dials
    ]

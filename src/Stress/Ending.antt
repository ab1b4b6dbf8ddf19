-- ===== src/Stress/Ending.antt =====
-- How the whole test may end.
use espnetwork_serial.Prelude.{◌*◌, ◌<◌, true, false, List, ◌≡◌, ◌⊎◌, length}
use espnetwork_serial.Prelude.Int.{is_positive, is_negative, natural}
use espnetwork_serial.Prelude.Bytes.{Bytes}
use espnetwork_serial.App.Address.{Texts, Address, bad_address, normalize_board_address}
use espnetwork_serial.Stress.Defs.{
  StressOptions, Dial, StressOutcome, passed, failed, running, StressError, bad_bytes, bad_cycles,
  bad_timeout, bad_pause, bad_recover_timeout, wrong_address, broken, no_recovery, mismatch,
  close_failed,
}
use espnetwork_serial.Stress.Claims.{AllEchoed, Some, Garbles, CloseFails, Breaks, Lost, Verdict}

-- What an error says.
abbrev pub Says : Texts → StressOptions → Bytes → List Dial → StressError → Type 0
Says texts o target dials bad_bytes = is_positive o.payload_bytes ≡ false
Says texts o target dials bad_cycles = is_positive o.cycles ≡ false
Says texts o target dials bad_timeout = is_positive o.cycle_timeout ≡ false
Says texts o target dials bad_pause = is_negative o.cycle_pause ≡ true
Says texts o target dials bad_recover_timeout =
    (o.recover ≡ true) × (is_positive o.recover_timeout ≡ false)
Says texts o target dials wrong_address =
    (s : Bytes) × (normalize_board_address texts target ≡ bad_address s)
Says texts o target dials (broken cycle b) = (o.recover ≡ false) × Some (Breaks o b) dials
Says texts o target dials (no_recovery cycle) = (o.recover ≡ true) × Lost o dials
Says texts o target dials (mismatch cycle) = Some (Garbles o cycle) dials
Says texts o target dials (close_failed cycle) = Some (CloseFails o cycle) dials

-- How the test may end.
abbrev pub Ends : Texts → StressOptions → Bytes → List Dial → StressOutcome → Type 0
Ends texts o target dials (passed t) =
    (t ≡ natural o.cycles * (natural o.payload_bytes * 2)) × AllEchoed o 1 (natural o.cycles) dials
Ends texts o target dials (failed e) = Says texts o target dials e
Ends texts o target dials running = (o.recover ≡ true) ⊎ (length dials < natural o.cycles)

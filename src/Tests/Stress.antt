-- ===== src/Tests/Stress.antt =====
-- A test of two cycles of three bytes: a refusal, recovery, an echo, a break, recovery, an echo.
use espnetwork_serial.Prelude.{ℕ, true, false, List, [], ◌∷◌, ◌≡◌, refl, take, drop}
use espnetwork_serial.Prelude.Int.{pos}
use espnetwork_serial.Prelude.Bytes.{Bytes, codes, same}
use espnetwork_serial.Prelude.Text.{trim_space}
use espnetwork_serial.App.Address.{Texts, normalize_board_address, split_host_port}
use espnetwork_serial.Stress.Defs.{
  StressOptions, next_state, fill_loop, receive_echo, fill_stress_payload, Echo, Dial, refused,
  accepted, transfer, after_break, after_transfer, turn, passed, run_cycles,
  stress_mode_with_options,
}

abbrev options : StressOptions
options = record {
  payload_bytes = pos 3;
  cycles = pos 2;
  cycle_timeout = pos 1;
  cycle_pause = pos 0;
  recover = true;
  recover_timeout = pos 1000;
}

abbrev texts : Texts
texts = record { parses_ip = λ s. false; quoted = λ s. s }

abbrev echo_of : ℕ → Echo
echo_of cycle = record {
  reads =
      (take 2 (fill_stress_payload 3 cycle), false)
      ∷ (drop 2 (fill_stress_payload 3 cycle), false)
      ∷ [];
  write_fails = false;
  close_fails = false;
}

abbrev dials : List Dial
dials =
    refused 400
    ∷ accepted (echo_of 1)
    ∷ accepted (record { reads = []; write_fails = false; close_fails = false })
    ∷ refused 10
    ∷ accepted (echo_of 2)
    ∷ []

abbrev target : Bytes
target = codes "esp32.local"

stressed : stress_mode_with_options texts options target dials ≡ passed 12
unfolding stress_mode_with_options run_cycles normalize_board_address same trim_space
    split_host_port turn after_break after_transfer transfer receive_echo fill_stress_payload
    fill_loop next_state
stressed = refl

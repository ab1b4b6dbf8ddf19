-- ===== src/Tests/App.antt =====
-- Runs and instances for the commands of the monitor, with no IP addresses.
use espnetwork_serial.Prelude.{not, ◌≡◌, refl, true, false, [], ◌∷◌, List, none, some}
use espnetwork_serial.Prelude.Bytes.{Bytes, codes, same}
use espnetwork_serial.Prelude.Text.{trim_space, cut_byte}
use espnetwork_serial.App.Command.{split_command, match_hello, atoi}
use espnetwork_serial.App.Defs.{
  Response, App, new_app, BridgeEnd, say, ends, says, said, unsaid, copied, end_session, has_ended,
  close_session, hello,
}
use espnetwork_serial.App.Address.{
  Texts, trim_quotes, normalize_board_address, split_host_port, has_byte,
}
use espnetwork_serial.App.Handle.{OpenEnv, World, Input, handle_command, install, open_command, run}
use espnetwork_serial.App.Dialable.{Dialable, normalize_board_address-Dialable}
use espnetwork_serial.App.Invariant.{Inv, new_app-Inv, append-Holds}
use espnetwork_serial.App.Keeps.{handle_command-Inv}
use espnetwork_serial.App.BeforeHello.{IsUnopened, handle_command-before_hello}
use espnetwork_serial.App.Closed.{AllClosed, run-AllClosed, Ended, end_session-Ended}
use espnetwork_serial.App.Replies.{Answers}
use espnetwork_serial.App.Responding.{expected_event, handle_command-Answers}

-- With no IP addresses.
abbrev texts : Texts
texts = record { parses_ip = λ s. false; quoted = λ s. s }

abbrev world : World
world = record { tables = λ s. s; texts = texts }

abbrev calm : OpenEnv
calm = record { board_error = none; client_error = none; meanwhile = [] }

abbrev input : Bytes → Input
input line = record { before = []; line = line; open_env = calm }

abbrev lost : BridgeEnd
lost = record { session = 0; label = codes "ESP32 connection unavailable"; result = copied }

abbrev inputs : List Input
inputs =
    input (codes "hello 1 \"IDE\"")
    ∷ input (codes "OPEN 127.0.0.1:5000 \"esp32.local\"")
    ∷ record {
      before = ends lost ∷ [];
      line = codes "open 127.0.0.1:5001 esp32.local";
      open_env = calm;
    }
    ∷ record { before = says 0 ∷ []; line = codes "QUIT"; open_env = calm }
    ∷ []

abbrev event_types : List Response → List Bytes
event_types [] = []
event_types (r ∷ rs) = r.event_type ∷ event_types rs

run_writes :
    event_types (run world new_app inputs).out
    ≡ codes "hello" ∷ codes "open" ∷ codes "open" ∷ codes "port_closed" ∷ codes "quit" ∷ []
unfolding said unsaid run same trim_space split_command cut_byte hello new_app match_hello atoi
    has_ended open_command close_session normalize_board_address split_host_port
run_writes = refl

run-AllClosed_example : AllClosed (run world new_app inputs)
run-AllClosed_example = run-AllClosed world new_app inputs new_app-Inv

abbrev opened : App
opened = install (record new_app { initialized = true })

handle_command-Inv_example : Inv (handle_command world calm new_app (codes "HELLO 1 \"IDE\"")).0
handle_command-Inv_example =
    handle_command-Inv world calm new_app (codes "HELLO 1 \"IDE\"") new_app-Inv

handle_command-Answers_example :
    Answers
      (expected_event world opened (codes "CLOSE"))
      opened
      (handle_command world (record calm { meanwhile = ends lost ∷ [] }) opened (codes "CLOSE")).0
handle_command-Answers_example =
    handle_command-Answers world (record calm { meanwhile = ends lost ∷ [] }) opened (codes "CLOSE")

opened-Inv : Inv opened
unfolding new_app install
opened-Inv = append-Holds new_app-Inv

end_session-Ended_example :
    let (b, first) = end_session opened 0 (codes "close") (codes "OK") false in
    Ended b 0
    × (first ≡ not (has_ended opened.sessions 0))
    × (end_session b 0 (codes "port_closed") (codes "lost") true ≡ (say b 0, false))
end_session-Ended_example =
    end_session-Ended opened 0 (codes "close") (codes "OK") (codes "port_closed") (codes "lost")
      false true opened-Inv

handle_command-before_hello_example :
    IsUnopened new_app
      (split_command world.tables (codes "OPEN 127.0.0.1:5000 x")).0
      (handle_command world calm new_app (codes "OPEN 127.0.0.1:5000 x")).0
handle_command-before_hello_example =
    handle_command-before_hello world calm new_app (codes "OPEN 127.0.0.1:5000 x")
      (unfold new_app in refl)

ipv6 : split_host_port (codes "[fe80::1%7]:3233") ≡ some (codes "fe80::1%7", codes "3233")
unfolding split_host_port cut_byte
ipv6 = refl

normalize_board_address-Dialable_example :
    Dialable texts
      (trim_space (trim_quotes (codes "\"esp32.local\"")))
      (normalize_board_address texts (codes "\"esp32.local\""))
normalize_board_address-Dialable_example =
    normalize_board_address-Dialable texts (codes "\"esp32.local\"")
      (unfold trim_space in unfold has_byte in refl) (unfold trim_space in unfold has_byte in refl)

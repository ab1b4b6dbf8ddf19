-- ===== src/Protocol/Line.antt =====
-- `readESPNSControlLine`: one control line, read byte by byte.
use espnetwork_serial.Prelude.{
  ℕ, zero, suc, ◌+◌, ◌<◌, ◌≡◌, ◌≢◌, List, [], ◌∷◌, ◌++◌, none, some, arith, ltb, ◌==◌, length,
  length-drop, Bool-cases, inl, inr, if◌then◌else◌, not,
}
use espnetwork_serial.Prelude.Bytes.{Bytes}
use espnetwork_serial.Prelude.Text.{trim_space}
use espnetwork_serial.Net.{NetError, ReadEvent, Conn, read_events, conn_read}

abbrev pub handshake_max_bytes : ℕ
handshake_max_bytes = 256

-- `no_fuel` is no outcome of the program.
pub data LineResult : Type 0 where
  line_is : Bytes → LineResult
  line_error : NetError → LineResult
  line_too_long no_fuel : LineResult

-- What one read leaves of the line: a CR is dropped.
abbrev pub extend : Bytes → Bytes → Bytes
extend line [] = line
extend line (b ∷ _) = if b == b'\r' then line else line ++ b ∷ []

unfoldable pub read_line_loop : ℕ → Conn → Bytes → Conn × LineResult
read_line_loop zero c line = (c, no_fuel)
read_line_loop (suc fuel) c line =
    let (c', one, e) = conn_read c 1 in
    let more = read_line_loop fuel c' (extend line one) in
    if not (ltb (length line) handshake_max_bytes) then (c, line_too_long) else elim e [
      | some err ↦ (c', line_error err)
      | none ↦ elim one [
        | [] ↦ more
        | b ∷ _ ↦ if b == b'\n' then (c', line_is (trim_space line)) else more
      ]
    ]

-- Every read takes a byte or uses up an event, and with no event left it fails.
abbrev pub reads_left : List ReadEvent → ℕ
reads_left [] = 1
reads_left (e ∷ es) = suc (length e.bytes + reads_left es)

unfoldable pub read_line : Conn → Conn × LineResult
unfolding read_line_loop
read_line c = read_line_loop (suc (reads_left c.incoming)) c []

-- A read of one byte that is no error brings the end of the script nearer.
pub conn_read-reads_left :
    (c : Conn)
    → let (c', one, e) = conn_read c 1 in e ≡ none → reads_left c'.incoming < reads_left c.incoming
unfolding conn_read
conn_read-reads_left c = elim (Bool-cases c.closed) [
  | inl shut ↦ rw shut (λ x. cc)
  | inr alive ↦ rw alive (go c.incoming)
]
  where
    go :
        (es : List ReadEvent)
        → (read_events es 1).error ≡ none
        → reads_left (read_events es 1).left < reads_left es
    go [] x = cc
    go (e ∷ es) x = ground (arith, length-drop 1 e.bytes)

read_line_loop-ne-no_fuel :
    (fuel : ℕ) (c : Conn) (line : Bytes)
    → reads_left c.incoming < fuel
    → (read_line_loop fuel c line).1 ≢ no_fuel
unfolding read_line_loop
read_line_loop-ne-no_fuel zero c line h = absurd (omega arith)
read_line_loop-ne-no_fuel (suc fuel) c line h = ground (
  arith,
  conn_read-reads_left c,
  read_line_loop-ne-no_fuel fuel (conn_read c 1).0 (extend line (conn_read c 1).1),
)

-- The fuel is enough for what a connection that brings finitely many bytes and events has left.
read_line-ne-no_fuel : (c : Conn) → (read_line c).1 ≢ no_fuel
unfolding read_line
read_line-ne-no_fuel c = read_line_loop-ne-no_fuel (suc (reads_left c.incoming)) c [] (omega arith)

-- ===== src/Protocol/LineTooLong.antt =====
-- A control line that has no end within the limit.
use espnetwork_serial.Prelude.{
  ℕ, zero, suc, ◌+◌, ◌≤◌, ◌<◌, ◌≡◌, refl, ap, false, [], ◌∷◌, ◌++◌, arith, ltb, ◌==◌, length,
  length-append, Bool-cases, inl, inr, All,
}
use espnetwork_serial.Prelude.Bytes.{Bytes}
use espnetwork_serial.Net.{Conn, flat, IsClean}
use espnetwork_serial.Protocol.Line.{
  line_too_long, handshake_max_bytes, extend, reads_left, read_line_loop, read_line,
}
use espnetwork_serial.Protocol.LineRead.{
  strip_cr, read_byte, after, goes_on_empty, goes_on_byte, extend-strip_cr,
}

-- With as many bytes as the limit, the line is refused before the next read.
read_line_loop-full :
    (fuel : ℕ) (c : Conn) (line : Bytes)
    → ltb (length line) handshake_max_bytes ≡ false
    → (read_line_loop (suc fuel) c line).1 ≡ line_too_long
unfolding read_line_loop
read_line_loop-full fuel c line h = rw (read_line_loop, h) refl

read_line_loop-line_too_long :
    (fuel : ℕ) (c : Conn) (line l rest : Bytes)
    → reads_left c.incoming < fuel
    → c.closed ≡ false
    → IsClean c.incoming
    → flat c.incoming ≡ l ++ rest
    → All (λ b. (b == b'\n') ≡ false) l
    → handshake_max_bytes ≤ length line + length (strip_cr l)
    → (read_line_loop fuel c line).1 ≡ line_too_long
read_line_loop-line_too_long zero c line l rest f alive clean e no_lf h = absurd (omega arith)
read_line_loop-line_too_long (suc fuel) c line [] rest f alive clean e no_lf h =
    read_line_loop-full fuel c line (ground arith)
read_line_loop-line_too_long (suc fuel) c line (x ∷ l) rest f alive clean e no_lf h =
    elim (Bool-cases (ltb (length line) handshake_max_bytes)) [
      | inr full ↦ read_line_loop-full fuel c line full
      | inl lt ↦
          let r = read_byte c x (l ++ rest) alive clean e in
          let short : length line < handshake_max_bytes = ground arith in
          elim r.brings [
            | inl (none_read, same) ↦ rw (goes_on_empty r fuel line short none_read) (
                read_line_loop-line_too_long fuel (after r fuel line) line (x ∷ l) rest
                  (omega (arith, r.nearer)) alive r.clean same no_lf h)
            | inr (byte, later) ↦
                let longer = ap length (extend-strip_cr line x l) in
                rw (goes_on_byte r fuel line short byte no_lf.0) (
                  read_line_loop-line_too_long fuel (after r fuel line) (extend line (x ∷ [])) l
                    rest (omega (arith, r.nearer)) alive r.clean later no_lf.1
                    (omega (
                      arith,
                      longer,
                      length-append (extend line (x ∷ [])) (strip_cr l),
                      length-append line (strip_cr (x ∷ l)),
                    )))
          ]
    ]

-- On an open connection, a stream that begins, with no error and in whatever pieces, with 256 bytes
-- that are no CR and no LF, CRs among them or not, is refused as too long a line.
pub read_line-line_too_long :
    (c : Conn) (l rest : Bytes)
    → c.closed ≡ false
    → IsClean c.incoming
    → flat c.incoming ≡ l ++ rest
    → All (λ b. (b == b'\n') ≡ false) l
    → handshake_max_bytes ≤ length (strip_cr l)
    → (read_line c).1 ≡ line_too_long
unfolding read_line
read_line-line_too_long c l rest alive clean e no_lf h =
    read_line_loop-line_too_long (suc (reads_left c.incoming)) c [] l rest (omega arith) alive clean
      e no_lf (omega arith)

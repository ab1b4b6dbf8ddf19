-- ===== src/Net/ReadFull.antt =====
-- `io.ReadFull` over a connection.
use espnetwork_serial.Prelude.{
  ℕ, ◌-◌, List, [], ◌∷◌, ◌++◌, Option, none, some, ltb, ◌==◌, length, take, drop, if◌then◌else◌,
}
use espnetwork_serial.Prelude.Bytes.{Bytes}
use espnetwork_serial.Net.Script.{
  NetError, eof, unexpected_eof, err_closed, ReadEvent, ReadResult, Conn,
}

-- `io.EOF` after some bytes is `io.ErrUnexpectedEOF`.
unfoldable pub full_error : Bytes → NetError → NetError
full_error [] e = e
full_error (_ ∷ _) eof = unexpected_eof
full_error (_ ∷ _) e = e

-- The reads of the loop, with `k` bytes still wanted and `acc` read before.
unfoldable pub read_full_events : List ReadEvent → ℕ → Bytes → ReadResult
unfolding full_error
read_full_events [] k acc = record {
  left = [];
  got = acc;
  error = if k == 0 then none else some (full_error acc eof);
}
read_full_events (e ∷ es) k acc =
    let rest = read_full_events es (k - length e.bytes) (acc ++ e.bytes) in
    if k == 0
    then record { left = e ∷ es; got = acc; error = none }
    else if ltb k (length e.bytes)
    then record {
      left = record e { bytes = drop k e.bytes } ∷ es;
      got = acc ++ take k e.bytes;
      error = none;
    }
    else if k == length e.bytes
    then record { left = es; got = acc ++ e.bytes; error = none }
    else elim e.error [
      | none ↦ rest
      | some err ↦ record {
        left = es;
        got = acc ++ e.bytes;
        error = some (full_error (acc ++ e.bytes) err);
      }
    ]

unfoldable pub read_full : Conn → ℕ → Conn × Bytes × Option NetError
unfolding read_full_events
read_full c k =
    if c.closed
    then (c, [], some err_closed)
    else let r = read_full_events c.incoming k [] in
      (record c { incoming = r.left }, r.got, r.error)

-- ===== src/Protocol/LineRead.antt =====
-- A control line that arrives whole, in whatever pieces.
use espnetwork_serial.Prelude.{
  ℕ, zero, suc, ◌+◌, ◌<◌, ◌≡◌, refl, ap, true, false, List, [], ◌∷◌, ◌++◌, Option, none, arith, ltb,
  ◌==◌, length, length-append, append_assoc, append-nil, Bool-cases, inl, inr, ◌⊎◌, All,
  if◌then◌else◌,
}
use espnetwork_serial.Prelude.Bytes.{Bytes}
use espnetwork_serial.Prelude.Text.{trim_space}
use espnetwork_serial.Net.{
  NetError, ReadEvent, ReadResult, Conn, read_events, conn_read, flat, IsClean,
}
use espnetwork_serial.Protocol.Line.{
  LineResult, line_is, handshake_max_bytes, extend, reads_left, read_line_loop, read_line,
  conn_read-reads_left,
}

-- What one read of a clean stream brings: nothing, or the next byte.
abbrev OneByte : List ReadEvent → ℕ → Bytes → ReadResult → Type 0
OneByte es b t r =
    (r.error ≡ none)
    × IsClean r.left
    × (((r.got ≡ []) × (flat r.left ≡ b ∷ t)) ⊎ ((r.got ≡ b ∷ []) × (flat r.left ≡ t)))

read_events-OneByte :
    (bs : Bytes) (err : Option NetError) (es : List ReadEvent) (b : ℕ) (t : Bytes)
    → let all = record { bytes = bs; error = err } ∷ es in
      IsClean all → flat all ≡ b ∷ t → OneByte all b t (read_events all 1)
unfolding read_events
read_events-OneByte [] err es b t (h, hs) e = (h, hs, inl (refl, e))
read_events-OneByte (x ∷ []) err es b t (h, hs) e = (h, hs, inr (ground arith, ground arith))
read_events-OneByte (x ∷ y ∷ bs) err es b t (h, hs) e =
    let long : ltb 1 (length (x ∷ y ∷ bs)) ≡ true = ground arith in
    rw long (refl, (h, hs), inr (ground arith, ground arith))

conn_read-OneByte :
    (es : List ReadEvent) (b : ℕ) (t : Bytes)
    → IsClean es
    → flat es ≡ b ∷ t
    → OneByte es b t (read_events es 1)
conn_read-OneByte [] b t h e = cc
conn_read-OneByte (v ∷ es) b t h e = read_events-OneByte v.bytes v.error es b t h e

abbrev pub strip_cr : Bytes → Bytes
strip_cr [] = []
strip_cr (b ∷ bs) = if b == b'\r' then strip_cr bs else b ∷ strip_cr bs

-- The line was read to its end, with `rest` behind it.
pub record LineRead (c : Conn) (line rest : Bytes) (r : Conn × LineResult) : Type 0 where
  pub result : r.1 ≡ line_is (trim_space line)
  pub stream : flat r.0.incoming ≡ rest
  pub clean : IsClean r.0.incoming
  pub alive : r.0.closed ≡ false
  pub outgoing : r.0.outgoing ≡ c.outgoing
  pub accepts : r.0.accepts ≡ c.accepts

pub record ByteRead (c : Conn) (b : ℕ) (t : Bytes) : Type 0 where
  pub es : List ReadEvent
  pub one : Bytes
  pub result : conn_read c 1 ≡ (record c { incoming = es }, one, none)
  pub clean : IsClean es
  pub brings : ((one ≡ []) × (flat es ≡ b ∷ t)) ⊎ ((one ≡ b ∷ []) × (flat es ≡ t))
  pub nearer : reads_left es < reads_left c.incoming

pub read_byte :
    (c : Conn) (b : ℕ) (t : Bytes)
    → c.closed ≡ false
    → IsClean c.incoming
    → flat c.incoming ≡ b ∷ t
    → ByteRead c b t
read_byte c b t alive clean e =
    let (no_error, clean', brings) = conn_read-OneByte c.incoming b t clean e in
    let result : conn_read c 1 ≡ (
      record c { incoming = (read_events c.incoming 1).left },
      (read_events c.incoming 1).got,
      none,
    ) =
      unfold conn_read in ground arith in
    record {
      es = (read_events c.incoming 1).left;
      one = (read_events c.incoming 1).got;
      result = result;
      clean = clean';
      brings = brings;
      nearer = rw result at (conn_read-reads_left c) refl;
    }

module _ {c : Conn} {b : ℕ} {t : Bytes} (r : ByteRead c b t) (fuel : ℕ) (line : Bytes) where
  abbrev pub after : Conn
  after = record c { incoming = r.es }

  pub goes_on_empty :
      length line < handshake_max_bytes
      → r.one ≡ []
      → read_line_loop (suc fuel) c line ≡ read_line_loop fuel after line
  unfolding read_line_loop
  goes_on_empty h e =
      let short : ltb (length line) handshake_max_bytes ≡ true = ground arith in
      rw (short, r.result, r.result, e) (rw (r.result, e) refl)

  pub goes_on_byte :
      length line < handshake_max_bytes
      → r.one ≡ b ∷ []
      → (b == b'\n') ≡ false
      → read_line_loop (suc fuel) c line ≡ read_line_loop fuel after (extend line (b ∷ []))
  unfolding read_line_loop
  goes_on_byte h e no_lf =
      let short : ltb (length line) handshake_max_bytes ≡ true = ground arith in
      rw (short, r.result, r.result, e) (rw (no_lf, r.result, e) refl)

  ends :
      length line < handshake_max_bytes
      → r.one ≡ b ∷ []
      → (b == b'\n') ≡ true
      → read_line_loop (suc fuel) c line ≡ (after, line_is (trim_space line))
  unfolding read_line_loop
  ends h e lf =
      let short : ltb (length line) handshake_max_bytes ≡ true = ground arith in
      rw (short, r.result, r.result, e) (rw (lf, r.result) refl)

  -- A line read from `after` on is read from `c` on.
  earlier :
      {whole rest : Bytes} {q : Conn × LineResult}
      → LineRead after whole rest q
      → LineRead c whole rest q
  earlier v = record {
    result = v.result;
    stream = v.stream;
    clean = v.clean;
    alive = v.alive;
    outgoing = v.outgoing;
    accepts = v.accepts;
  }

pub extend-strip_cr :
    (line : Bytes) (x : ℕ) (l : Bytes)
    → extend line (x ∷ []) ++ strip_cr l ≡ line ++ strip_cr (x ∷ l)
extend-strip_cr line x l = elim (Bool-cases (x == b'\r')) [
  | inl cr ↦ rw cr
  | inr other ↦ rw other (append_assoc line (x ∷ []) (strip_cr l))
]

read_line_loop-LineRead :
    (fuel : ℕ) (c : Conn) (line l rest : Bytes)
    → reads_left c.incoming < fuel
    → c.closed ≡ false
    → IsClean c.incoming
    → flat c.incoming ≡ l ++ b'\n' ∷ rest
    → All (λ b. (b == b'\n') ≡ false) l
    → length line + length (strip_cr l) < handshake_max_bytes
    → LineRead c (line ++ strip_cr l) rest (read_line_loop fuel c line)
read_line_loop-LineRead zero c line l rest f alive clean e no_lf h = absurd (omega arith)
read_line_loop-LineRead (suc fuel) c line [] rest f alive clean e no_lf h =
    let r = read_byte c b'\n' rest alive clean e in
    let short : length line < handshake_max_bytes = omega arith in
    elim r.brings [
      | inl (none_read, same) ↦ rw (goes_on_empty r fuel line short none_read) (
          earlier r fuel line (
            read_line_loop-LineRead fuel (after r fuel line) line [] rest (omega (arith, r.nearer))
              alive r.clean same tt h))
      | inr (lf, later) ↦
          rw (ends r fuel line short lf refl, append-nil)
            (record {
              result = refl;
              stream = later;
              clean = r.clean;
              alive = alive;
              outgoing = refl;
              accepts = refl;
            })
    ]
read_line_loop-LineRead (suc fuel) c line (x ∷ l) rest f alive clean e no_lf h =
    let r = read_byte c x (l ++ b'\n' ∷ rest) alive clean e in
    let short : length line < handshake_max_bytes = omega arith in
    elim r.brings [
      | inl (none_read, same) ↦ rw (goes_on_empty r fuel line short none_read) (
          earlier r fuel line (
            read_line_loop-LineRead fuel (after r fuel line) line (x ∷ l) rest
              (omega (arith, r.nearer)) alive r.clean same no_lf h))
      | inr (byte, later) ↦
          let longer = ap length (extend-strip_cr line x l) in
          rw (goes_on_byte r fuel line short byte no_lf.0, ← extend-strip_cr line x l)
            (earlier r fuel line (
              read_line_loop-LineRead fuel (after r fuel line) (extend line (x ∷ [])) l rest
                (omega (arith, r.nearer)) alive r.clean later no_lf.1
                (omega (
                  arith,
                  longer,
                  length-append (extend line (x ∷ [])) (strip_cr l),
                  length-append line (strip_cr (x ∷ l)),
                ))))
    ]

-- On an open connection, a control line that arrives with no error, in whatever pieces, ends in LF and
-- has fewer than 256 bytes that are no CR, is returned without its CRs and trimmed, and not one byte
-- behind the LF is taken off the stream. Nothing is sent.
pub read_line-LineRead :
    (c : Conn) (l rest : Bytes)
    → c.closed ≡ false
    → IsClean c.incoming
    → flat c.incoming ≡ l ++ b'\n' ∷ rest
    → All (λ b. (b == b'\n') ≡ false) l
    → length (strip_cr l) < handshake_max_bytes
    → LineRead c (strip_cr l) rest (read_line c)
unfolding read_line
read_line-LineRead c l rest alive clean e no_lf h =
    read_line_loop-LineRead (suc (reads_left c.incoming)) c [] l rest (omega arith) alive clean e
      no_lf (omega arith)

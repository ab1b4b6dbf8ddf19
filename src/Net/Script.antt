-- ===== src/Net/Script.antt =====
-- Connections as scripts, with `Read`, `Write`, `Close` and `SetDeadline`.
use espnetwork_serial.Prelude.{
  ℕ, Bool, true, false, List, [], ◌∷◌, ◌++◌, Option, none, some, ltb, length, take, drop, min,
  if◌then◌else◌,
}
use espnetwork_serial.Prelude.Bytes.{Bytes}

pub data NetError : Type 0 where
  eof unexpected_eof err_closed : NetError
  os_error : ℕ → NetError

-- What the connection has for one read, and the error that comes with the last of these bytes.
pub record ReadEvent : Type 0 where
  pub bytes : Bytes
  pub error : Option NetError

-- How many bytes one write takes at most, and the error that it returns.
pub record WriteEvent : Type 0 where
  pub accepted : ℕ
  pub error : Option NetError

pub record Conn : Type 0 where
  pub incoming : List ReadEvent
  pub accepts : List WriteEvent
  pub outgoing : Bytes
  pub closed : Bool
  pub deadline : Option ℕ

pub record ReadResult : Type 0 where
  pub left : List ReadEvent
  pub got : Bytes
  pub error : Option NetError

-- One `Read` into a buffer of `k` bytes. With nothing more in store the stream has ended.
unfoldable pub read_events : List ReadEvent → ℕ → ReadResult
read_events [] k = record { left = []; got = []; error = some eof }
read_events (e ∷ es) k =
    if ltb k (length e.bytes)
    then record {
      left = record e { bytes = drop k e.bytes } ∷ es;
      got = take k e.bytes;
      error = none;
    }
    else record { left = es; got = e.bytes; error = e.error }

unfoldable pub conn_read : Conn → ℕ → Conn × Bytes × Option NetError
unfolding read_events
conn_read c k =
    if c.closed
    then (c, [], some err_closed)
    else let r = read_events c.incoming k in (record c { incoming = r.left }, r.got, r.error)

pub record WriteResult : Type 0 where
  pub rest : List WriteEvent
  pub count : ℕ
  pub error : Option NetError

-- One `Write` of `n` bytes. With no event in store everything is taken.
unfoldable pub write_events : List WriteEvent → ℕ → WriteResult
write_events [] n = record { rest = []; count = n; error = none }
write_events (w ∷ ws) n = record { rest = ws; count = min w.accepted n; error = w.error }

unfoldable pub conn_write : Conn → Bytes → Conn × ℕ × Option NetError
unfolding write_events
conn_write c p =
    if c.closed
    then (c, 0, some err_closed)
    else let r = write_events c.accepts (length p) in
      (record c { accepts = r.rest; outgoing = c.outgoing ++ take r.count p }, r.count, r.error)

unfoldable pub conn_close : Conn → Conn
conn_close c = record c { closed = true }

-- A connection that delivers these events, takes all writes, and has sent nothing.
abbrev pub conn_with : List ReadEvent → Conn
conn_with es = record {
  incoming = es;
  accepts = [];
  outgoing = [];
  closed = false;
  deadline = none;
}

abbrev pub segment : Bytes → ReadEvent
segment bs = record { bytes = bs; error = none }

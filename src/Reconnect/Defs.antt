-- ===== src/Reconnect/Defs.antt =====
-- What the goroutines share, and where one goroutine stands.
use espnetwork_serial.Prelude.{
  ℕ, zero, suc, ◌+◌, Bool, true, false, ◌||◌, Option, none, some, ltb, ◌==◌,
}

-- The fields of `reconnectingTCP` that change. A connection is a number, counted as they are dialed;
-- `lock` is the goroutine that holds `reconnectMu`. `shut` are the connections on which `Close` was
-- called, `published` those that have stood in `conn`: the program has neither of the two.
pub record Mem : Type 0 where
  pub conn : Option ℕ
  pub closed : Bool
  pub lock : Option ℕ
  pub dialed : ℕ
  pub shut : ℕ → Bool
  pub published : ℕ → Bool
  pub now : ℕ

-- `newReconnectingTCP`, with the connection that OPEN has dialed.
abbrev pub new_reconnecting_tcp : ℕ → Mem
new_reconnecting_tcp now = record {
  conn = some 0;
  closed = false;
  lock = none;
  dialed = 1;
  shut = λ c. false;
  published = λ c. c == 0;
  now = now;
}

-- What one step changes.
pub data Effect : Type 0 where
  keep take_lock drop_lock dial forget close_board : Effect
  publish shut_conn : ℕ → Effect

abbrev pub apply : ℕ → Effect → Mem → Mem
apply i keep m = m
apply i take_lock m = record m { lock = some i }
apply i drop_lock m = record m { lock = none }
apply i dial m = record m { dialed = suc m.dialed }
apply i forget m = record m { conn = none }
apply i close_board m = record m { conn = none; closed = true }
apply i (publish c) m = record m { conn = some c; published = λ x. x == c || m.published x }
apply i (shut_conn c) m = record m { shut = λ x. x == c || m.shut x }

-- A call of `Read` with room for `len` bytes, or of `Write` with `len` bytes of which `total` are
-- sent.
pub data Job : Type 0 where
  reading : (len : ℕ) → Job
  writing : (len total : ℕ) → Job

pub data Failure : Type 0 where
  closed_error timed_out short_write : Failure

-- What `reconnect` returns.
pub data Result : Type 0 where
  got : ℕ → Result
  failed : Failure → Result

-- Where a goroutine stands: each access to what is shared is a step of its own. `dl` is the variable
-- `deadline` of `Read` and `Write`, `d` the deadline once it is set.
pub data Pc : Type 0 where
  -- between two calls
  idle : Pc
  -- at the head of the loop of `Read` or `Write`, before `current`
  connect : Job → (dl : Option ℕ) → Pc
  -- before `reconnectMu.Lock`
  waiting : Job → (d : ℕ) → Pc
  -- in `reconnect`, before `current`
  locked : Job → (d : ℕ) → Pc
  -- before the first `isClosed`
  checking : Job → (d : ℕ) → Pc
  -- at the head of the loop of `reconnect`, before `isClosed`
  trying : Job → (d : ℕ) → Pc
  -- before `time.Until`
  timing : Job → (d : ℕ) → Pc
  -- in `dialESPNS`, which is given so much time; `remaining` is what was left before
  dialing : Job → (d remaining timeout : ℕ) → Pc
  -- in `time.Sleep`, up to a moment
  sleeping : Job → (d until : ℕ) → Pc
  -- before the section that stores the new connection
  has_dialed : Job → (d c : ℕ) → Pc
  -- before `conn.Close` on a connection that is not needed
  discarding : Job → (d c : ℕ) → Result → Pc
  -- before `reconnectMu.Unlock`
  unlocking : Job → (d : ℕ) → Result → Pc
  -- in `conn.Read` or `conn.Write`
  using : Job → (dl : Option ℕ) → (c : ℕ) → Pc
  -- in `invalidate`, after an error behind `n` bytes
  dropping : Job → (dl : Option ℕ) → (c n : ℕ) → Pc
  -- in `invalidate`, before `conn.Close`
  closing : Job → (dl : Option ℕ) → (c n : ℕ) → Pc
  -- in `Close`, before `conn.Close`
  shutting : (c : ℕ) → Pc
  -- the call returns `n` and an error, if there is one
  returned : Job → (n : ℕ) → Option Failure → Pc

-- `dialTimeout` and `reconnectInterval`, in milliseconds.
abbrev pub dial_timeout : ℕ
dial_timeout = 4000

abbrev pub reconnect_interval : ℕ
reconnect_interval = 250

-- `reconnectGrace`, in milliseconds.
abbrev pub reconnect_grace : ℕ
reconnect_grace = 15000

-- The deadline that `connection` hands on.
abbrev pub set_deadline : Option ℕ → ℕ → ℕ
set_deadline none now = now + reconnect_grace
set_deadline (some d) now = d

-- The bytes that a call has moved so far.
abbrev pub moved : Job → ℕ
moved (reading len) = 0
moved (writing len total) = total

-- Whether the loop goes on: `Read` has no test, `Write` tests for bytes that are left.
abbrev pub goes_on : Job → Bool
goes_on (reading len) = true
goes_on (writing len total) = ltb total len

-- How many bytes one call on the connection may move.
abbrev pub room : Job → ℕ → Bool
room (reading len) n = ltb n (len + 1)
room (writing len total) n = ltb (total + n) (len + 1)

-- Where a call stands after the connection moved `n` bytes with no error.
abbrev pub after_io : Job → Option ℕ → ℕ → Pc
after_io (reading len) dl n = returned (reading len) n none
after_io (writing len total) dl zero = returned (writing len total) total (some short_write)
after_io (writing len total) dl (suc k) = connect (writing len (total + suc k)) dl

-- Where a call stands after the connection broke behind `n` bytes and was closed.
abbrev pub after_drop : Job → Option ℕ → ℕ → Pc
after_drop (reading len) dl zero = connect (reading len) dl
after_drop (reading len) dl (suc m) = returned (reading len) (suc m) none
after_drop (writing len total) dl n = connect (writing len (total + n)) dl

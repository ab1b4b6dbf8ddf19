-- ===== src/Auth/Quote/Reading.antt =====
-- How C reads a string literal, as a machine over its characters: of the escapes the simple ones
-- and the octal ones of one to three digits, but not those that begin with `x` and `u`.
use espnetwork_serial.Prelude.{
  ℕ, ◌+◌, ◌-◌, ◌*◌, Bool, ◌&&◌, leb, ◌==◌, if◌then◌else◌, [], ◌∷◌, ◌++◌, Option, none, some,
}
use espnetwork_serial.Prelude.Bytes.{Bytes}

-- What stands before the next character: nothing, a backslash, or one or two octal digits.
pub data State : Type 0 where
  plain escape : State
  octal_1 octal_2 : ℕ → State

pub data Action : Type 0 where
  go : Bytes → State → Action
  stop : Bytes → Action
  bad : Action

abbrev pub is_octal : ℕ → Bool
is_octal c = leb b'0' c && leb c b'7'

unfoldable pub simple_escape : ℕ → Option ℕ
simple_escape c =
    if c == b'n'
    then some 10
    else if c == b'r'
    then some 13
    else if c == b't'
    then some 9
    else if c == b'\\'
    then some 92
    else if c == b'"'
    then some 34
    else other c
  where
    other : ℕ → Option ℕ
    other c =
        if c == b'\''
        then some 39
        else if c == b'?'
        then some 63
        else if c == b'a'
        then some 7
        else if c == b'b'
        then some 8
        else if c == b'f'
        then some 12
        else if c == b'v'
        then some 11
        else none

unfoldable pub plain_step : ℕ → Action
plain_step c =
    if c == b'"'
    then stop []
    else if c == b'\\'
    then go [] escape
    else if c == b'\n'
    then bad
    else go (c ∷ []) plain

abbrev pub after : ℕ → Action → Action
after v (go out st) = go (v ∷ out) st
after v (stop out) = stop (v ∷ out)
after v bad = bad

unfoldable pub step : State → ℕ → Action
unfolding plain_step simple_escape
step plain c = plain_step c
step escape c =
    if is_octal c
    then go [] (octal_1 (c - b'0'))
    else elim (simple_escape c) [ none ↦ bad | some v ↦ go (v ∷ []) plain ]
step (octal_1 a) c =
    if is_octal c then go [] (octal_2 (a * 8 + (c - b'0'))) else after a (plain_step c)
step (octal_2 a) c =
    if is_octal c then go ((a * 8 + (c - b'0')) ∷ []) plain else after a (plain_step c)

abbrev pub put_front : Bytes → Option (Bytes × Bytes) → Option (Bytes × Bytes)
put_front out none = none
put_front out (some (bytes, rest)) = some (out ++ bytes, rest)

-- The bytes of the literal whose opening quote has been read, and what follows it.
unfoldable pub read_literal : Bytes → State → Option (Bytes × Bytes)
unfolding step
read_literal [] st = none
read_literal (c ∷ s) st = elim (step st c) [
  | go out st' ↦ put_front out (read_literal s st')
  | stop out ↦ some (out, s)
  | bad ↦ none
]

-- A whole literal at the front of a text.
unfoldable pub read_c_string : Bytes → Option (Bytes × Bytes)
unfolding read_literal
read_c_string [] = none
read_c_string (c ∷ s) = if c == b'"' then read_literal s plain else none

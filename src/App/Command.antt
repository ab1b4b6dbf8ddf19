-- ===== src/App/Command.antt =====
-- The words of a command line: `splitCommand`, the pattern of HELLO, `strconv.Atoi`.
use espnetwork_serial.Prelude.{
  ℕ, ◌+◌, ◌-◌, ◌*◌, ◌^◌, Bool, true, false, not, ◌&&◌, ◌||◌, [], ◌∷◌, map, Option, none, some, ltb,
  ◌==◌, if◌then◌else◌,
}
use espnetwork_serial.Prelude.Bytes.{Bytes}
use espnetwork_serial.Prelude.Text.{between, cut_byte, trim_space}

upper_byte : ℕ → ℕ
upper_byte c = if between b'a' b'z' c then c - 32 else c

is_ascii : Bytes → Bool
is_ascii [] = true
is_ascii (c ∷ s) = ltb c 128 && is_ascii s

-- `strings.ToUpper`. Outside ASCII it follows the tables of Unicode, which are a parameter.
unfoldable pub to_upper : (Bytes → Bytes) → Bytes → Bytes
unfolding upper_byte is_ascii
to_upper tables s = if is_ascii s then map upper_byte s else tables s

unfoldable pub split_command : (Bytes → Bytes) → Bytes → Bytes × Bytes
unfolding to_upper
split_command tables line = elim (cut_byte b' ' line) [
  | some (command, rest) ↦ (to_upper tables command, trim_space rest)
  | none ↦ (to_upper tables line, [])
]

abbrev is_digit : ℕ → Bool
is_digit = between b'0' b'9'

-- `\s` of Go's package regexp.
abbrev is_regexp_space : ℕ → Bool
is_regexp_space c = c == 9 || c == 10 || c == 12 || c == 13 || c == 32

-- The text behind the longest front whose bytes pass the test, and that front.
span : (ℕ → Bool) → Bytes → Bytes × Bytes
span p [] = ([], [])
span p (c ∷ s) = let (front, back) = span p s in if p c then (c ∷ front, back) else ([], c ∷ s)

-- What follows the opening quote: some bytes that are no quote, and a quote at the very end.
quoted_tail : Bytes → Bool
quoted_tail [] = false
quoted_tail (c ∷ []) = false
quoted_tail (c ∷ d ∷ []) = not (c == b'"') && d == b'"'
quoted_tail (c ∷ d ∷ e ∷ s) = not (c == b'"') && quoted_tail (d ∷ e ∷ s)

after_spaces : Bytes → Bytes → Bytes → Option Bytes
unfolding quoted_tail
after_spaces [] digits s = none
after_spaces (_ ∷ _) digits [] = none
after_spaces (_ ∷ _) digits (c ∷ s) = if c == b'"' && quoted_tail s then some digits else none

after_digits : Bytes → Bytes → Option Bytes
unfolding span after_spaces
after_digits [] s = none
after_digits (d ∷ digits) s =
    let (spaces, rest) = span is_regexp_space s in after_spaces spaces (d ∷ digits) rest

-- `helloPattern`, `^(\d+)\s+"([^"]+)"$`: the digits, if the text matches.
unfoldable pub match_hello : Bytes → Option Bytes
unfolding span after_digits
match_hello s = let (digits, rest) = span is_digit s in after_digits digits rest

decimal : ℕ → Bytes → ℕ
decimal acc [] = acc
decimal acc (d ∷ ds) = decimal (acc * 10 + (d - b'0')) ds

-- `strconv.Atoi` on digits: an error if the number is no `int` of 64 bits.
unfoldable pub atoi : Bytes → Option ℕ
unfolding decimal
atoi digits = let n = decimal 0 digits in if ltb n (2 ^ 63) then some n else none

-- ===== src/Prelude/Text.antt =====
-- Go's package strings, over byte strings in UTF-8: `TrimSpace`, `Fields`, `IndexByte`,
-- `HasPrefix` and `ToUpper`.
use Prim.Native.Nat.{ℕ, zero, suc}
use mathlib.Core.Bool.{Bool, true, false, ◌&&◌, ◌||◌}
use mathlib.Core.Option.{Option, none, some}
use mathlib.Core.List.{List, [], ◌∷◌, ◌++◌, reverse}
use espnetwork_serial.Prelude.Tests.{leb, ◌==◌, if◌then◌else◌}
use espnetwork_serial.Prelude.Bytes.{Bytes}

abbrev pub between : ℕ → ℕ → ℕ → Bool
between lo hi c = leb lo c && leb c hi

-- The white space of `unicode.IsSpace` by the length of its encoding: tab to carriage return and
-- space; U+0085 and U+00A0; U+1680, U+2000 to U+200A, U+2028, U+2029, U+202F, U+205F, U+3000.
abbrev pub space_1 : ℕ → Bool
space_1 c = between 9 13 c || c == 32

abbrev pub space_2 : ℕ → ℕ → Bool
space_2 a b = a == 0xc2 && (b == 0x85 || b == 0xa0)

abbrev pub space_3 : ℕ → ℕ → ℕ → Bool
space_3 a b c =
    (a == 0xe1 && b == 0x9a && c == 0x80)
    || (a == 0xe2 && b == 0x80 && (between 0x80 0x8a c || c == 0xa8 || c == 0xa9 || c == 0xaf))
    || (a == 0xe2 && b == 0x81 && c == 0x9f)
    || (a == 0xe3 && b == 0x80 && c == 0x80)

-- How many bytes the white space at the front takes; 0 if there is none.
unfoldable pub space_width : Bytes → ℕ
space_width [] = 0
space_width (a ∷ []) = if space_1 a then 1 else 0
space_width (a ∷ b ∷ []) = if space_1 a then 1 else if space_2 a b then 2 else 0
space_width (a ∷ b ∷ c ∷ _) =
    if space_1 a then 1 else if space_2 a b then 2 else if space_3 a b c then 3 else 0

-- The same at the end of a text, which is given in reverse.
unfoldable pub space_width_back : Bytes → ℕ
space_width_back [] = 0
space_width_back (a ∷ []) = if space_1 a then 1 else 0
space_width_back (a ∷ b ∷ []) = if space_1 a then 1 else if space_2 b a then 2 else 0
space_width_back (a ∷ b ∷ c ∷ _) =
    if space_1 a then 1 else if space_2 b a then 2 else if space_3 c b a then 3 else 0

-- Drops white space from the front, after the `n` bytes that are still to be skipped.
unfoldable pub trim_front : (Bytes → ℕ) → ℕ → Bytes → Bytes
trim_front width n [] = []
trim_front width (suc n) (c ∷ s) = trim_front width n s
trim_front width zero (c ∷ s) = elim (width (c ∷ s)) [ zero ↦ c ∷ s | suc w ↦ trim_front width w s ]

unfoldable pub trim_space : Bytes → Bytes
unfolding space_width space_width_back trim_front
trim_space s = reverse (trim_front space_width_back 0 (reverse (trim_front space_width 0 s)))

abbrev flush : Bytes → List Bytes → List Bytes
flush [] ts = ts
flush (c ∷ cur) ts = (c ∷ cur) ∷ ts

-- The fields of the text behind `n` bytes to skip, with `cur` the beginning of the field at hand.
unfoldable pub fields_from : ℕ → Bytes → Bytes → List Bytes
unfolding space_width
fields_from n cur [] = flush cur []
fields_from (suc n) cur (c ∷ s) = fields_from n cur s
fields_from zero cur (c ∷ s) = elim (space_width (c ∷ s)) [
  | zero ↦ fields_from zero (cur ++ c ∷ []) s
  | suc w ↦ flush cur (fields_from w [] s)
]

abbrev pub fields : Bytes → List Bytes
fields = fields_from 0 []

abbrev cons_front : ℕ → Option (Bytes × Bytes) → Option (Bytes × Bytes)
cons_front c none = none
cons_front c (some (front, back)) = some (c ∷ front, back)

-- The text cut at its first byte `b`, as by `IndexByte` and two slices.
unfoldable pub cut_byte : ℕ → Bytes → Option (Bytes × Bytes)
cut_byte b [] = none
cut_byte b (c ∷ s) = if c == b then some ([], s) else cons_front c (cut_byte b s)

unfoldable pub has_prefix : Bytes → Bytes → Bool
has_prefix [] s = true
has_prefix (p ∷ ps) [] = false
has_prefix (p ∷ ps) (c ∷ s) = p == c && has_prefix ps s

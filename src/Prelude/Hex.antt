-- ===== src/Prelude/Hex.antt =====
-- Go's encoding/hex: `EncodeToString` and `DecodeString`.
use Prim.Native.Nat.{ℕ, ◌+◌, ◌-◌, ◌*◌, ◌/◌, ◌%◌, ◌<◌}
use mathlib.Core.Path.{◌≡◌, refl}
use mathlib.Core.Bool.{◌&&◌}
use mathlib.Core.Option.{Option, none, some}
use mathlib.Core.List.{[], ◌∷◌}
use native.Mathlib.Omega.{arith}
use espnetwork_serial.Prelude.Tests.{ltb, leb, if◌then◌else◌}
use espnetwork_serial.Prelude.Lists.{length, All}
use espnetwork_serial.Prelude.Bytes.{Bytes, IsByte}

hex_digit : ℕ → ℕ
hex_digit n = if ltb n 10 then b'0' + n else b'a' + (n - 10)

unfoldable pub hex_encode : Bytes → Bytes
unfolding hex_digit
hex_encode [] = []
hex_encode (b ∷ bs) = hex_digit (b / 16) ∷ hex_digit (b % 16) ∷ hex_encode bs

-- The value of a digit, of either case.
hex_value : ℕ → Option ℕ
hex_value c =
    if leb b'0' c && leb c b'9'
    then some (c - b'0')
    else if leb b'a' c && leb c b'f'
    then some (c - b'a' + 10)
    else if leb b'A' c && leb c b'F'
    then some (c - b'A' + 10)
    else none

hex_byte : Option ℕ → Option ℕ → Option Bytes → Option Bytes
hex_byte (some h) (some l) (some bs) = some ((h * 16 + l) ∷ bs)
hex_byte _ _ _ = none

-- `none` for an odd length or a character that is no digit.
unfoldable pub hex_decode : Bytes → Option Bytes
unfolding hex_value hex_byte
hex_decode [] = some []
hex_decode (h ∷ []) = none
hex_decode (h ∷ l ∷ s) = hex_byte (hex_value h) (hex_value l) (hex_decode s)

hex_value-hex_digit : (n : ℕ) → n < 16 → hex_value (hex_digit n) ≡ some n
unfolding hex_value hex_digit
hex_value-hex_digit n h = ground arith

pub hex_decode-hex_encode : (bs : Bytes) → All IsByte bs → hex_decode (hex_encode bs) ≡ some bs
unfolding hex_decode hex_encode
hex_decode-hex_encode [] h = refl
hex_decode-hex_encode (b ∷ bs) (h, hs) =
    ground (
      arith,
      hex_value-hex_digit (b / 16),
      hex_value-hex_digit (b % 16),
      hex_decode-hex_encode bs hs,
    )

pub length-hex_encode : (bs : Bytes) → length (hex_encode bs) ≡ 2 * length bs
unfolding hex_encode
length-hex_encode [] = refl
length-hex_encode (b ∷ bs) = omega (arith, length-hex_encode bs)

hex_digit-lt : (n : ℕ) → n < 16 → hex_digit n < 128
unfolding hex_digit
hex_digit-lt n h = ground arith

-- The digits are ASCII.
pub hex_encode-lt : (bs : Bytes) → All IsByte bs → All (λ c. c < 128) (hex_encode bs)
unfolding hex_encode
hex_encode-lt [] h = tt
hex_encode-lt (b ∷ bs) (h, hs) = (
  hex_digit-lt (b / 16) (omega arith),
  (hex_digit-lt (b % 16) (omega arith), hex_encode-lt bs hs),
)

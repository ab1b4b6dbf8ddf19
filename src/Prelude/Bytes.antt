-- ===== src/Prelude/Bytes.antt =====
-- Byte strings, and the functions of Go's packages bytes, encoding/binary and encoding/hex that
-- the monitor calls. A byte is a number below 256.
use Prim.Native.Char.{code}
use Prim.Native.String.{String}
use native.Mathlib.Nat.{pow-suc}
use Prim.Native.Nat.{ℕ, zero, suc, ◌+◌, ◌*◌, ◌/◌, ◌%◌, ◌^◌, ◌<◌}
use mathlib.Core.Path.{◌≡◌, refl, ◌∙◌}
use mathlib.Core.Logic.{◌↔◌}
use mathlib.Core.Bool.{Bool, true, false, ◌&&◌}
use mathlib.Core.List.{List, [], ◌∷◌, ◌++◌, append-nil, append_assoc}
use native.Mathlib.Omega.{arith}
use espnetwork_serial.Prelude.Tests.{◌==◌}
use espnetwork_serial.Prelude.Lists.{length, length-append, All}

abbrev pub Bytes : Type 0
Bytes = List ℕ

abbrev pub IsByte : ℕ → Type 0
IsByte b = b < 256

-- The bytes of an ASCII text.
abbrev pub codes : String → Bytes
codes String.[] = []
codes (String.◌∷◌ c s) = code c ∷ codes s

-- Equality of two Go strings, or `bytes.Equal`.
unfoldable pub same : Bytes → Bytes → Bool
same [] [] = true
same (x ∷ xs) (y ∷ ys) = x == y && same xs ys
same _ _ = false

pub same_iff : (a b : Bytes) → (same a b ≡ true) ↔ (a ≡ b)
unfolding same
same_iff (x ∷ a) (y ∷ b) = ground (arith, same_iff a b)
same_iff _ _ = ground arith

pub same_refl : (a : Bytes) → same a a ≡ true
same_refl a = (same_iff a a).1 refl

-- `w` bytes of `v`, highest first: `binary.BigEndian.PutUint16` and `PutUint64`.
unfoldable pub big_endian : ℕ → ℕ → Bytes
big_endian zero v = []
big_endian (suc w) v = big_endian w (v / 256) ++ (v % 256) ∷ []

unfoldable pub from_big_endian : ℕ → Bytes → ℕ
from_big_endian acc [] = acc
from_big_endian acc (b ∷ bs) = from_big_endian (acc * 256 + b) bs

pub length-big_endian : (w v : ℕ) → length (big_endian w v) ≡ w
unfolding big_endian
length-big_endian zero v = refl
length-big_endian (suc w) v =
    omega (
      arith,
      length-append (big_endian w (v / 256)) ((v % 256) ∷ []),
      length-big_endian w (v / 256),
    )

from_big_endian-concat :
    (acc : ℕ) (bs : Bytes) (b : ℕ)
    → from_big_endian acc (bs ++ b ∷ []) ≡ from_big_endian acc bs * 256 + b
unfolding from_big_endian
from_big_endian-concat acc [] b = refl
from_big_endian-concat acc (x ∷ bs) b = from_big_endian-concat (acc * 256 + x) bs b

pow_step : (w : ℕ) → 256 ^ suc w ≡ 256 * 256 ^ w
pow_step w = omega (arith, pow-suc 256 w)

pub from_big_endian-big_endian : (w v : ℕ) → v < 256 ^ w → from_big_endian 0 (big_endian w v) ≡ v
unfolding big_endian from_big_endian
from_big_endian-big_endian zero v h = omega arith
from_big_endian-big_endian (suc w) v h = omega (
  arith,
  from_big_endian-concat 0 (big_endian w (v / 256)) (v % 256),
  from_big_endian-big_endian w (v / 256) (omega (arith, pow_step w)),
)

-- Bytes are recovered from their number.
big_endian_onto :
    (bs : Bytes) (k acc w : ℕ)
    → All IsByte bs
    → w ≡ k + length bs
    → big_endian w (from_big_endian acc bs) ≡ big_endian k acc ++ bs
unfolding from_big_endian
big_endian_onto [] k acc w h e = let e' : w ≡ k = omega arith in rw (e', append-nil)
big_endian_onto (b ∷ bs) k acc w (h, hs) e =
    let high : (acc * 256 + b) / 256 ≡ acc = omega arith in
    let low : (acc * 256 + b) % 256 ≡ b = omega arith in
    big_endian_onto bs (suc k) (acc * 256 + b) w hs (omega arith)
    ∙ unfold big_endian in rw (high, low, append_assoc)

pub big_endian-from_big_endian :
    (w : ℕ) (bs : Bytes) → All IsByte bs → length bs ≡ w → big_endian w (from_big_endian 0 bs) ≡ bs
big_endian-from_big_endian w bs h e =
    big_endian_onto bs 0 0 w h (omega arith) ∙ unfold big_endian in refl

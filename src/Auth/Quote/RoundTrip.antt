-- ===== src/Auth/Quote/RoundTrip.antt =====
-- What C reads is what was quoted.
use espnetwork_serial.Prelude.{
  ℕ, ◌≤◌, ◌≡◌, refl, ◌∙◌, [], ◌∷◌, ◌++◌, append_assoc, some, arith, All, All-append,
}
use espnetwork_serial.Prelude.Bytes.{Bytes, IsByte}
use espnetwork_serial.Auth.Quote.Defs.{quote_byte, quote_bytes, quote_c_string_bytes}
use espnetwork_serial.Auth.Quote.Reading.{plain, put_front, read_literal, read_c_string}

read_literal-quote_byte :
    (v : ℕ) (s : Bytes)
    → IsByte v
    → read_literal (quote_byte v ++ s) plain ≡ put_front (v ∷ []) (read_literal s plain)
unfolding read_literal quote_byte
read_literal-quote_byte v s h = ground arith

put_front-put_front :
    (v : ℕ) (bytes : Bytes) (rest : Bytes)
    → put_front (v ∷ []) (some (bytes, rest)) ≡ some (v ∷ bytes, rest)
put_front-put_front v bytes rest = refl

read_literal-quote_bytes :
    (vs rest : Bytes)
    → All IsByte vs
    → read_literal (quote_bytes vs ++ b'"' ∷ rest) plain ≡ some (vs, rest)
unfolding quote_bytes
read_literal-quote_bytes [] rest h = unfold read_literal in refl
read_literal-quote_bytes (v ∷ vs) rest (h, hs) =
    rw (append_assoc (quote_byte v) (quote_bytes vs) (b'"' ∷ rest)) (
      read_literal-quote_byte v (quote_bytes vs ++ b'"' ∷ rest) h
      ∙ rw (read_literal-quote_bytes vs rest hs) refl)

-- C reads the literal that was written for some bytes as just these bytes, whatever they are and
-- whatever stands behind the literal.
pub read_c_string-quote_c_string_bytes :
    (vs rest : Bytes)
    → All IsByte vs
    → read_c_string (quote_c_string_bytes vs ++ rest) ≡ some (vs, rest)
unfolding read_c_string quote_c_string_bytes
read_c_string-quote_c_string_bytes vs rest h =
    rw (append_assoc (quote_bytes vs) (b'"' ∷ []) rest) (read_literal-quote_bytes vs rest h)

-- A character that needs no encoding and ends no line.
abbrev pub IsPrintable : ℕ → Type 0
IsPrintable c = (0x20 ≤ c) × (c ≤ 0x7e)

quote_byte-IsPrintable : (v : ℕ) → IsByte v → All IsPrintable (quote_byte v)
unfolding quote_byte
quote_byte-IsPrintable v h = ground arith

quote_bytes-IsPrintable : (vs : Bytes) → All IsByte vs → All IsPrintable (quote_bytes vs)
unfolding quote_bytes
quote_bytes-IsPrintable [] h = tt
quote_bytes-IsPrintable (v ∷ vs) (h, hs) =
    All-append IsPrintable (quote_byte v) (quote_bytes vs) (quote_byte-IsPrintable v h)
      (quote_bytes-IsPrintable vs hs)

-- The literal stands on one line, in printable ASCII.
pub quote_c_string_bytes-IsPrintable :
    (vs : Bytes) → All IsByte vs → All IsPrintable (quote_c_string_bytes vs)
unfolding quote_c_string_bytes
quote_c_string_bytes-IsPrintable vs h = (
  omega arith,
  All-append IsPrintable (quote_bytes vs) (b'"' ∷ []) (quote_bytes-IsPrintable vs h) (omega arith),
)

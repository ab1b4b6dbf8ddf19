-- ===== src/Auth/Quote/Defs.antt =====
-- `quoteCStringBytes`.
use espnetwork_serial.Prelude.{ℕ, ◌+◌, ◌/◌, ◌%◌, ◌&&◌, leb, ◌==◌, if◌then◌else◌, [], ◌∷◌, ◌++◌}
use espnetwork_serial.Prelude.Bytes.{Bytes}

-- The `switch` on one byte; `%03o` of a byte has three digits.
unfoldable pub quote_byte : ℕ → Bytes
quote_byte v =
    if v == b'\\'
    then b'\\' ∷ b'\\' ∷ []
    else if v == b'"'
    then b'\\' ∷ b'"' ∷ []
    else if v == b'\n'
    then b'\\' ∷ b'n' ∷ []
    else if v == b'\r'
    then b'\\' ∷ b'r' ∷ []
    else if v == b'\t'
    then b'\\' ∷ b't' ∷ []
    else if leb 0x20 v && leb v 0x7e
    then v ∷ []
    else b'\\' ∷ (b'0' + v / 64) ∷ (b'0' + v / 8 % 8) ∷ (b'0' + v % 8) ∷ []

-- The loop over the bytes.
unfoldable pub quote_bytes : Bytes → Bytes
quote_bytes [] = []
quote_bytes (v ∷ vs) = quote_byte v ++ quote_bytes vs

unfoldable pub quote_c_string_bytes : Bytes → Bytes
unfolding quote_bytes
quote_c_string_bytes bytes = b'"' ∷ (quote_bytes bytes ++ b'"' ∷ [])

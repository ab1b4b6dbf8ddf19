-- ===== src/SecureConn/Nonce.antt =====
-- The nonces of the records.
use espnetwork_serial.Prelude.{
  ℕ, ◌≤◌, ◌≡◌, ◌≢◌, sym, ◌∙◌, ap, arith, length, drop, length-append, drop-append,
}
use espnetwork_serial.Prelude.Bytes.{
  Bytes, big_endian, from_big_endian, length-big_endian, from_big_endian-big_endian,
}
use espnetwork_serial.SecureConn.Defs.{make_nonce, nonce_prefix_bytes, last_sequence}

nonce_number :
    (prefix : Bytes) (a : ℕ)
    → length prefix ≡ nonce_prefix_bytes
    → a ≤ last_sequence
    → from_big_endian 0 (drop nonce_prefix_bytes (make_nonce prefix a)) ≡ a
unfolding make_nonce
nonce_number prefix a l h =
    rw (drop-append prefix (big_endian 8 a) nonce_prefix_bytes l)
      (from_big_endian-big_endian 8 a (omega arith))

-- A nonce has the twelve bytes that AES-GCM wants.
pub length-make_nonce :
    (prefix : Bytes) (a : ℕ)
    → length prefix ≡ nonce_prefix_bytes
    → length (make_nonce prefix a) ≡ 12
unfolding make_nonce
length-make_nonce prefix a l =
    omega (arith, length-append prefix (big_endian 8 a), length-big_endian 8 a)

-- Under one nonce prefix of four bytes, two different sequence numbers of 64 bits give different
-- nonces.
pub make_nonce-ne :
    (prefix : Bytes) (a b : ℕ)
    → length prefix ≡ nonce_prefix_bytes
    → a ≤ last_sequence
    → b ≤ last_sequence
    → a ≢ b
    → make_nonce prefix a ≢ make_nonce prefix b
make_nonce-ne prefix a b l ha hb ne e = ne (
    sym (nonce_number prefix a l ha)
    ∙ ap (λ (x : Bytes). from_big_endian 0 (drop nonce_prefix_bytes x)) e
    ∙ nonce_number prefix b l hb)

-- ===== src/SecureConn/Channel/Stream.antt =====
-- What a receiver has still to hand out, and a call of `Read` that hands out a part of it.
use espnetwork_serial.Prelude.{
  ℕ, ◌+◌, ◌%◌, ◌^◌, ◌≤◌, ◌≡◌, refl, false, List, [], ◌∷◌, ◌++◌, none, arith, length, take, drop,
  length-append, take-append, drop-append, All,
}
use espnetwork_serial.Prelude.Bytes.{
  Bytes, big_endian, from_big_endian, length-big_endian, from_big_endian-big_endian,
}
use espnetwork_serial.Net.{flat, IsClean}
use espnetwork_serial.SecureConn.Gcm.{Gcm}
use espnetwork_serial.SecureConn.Defs.{
  SecureConn, last_sequence, record_max_payload, record_header_bytes, record_header, read,
}
use espnetwork_serial.SecureConn.Write.{IsPayload, seal_records, flatten}

-- `text` is what this side has still to hand out: the bytes left over, and then what the stream
-- holds as sealed records from the expected sequence number up to `stop`, before `rest`. The stream may come in any pieces.
pub record Pending (g : Gcm) (s : SecureConn) (text rest : Bytes) (stop : ℕ) : Type 0 where
  pub chunks : List Bytes
  pub payloads : All IsPayload chunks
  pub content : text ≡ s.rx_plain ++ flatten chunks
  pub stream :
      flat s.conn.incoming ≡ seal_records g s.rx_aead s.rx_nonce_prefix s.rx_sequence chunks ++ rest
  pub clean : IsClean s.conn.incoming
  pub alive : s.conn.closed ≡ false
  pub count : s.rx_sequence + length chunks ≡ stop

pub header_parts :
    (size sequence : ℕ)
    → size ≤ record_max_payload
    → sequence ≤ last_sequence
    → (length (record_header size sequence) ≡ record_header_bytes)
      × (from_big_endian 0 (take 2 (record_header size sequence)) ≡ size)
      × (from_big_endian 0 (drop 2 (record_header size sequence)) ≡ sequence)
unfolding record_header
header_parts size sequence h k =
    let front = big_endian 2 (size % 2 ^ 16) in
    let small : size % 2 ^ 16 ≡ size = omega arith in
    let two = length-big_endian 2 (size % 2 ^ 16) in
    (
      omega (arith, length-append front (big_endian 8 sequence), two, length-big_endian 8 sequence),
      rw (take-append front (big_endian 8 sequence) 2 two, small)
          (from_big_endian-big_endian 2 size (omega arith)),
      rw (drop-append front (big_endian 8 sequence) 2 two)
          (from_big_endian-big_endian 8 sequence (omega arith)),
    )

pub empty_of_length : (xs : Bytes) → length xs ≡ 0 → xs ≡ []
empty_of_length [] h = refl
empty_of_length (x ∷ xs) h = absurd (omega arith)

-- A call of `Read` succeeds on a pending text, and hands out the beginning of it.
pub record Delivers (g : Gcm) (s : SecureConn) (k : ℕ) (text rest : Bytes) (stop : ℕ) : Type 0 where
  pub after : SecureConn
  pub handed : Bytes
  pub later : Bytes
  pub result : read g s k ≡ (after, handed, none)
  pub some_bytes : 1 ≤ length handed
  pub at_most : length handed ≤ k
  pub splits : text ≡ handed ++ later
  pub pending : Pending g after later rest stop

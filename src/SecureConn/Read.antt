-- ===== src/SecureConn/Read.antt =====
-- `Read`: a failed call hands out nothing and keeps its place; a call that opens a record has taken
-- the very record that was sealed under the next sequence number.
use espnetwork_serial.Prelude.{
  ℕ, ◌+◌, ◌%◌, ◌^◌, ◌≤◌, ◌<◌, ◌≡◌, ◌≢◌, sym, ◌∙◌, ap, [], ◌++◌, Option, none, some, arith, length,
  take, drop, length-take, length-drop, take-append-drop, drop_all, append_assoc, Option-cases, inl,
  inr, All, All-take, All-drop, All-append_front,
}
use espnetwork_serial.Prelude.Bytes.{Bytes, IsByte, from_big_endian, big_endian-from_big_endian}
use espnetwork_serial.Net.{Conn, NetError, read_full, flat, read_full-Takes}
use espnetwork_serial.SecureConn.Gcm.{Gcm, IsGcm}
use espnetwork_serial.SecureConn.Defs.{
  SecureConn, SecureError, last_sequence, record_max_payload, gcm_tag_bytes, record_header_bytes,
  record_header, make_nonce, read_payload, read_body, read,
}
use espnetwork_serial.SecureConn.Write.{IsPayload, record_bytes}

-- The receiver did not move on, and nothing of the keys and of the sending half changed.
pub record Stays (s s' : SecureConn) : Type 0 where
  pub rx_sequence : s'.rx_sequence ≡ s.rx_sequence
  pub rx_plain : s'.rx_plain ≡ s.rx_plain
  pub rx_aead : s'.rx_aead ≡ s.rx_aead
  pub rx_nonce_prefix : s'.rx_nonce_prefix ≡ s.rx_nonce_prefix
  pub tx_aead : s'.tx_aead ≡ s.tx_aead
  pub tx_nonce_prefix : s'.tx_nonce_prefix ≡ s.tx_nonce_prefix
  pub tx_sequence : s'.tx_sequence ≡ s.tx_sequence
  pub outgoing : s'.conn.outgoing ≡ s.conn.outgoing

abbrev FailsClosed : SecureConn → SecureConn × Bytes × Option SecureError → Type 0
FailsClosed s (s', d, e) = e ≢ none → (d ≡ []) × Stays s s'

read_payload-FailsClosed :
    (g : Gcm) (s : SecureConn) (k : ℕ) (header : Bytes) → FailsClosed s (read_payload g s k header)
unfolding read_payload
read_payload-FailsClosed g s k header =
    ground (arith, read_full-Takes s.conn (from_big_endian 0 (take 2 header) + gcm_tag_bytes))

read_body-FailsClosed :
    (g : Gcm) (s : SecureConn) (k : ℕ) (header : Bytes) → FailsClosed s (read_body g s k header)
unfolding read_body
read_body-FailsClosed g s k header = ground (arith, read_payload-FailsClosed g s k header)

read_result-FailsClosed : (g : Gcm) (s : SecureConn) (k : ℕ) → FailsClosed s (read g s k)
unfolding read
read_result-FailsClosed g s k = ground (
  arith,
  read_full-Takes s.conn record_header_bytes,
  read_body-FailsClosed g (record s { conn = (read_full s.conn record_header_bytes).0 }) k
      (read_full s.conn record_header_bytes).1,
)

-- A `Read` that returns an error hands out no byte, and the sequence number that it expects, the
-- bytes still to hand out, the keys and nonce prefixes and the sending half stay as they were.
pub read-FailsClosed :
    (g : Gcm) (s : SecureConn) (k : ℕ) (s' : SecureConn) (d : Bytes) (err : SecureError)
    → read g s k ≡ (s', d, some err)
    → (d ≡ []) × Stays s s'
read-FailsClosed g s k s' d err e = rw e at (read_result-FailsClosed g s k) (λ x. cc)

-- A header of ten bytes is the one laid out for its own length and number.
header_of_parts :
    (header : Bytes)
    → All IsByte header
    → length header ≡ record_header_bytes
    → from_big_endian 0 (take 2 header) ≤ record_max_payload
    → record_header (from_big_endian 0 (take 2 header)) (from_big_endian 0 (drop 2 header)) ≡ header
unfolding record_header
header_of_parts header h l m =
    let small : from_big_endian 0 (take 2 header) % 2 ^ 16 ≡ from_big_endian 0 (take 2 header) =
      omega arith in
    rw small (
      rw
        (
          big_endian-from_big_endian 2 (take 2 header) (All-take IsByte 2 header h)
              (omega (arith, length-take 2 header)),
          big_endian-from_big_endian 8 (drop 2 header) (All-drop IsByte 2 header h)
              (omega (arith, length-drop 2 header)),
        )
        (take-append-drop 2 header))

-- A call opened the next record, and handed out the first `k` bytes of it.
pub record Accepts (g : Gcm) (s : SecureConn) (k : ℕ) (s' : SecureConn) (d : Bytes) : Type 0 where
  pub plain : Bytes
  pub payload : IsPayload plain
  pub stream :
      flat s.conn.incoming
      ≡ record_bytes g s.rx_aead s.rx_nonce_prefix s.rx_sequence plain ++ flat s'.conn.incoming
  pub handed : d ≡ take k plain
  pub kept : s'.rx_plain ≡ drop k plain
  pub sequence : s'.rx_sequence ≡ s.rx_sequence + 1

module _ (g : Gcm) (laws : IsGcm g) (s : SecureConn) (k : ℕ) (header : Bytes) where
  abbrev size : ℕ
  size = from_big_endian 0 (take 2 header)

  abbrev sequence : ℕ
  sequence = from_big_endian 0 (drop 2 header)

  abbrev sealed : Conn × Bytes × Option NetError
  sealed = read_full s.conn (size + gcm_tag_bytes)

  -- What a successful call has read and opened.
  read_payload_parts :
      (s' : SecureConn) (d : Bytes)
      → s.rx_plain ≡ []
      → s.rx_sequence < last_sequence
      → read_payload g s k header ≡ (s', d, none)
      → (plain : Bytes) × (sealed.2 ≡ none)
        × (g.unseal s.rx_aead (make_nonce s.rx_nonce_prefix sequence) sealed.1 header ≡ some plain)
        × (d ≡ take k plain)
        × (s'.rx_plain ≡ drop k plain)
        × (s'.rx_sequence ≡ s.rx_sequence + 1)
        × (s'.conn ≡ sealed.0)
  unfolding read_payload
  read_payload_parts s' d z b e = elim (Option-cases sealed.2) [
    | inr (err, q) ↦ cc (rw (q, read_payload) at e)
    | inl q ↦
        elim (Option-cases
          (g.unseal s.rx_aead (make_nonce s.rx_nonce_prefix sequence) sealed.1 header)) [
            | inl u ↦ cc (rw (q, u, read_payload) at e)
            | inr (plain, u) ↦ (
              plain,
              q,
              u,
              ground arith,
              ground (arith, drop_all k plain),
              ground arith,
              ground arith,
            )
          ]
  ]

  pub read_payload-Accepts :
      (c : Conn) (s' : SecureConn) (d : Bytes)
      → s.rx_plain ≡ []
      → s.rx_sequence < last_sequence
      → flat c.incoming ≡ header ++ flat s.conn.incoming
      → All IsByte header
      → length header ≡ record_header_bytes
      → 1 ≤ size
      → size ≤ record_max_payload
      → sequence ≡ s.rx_sequence
      → read_payload g s k header ≡ (s', d, none)
      → Accepts g (record s { conn = c }) k s' d
  read_payload-Accepts c s' d z b front bytes len lo hi seq e =
      let (plain, full, u, handed, kept, next, conn) = read_payload_parts s' d z b e in
      let opened =
        laws.seal-unseal s.rx_aead (make_nonce s.rx_nonce_prefix sequence) sealed.1 header u in
      let took = read_full-Takes s.conn (size + gcm_tag_bytes) in
      let as_long : length plain ≡ size = omega (
        arith,
        took.full full,
        ap length opened,
        laws.length-seal s.rx_aead (make_nonce s.rx_nonce_prefix sequence) plain header,
      ) in
      let own_header : record_header (length plain) s.rx_sequence ≡ header =
        rw (as_long, ← seq) (header_of_parts header bytes len hi) in
      record {
        plain = plain;
        payload = (omega arith, omega arith);
        stream =
            rw (own_header, conn, ← rw seq at opened)
              (front
                ∙ ap (λ (x : Bytes). header ++ x) took.stream
                ∙ sym (append_assoc header sealed.1 (flat sealed.0.incoming)));
        handed = handed;
        kept = kept;
        sequence = next;
      }

-- The tests that a successful call has passed.
read_body_parts :
    (g : Gcm) (s : SecureConn) (k : ℕ) (header : Bytes) (s' : SecureConn) (d : Bytes)
    → read_body g s k header ≡ (s', d, none)
    → (1 ≤ from_big_endian 0 (take 2 header))
      × (from_big_endian 0 (take 2 header) ≤ record_max_payload)
      × (s.rx_sequence ≢ last_sequence)
      × (from_big_endian 0 (drop 2 header) ≡ s.rx_sequence)
      × (read_payload g s k header ≡ (s', d, none))
unfolding read_body
read_body_parts g s k header s' d e =
    (ground arith, ground arith, ground arith, ground arith, ground arith)

read_parts :
    (g : Gcm) (s : SecureConn) (k : ℕ) (s' : SecureConn) (d : Bytes)
    → s.rx_plain ≡ []
    → 0 < k
    → read g s k ≡ (s', d, none)
    → let (c, header, err) = read_full s.conn record_header_bytes in
      (err ≡ none) × (read_body g (record s { conn = c }) k header ≡ (s', d, none))
unfolding read
read_parts g s k s' d z pos e = (ground arith, ground arith)

-- A `Read` that finds nothing left over and returns no error has taken one whole record off the
-- front of the stream, namely the one sealed under the receiving key, nonce prefix and expected
-- sequence number over some text of 1 to 1024 bytes. It hands out the first `k` bytes of the text,
-- keeps the others, and expects the next number.
pub read-Accepts :
    (g : Gcm) (s : SecureConn) (k : ℕ) (s' : SecureConn) (d : Bytes)
    → IsGcm g
    → All IsByte (flat s.conn.incoming)
    → s.rx_sequence ≤ last_sequence
    → s.rx_plain ≡ []
    → 0 < k
    → read g s k ≡ (s', d, none)
    → Accepts g s k s' d
read-Accepts g s k s' d laws bytes b z pos e =
    let took = read_full-Takes s.conn record_header_bytes in
    let (c, header, err) = read_full s.conn record_header_bytes in
    let (ok, body) = read_parts g s k s' d z pos e in
    let (lo, hi, room, seq, rest) = read_body_parts g (record s { conn = c }) k header s' d body in
    read_payload-Accepts g laws (record s { conn = c }) k header s.conn s' d z (omega arith)
      took.stream (All-append_front IsByte header (flat c.incoming) (rw took.stream at bytes))
      (took.full ok) lo hi seq rest

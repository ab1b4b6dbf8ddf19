-- ===== src/SecureConn/Channel/Opens.antt =====
-- `Read` at a record that has arrived whole.
use espnetwork_serial.Prelude.{ℕ, ◌+◌, ◌<◌, ◌≡◌, [], none, arith, length, take, drop, drop_all}
use espnetwork_serial.Prelude.Bytes.{Bytes}
use espnetwork_serial.Net.{Conn, read_full}
use espnetwork_serial.SecureConn.Gcm.{Gcm, IsGcm}
use espnetwork_serial.SecureConn.Defs.{
  SecureConn, last_sequence, record_header_bytes, gcm_tag_bytes, record_header, make_nonce,
  read_payload, read_body, read,
}
use espnetwork_serial.SecureConn.Write.{IsPayload}
use espnetwork_serial.SecureConn.Channel.Stream.{header_parts}

-- The receiver after a record with the text `c`, its connection being left at `conn`.
abbrev pub after_record : SecureConn → ℕ → Conn → Bytes → SecureConn
after_record s k conn c = record s {
  conn = conn;
  rx_sequence = s.rx_sequence + 1;
  rx_plain = drop k c;
}

-- The two parts of the record that the receiver expects, over the text `c`.
abbrev pub expected_header : SecureConn → Bytes → Bytes
expected_header s c = record_header (length c) s.rx_sequence

abbrev pub expected_seal : Gcm → SecureConn → Bytes → Bytes
expected_seal g s c =
    g.seal s.rx_aead (make_nonce s.rx_nonce_prefix s.rx_sequence) c (expected_header s c)

module _ (g : Gcm) (s : SecureConn) (k : ℕ) (pos : 0 < k) (c : Bytes) where
  opens_payload :
      (c1 c2 : Conn)
      → IsGcm g
      → s.rx_plain ≡ []
      → IsPayload c
      → s.rx_sequence < last_sequence
      → read_full c1 (length c + gcm_tag_bytes) ≡ (c2, expected_seal g s c, none)
      → read_payload g (record s { conn = c1 }) k (expected_header s c)
        ≡ (after_record s k c2 c, take k c, none)
  unfolding read_payload
  opens_payload c1 c2 laws z pay room e =
      let (_, size, seq) = header_parts (length c) s.rx_sequence pay.1 (omega arith) in
      let opened =
        laws.unseal-seal s.rx_aead (make_nonce s.rx_nonce_prefix s.rx_sequence) c
          (expected_header s c) in
      ground (arith, size, seq, e, opened, drop_all k c)

  pub opens_record :
      (c1 c2 : Conn)
      → IsGcm g
      → s.rx_plain ≡ []
      → IsPayload c
      → s.rx_sequence < last_sequence
      → read_full s.conn record_header_bytes ≡ (c1, expected_header s c, none)
      → read_full c1 (length c + gcm_tag_bytes) ≡ (c2, expected_seal g s c, none)
      → read g s k ≡ (after_record s k c2 c, take k c, none)
  unfolding read read_body
  opens_record c1 c2 laws z pay room e1 e2 = ground (
    arith,
    header_parts (length c) s.rx_sequence pay.1 (omega arith),
    opens_payload c1 c2 laws z pay room e2,
  )

-- ===== src/SecureConn/Defs.antt =====
-- The state of an `espnsSecureConn` and its operations.
use espnetwork_serial.Prelude.{
  ℕ, zero, suc, ◌+◌, ◌-◌, ◌%◌, ◌^◌, not, ◌||◌, [], ◌∷◌, ◌++◌, Option, none, some, ltb, ◌==◌, length,
  take, drop, if◌then◌else◌,
}
use espnetwork_serial.Prelude.Bytes.{Bytes, big_endian, from_big_endian}
use espnetwork_serial.Net.{NetError, Conn, conn_write, read_full}
use espnetwork_serial.SecureConn.Gcm.{Gcm}

abbrev pub record_max_payload : ℕ
record_max_payload = 1024

abbrev pub record_header_bytes : ℕ
record_header_bytes = 10

abbrev pub gcm_tag_bytes : ℕ
gcm_tag_bytes = 16

abbrev pub nonce_prefix_bytes : ℕ
nonce_prefix_bytes = 4

abbrev pub u64_mod : ℕ
u64_mod = 2 ^ 64

-- `^uint64(0)`
abbrev pub last_sequence : ℕ
last_sequence = 2 ^ 64 - 1

-- `out_of_fuel` is no error of the program: it marks a loop of the model that was cut short.
pub data SecureError : Type 0 where
  out_of_fuel err_short_write : SecureError
  net : NetError → SecureError
  tx_cipher rx_cipher tx_gcm rx_gcm gcm_parameters : SecureError
  tx_exhausted rx_exhausted authentication_failed : SecureError
  invalid_length : ℕ → SecureError
  invalid_sequence : ℕ → ℕ → SecureError

pub record SecureConn : Type 0 where
  pub conn : Conn
  pub tx_aead : Bytes
  pub rx_aead : Bytes
  pub tx_nonce_prefix : Bytes
  pub rx_nonce_prefix : Bytes
  pub tx_sequence : ℕ
  pub rx_sequence : ℕ
  pub rx_plain : Bytes

pub data NewConn : Type 0 where
  opened : SecureConn → NewConn
  refused : SecureError → NewConn

unfoldable pub new_secure_conn : Gcm → Conn → Bytes → Bytes → Bytes → Bytes → NewConn
new_secure_conn g conn tx_key rx_key tx_prefix rx_prefix =
    if not (g.new_cipher tx_key)
    then refused tx_cipher
    else if not (g.new_cipher rx_key)
    then refused rx_cipher
    else if not (g.new_gcm tx_key)
    then refused tx_gcm
    else if not (g.new_gcm rx_key)
    then refused rx_gcm
    else if not (g.nonce_size == 12) || not (g.overhead == gcm_tag_bytes)
    then refused gcm_parameters
    else opened (record {
      conn = conn;
      tx_aead = tx_key;
      rx_aead = rx_key;
      tx_nonce_prefix = tx_prefix;
      rx_nonce_prefix = rx_prefix;
      tx_sequence = 0;
      rx_sequence = 0;
      rx_plain = [];
    })

unfoldable pub make_nonce : Bytes → ℕ → Bytes
make_nonce prefix sequence = prefix ++ big_endian 8 sequence

-- `for len(p) > 0 { … }`. A round takes at least one byte, so the bytes bound the rounds.
unfoldable pub write_all_loop : ℕ → Conn → Bytes → Conn × Option SecureError
write_all_loop fuel c [] = (c, none)
write_all_loop zero c (b ∷ p) = (c, some out_of_fuel)
write_all_loop (suc fuel) c (b ∷ p) =
    let (c', n, e) = conn_write c (b ∷ p) in
    let rest = write_all_loop fuel c' (drop n (b ∷ p)) in
    elim e [
      | some err ↦ (c', some (net err))
      | none ↦ if n == 0 then (c', some err_short_write) else rest
    ]

unfoldable pub write_all : Conn → Bytes → Conn × Option SecureError
unfolding write_all_loop
write_all c p = write_all_loop (length p) c p

-- The header of a record: length and sequence number, as `Write` lays them out.
unfoldable pub record_header : ℕ → ℕ → Bytes
record_header size sequence = big_endian 2 (size % 2 ^ 16) ++ big_endian 8 sequence

-- One round of the loop of `Write`, after the test for exhaustion.
unfoldable pub send_record : Gcm → SecureConn → Bytes → SecureConn × Option SecureError
send_record g s chunk =
    let header = record_header (length chunk) s.tx_sequence in
    let nonce = make_nonce s.tx_nonce_prefix s.tx_sequence in
    let sealed = g.seal s.tx_aead nonce chunk header in
    let (c, e) = write_all s.conn header in
    let (c', e') = write_all c sealed in
    elim e [
      | some err ↦ (record s { conn = c }, some err)
      | none ↦ elim e' [
        | some err ↦ (record s { conn = c' }, some err)
        | none ↦ (record s { conn = c'; tx_sequence = (s.tx_sequence + 1) % u64_mod }, none)
      ]
    ]

abbrev pub chunk_size : ℕ → ℕ
chunk_size remaining = if ltb record_max_payload remaining then record_max_payload else remaining

-- `for total < len(p) { … }`, over the bytes `p[total:]`.
unfoldable pub write_loop : Gcm → ℕ → SecureConn → Bytes → ℕ → SecureConn × ℕ × Option SecureError
write_loop g fuel s [] total = (s, total, none)
write_loop g zero s (b ∷ p) total = (s, total, some out_of_fuel)
write_loop g (suc fuel) s (b ∷ p) total =
    let size = chunk_size (length (b ∷ p)) in
    let (s', e) = send_record g s (take size (b ∷ p)) in
    let rest = write_loop g fuel s' (drop size (b ∷ p)) (total + size) in
    if s.tx_sequence == last_sequence
    then (s, total, some tx_exhausted)
    else elim e [ some err ↦ (s', total, some err) | none ↦ rest ]

-- `Write`. An empty text returns before the mutex is taken.
unfoldable pub write : Gcm → SecureConn → Bytes → SecureConn × ℕ × Option SecureError
unfolding write_loop
write g s p = write_loop g (length p) s p 0

-- The rest of `Read` behind the tests on the header: the sealed text, and what of it is handed out.
unfoldable pub read_payload : Gcm → SecureConn → ℕ → Bytes → SecureConn × Bytes × Option SecureError
read_payload g s k header =
    let size = from_big_endian 0 (take 2 header) in
    let (c, sealed, e) = read_full s.conn (size + gcm_tag_bytes) in
    let sequence = from_big_endian 0 (drop 2 header) in
    let nonce = make_nonce s.rx_nonce_prefix sequence in
    let r = record s { conn = c } in
    elim e [
      | some err ↦ (r, [], some (net err))
      | none ↦ elim (g.unseal s.rx_aead nonce sealed header) [
        | none ↦ (r, [], some authentication_failed)
        | some plain ↦ (
          record r {
            rx_sequence = (s.rx_sequence + 1) % u64_mod;
            rx_plain = if ltb k (length plain) then drop k plain else s.rx_plain;
          },
          take k plain,
          none,
        )
      ]
    ]

unfoldable pub read_body : Gcm → SecureConn → ℕ → Bytes → SecureConn × Bytes × Option SecureError
read_body g s k header =
    let size = from_big_endian 0 (take 2 header) in
    let sequence = from_big_endian 0 (drop 2 header) in
    if size == 0 || ltb record_max_payload size
    then (s, [], some (invalid_length size))
    else if s.rx_sequence == last_sequence
    then (s, [], some rx_exhausted)
    else if not (sequence == s.rx_sequence)
    then (s, [], some (invalid_sequence sequence s.rx_sequence))
    else read_payload g s k header

-- `Read` into a buffer of `k` bytes: the bytes handed out and the error.
unfoldable pub read : Gcm → SecureConn → ℕ → SecureConn × Bytes × Option SecureError
read g s k =
    if k == 0
    then (s, [], none)
    else if ltb 0 (length s.rx_plain)
    then (record s { rx_plain = drop k s.rx_plain }, take k s.rx_plain, none)
    else let (c, header, e) = read_full s.conn record_header_bytes in
      let r = record s { conn = c } in
      elim e [ some err ↦ (r, [], some (net err)) | none ↦ read_body g r k header ]

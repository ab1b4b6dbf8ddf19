-- ===== src/Tests/SecureConn.antt =====
-- Runs and instances for the record layer, with a cipher that only adds a tag.
use espnetwork_serial.Prelude.{◌≡◌, ◌≢◌, refl, [], ◌∷◌, ◌++◌, none, some, arith, length}
use espnetwork_serial.Prelude.Bytes.{Bytes, codes, big_endian, from_big_endian, same}
use espnetwork_serial.Prelude.Hex.{hex_encode}
use espnetwork_serial.Net.{Conn, os_error, segment, conn_with, conn_write, read_full}
use espnetwork_serial.SecureConn.Gcm.{plain_gcm, plain_gcm-IsGcm}
use espnetwork_serial.SecureConn.Defs.{
  SecureConn, invalid_sequence, write, read, record_header, make_nonce, write_all, send_record,
  read_body, read_payload,
}
use espnetwork_serial.SecureConn.WriteAll.{Writes, write_all-Writes}
use espnetwork_serial.SecureConn.Write.{Sends, write-Sends}
use espnetwork_serial.SecureConn.Read.{Stays, read-FailsClosed, Accepts, read-Accepts}
use espnetwork_serial.SecureConn.Channel.{
  Pending, Delivers, read-Delivers, receive, Received, receive-write,
}
use espnetwork_serial.SecureConn.Nonce.{make_nonce-ne}
use espnetwork_serial.SecureConn.Keys.{
  Hmac, hkdf_expand, rfc_expand, hkdf_expand-rfc, derive_keys, keys, rfc_keys, derive_keys-rfc,
  derive_keys-only, SixteenBytes, length-copy_array, copy_array,
}

abbrev start : Conn → SecureConn
start conn = record {
  conn = conn;
  tx_aead = codes "host key";
  rx_aead = codes "host key";
  tx_nonce_prefix = codes "abcd";
  rx_nonce_prefix = codes "abcd";
  tx_sequence = 0;
  rx_sequence = 0;
  rx_plain = [];
}

-- A connection whose first write is short and whose second write fails after three bytes.
abbrev failing : Conn
failing = record (conn_with []) {
  accepts =
      record { accepted = 4; error = none }
      ∷ record { accepted = 3; error = some (os_error 32) }
      ∷ [];
}

write_all-Writes_example :
    Writes failing
      (codes "0123456789")
      (write_all failing (codes "0123456789")).0
      (write_all failing (codes "0123456789")).1
write_all-Writes_example = write_all-Writes failing (codes "0123456789")

write_all_fails : (write_all failing (codes "0123456789")).0.outgoing ≡ codes "0123456"
unfolding write_all conn_write
write_all_fails = refl

write-Sends_example :
    let r = write plain_gcm (start failing) (codes "hi") in
    Sends plain_gcm (start failing) (codes "hi") r.0 r.1 r.2
write-Sends_example = write-Sends plain_gcm (start failing) (codes "hi") (omega arith)

abbrev hello_record : Bytes
hello_record =
    0
    ∷ 5
    ∷ 0
    ∷ 0
    ∷ 0
    ∷ 0
    ∷ 0
    ∷ 0
    ∷ 0
    ∷ 0
    ∷ 0
    ∷ 0
    ∷ 0
    ∷ 0
    ∷ 0
    ∷ 0
    ∷ 0
    ∷ 0
    ∷ 0
    ∷ 0
    ∷ 0
    ∷ 0
    ∷ 0
    ∷ 0
    ∷ 0
    ∷ 0
    ∷ codes "hello"

abbrev sender : SecureConn
sender = start (conn_with [])

abbrev sent : SecureConn
sent = record sender { conn = record (conn_with []) { outgoing = hello_record }; tx_sequence = 1 }

write_hello : write plain_gcm sender (codes "hello") ≡ (sent, 5, none)
unfolding write send_record write_all conn_write record_header big_endian
write_hello = refl

-- The record arrives in two pieces.
abbrev receiver : SecureConn
receiver = start (
    conn_with (
      segment (0 ∷ 5 ∷ 0 ∷ [])
      ∷ segment (
          0
          ∷ 0
          ∷ 0
          ∷ 0
          ∷ 0
          ∷ 0
          ∷ 0
          ∷ 0
          ∷ 0
          ∷ 0
          ∷ 0
          ∷ 0
          ∷ 0
          ∷ 0
          ∷ 0
          ∷ 0
          ∷ 0
          ∷ 0
          ∷ 0
          ∷ 0
          ∷ 0
          ∷ 0
          ∷ 0
          ∷ codes "hello")
      ∷ []))

abbrev received : SecureConn
received = record (start (conn_with [])) { rx_sequence = 1; rx_plain = codes "llo" }

read_he : read plain_gcm receiver 2 ≡ (received, codes "he", none)
unfolding read read_body read_payload read_full big_endian from_big_endian record_header same
read_he = refl

read-Accepts_example : Accepts plain_gcm receiver 2 received (codes "he")
read-Accepts_example =
    read-Accepts plain_gcm receiver 2 received (codes "he") plain_gcm-IsGcm (omega arith)
      (omega arith) refl (omega arith) read_he

-- The same record once more.
abbrev replayed : SecureConn
replayed = record receiver { rx_sequence = 1 }

abbrev after_replay : SecureConn
after_replay = record replayed {
  conn = conn_with (
      segment (0 ∷ 0 ∷ 0 ∷ 0 ∷ 0 ∷ 0 ∷ 0 ∷ 0 ∷ 0 ∷ 0 ∷ 0 ∷ 0 ∷ 0 ∷ 0 ∷ 0 ∷ 0 ∷ codes "hello") ∷ []);
}

read_replay : read plain_gcm replayed 2 ≡ (after_replay, [], some (invalid_sequence 0 1))
unfolding read read_body read_full from_big_endian
read_replay = refl

read-FailsClosed_example : (◌≡◌ {A = Bytes} [] []) × Stays replayed after_replay
read-FailsClosed_example =
    read-FailsClosed plain_gcm replayed 2 after_replay [] (invalid_sequence 0 1) read_replay

receiver-Pending : Pending plain_gcm receiver (codes "hello") [] 1
receiver-Pending = record {
  chunks = codes "hello" ∷ [];
  payloads = (omega arith, tt);
  content = refl;
  stream = unfold record_header big_endian in refl;
  clean = (refl, (refl, tt));
  alive = refl;
  count = omega arith;
}

read-Delivers_example : Delivers plain_gcm receiver 2 (codes "hello") [] 1
read-Delivers_example =
    read-Delivers plain_gcm receiver 2 (codes "hello") [] 1 plain_gcm-IsGcm (omega arith)
      (omega arith) (omega arith) receiver-Pending

receive-write_example : Received (receive plain_gcm receiver 5) (codes "hello") 1
receive-write_example =
    receive-write plain_gcm sender receiver (codes "hello") sent 5 plain_gcm-IsGcm (omega arith)
      (record { aead = refl; nonce_prefix = refl; sequence = refl; drained = refl; alive = refl })
      write_hello (refl, (refl, tt)) refl

make_nonce-ne_example : make_nonce (codes "abcd") 7 ≢ make_nonce (codes "abcd") 8
make_nonce-ne_example =
    make_nonce-ne (codes "abcd") 7 8 refl (omega arith) (omega arith) (λ e. omega arith)

-- A stand-in for HMAC-SHA256, with digests of the right length.
abbrev toy_hmac : Hmac
toy_hmac k m = copy_array 32 (m ++ k)

toy_hmac-IsDigest : (k m : Bytes) → length (toy_hmac k m) ≡ 32
toy_hmac-IsDigest k m = length-copy_array 32 (m ++ k)

hkdf_expand-rfc_example :
    hkdf_expand toy_hmac (codes "prk") (codes "info") 70
    ≡ rfc_expand toy_hmac (codes "prk") (codes "info") 70
hkdf_expand-rfc_example =
    hkdf_expand-rfc toy_hmac (codes "prk") (codes "info") 70 toy_hmac-IsDigest (omega arith)

abbrev nonce_a : Bytes
nonce_a = codes "0123456789abcdef"

abbrev nonce_b : Bytes
nonce_b = codes "fedcba9876543210"

derive_keys-rfc_example :
    derive_keys toy_hmac (codes "secret") (hex_encode nonce_a) (hex_encode nonce_b)
    ≡ keys (rfc_keys toy_hmac (codes "secret") nonce_a nonce_b)
derive_keys-rfc_example =
    derive_keys-rfc toy_hmac (codes "secret") nonce_a nonce_b toy_hmac-IsDigest (omega arith)
      (omega arith) refl refl

derive_keys-only_example :
    ((c : Bytes) × SixteenBytes (hex_encode nonce_a) c)
    × ((s : Bytes) × SixteenBytes (hex_encode nonce_b) s)
derive_keys-only_example =
    derive_keys-only toy_hmac (codes "secret") (hex_encode nonce_a) (hex_encode nonce_b)
      derive_keys-rfc_example

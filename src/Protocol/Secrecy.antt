-- ===== src/Protocol/Secrecy.antt =====
-- What the host lets out during the handshake.
use espnetwork_serial.Prelude.{
  ℕ, zero, suc, ◌+◌, ◌≡◌, refl, sym, ◌∙◌, [], ◌++◌, some, arith, take, append-nil, Option-cases,
  inl, inr, ◌⊎◌,
}
use espnetwork_serial.Prelude.Bytes.{Bytes, codes, same_iff}
use espnetwork_serial.Prelude.Hex.{hex_encode}
use espnetwork_serial.Net.{Conn, conn_read, conn_write}
use espnetwork_serial.SecureConn.WriteAll.{conn_write_lem}
use espnetwork_serial.SecureConn.Keys.{Hmac}
use espnetwork_serial.Auth.Settings.{AuthSettings}
use espnetwork_serial.Protocol.Line.{
  LineResult, line_is, extend, reads_left, read_line_loop, read_line,
}
use espnetwork_serial.Protocol.Fields.{get_field, parse_fields}
use espnetwork_serial.Protocol.Message.{secure_mode, hmac_method, Env, Outcome, handshake_timeout}
use espnetwork_serial.Protocol.Defs.{
  espns_hmac, clear_deadline, on_ok, digest_of_hex, on_challenge, on_response, after_hello,
  hello_message, say_hello, negotiate,
}
use espnetwork_serial.Protocol.Proved.{challenge_nonce, challenge_proof, Verified}
use espnetwork_serial.Protocol.Security.{hello_sent}

conn_read-outgoing : (c : Conn) (k : ℕ) → (conn_read c k).0.outgoing ≡ c.outgoing
unfolding conn_read
conn_read-outgoing c k = ground arith

read_line_loop-outgoing :
    (fuel : ℕ) (c : Conn) (line : Bytes) → (read_line_loop fuel c line).0.outgoing ≡ c.outgoing
unfolding read_line_loop
read_line_loop-outgoing zero c line = refl
read_line_loop-outgoing (suc fuel) c line = ground (
  arith,
  conn_read-outgoing c 1,
  read_line_loop-outgoing fuel (conn_read c 1).0 (extend line (conn_read c 1).1),
)

read_line-outgoing : (c : Conn) → (read_line c).0.outgoing ≡ c.outgoing
unfolding read_line
read_line-outgoing c = read_line_loop-outgoing (suc (reads_left c.incoming)) c []

on_ok-outgoing :
    (env : Env) (auth : AuthSettings) (c : Conn) (line : Bytes)
    → (on_ok env auth c line).0.outgoing ≡ c.outgoing
unfolding on_ok clear_deadline
on_ok-outgoing env auth c line = ground arith

module _ (hmac : Hmac) (env : Env) (auth : AuthSettings) (client_nonce : Bytes) where
  -- Nothing more is sent, or the challenge was verified.
  abbrev Quiet : Conn → Bytes → Conn × Outcome → Type 0
  Quiet c line r = (r.0.outgoing ≡ c.outgoing) ⊎ Verified hmac auth client_nonce line

  on_challenge-Quiet :
      (c : Conn) (line : Bytes) → Quiet c line (on_challenge hmac env auth c client_nonce line)
  unfolding on_challenge
  on_challenge-Quiet c line = elim (Option-cases (digest_of_hex (challenge_proof line))) [
    | inl none_given ↦ inl (ground (arith, none_given))
    | inr (proof, given) ↦ ground (
      arith,
      given,
      same_iff (get_field (codes "auth") (parse_fields line)) hmac_method,
      same_iff (get_field (codes "mode") (parse_fields line)) secure_mode,
      same_iff proof (
          espns_hmac hmac auth.key (codes "SERVER") client_nonce (challenge_nonce line)
            secure_mode),
    )
  ]

  on_response-Quiet :
      (c : Conn) (line : Bytes) → Quiet c line (on_response hmac env auth c client_nonce line)
  unfolding on_response
  on_response-Quiet c line =
      ground (arith, on_ok-outgoing env auth c line, on_challenge-Quiet c line)

  after_hello-Quiet :
      (c : Conn) (r : LineResult)
      → ((after_hello hmac env auth c client_nonce r).0.outgoing ≡ c.outgoing)
        ⊎ ((line : Bytes) × (r ≡ line_is line) × Verified hmac auth client_nonce line)
  unfolding after_hello
  after_hello-Quiet c (line_is line) = elim (on_response-Quiet c line) [
    | inl quiet ↦ inl quiet
    | inr verified ↦ inr (line, refl, verified)
  ]
  after_hello-Quiet c _ = inl refl

  say_hello-Quiet :
      (c : Conn)
      → let sent = conn_write c (hello_message client_nonce) in
        ((say_hello hmac env auth c client_nonce).0.outgoing
          ≡ c.outgoing ++ take sent.1 (hello_message client_nonce))
        ⊎ ((line : Bytes) × ((read_line sent.0).1 ≡ line_is line)
            × Verified hmac auth client_nonce line)
  unfolding say_hello
  say_hello-Quiet c =
      let sent = conn_write c (hello_message client_nonce) in
      let (out, _, _) = conn_write_lem c (hello_message client_nonce) in
      elim (Option-cases sent.2) [
        | inr (err, q) ↦ inl (rw (q, say_hello) out)
        | inl q ↦ elim (after_hello-Quiet (read_line sent.0).0 (read_line sent.0).1) [
          | inl quiet ↦ inl (rw (q, say_hello) (quiet ∙ read_line-outgoing sent.0 ∙ out))
          | inr verified ↦ inr verified
        ]
      ]

-- If there are random bytes for the nonce, then however the handshake ends, the host has sent nothing
-- but its hello, or a first part of it, unless the device's challenge carried the right proof.
pub negotiate-outgoing :
    (hmac : Hmac) (env : Env) (auth : AuthSettings) (c : Conn) (raw : Bytes)
    → env.random ≡ some raw
    → ((n : ℕ) × ((negotiate hmac env auth c).0.outgoing
          ≡ c.outgoing ++ take n (hello_message (hex_encode raw))))
      ⊎ ((challenge : Bytes) × ((read_line (hello_sent env c raw)).1 ≡ line_is challenge)
          × Verified hmac auth (hex_encode raw) challenge)
unfolding negotiate
negotiate-outgoing hmac env auth c raw given = elim (Option-cases env.set_error) [
  | inr (err, q) ↦ inl (0, rw (q, negotiate) (sym (append-nil c.outgoing)))
  | inl q ↦
      elim (say_hello-Quiet hmac env auth (hex_encode raw)
        (record c { deadline = some (env.now + handshake_timeout) })) [
          | inl quiet ↦ inl (
            (conn_write (record c { deadline = some (env.now + handshake_timeout) })
                (hello_message (hex_encode raw))).1,
            rw (q, given, negotiate) quiet,
          )
          | inr verified ↦ inr verified
        ]
]

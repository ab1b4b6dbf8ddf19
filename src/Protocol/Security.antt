-- ===== src/Protocol/Security.antt =====
-- What a successful handshake guarantees to the host.
use espnetwork_serial.Prelude.{
  ◌+◌, ◌≡◌, refl, true, false, some, arith, Option-cases, Bool-cases, inl, inr, ◌⊎◌,
}
use espnetwork_serial.Prelude.Bytes.{Bytes}
use espnetwork_serial.Prelude.Hex.{hex_encode}
use espnetwork_serial.Net.{Conn, conn_write}
use espnetwork_serial.SecureConn.Keys.{Hmac}
use espnetwork_serial.Auth.Settings.{AuthSettings, enabled}
use espnetwork_serial.Protocol.Line.{LineResult, line_is, read_line}
use espnetwork_serial.Protocol.Message.{
  ok_line, challenge_line, handshake_timeout, is_reply, Env, Negotiation, agreed,
}
use espnetwork_serial.Protocol.Defs.{
  after_hello, on_challenge, on_response, hello_message, say_hello, negotiate,
}
use espnetwork_serial.Protocol.Proved.{
  Confirmed, on_ok-agreed, proof_sent, send_proof-Confirmed, challenge_nonce, Verified,
  on_challenge-Verified,
}

-- How a handshake may succeed once the hello is sent.
abbrev pub AgreedRaw : AuthSettings → Negotiation → Type 0
AgreedRaw auth n =
    (n.secure ≡ false) × ((enabled auth ≡ false) ⊎ (auth.allow_unauthenticated ≡ true))

-- The device's two lines, and what was checked of them; `c` is the connection with the hello sent.
pub record Secured (hmac : Hmac) (auth : AuthSettings) (client_nonce : Bytes) (c : Conn)
    (n : Negotiation) : Type 0 where
  pub challenge : Bytes
  pub challenged : (read_line c).1 ≡ line_is challenge
  pub is_challenge : is_reply challenge_line challenge ≡ true
  pub verified : Verified hmac auth client_nonce challenge
  pub result : Bytes
  pub answered :
      (read_line (proof_sent hmac auth client_nonce (challenge_nonce challenge) (read_line c).0)).1
      ≡ line_is result
  pub confirmed : Confirmed hmac auth client_nonce (challenge_nonce challenge) result n

on_response-agreed :
    (hmac : Hmac) (env : Env) (auth : AuthSettings) (c : Conn) (client_nonce line : Bytes)
    (c' : Conn) (n : Negotiation)
    → on_response hmac env auth c client_nonce line ≡ (c', agreed n)
    → AgreedRaw auth n
      ⊎ ((is_reply challenge_line line ≡ true)
          × (on_challenge hmac env auth c client_nonce line ≡ (c', agreed n)))
unfolding on_response
on_response-agreed hmac env auth c client_nonce line c' n e =
    elim (Bool-cases (is_reply ok_line line)) [
      | inl ok ↦ inl (on_ok-agreed env auth c line c' n (rw (ok, on_response) at e))
      | inr other ↦ inr (ground arith, ground arith)
    ]

after_hello-agreed :
    (hmac : Hmac) (env : Env) (auth : AuthSettings) (c : Conn) (client_nonce : Bytes)
    (r : LineResult) (c' : Conn) (n : Negotiation)
    → after_hello hmac env auth c client_nonce r ≡ (c', agreed n)
    → (line : Bytes) × (r ≡ line_is line)
      × (on_response hmac env auth c client_nonce line ≡ (c', agreed n))
unfolding after_hello
after_hello-agreed hmac env auth c client_nonce (line_is line) c' n e = (line, refl, e)
after_hello-agreed hmac env auth c client_nonce _ c' n e = cc

say_hello-agreed :
    (hmac : Hmac) (env : Env) (auth : AuthSettings) (c : Conn) (client_nonce : Bytes) (c' : Conn)
    (n : Negotiation)
    → say_hello hmac env auth c client_nonce ≡ (c', agreed n)
    → AgreedRaw auth n
      ⊎ Secured hmac auth client_nonce (conn_write c (hello_message client_nonce)).0 n
unfolding say_hello
say_hello-agreed hmac env auth c client_nonce c' n e =
    elim (Option-cases (conn_write c (hello_message client_nonce)).2) [
      | inr (err, q) ↦ cc (rw (q, say_hello) at e)
      | inl q ↦
          let (line, came, h) =
            after_hello-agreed hmac env auth (read_line c1).0 client_nonce (read_line c1).1 c' n
              (rw (q, say_hello) at e) in
          elim (on_response-agreed hmac env auth (read_line c1).0 client_nonce line c' n h) [
            | inl raw ↦ inl raw
            | inr (is_challenge, k) ↦
                let (verified, sent) =
                  on_challenge-Verified hmac env auth (read_line c1).0 client_nonce line c' n k in
                let (result, answered, confirmed) =
                  send_proof-Confirmed hmac env auth client_nonce (challenge_nonce line)
                    (read_line c1).0 c' n sent in
                inr (record {
                  challenge = line;
                  challenged = came;
                  is_challenge = is_challenge;
                  verified = verified;
                  result = result;
                  answered = answered;
                  confirmed = confirmed;
                })
          ]
    ]
  where
    c1 : Conn
    c1 = (conn_write c (hello_message client_nonce)).0

-- The connection with the hello sent.
abbrev pub hello_sent : Env → Conn → Bytes → Conn
hello_sent env c raw =
    (conn_write (record c { deadline = some (env.now + handshake_timeout) })
      (hello_message (hex_encode raw))).0

negotiate-agreed :
    (hmac : Hmac) (env : Env) (auth : AuthSettings) (c c' : Conn) (n : Negotiation)
    → negotiate hmac env auth c ≡ (c', agreed n)
    → AgreedRaw auth n
      ⊎ ((raw : Bytes) × (env.random ≡ some raw)
          × Secured hmac auth (hex_encode raw) (hello_sent env c raw) n)
unfolding negotiate
negotiate-agreed hmac env auth c c' n e = elim (Option-cases env.set_error) [
  | inr (err, q) ↦ cc (rw (q, negotiate) at e)
  | inl q ↦ elim (Option-cases env.random) [
    | inl none_given ↦ cc (rw (q, none_given, negotiate) at e)
    | inr (raw, given) ↦
        elim (say_hello-agreed hmac env auth
          (record c { deadline = some (env.now + handshake_timeout) }) (hex_encode raw) c' n
          (rw (q, given, negotiate) at e)) [
            | inl plain ↦ inl plain
            | inr secured ↦ inr (raw, given, secured)
          ]
  ]
]

-- A host that has a key and does not allow unauthenticated devices agrees on nothing but an
-- authenticated session, whatever is sent to it: the device has proved that it knows the key, for
-- this host's fresh nonce, and has confirmed method and mode, and the keys are those derived from
-- the key and both nonces. There is no downgrade to a plain connection.
pub negotiate-Secured :
    (hmac : Hmac) (env : Env) (auth : AuthSettings) (c c' : Conn) (n : Negotiation)
    → enabled auth ≡ true
    → auth.allow_unauthenticated ≡ false
    → negotiate hmac env auth c ≡ (c', agreed n)
    → (raw : Bytes) × (env.random ≡ some raw)
      × Secured hmac auth (hex_encode raw) (hello_sent env c raw) n
negotiate-Secured hmac env auth c c' n has_key strict e =
    elim (negotiate-agreed hmac env auth c c' n e) [
      | inl (_, inl no_key) ↦ absurd (ground arith)
      | inl (_, inr lax) ↦ absurd (ground arith)
      | inr secured ↦ secured
    ]

-- ===== src/Protocol/Proved.antt =====
-- What the device has proved and confirmed when a part of the handshake succeeds.
use espnetwork_serial.Prelude.{
  ◌*◌, ◌≡◌, refl, true, false, some, arith, length, Option-cases, inl, inr, ◌⊎◌,
}
use espnetwork_serial.Prelude.Bytes.{Bytes, codes, same_iff}
use espnetwork_serial.Net.{Conn, conn_write}
use espnetwork_serial.SecureConn.Keys.{Hmac, nonce_bytes, keys, derive_keys}
use espnetwork_serial.Auth.Settings.{AuthSettings, enabled}
use espnetwork_serial.Protocol.Line.{LineResult, line_is, read_line}
use espnetwork_serial.Protocol.Fields.{get_field, parse_fields}
use espnetwork_serial.Protocol.Message.{
  ok_line, secure_mode, hmac_method, is_reply, Env, Negotiation, agreed,
}
use espnetwork_serial.Protocol.Defs.{
  espns_hmac, clear_deadline, on_ok, on_result, after_result, auth_message, send_proof,
  is_valid_nonce, digest_of_hex, on_challenge,
}

-- The device has confirmed the session in its last line, and the keys are the derived ones.
pub record Confirmed (hmac : Hmac) (auth : AuthSettings) (client_nonce server_nonce result : Bytes)
    (n : Negotiation) : Type 0 where
  pub secure : n.secure ≡ true
  pub says_ok : is_reply ok_line result ≡ true
  pub method : get_field (codes "auth") (parse_fields result) ≡ hmac_method
  pub mode : get_field (codes "mode") (parse_fields result) ≡ secure_mode
  pub derived : derive_keys hmac auth.key client_nonce server_nonce ≡ keys n.keys

on_result-Confirmed :
    (hmac : Hmac) (env : Env) (auth : AuthSettings) (c : Conn)
    (client_nonce server_nonce result : Bytes) (c' : Conn) (n : Negotiation)
    → on_result hmac env auth c client_nonce server_nonce result ≡ (c', agreed n)
    → Confirmed hmac auth client_nonce server_nonce result n
unfolding on_result clear_deadline
on_result-Confirmed hmac env auth c client_nonce server_nonce result c' n e =
    let fields = parse_fields result in
    ground (
      arith,
      same_iff (get_field (codes "auth") fields) hmac_method,
      same_iff (get_field (codes "mode") fields) secure_mode,
    )

-- With no security: the settings allowed it.
pub on_ok-agreed :
    (env : Env) (auth : AuthSettings) (c : Conn) (response : Bytes) (c' : Conn) (n : Negotiation)
    → on_ok env auth c response ≡ (c', agreed n)
    → (n.secure ≡ false) × ((enabled auth ≡ false) ⊎ (auth.allow_unauthenticated ≡ true))
unfolding on_ok clear_deadline
on_ok-agreed env auth c response c' n e = ground arith

abbrev pub client_proof : Hmac → AuthSettings → Bytes → Bytes → Bytes
client_proof hmac auth client_nonce server_nonce =
    espns_hmac hmac auth.key (codes "CLIENT") client_nonce server_nonce secure_mode

-- The connection when the client's proof has been sent on `c`.
abbrev pub proof_sent : Hmac → AuthSettings → Bytes → Bytes → Conn → Conn
proof_sent hmac auth client_nonce server_nonce c =
    (conn_write c (auth_message (client_proof hmac auth client_nonce server_nonce))).0

module _ (hmac : Hmac) (env : Env) (auth : AuthSettings) (client_nonce server_nonce : Bytes) where
  after_result-Confirmed :
      (c : Conn) (r : LineResult) (c' : Conn) (n : Negotiation)
      → after_result hmac env auth c client_nonce server_nonce r ≡ (c', agreed n)
      → (result : Bytes) × (r ≡ line_is result)
        × Confirmed hmac auth client_nonce server_nonce result n
  unfolding after_result
  after_result-Confirmed c (line_is result) c' n e =
      (result, refl, on_result-Confirmed hmac env auth c client_nonce server_nonce result c' n e)
  after_result-Confirmed c _ c' n e = cc

  pub send_proof-Confirmed :
      (c c' : Conn) (n : Negotiation)
      → send_proof hmac env auth c client_nonce server_nonce ≡ (c', agreed n)
      → (result : Bytes) × ((read_line (proof_sent hmac auth client_nonce server_nonce c)).1
          ≡ line_is result)
        × Confirmed hmac auth client_nonce server_nonce result n
  unfolding send_proof
  send_proof-Confirmed c c' n e =
      elim (Option-cases
        (conn_write c (auth_message (client_proof hmac auth client_nonce server_nonce))).2) [
          | inr (err, q) ↦ cc (rw (q, send_proof) at e)
          | inl q ↦
              after_result-Confirmed
                (read_line (proof_sent hmac auth client_nonce server_nonce c)).0
                (read_line (proof_sent hmac auth client_nonce server_nonce c)).1 c' n
                (rw (q, send_proof) at e)
        ]

-- What the device's challenge line says.
abbrev pub challenge_nonce : Bytes → Bytes
challenge_nonce line = get_field (codes "nonce") (parse_fields line)

abbrev pub challenge_proof : Bytes → Bytes
challenge_proof line = get_field (codes "proof") (parse_fields line)

-- The challenge came from a device that knows the host's key, and the host has such a key.
pub record Verified (hmac : Hmac) (auth : AuthSettings) (client_nonce challenge : Bytes)
    : Type 0 where
  pub has_key : enabled auth ≡ true
  pub method : get_field (codes "auth") (parse_fields challenge) ≡ hmac_method
  pub mode : get_field (codes "mode") (parse_fields challenge) ≡ secure_mode
  pub nonce_length : length (challenge_nonce challenge) ≡ nonce_bytes * 2
  pub nonce_hex : is_valid_nonce (challenge_nonce challenge) ≡ true
  pub proved :
      digest_of_hex (challenge_proof challenge)
      ≡ some (
          espns_hmac hmac auth.key
            (codes "SERVER")
            client_nonce
            (challenge_nonce challenge)
            secure_mode)

pub on_challenge-Verified :
    (hmac : Hmac) (env : Env) (auth : AuthSettings) (c : Conn) (client_nonce challenge : Bytes)
    (c' : Conn) (n : Negotiation)
    → on_challenge hmac env auth c client_nonce challenge ≡ (c', agreed n)
    → Verified hmac auth client_nonce challenge
      × (send_proof hmac env auth c client_nonce (challenge_nonce challenge) ≡ (c', agreed n))
unfolding on_challenge
on_challenge-Verified hmac env auth c client_nonce challenge c' n e =
    elim (Option-cases (digest_of_hex (challenge_proof challenge))) [
      | inl none_given ↦ absurd (ground (arith, none_given))
      | inr (proof, given) ↦ ground (
        arith,
        given,
        same_iff (get_field (codes "auth") (parse_fields challenge)) hmac_method,
        same_iff (get_field (codes "mode") (parse_fields challenge)) secure_mode,
        same_iff proof (
            espns_hmac hmac auth.key (codes "SERVER") client_nonce (challenge_nonce challenge)
              secure_mode),
      )
    ]

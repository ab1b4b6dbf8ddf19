-- ===== src/Protocol/Defs.antt =====
-- `negotiateESPNSHandshake`, `espnsHMAC` and `dialESPNS`.
use espnetwork_serial.Prelude.{
  ◌+◌, ◌*◌, Bool, true, false, not, ◌&&◌, ◌||◌, [], ◌∷◌, ◌++◌, Option, none, some, ◌==◌, length,
  if◌then◌else◌,
}
use espnetwork_serial.Prelude.Bytes.{Bytes, codes, same}
use espnetwork_serial.Prelude.Hex.{hex_encode, hex_decode}
use espnetwork_serial.Net.{NetError, Conn, conn_write, conn_close}
use espnetwork_serial.SecureConn.Keys.{
  Hmac, nonce_bytes, SessionKeys, keys, invalid_client_nonce, invalid_server_nonce, derive_keys,
}
use espnetwork_serial.SecureConn.Gcm.{Gcm}
use espnetwork_serial.SecureConn.Defs.{SecureConn, SecureError, opened, refused, new_secure_conn}
use espnetwork_serial.Auth.Settings.{AuthSettings, enabled}
use espnetwork_serial.Protocol.Line.{LineResult, line_is, read_line}
use espnetwork_serial.Protocol.Fields.{get_field, parse_fields}
use espnetwork_serial.Protocol.Message.{
  Env, HandshakeError, Negotiation, Outcome, agreed, auth_rejected, bad_nonce, bad_nonce_length,
  bad_proof, challenge_line, clear_deadline_failed, device_rejected, digest_bytes, error_line,
  failed, handshake_timeout, hmac_method, is_reply, key_missing, keys_failed, nonce_failed,
  not_confirmed, ok_line, read_hello_failed, read_result_failed, refusing_downgrade, secure_mode,
  send_hello_failed, send_proof_failed, server_failed, set_deadline_failed, unexpected_parameters,
  unexpected_response, unexpected_result, unsupported_auth, unsupported_mode, zero_keys,
}

unfoldable pub espns_hmac : Hmac → Bytes → Bytes → Bytes → Bytes → Bytes → Bytes
espns_hmac hmac key role client_nonce server_nonce mode = hmac key (
    codes "ESPNS/1 "
    ++ (role ++ (b' ' ∷ (client_nonce ++ (b' ' ∷ (server_nonce ++ (b' ' ∷ mode)))))))

unfoldable pub clear_deadline : Env → Conn → Negotiation → Conn × Outcome
clear_deadline env c n = elim env.clear_error [
  | some e ↦ (c, failed (clear_deadline_failed e))
  | none ↦ (record c { deadline = none }, agreed n)
]

-- The reply `OK` to the hello: a device with no key.
unfoldable pub on_ok : Env → AuthSettings → Conn → Bytes → Conn × Outcome
unfolding clear_deadline
on_ok env auth c response =
    let fields = parse_fields response in
    let method = get_field (codes "auth") fields in
    let mode = get_field (codes "mode") fields in
    if enabled auth && not auth.allow_unauthenticated
    then (c, failed refusing_downgrade)
    else if not (same method (codes "none")) || not (same mode (codes "raw"))
    then (c, failed (unexpected_parameters method mode))
    else clear_deadline env c (record { secure = false; keys = zero_keys })

-- The last step: the result of the device, and the keys.
unfoldable pub on_result : Hmac → Env → AuthSettings → Conn → Bytes → Bytes → Bytes → Conn × Outcome
unfolding clear_deadline
on_result hmac env auth c client_nonce server_nonce result =
    let fields = parse_fields result in
    let method = get_field (codes "auth") fields in
    let mode = get_field (codes "mode") fields in
    if is_reply error_line result
    then (c, failed (auth_rejected result))
    else if not (is_reply ok_line result)
    then (c, failed (unexpected_result result))
    else if not (same method hmac_method) || not (same mode secure_mode)
    then (c, failed (not_confirmed method mode))
    else elim (derive_keys hmac auth.key client_nonce server_nonce) [
      | invalid_client_nonce ↦ (c, failed keys_failed)
      | invalid_server_nonce ↦ (c, failed keys_failed)
      | keys k ↦ clear_deadline env c (record { secure = true; keys = k })
    ]

unfoldable pub after_result :
    Hmac → Env → AuthSettings → Conn → Bytes → Bytes → LineResult → Conn × Outcome
after_result hmac env auth c client_nonce server_nonce (line_is result) =
    on_result hmac env auth c client_nonce server_nonce result
after_result hmac env auth c client_nonce server_nonce other =
    (c, failed (read_result_failed other))

abbrev pub auth_message : Bytes → Bytes
auth_message proof = codes "ESPNS/1 AUTH proof=" ++ (hex_encode proof ++ b'\n' ∷ [])

-- The client's proof, and the wait for the result.
unfoldable pub send_proof : Hmac → Env → AuthSettings → Conn → Bytes → Bytes → Conn × Outcome
send_proof hmac env auth c client_nonce server_nonce =
    let proof = espns_hmac hmac auth.key (codes "CLIENT") client_nonce server_nonce secure_mode in
    let (c', _, e) = conn_write c (auth_message proof) in
    let (c'', r) = read_line c' in
    elim e [
      | some err ↦ (c', failed (send_proof_failed err))
      | none ↦ after_result hmac env auth c'' client_nonce server_nonce r
    ]

abbrev pub is_valid_nonce : Bytes → Bool
is_valid_nonce nonce = elim (hex_decode nonce) [ none ↦ false | some _ ↦ true ]

-- The device's proof, if it is the hexadecimal form of a digest.
abbrev pub digest_of_hex : Bytes → Option Bytes
digest_of_hex hex = elim (hex_decode hex) [
  | none ↦ none
  | some raw ↦ if length raw == digest_bytes then some raw else none
]

-- The reply `CHALLENGE`: a device with a key.
unfoldable pub on_challenge : Hmac → Env → AuthSettings → Conn → Bytes → Bytes → Conn × Outcome
on_challenge hmac env auth c client_nonce response =
    let fields = parse_fields response in
    let method = get_field (codes "auth") fields in
    let mode = get_field (codes "mode") fields in
    let server_nonce = get_field (codes "nonce") fields in
    let expected =
      espns_hmac hmac auth.key (codes "SERVER") client_nonce server_nonce secure_mode in
    if not (same method hmac_method)
    then (c, failed (unsupported_auth method))
    else if not (same mode secure_mode)
    then (c, failed (unsupported_mode mode))
    else if not (enabled auth)
    then (c, failed key_missing)
    else if not (length server_nonce == nonce_bytes * 2)
    then (c, failed bad_nonce_length)
    else if not (is_valid_nonce server_nonce)
    then (c, failed bad_nonce)
    else elim (digest_of_hex (get_field (codes "proof") fields)) [
      | none ↦ (c, failed bad_proof)
      | some server_proof ↦
          if not (same server_proof expected)
          then (c, failed server_failed)
          else send_proof hmac env auth c client_nonce server_nonce
    ]

unfoldable pub on_response : Hmac → Env → AuthSettings → Conn → Bytes → Bytes → Conn × Outcome
on_response hmac env auth c client_nonce response =
    if is_reply ok_line response
    then on_ok env auth c response
    else if is_reply error_line response
    then (c, failed (device_rejected response))
    else if not (is_reply challenge_line response)
    then (c, failed (unexpected_response response))
    else on_challenge hmac env auth c client_nonce response

unfoldable pub after_hello : Hmac → Env → AuthSettings → Conn → Bytes → LineResult → Conn × Outcome
after_hello hmac env auth c client_nonce (line_is response) =
    on_response hmac env auth c client_nonce response
after_hello hmac env auth c client_nonce other = (c, failed (read_hello_failed other))

abbrev pub hello_message : Bytes → Bytes
hello_message client_nonce = codes "ESPNS/1 HELLO nonce=" ++ (client_nonce ++ b'\n' ∷ [])

unfoldable pub say_hello : Hmac → Env → AuthSettings → Conn → Bytes → Conn × Outcome
say_hello hmac env auth c client_nonce =
    let (c', _, e) = conn_write c (hello_message client_nonce) in
    let (c'', r) = read_line c' in
    elim e [
      | some err ↦ (c', failed (send_hello_failed err))
      | none ↦ after_hello hmac env auth c'' client_nonce r
    ]

unfoldable pub negotiate : Hmac → Env → AuthSettings → Conn → Conn × Outcome
negotiate hmac env auth c =
    let c' = record c { deadline = some (env.now + handshake_timeout) } in
    elim env.set_error [
      | some e ↦ (c, failed (set_deadline_failed e))
      | none ↦ elim env.random [
        | none ↦ (c', failed nonce_failed)
        | some raw ↦ say_hello hmac env auth c' (hex_encode raw)
      ]
    ]

-- `performESPNSHandshake`: only the error.
unfoldable pub perform_handshake : Hmac → Env → AuthSettings → Conn → Conn × Option HandshakeError
perform_handshake hmac env auth c =
    let (c', r) = negotiate hmac env auth c in
    elim r [ agreed _ ↦ (c', none) | failed e ↦ (c', some e) ]

-- What `dialESPNS` returns. On an error the connection, if there was one, is returned with it, to
-- say in which state it was left.
pub data Dialed : Type 0 where
  plain_conn : Conn → Dialed
  secure_conn : SecureConn → Dialed
  dial_failed : NetError → Dialed
  handshake_failed : Conn → HandshakeError → Dialed
  cipher_failed : Conn → SecureError → Dialed

-- `dialed` is the connection that `net.DialTimeout` returned, or its error.
pub data TcpDial : Type 0 where
  tcp_conn : Conn → TcpDial
  tcp_error : NetError → TcpDial

unfoldable pub secure_dialed : Gcm → Conn → SessionKeys → Dialed
secure_dialed g c k =
    elim (new_secure_conn g c k.host_to_device_key k.device_to_host_key
      k.host_to_device_nonce_prefix k.device_to_host_nonce_prefix) [
        | opened s ↦ secure_conn s
        | refused e ↦ cipher_failed (conn_close c) e
      ]

-- What `dialESPNS` makes of the outcome of the handshake.
unfoldable pub finish_dial : Gcm → Conn × Outcome → Dialed
unfolding secure_dialed
finish_dial g (c, failed e) = handshake_failed (conn_close c) e
finish_dial g (c, agreed n) = if not n.secure then plain_conn c else secure_dialed g c n.keys

unfoldable pub dial_espns : Hmac → Gcm → Env → AuthSettings → TcpDial → Dialed
unfolding finish_dial
dial_espns hmac g env auth (tcp_error e) = dial_failed e
dial_espns hmac g env auth (tcp_conn c) = finish_dial g (negotiate hmac env auth c)

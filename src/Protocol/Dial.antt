-- ===== src/Protocol/Dial.antt =====
-- `dialESPNS`, on every way that it may end.
use espnetwork_serial.Prelude.{◌≡◌, refl, true, false, [], arith}
use espnetwork_serial.Net.{Conn, conn_close}
use espnetwork_serial.SecureConn.Gcm.{Gcm}
use espnetwork_serial.SecureConn.Keys.{Hmac, SessionKeys}
use espnetwork_serial.SecureConn.Defs.{new_secure_conn}
use espnetwork_serial.Auth.Settings.{AuthSettings, enabled}
use espnetwork_serial.Protocol.Message.{Env, Outcome, agreed, failed, Negotiation}
use espnetwork_serial.Protocol.Defs.{
  negotiate, Dialed, plain_conn, secure_conn, dial_failed, handshake_failed, cipher_failed, TcpDial,
  tcp_conn, tcp_error, secure_dialed, finish_dial, dial_espns,
}
use espnetwork_serial.Protocol.Security.{negotiate-Secured}

-- A connection of its own keys that starts at the first record, or no connection at all.
abbrev pub IsSafe : Dialed → Type 0
IsSafe (plain_conn c) = ⊥
IsSafe (secure_conn s) = (s.tx_sequence ≡ 0) × (s.rx_sequence ≡ 0) × (s.rx_plain ≡ [])
IsSafe (dial_failed e) = Unit
IsSafe (handshake_failed c e) = c.closed ≡ true
IsSafe (cipher_failed c e) = c.closed ≡ true

secure_dialed-IsSafe : (g : Gcm) (c : Conn) (k : SessionKeys) → IsSafe (secure_dialed g c k)
unfolding secure_dialed new_secure_conn conn_close
secure_dialed-IsSafe g c k = ground arith

finish_dial-IsSafe :
    (g : Gcm) (r : Conn × Outcome)
    → ((c : Conn) (n : Negotiation) → r ≡ (c, agreed n) → n.secure ≡ true)
    → IsSafe (finish_dial g r)
unfolding finish_dial conn_close
finish_dial-IsSafe g (c, failed e) h = refl
finish_dial-IsSafe g (c, agreed n) h = rw (h c n refl) (secure_dialed-IsSafe g c n.keys)

-- With a key and no permission for unauthenticated devices, `dialESPNS` returns an encrypted
-- connection that starts at the first record of both directions, or an error; a connection on
-- which the handshake or the set-up of the ciphers failed has been closed.
pub dial_espns-IsSafe :
    (hmac : Hmac) (g : Gcm) (env : Env) (auth : AuthSettings) (d : TcpDial)
    → enabled auth ≡ true
    → auth.allow_unauthenticated ≡ false
    → IsSafe (dial_espns hmac g env auth d)
dial_espns-IsSafe hmac g env auth (tcp_conn c) has_key strict =
    unfold dial_espns in
    finish_dial-IsSafe g (negotiate hmac env auth c)
      (λ c' n e. (negotiate-Secured hmac env auth c c' n has_key strict e).2.confirmed.secure)
dial_espns-IsSafe hmac g env auth (tcp_error e) has_key strict = unfold dial_espns in tt

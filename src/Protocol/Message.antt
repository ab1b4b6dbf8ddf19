-- ===== src/Protocol/Message.antt =====
-- The words, the environment and the results of the handshake.
use espnetwork_serial.Prelude.{ℕ, Bool, ◌||◌, [], ◌∷◌, ◌++◌, Option}
use espnetwork_serial.Prelude.Bytes.{Bytes, codes, same}
use espnetwork_serial.Prelude.Text.{has_prefix}
use espnetwork_serial.Net.{NetError}
use espnetwork_serial.SecureConn.Keys.{SessionKeys, zeros}
use espnetwork_serial.SecureConn.Defs.{nonce_prefix_bytes}
use espnetwork_serial.Protocol.Line.{LineResult}

abbrev pub ok_line : Bytes
ok_line = codes "ESPNS/1 OK"

abbrev pub challenge_line : Bytes
challenge_line = codes "ESPNS/1 CHALLENGE"

abbrev pub error_line : Bytes
error_line = codes "ESPNS/1 ERR"

abbrev pub secure_mode : Bytes
secure_mode = codes "aes256-gcm"

abbrev pub hmac_method : Bytes
hmac_method = codes "hmac-sha256"

abbrev pub handshake_timeout : ℕ
handshake_timeout = 2500

abbrev pub digest_bytes : ℕ
digest_bytes = 32

-- A line that is the word, or has it in front of a space.
abbrev pub is_reply : Bytes → Bytes → Bool
is_reply word line = same line word || has_prefix (word ++ b' ' ∷ []) line

-- What the system has in store: the random bytes, the clock in milliseconds, and the errors of
-- the two calls of `SetDeadline`.
pub record Env : Type 0 where
  pub random : Option Bytes
  pub now : ℕ
  pub set_error : Option NetError
  pub clear_error : Option NetError

pub data HandshakeError : Type 0 where
  set_deadline_failed send_hello_failed send_proof_failed clear_deadline_failed :
      NetError → HandshakeError
  nonce_failed refusing_downgrade key_missing bad_nonce_length bad_nonce bad_proof : HandshakeError
  server_failed keys_failed : HandshakeError
  read_hello_failed read_result_failed : LineResult → HandshakeError
  unexpected_parameters not_confirmed : Bytes → Bytes → HandshakeError
  device_rejected unexpected_response unsupported_auth unsupported_mode : Bytes → HandshakeError
  auth_rejected unexpected_result : Bytes → HandshakeError

-- `espnsNegotiation`; with no security the keys are zero.
pub record Negotiation : Type 0 where
  pub secure : Bool
  pub keys : SessionKeys

pub data Outcome : Type 0 where
  agreed : Negotiation → Outcome
  failed : HandshakeError → Outcome

abbrev pub zero_keys : SessionKeys
zero_keys = record {
  host_to_device_key = zeros 32;
  device_to_host_key = zeros 32;
  host_to_device_nonce_prefix = zeros nonce_prefix_bytes;
  device_to_host_nonce_prefix = zeros nonce_prefix_bytes;
}

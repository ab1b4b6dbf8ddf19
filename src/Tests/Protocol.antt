-- ===== src/Tests/Protocol.antt =====
-- Runs and instances for the control lines and the handshake, with a stand-in for HMAC-SHA256.
use espnetwork_serial.Prelude.{
  length, All, ap, append-nil, suc, zero, ℕ, false, ◌==◌, ◌++◌, ◌≡◌, refl, ap, true, false, [], ◌∷◌,
  ◌++◌, none, some, arith, Bool, ◌⊎◌, ℕ, take,
}
use espnetwork_serial.Prelude.Bytes.{Bytes, codes, same}
use espnetwork_serial.Prelude.Hex.{hex_encode, hex_decode}
use espnetwork_serial.Prelude.Text.{fields, fields_from, cut_byte, trim_space, has_prefix}
use espnetwork_serial.Net.{Conn, segment, conn_with, conn_write, conn_read}
use espnetwork_serial.SecureConn.Gcm.{plain_gcm}
use espnetwork_serial.SecureConn.Keys.{Hmac, derive_keys, nonce_of_hex, copy_array}
use espnetwork_serial.Auth.Settings.{AuthSettings, MonitorConfig, settings, settings_from_config}
use espnetwork_serial.Protocol.Configured.{Strict, dial_espns-configured}
use espnetwork_serial.Protocol.Line.{line_too_long, line_is, read_line, read_line_loop}
use espnetwork_serial.Protocol.LineRead.{LineRead, strip_cr, read_line-LineRead}
use espnetwork_serial.Protocol.LineTooLong.{read_line-line_too_long}
use espnetwork_serial.Protocol.Fields.{get_field, parse_fields, last_value, get_field-parse_fields}
use espnetwork_serial.Protocol.Message.{
  Env, Negotiation, Outcome, agreed, failed, zero_keys, secure_mode,
}
use espnetwork_serial.Protocol.Defs.{
  espns_hmac, negotiate, dial_espns, tcp_conn, hello_message, say_hello, after_hello, on_response,
  on_challenge, send_proof, after_result, on_result, clear_deadline,
}
use espnetwork_serial.Protocol.Proved.{Verified}
use espnetwork_serial.Protocol.Security.{Secured, hello_sent, negotiate-Secured}
use espnetwork_serial.Protocol.Secrecy.{negotiate-outgoing}
use espnetwork_serial.Protocol.Dial.{IsSafe, dial_espns-IsSafe}

abbrev two_segments : Conn
two_segments = conn_with (segment (codes " OK\r") ∷ segment (codes "\nxy") ∷ [])

read_line-LineRead_example :
    LineRead two_segments (strip_cr (codes " OK\r")) (codes "xy") (read_line two_segments)
read_line-LineRead_example =
    read_line-LineRead two_segments (codes " OK\r") (codes "xy") refl (refl, (refl, tt)) refl
      (refl, (refl, (refl, (refl, tt)))) (omega arith)

-- As many bytes as wanted, in one segment.
abbrev flood : ℕ → Bytes
flood zero = []
flood (suc n) = b'A' ∷ flood n

flood-no_lf : (n : ℕ) → All (λ b. (b == b'\n') ≡ false) (flood n)
flood-no_lf zero = tt
flood-no_lf (suc n) = (refl, flood-no_lf n)

flood-length : (n : ℕ) → length (strip_cr (flood n)) ≡ n
flood-length zero = refl
flood-length (suc n) = ap suc (flood-length n)

abbrev flooded : Conn
flooded = conn_with (segment (flood 256 ++ codes "B\n") ∷ [])

read_line-line_too_long_example : (read_line flooded).1 ≡ line_too_long
read_line-line_too_long_example =
    read_line-line_too_long flooded (flood 256) (codes "B\n") refl (refl, tt)
      (append-nil (flood 256 ++ codes "B\n")) (flood-no_lf 256) (omega (arith, flood-length 256))

abbrev ok_fields : Bytes
ok_fields = codes "ESPNS/1 OK auth=none mode=x mode=raw"

get_field-parse_fields_example :
    get_field (codes "mode") (parse_fields ok_fields)
    ≡ last_value (codes "mode") [] (fields ok_fields)
get_field-parse_fields_example = get_field-parse_fields (codes "mode") ok_fields

mode_of_ok_fields : get_field (codes "mode") (parse_fields ok_fields) ≡ codes "raw"
unfolding get_field parse_fields fields_from cut_byte same
mode_of_ok_fields = refl

abbrev toy_hmac : Hmac
toy_hmac k m = copy_array 32 (m ++ k)

abbrev client_random : Bytes
client_random = codes "0123456789abcdef"

abbrev server_nonce : Bytes
server_nonce = hex_encode (codes "fedcba9876543210")

abbrev env : Env
env = record { random = some client_random; now = 1000; set_error = none; clear_error = none }

abbrev auth : AuthSettings
auth = record { key = codes "a key of 16 bytes"; allow_unauthenticated = false; source = [] }

abbrev server_proof : Bytes
server_proof =
    espns_hmac toy_hmac auth.key (codes "SERVER") (hex_encode client_random) server_nonce
      secure_mode

abbrev challenge : Bytes
challenge =
    codes "ESPNS/1 CHALLENGE auth=hmac-sha256 mode=aes256-gcm nonce="
    ++ (server_nonce ++ (codes " proof=" ++ (hex_encode server_proof ++ codes "\n")))

abbrev confirmation : Bytes
confirmation = codes "ESPNS/1 OK auth=hmac-sha256 mode=aes256-gcm\n"

abbrev device : Conn
device = conn_with (segment challenge ∷ segment confirmation ∷ [])

abbrev is_secure : Outcome → Bool
is_secure (agreed n) = n.secure
is_secure (failed e) = false

run_is_secure : is_secure (negotiate toy_hmac env auth device).1 ≡ true
unfolding negotiate say_hello after_hello on_response on_challenge send_proof after_result on_result
    clear_deadline espns_hmac conn_write conn_read read_line read_line_loop trim_space fields_from
    cut_byte get_field parse_fields same has_prefix hex_encode hex_decode derive_keys nonce_of_hex
run_is_secure = refl

abbrev ran : Conn × Outcome
ran = negotiate toy_hmac env auth device

abbrev negotiation_of : Outcome → Negotiation
negotiation_of (agreed n) = n
negotiation_of (failed e) = record { secure = false; keys = zero_keys }

is_secure-agreed : (o : Outcome) → is_secure o ≡ true → o ≡ agreed (negotiation_of o)
is_secure-agreed (agreed n) e = refl
is_secure-agreed (failed err) e = cc e

negotiate-Secured_example :
    (raw : Bytes) × (env.random ≡ some raw)
    × Secured toy_hmac auth (hex_encode raw) (hello_sent env device raw) (negotiation_of ran.1)
negotiate-Secured_example =
    negotiate-Secured toy_hmac env auth device ran.0 (negotiation_of ran.1) refl refl
      (ap (λ o. (ran.0, o)) (is_secure-agreed ran.1 run_is_secure))

negotiate-outgoing_example :
    ((n : ℕ) × (ran.0.outgoing
        ≡ device.outgoing ++ take n (hello_message (hex_encode client_random))))
    ⊎ ((line : Bytes) × ((read_line (hello_sent env device client_random)).1 ≡ line_is line)
        × Verified toy_hmac auth (hex_encode client_random) line)
negotiate-outgoing_example = negotiate-outgoing toy_hmac env auth device client_random refl

dial_espns-IsSafe_example : IsSafe (dial_espns toy_hmac plain_gcm env auth (tcp_conn device))
dial_espns-IsSafe_example =
    dial_espns-IsSafe toy_hmac plain_gcm env auth (tcp_conn device) refl refl

abbrev config : MonitorConfig
config = record { auth_key = codes "a key of 16 bytes"; allow_unauthenticated = false }

config_accepted : settings_from_config [] config ≡ settings auth
unfolding settings_from_config
config_accepted = refl

dial_espns-configured_example :
    Strict config auth × IsSafe (dial_espns toy_hmac plain_gcm env auth (tcp_conn device))
dial_espns-configured_example =
    dial_espns-configured toy_hmac plain_gcm env [] config auth (tcp_conn device) (omega arith) refl
      config_accepted

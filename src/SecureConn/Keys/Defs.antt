-- ===== src/SecureConn/Keys/Defs.antt =====
-- HKDF and the key schedule. HMAC-SHA256 is Go's crypto/hmac, a parameter: key, then message.
use espnetwork_serial.Prelude.{
  ℕ, zero, suc, ◌+◌, ◌-◌, ◌%◌, [], ◌∷◌, ◌++◌, Option, none, some, ltb, ◌==◌, length, take,
  if◌then◌else◌,
}
use espnetwork_serial.Prelude.Bytes.{Bytes, codes}
use espnetwork_serial.Prelude.Hex.{hex_decode}
use espnetwork_serial.SecureConn.Defs.{nonce_prefix_bytes}

abbrev pub Hmac : Type 0
Hmac = Bytes → Bytes → Bytes

abbrev pub nonce_bytes : ℕ
nonce_bytes = 16

pub record SessionKeys : Type 0 where
  pub host_to_device_key : Bytes
  pub device_to_host_key : Bytes
  pub host_to_device_nonce_prefix : Bytes
  pub device_to_host_nonce_prefix : Bytes

unfoldable pub hkdf_extract : Hmac → Bytes → Bytes → Bytes
hkdf_extract hmac salt ikm = hmac salt ikm

-- The loop, with `counter` a byte. On fuel; `hkdf_expand-rfc` shows that it is enough.
unfoldable pub hkdf_loop : Hmac → Bytes → Bytes → ℕ → ℕ → ℕ → Bytes → Bytes → Bytes
hkdf_loop hmac prk info size zero counter previous result = result
hkdf_loop hmac prk info size (suc fuel) counter previous result =
    let block = hmac prk (previous ++ (info ++ counter ∷ [])) in
    let remaining = size - length result in
    let part = if ltb remaining (length block) then take remaining block else block in
    let rest = hkdf_loop hmac prk info size fuel ((counter + 1) % 256) block (result ++ part) in
    if ltb (length result) size then rest else result

-- A round adds a byte at least, so the size bounds the rounds.
unfoldable pub hkdf_expand : Hmac → Bytes → Bytes → ℕ → Bytes
unfolding hkdf_loop
hkdf_expand hmac prk info size = if size == 0 then [] else hkdf_loop hmac prk info size size 1 [] []

-- `copy` into an array of `n` zero bytes.
abbrev pub zeros : ℕ → Bytes
zeros zero = []
zeros (suc n) = 0 ∷ zeros n

abbrev pub copy_array : ℕ → Bytes → Bytes
copy_array n bs = take n bs ++ zeros (n - length bs)

pub data KeysResult : Type 0 where
  keys : SessionKeys → KeysResult
  invalid_client_nonce invalid_server_nonce : KeysResult

abbrev pub label_h2d_key : Bytes
label_h2d_key = codes "ESPNS/1 aes256-gcm host-to-device key"

abbrev pub label_d2h_key : Bytes
label_d2h_key = codes "ESPNS/1 aes256-gcm device-to-host key"

abbrev pub label_h2d_prefix : Bytes
label_h2d_prefix = codes "ESPNS/1 aes256-gcm host-to-device nonce-prefix"

abbrev pub label_d2h_prefix : Bytes
label_d2h_prefix = codes "ESPNS/1 aes256-gcm device-to-host nonce-prefix"

-- The schedule for two nonces of the right length.
unfoldable pub session_keys : Hmac → Bytes → Bytes → Bytes → SessionKeys
session_keys hmac auth_key client_nonce server_nonce =
    let prk = hkdf_extract hmac (client_nonce ++ server_nonce) auth_key in
    record {
      host_to_device_key = copy_array 32 (hkdf_expand hmac prk label_h2d_key 32);
      device_to_host_key = copy_array 32 (hkdf_expand hmac prk label_d2h_key 32);
      host_to_device_nonce_prefix =
          copy_array nonce_prefix_bytes (hkdf_expand hmac prk label_h2d_prefix nonce_prefix_bytes);
      device_to_host_nonce_prefix =
          copy_array nonce_prefix_bytes (hkdf_expand hmac prk label_d2h_prefix nonce_prefix_bytes);
    }

unfoldable pub nonce_of_hex : Bytes → Option Bytes
nonce_of_hex hex = elim (hex_decode hex) [
  | none ↦ none
  | some raw ↦ if length raw == nonce_bytes then some raw else none
]

unfoldable pub derive_keys : Hmac → Bytes → Bytes → Bytes → KeysResult
derive_keys hmac auth_key client_nonce_hex server_nonce_hex = elim (nonce_of_hex client_nonce_hex) [
  | none ↦ invalid_client_nonce
  | some client_nonce ↦ elim (nonce_of_hex server_nonce_hex) [
    | none ↦ invalid_server_nonce
    | some server_nonce ↦ keys (session_keys hmac auth_key client_nonce server_nonce)
  ]
]

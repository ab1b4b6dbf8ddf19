-- ===== src/SecureConn/Keys/Derive.antt =====
-- `deriveESPNSKeys`: which nonces it accepts, and which keys it returns.
use espnetwork_serial.Prelude.{
  ℕ, zero, suc, length-take, ◌-◌, ◌*◌, ◌≤◌, ◌≡◌, refl, ◌∙◌, ap, ◌++◌, some, arith, length, take,
  take_all, length-append, append-nil, Option-cases, inl, inr, All,
}
use espnetwork_serial.Prelude.Bytes.{Bytes, IsByte}
use espnetwork_serial.Prelude.Hex.{hex_decode, hex_encode, hex_decode-hex_encode}
use espnetwork_serial.SecureConn.Keys.Defs.{
  Hmac, nonce_bytes, SessionKeys, keys, hkdf_extract, hkdf_expand, zeros, copy_array, label_h2d_key,
  label_d2h_key, label_h2d_prefix, label_d2h_prefix, session_keys, nonce_of_hex, derive_keys,
}
use espnetwork_serial.SecureConn.Keys.Rfc.{
  IsDigest, rfc_expand, hkdf_expand-rfc, length-hkdf_expand,
}

-- The schedule of the protocol, by HKDF of RFC 5869: four outputs under labels of their own, from
-- the key extracted under both nonces.
abbrev pub rfc_keys : Hmac → Bytes → Bytes → Bytes → SessionKeys
rfc_keys hmac auth_key c s =
    let prk = hmac (c ++ s) auth_key in
    record {
      host_to_device_key = rfc_expand hmac prk label_h2d_key 32;
      device_to_host_key = rfc_expand hmac prk label_d2h_key 32;
      host_to_device_nonce_prefix = rfc_expand hmac prk label_h2d_prefix 4;
      device_to_host_nonce_prefix = rfc_expand hmac prk label_d2h_prefix 4;
    }

length-zeros : (n : ℕ) → length (zeros n) ≡ n
length-zeros zero = refl
length-zeros (suc n) = ap suc (length-zeros n)

pub length-copy_array : (n : ℕ) (bs : Bytes) → length (copy_array n bs) ≡ n
length-copy_array n bs = omega (
  arith,
  length-append (take n bs) (zeros (n - length bs)),
  length-take n bs,
  length-zeros (n - length bs),
)

copy_array_full : (n : ℕ) (bs : Bytes) → length bs ≡ n → copy_array n bs ≡ bs
copy_array_full n bs h =
    let z : n - length bs ≡ 0 = omega arith in rw (z, take_all n bs (omega arith)) (append-nil bs)

copy-hkdf_expand :
    (hmac : Hmac) (prk info : Bytes) (n : ℕ)
    → IsDigest hmac
    → n ≤ 255 * 32
    → copy_array n (hkdf_expand hmac prk info n) ≡ rfc_expand hmac prk info n
copy-hkdf_expand hmac prk info n digest h =
    copy_array_full n (hkdf_expand hmac prk info n) (length-hkdf_expand hmac prk info n digest h)
    ∙ hkdf_expand-rfc hmac prk info n digest h

session_keys-rfc :
    (hmac : Hmac) (auth_key c s : Bytes)
    → IsDigest hmac
    → session_keys hmac auth_key c s ≡ rfc_keys hmac auth_key c s
unfolding session_keys hkdf_extract
session_keys-rfc hmac auth_key c s digest =
    let prk = hmac (c ++ s) auth_key in
    λ i. record {
      host_to_device_key = copy-hkdf_expand hmac prk label_h2d_key 32 digest (omega arith) i;
      device_to_host_key = copy-hkdf_expand hmac prk label_d2h_key 32 digest (omega arith) i;
      host_to_device_nonce_prefix =
          copy-hkdf_expand hmac prk label_h2d_prefix 4 digest (omega arith) i;
      device_to_host_nonce_prefix =
          copy-hkdf_expand hmac prk label_d2h_prefix 4 digest (omega arith) i;
    }

nonce_of_hex-hex_encode :
    (raw : Bytes)
    → All IsByte raw
    → length raw ≡ nonce_bytes
    → nonce_of_hex (hex_encode raw) ≡ some raw
unfolding nonce_of_hex
nonce_of_hex-hex_encode raw h l = ground (arith, hex_decode-hex_encode raw h)

-- With digests of 32 bytes, for the hexadecimal forms of two nonces of 16 bytes the function returns
-- the keys and nonce prefixes of the protocol's schedule.
pub derive_keys-rfc :
    (hmac : Hmac) (auth_key c s : Bytes)
    → IsDigest hmac
    → All IsByte c
    → All IsByte s
    → length c ≡ nonce_bytes
    → length s ≡ nonce_bytes
    → derive_keys hmac auth_key (hex_encode c) (hex_encode s) ≡ keys (rfc_keys hmac auth_key c s)
unfolding derive_keys
derive_keys-rfc hmac auth_key c s digest hc hs lc ls = ground (
  arith,
  nonce_of_hex-hex_encode c hc lc,
  nonce_of_hex-hex_encode s hs ls,
  session_keys-rfc hmac auth_key c s digest,
)

abbrev pub SixteenBytes : Bytes → Bytes → Type 0
SixteenBytes hex raw = (hex_decode hex ≡ some raw) × (length raw ≡ nonce_bytes)

nonce_of_hex-some : (hex raw : Bytes) → nonce_of_hex hex ≡ some raw → SixteenBytes hex raw
unfolding nonce_of_hex
nonce_of_hex-some hex raw h = ground arith

-- It returns keys only for nonces that are the hexadecimal form, in either case, of 16 bytes.
pub derive_keys-only :
    (hmac : Hmac) (auth_key client_hex server_hex : Bytes) {k : SessionKeys}
    → derive_keys hmac auth_key client_hex server_hex ≡ keys k
    → ((c : Bytes) × SixteenBytes client_hex c) × ((s : Bytes) × SixteenBytes server_hex s)
unfolding derive_keys
derive_keys-only hmac auth_key client_hex server_hex h =
    elim (Option-cases (nonce_of_hex client_hex)) [
      | inl e ↦ cc (rw (e, derive_keys) at h)
      | inr (c, e) ↦ elim (Option-cases (nonce_of_hex server_hex)) [
        | inl e' ↦ cc (rw (e, e', derive_keys) at h)
        | inr (s, e') ↦
            ((c, nonce_of_hex-some client_hex c e), (s, nonce_of_hex-some server_hex s e'))
      ]
    ]

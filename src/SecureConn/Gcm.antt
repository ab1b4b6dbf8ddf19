-- ===== src/SecureConn/Gcm.antt =====
-- AES-GCM (Go's crypto/aes and crypto/cipher) as an interface. An AEAD is named by its key.
use espnetwork_serial.Prelude.{
  ℕ, ◌+◌, ◌≡◌, refl, Bool, true, Option, none, some, [], ◌∷◌, ◌++◌, arith, length, take, drop,
  take-append-drop, if◌then◌else◌,
}
use espnetwork_serial.Prelude.Bytes.{Bytes, same, same_iff, same_refl}

pub record Gcm : Type 0 where
  -- Whether `aes.NewCipher` and `cipher.NewGCM` accept the key.
  pub new_cipher : Bytes → Bool
  pub new_gcm : Bytes → Bool
  pub nonce_size : ℕ
  pub overhead : ℕ
  -- Key, nonce, text, additional data.
  pub seal : Bytes → Bytes → Bytes → Bytes → Bytes
  pub unseal : Bytes → Bytes → Bytes → Bytes → Option Bytes

-- What the record layer relies on: a sealed text opens under the same key, nonce and additional
-- data, it is a tag longer than the text, and nothing else opens. Sealing is a function of its
-- arguments, so the last says that an opened text is the one that was sealed to these bytes.
pub record IsGcm (g : Gcm) : Type 0 where
  pub unseal-seal : (k n p a : Bytes) → g.unseal k n (g.seal k n p a) a ≡ some p
  pub length-seal : (k n p a : Bytes) → length (g.seal k n p a) ≡ length p + 16
  pub seal-unseal : (k n s a : Bytes) {p : Bytes} → g.unseal k n s a ≡ some p → s ≡ g.seal k n p a

-- An instance, which shows that the laws can be met: the tag is sixteen zeros in front.
abbrev pub zero_tag : Bytes
zero_tag = 0 ∷ 0 ∷ 0 ∷ 0 ∷ 0 ∷ 0 ∷ 0 ∷ 0 ∷ 0 ∷ 0 ∷ 0 ∷ 0 ∷ 0 ∷ 0 ∷ 0 ∷ 0 ∷ []

abbrev pub plain_unseal : Bytes → Option Bytes
plain_unseal s = if same (take 16 s) zero_tag then some (drop 16 s) else none

abbrev pub plain_gcm : Gcm
plain_gcm = record {
  new_cipher = λ k. true;
  new_gcm = λ k. true;
  nonce_size = 12;
  overhead = 16;
  seal = λ k n p a. zero_tag ++ p;
  unseal = λ k n s a. plain_unseal s;
}

plain_unseal_lem : (s p : Bytes) → plain_unseal s ≡ some p → s ≡ zero_tag ++ p
plain_unseal_lem s p h = ground (arith, same_iff (take 16 s) zero_tag, take-append-drop 16 s)

pub plain_gcm-IsGcm : IsGcm plain_gcm
plain_gcm-IsGcm = record {
  unseal-seal = λ k n p a. rw (same_refl zero_tag) refl;
  length-seal = λ k n p a. omega arith;
  seal-unseal = λ k n s a {p} h. plain_unseal_lem s p h;
}

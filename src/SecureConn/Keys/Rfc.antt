-- ===== src/SecureConn/Keys/Rfc.antt =====
-- `hkdfExpandSHA256` against HKDF-Expand of RFC 5869.
use espnetwork_serial.Prelude.{
  ℕ, zero, suc, ◌+◌, ◌-◌, ◌*◌, ◌/◌, ◌%◌, ◌≤◌, ◌<◌, ◌≡◌, refl, sym, ◌∙◌, ap, false, [], ◌∷◌, ◌++◌,
  arith, ltb, leb, ◌≢◌, ◌==◌, length, take, length-append, length-take, take_all, take-append_le,
  take-append_ge, Bool-cases, inl, inr, if◌then◌else◌,
}
use espnetwork_serial.Prelude.Bytes.{Bytes}
use espnetwork_serial.SecureConn.Keys.Defs.{Hmac, hkdf_loop, hkdf_expand}

abbrev pub IsDigest : Hmac → Type 0
IsDigest hmac = (k m : Bytes) → length (hmac k m) ≡ 32

module _ (hmac : Hmac) (prk info : Bytes) where
  -- T(i) and T(1) || … || T(n) of the RFC.
  abbrev pub rfc_block : ℕ → Bytes
  rfc_block zero = []
  rfc_block (suc i) = hmac prk (rfc_block i ++ (info ++ suc i ∷ []))

  abbrev pub rfc_blocks : ℕ → Bytes
  rfc_blocks zero = []
  rfc_blocks (suc n) = rfc_blocks n ++ rfc_block (suc n)

  abbrev pub rfc_expand : ℕ → Bytes
  rfc_expand size = take size (rfc_blocks ((size + 31) / 32))

module _ (hmac : Hmac) (digest : IsDigest hmac) (prk info : Bytes) where
  length-rfc_blocks : (n : ℕ) → length (rfc_blocks hmac prk info n) ≡ 32 * n
  length-rfc_blocks zero = refl
  length-rfc_blocks (suc n) = omega (
    arith,
    length-append (rfc_blocks hmac prk info n) (rfc_block hmac prk info (suc n)),
    length-rfc_blocks n,
    digest prk (rfc_block hmac prk info n ++ (info ++ suc n ∷ [])),
  )

  -- The first blocks of many are the blocks of few.
  take-rfc_blocks :
      (size i d n : ℕ)
      → i + d ≡ n
      → size ≤ 32 * i
      → take size (rfc_blocks hmac prk info n) ≡ take size (rfc_blocks hmac prk info i)
  take-rfc_blocks size i zero n e h = let e' : n ≡ i = omega arith in rw e'
  take-rfc_blocks size i (suc d) zero e h = absurd (omega arith)
  take-rfc_blocks size i (suc d) (suc n) e h =
      take-append_le (rfc_blocks hmac prk info n) (rfc_block hmac prk info (suc n)) size
        (omega (arith, length-rfc_blocks n))
      ∙ take-rfc_blocks size i d n (omega arith) h

  hkdf_loop_done :
      (size fuel counter : ℕ) (previous result : Bytes)
      → size ≤ length result
      → hkdf_loop hmac prk info size fuel counter previous result ≡ result
  unfolding hkdf_loop
  hkdf_loop_done size zero counter previous result h = refl
  hkdf_loop_done size (suc fuel) counter previous result h =
      let stop : ltb (length result) size ≡ false = ground arith in rw stop

  exact :
      (size i n : ℕ)
      → size ≡ 32 * i
      → i ≤ n
      → rfc_blocks hmac prk info i ≡ take size (rfc_blocks hmac prk info n)
  exact size i n e h = sym (
      take-rfc_blocks size i (n - i) n (omega arith) (omega arith)
      ∙ take_all size (rfc_blocks hmac prk info i) (omega (arith, length-rfc_blocks i)))

  abbrev part : ℕ → ℕ → Bytes
  part size i =
      let block = rfc_block hmac prk info (suc i) in
      let remaining = size - length (rfc_blocks hmac prk info i) in
      if ltb remaining (length block) then take remaining block else block

  abbrev next_result : ℕ → ℕ → Bytes
  next_result size i = rfc_blocks hmac prk info i ++ part size i

  length_block : (i : ℕ) → length (rfc_block hmac prk info (suc i)) ≡ 32
  length_block i = digest prk (rfc_block hmac prk info i ++ (info ++ suc i ∷ []))

  -- The last round, whose block may be cut.
  last_part :
      (size i n : ℕ)
      → 32 * i ≤ size
      → size ≤ 32 * suc i
      → suc i ≤ n
      → (size ≤ length (next_result size i))
        × (next_result size i ≡ take size (rfc_blocks hmac prk info n))
  last_part size i n l h m =
      let block = rfc_block hmac prk info (suc i) in
      let done = rfc_blocks hmac prk info i in
      let cut : part size i ≡ take (size - length done) block =
        ground (arith, take_all (size - length done) block, length_block i, length-rfc_blocks i) in
      let whole : next_result size i ≡ take size (rfc_blocks hmac prk info (suc i)) =
        rw cut (sym (take-append_ge done block size (omega (arith, length-rfc_blocks i)))) in
      (
        omega (
          arith,
          ap length whole,
          length-take size (rfc_blocks hmac prk info (suc i)),
          length-rfc_blocks (suc i),
        ),
        whole ∙ sym (take-rfc_blocks size (suc i) (n - suc i) n (omega arith) h),
      )

  -- Any other round adds its block whole.
  inner_part : (size i : ℕ) → 32 * suc i < size → part size i ≡ rfc_block hmac prk info (suc i)
  inner_part size i h = ground (arith, length_block i, length-rfc_blocks i)

  -- After `i` rounds; `n` blocks are enough.
  hkdf_loop-rfc :
      (size fuel i n : ℕ)
      → size ≤ 32 * n
      → n ≤ 255
      → n ≤ i + fuel
      → 32 * i ≤ size
      → hkdf_loop hmac prk info size fuel
          (suc i)
          (rfc_block hmac prk info i)
          (rfc_blocks hmac prk info i)
        ≡ take size (rfc_blocks hmac prk info n)
  unfolding hkdf_loop
  hkdf_loop-rfc size zero i n h m f l = exact size i n (omega arith) (omega arith)
  hkdf_loop-rfc size (suc fuel) i n h m f l =
      elim (Bool-cases (ltb (length (rfc_blocks hmac prk info i)) size)) [
        | inr stop ↦
            let end : size ≡ 32 * i = ground (arith, length-rfc_blocks i) in
            rw stop (exact size i n end (omega arith))
        | inl go ↦ rw go (elim (Bool-cases (leb size (32 * suc i))) [
          | inl last ↦
              let before : suc i ≤ n = ground (arith, length-rfc_blocks i) in
              let (long, whole) = last_part size i n l (ground arith) before in
              hkdf_loop_done size fuel _ _ (next_result size i) long ∙ whole
          | inr inner ↦
              let before : 32 * suc i < size = ground arith in
              let counter : (suc i + 1) % 256 ≡ suc (suc i) = omega arith in
              rw (inner_part size i before, counter)
                (hkdf_loop-rfc size fuel (suc i) n h m (omega arith) (omega arith))
        ])
      ]

-- With digests of 32 bytes, and up to 255 blocks, the loop computes HKDF-Expand of RFC 5869: the
-- first `size` bytes of T(1) || T(2) || ….
pub hkdf_expand-rfc :
    (hmac : Hmac) (prk info : Bytes) (size : ℕ)
    → IsDigest hmac
    → size ≤ 255 * 32
    → hkdf_expand hmac prk info size ≡ rfc_expand hmac prk info size
unfolding hkdf_expand
hkdf_expand-rfc hmac prk info size digest h = elim (Bool-cases (size == 0)) [
  | inl none_wanted ↦ let z : size ≡ 0 = ground arith in rw z
  | inr wanted ↦
      let pos : size ≢ 0 = ground arith in
      rw wanted (
        hkdf_loop-rfc hmac digest prk info size size 0 ((size + 31) / 32) (omega arith)
          (omega arith) (omega arith) (omega arith))
]

-- The result has the length asked for.
pub length-hkdf_expand :
    (hmac : Hmac) (prk info : Bytes) (size : ℕ)
    → IsDigest hmac
    → size ≤ 255 * 32
    → length (hkdf_expand hmac prk info size) ≡ size
length-hkdf_expand hmac prk info size digest h = omega (
  arith,
  ap length (hkdf_expand-rfc hmac prk info size digest h),
  length-take size (rfc_blocks hmac prk info ((size + 31) / 32)),
  length-rfc_blocks hmac digest prk info ((size + 31) / 32),
)

-- ===== src/App/Dialable.antt =====
-- The address that `normalizeBoardAddress` makes has a host and a port.
use espnetwork_serial.Prelude.{
  ℕ, ◌≡◌, refl, sym, ◌∙◌, ap, true, false, ◌||◌, [], ◌∷◌, ◌++◌, append_assoc, none, some,
  length-append, arith, Bool-cases, Option-cases, inl, inr, ◌⊎◌,
}
use espnetwork_serial.Prelude.Bytes.{Bytes, same, same_iff}
use espnetwork_serial.Prelude.Text.{trim_space, cut_byte}
use espnetwork_serial.App.Address.{
  has_byte, cut_last, begins_with, split_host_port, join_host_port, default_device_port, Address,
  address, bad_address, trim_quotes, Texts, before_zone, normalize_trimmed, normalize_board_address,
}

has_byte-append : (b : ℕ) (s t : Bytes) → has_byte b (s ++ t) ≡ (has_byte b s || has_byte b t)
unfolding has_byte
has_byte-append b [] t = refl
has_byte-append b (c ∷ s) t = ground (arith, has_byte-append b s t)

cut_last-none : (b : ℕ) (s : Bytes) → has_byte b s ≡ false → cut_last b s ≡ none
unfolding cut_last has_byte
cut_last-none b [] h = refl
cut_last-none b (c ∷ s) h = ground (arith, cut_last-none b s)

cut_last-append :
    (b : ℕ) (front back : Bytes)
    → has_byte b back ≡ false
    → cut_last b (front ++ b ∷ back) ≡ some (front, back)
unfolding cut_last
cut_last-append b [] back h = rw (cut_last-none b back h) (ground arith)
cut_last-append b (c ∷ front) back h = rw (cut_last-append b front back h) refl

cut_byte-append :
    (b : ℕ) (front back : Bytes)
    → has_byte b front ≡ false
    → cut_byte b (front ++ b ∷ back) ≡ some (front, back)
unfolding cut_byte has_byte
cut_byte-append b [] back h = ground arith
cut_byte-append b (c ∷ front) back h = ground (arith, cut_byte-append b front back)

begins_with-has_byte : (b : ℕ) (s : Bytes) → has_byte b s ≡ false → begins_with b s ≡ false
unfolding has_byte
begins_with-has_byte b [] h = refl
begins_with-has_byte b (c ∷ s) h = ground (arith, h)

-- A host without brackets and a port without colons and brackets are found again.
split-join_colon :
    (host port : Bytes)
    → has_byte b'[' host ≡ false
    → has_byte b']' host ≡ false
    → has_byte b':' port ≡ false
    → has_byte b'[' port ≡ false
    → has_byte b']' port ≡ false
    → split_host_port (b'[' ∷ (host ++ b']' ∷ b':' ∷ port)) ≡ some (host, port)
unfolding split_host_port
split-join_colon host port lh rh cp lp rp =
    let whole = b'[' ∷ (host ++ b']' ∷ b':' ∷ port) in
    let shape : whole ≡ (b'[' ∷ (host ++ b']' ∷ [])) ++ b':' ∷ port =
      ap (λ (t : Bytes). b'[' ∷ t) (sym (append_assoc host (b']' ∷ []) (b':' ∷ port))) in
    let last : cut_last b':' whole ≡ some (b'[' ∷ (host ++ b']' ∷ []), port) =
      ap (cut_last b':') shape ∙ cut_last-append b':' (b'[' ∷ (host ++ b']' ∷ [])) port cp in
    let first : cut_byte b']' whole ≡ some (b'[' ∷ host, b':' ∷ port) =
      cut_byte-append b']' (b'[' ∷ host) (b':' ∷ port) (unfold has_byte in rh) in
    let clear : has_byte b'[' (host ++ b']' ∷ b':' ∷ port) ≡ false =
      has_byte-append b'[' host (b']' ∷ b':' ∷ port) ∙ unfold has_byte in ground (arith, lh, lp) in
    rw (split_host_port, last, first) (ground (arith, clear, rp, length-append host (b']' ∷ [])))

split-join_plain :
    (host port : Bytes)
    → has_byte b':' host ≡ false
    → has_byte b'[' host ≡ false
    → has_byte b']' host ≡ false
    → has_byte b':' port ≡ false
    → has_byte b'[' port ≡ false
    → has_byte b']' port ≡ false
    → split_host_port (host ++ b':' ∷ port) ≡ some (host, port)
unfolding split_host_port
split-join_plain host port ch lh rh cp lp rp =
    let whole = host ++ b':' ∷ port in
    let last = cut_last-append b':' host port cp in
    let left : has_byte b'[' whole ≡ false =
      has_byte-append b'[' host (b':' ∷ port) ∙ unfold has_byte in ground (arith, lh, lp) in
    let right : has_byte b']' whole ≡ false =
      has_byte-append b']' host (b':' ∷ port) ∙ unfold has_byte in ground (arith, rh, rp) in
    rw (split_host_port, last, begins_with-has_byte b'[' whole left)
      (ground (arith, ch, left, right))

split-join :
    (host port : Bytes)
    → has_byte b'[' host ≡ false
    → has_byte b']' host ≡ false
    → has_byte b':' port ≡ false
    → has_byte b'[' port ≡ false
    → has_byte b']' port ≡ false
    → split_host_port (join_host_port host port) ≡ some (host, port)
unfolding join_host_port
split-join host port lh rh cp lp rp = elim (Bool-cases (has_byte b':' host)) [
  | inl q ↦ rw q (split-join_colon host port lh rh cp lp rp)
  | inr q ↦ rw q (split-join_plain host port q lh rh cp lp rp)
]

-- The text already named a host and a port, or it is now the host, with the default port; it is
-- refused if it is empty, or if it has a colon, names no host and port, and is no IP address.
abbrev pub Dialable : Texts → Bytes → Address → Type 0
Dialable texts s (bad_address text) =
    (s ≡ [])
    ⊎ ((split_host_port s ≡ none)
        × (has_byte b':' s ≡ true)
        × (texts.parses_ip (before_zone (cut_byte b'%' s) s) ≡ false))
Dialable texts s (address a) =
    ((a ≡ s) × ((hp : Bytes × Bytes) × (split_host_port s ≡ some hp)))
    ⊎ ((split_host_port s ≡ none) × (split_host_port a ≡ some (s, default_device_port)))

-- Once the quotes and the white space around it are gone, a text without brackets becomes an
-- address that `SplitHostPort` takes apart: itself if it named a host and a port, and otherwise with
-- the whole text as the host and the default port. It is refused only if it is empty, or if it has a
-- colon and is neither host and port nor an IP address.
pub normalize_board_address-Dialable :
    (texts : Texts) (board_port : Bytes)
    → let s = trim_space (trim_quotes board_port) in
      has_byte b'[' s ≡ false
      → has_byte b']' s ≡ false
      → Dialable texts s (normalize_board_address texts board_port)
unfolding normalize_board_address normalize_trimmed
normalize_board_address-Dialable texts board_port l r =
    let s = trim_space (trim_quotes board_port) in
    let joined : split_host_port (join_host_port s default_device_port)
        ≡ some (s, default_device_port) =
      split-join s default_device_port l r (unfold has_byte in refl) (unfold has_byte in refl)
        (unfold has_byte in refl) in
    elim (Bool-cases (same s [])) [
      | inl q ↦ rw q (inl ((same_iff s []).0 q))
      | inr q ↦ elim (Option-cases (split_host_port s)) [
        | inr (hp, e) ↦ rw (q, e) (inl (refl, (hp, e)))
        | inl e ↦ elim (Bool-cases (texts.parses_ip (before_zone (cut_byte b'%' s) s))) [
          | inl ip ↦ elim (Bool-cases (has_byte b':' s)) [
            | inl colon ↦ rw (q, e, ip, colon) (inr (e, joined))
            | inr colon ↦ rw (q, e, ip, colon) (inr (e, joined))
          ]
          | inr ip ↦ elim (Bool-cases (has_byte b':' s)) [
            | inl colon ↦ rw (q, e, ip, colon) (inr (e, colon, ip))
            | inr colon ↦ rw (q, e, ip, colon) (inr (e, joined))
          ]
        ]
      ]
    ]

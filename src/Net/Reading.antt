-- ===== src/Net/Reading.antt =====
-- Streams that arrive with no error, in whatever pieces.
use espnetwork_serial.Prelude.{
  ℕ, ◌-◌, ◌≤◌, ◌≡◌, refl, sym, ◌∙◌, ap, false, List, [], ◌∷◌, ◌++◌, Option, none, arith, ltb, ◌==◌,
  length, take, drop, inl, inr, Bool-cases, length-append, take-append_le, drop-append_le,
  take-append_ge, drop-append_ge, append_assoc, take-append, drop-append, append-nil, All,
  Option-cases, take-append-drop, length-take,
}
use espnetwork_serial.Prelude.Bytes.{Bytes}
use espnetwork_serial.Net.Script.{NetError, ReadEvent, Conn}
use espnetwork_serial.Net.ReadFull.{read_full_events, read_full}

abbrev pub flat : List ReadEvent → Bytes
flat [] = []
flat (e ∷ es) = e.bytes ++ flat es

abbrev pub IsClean : List ReadEvent → Type 0
IsClean = All λ e. e.error ≡ none

-- All that is wanted is read, whatever the pieces; the rest stays, and stays clean.
pub read_full_events-IsClean :
    (es : List ReadEvent) (k : ℕ) (acc : Bytes)
    → IsClean es
    → k ≤ length (flat es)
    → let r = read_full_events es k acc in
      (r.error ≡ none)
      × (r.got ≡ acc ++ take k (flat es))
      × (flat r.left ≡ drop k (flat es))
      × IsClean r.left
unfolding read_full_events
read_full_events-IsClean [] k acc c h =
    let e : k ≡ 0 = omega arith in rw e (refl, rw append-nil, refl, tt)
read_full_events-IsClean (e ∷ es) k acc (c, cs) h = elim (Bool-cases (k == 0)) [
  | inl z ↦ let k0 : k ≡ 0 = ground arith in rw k0 (refl, rw append-nil, refl, (c, cs))
  | inr nz ↦ elim (Bool-cases (ltb k (length e.bytes))) [
    | inl lt ↦
        rw (nz, lt)
          (
            refl,
            rw (take-append_le e.bytes (flat es) k (ground arith)),
            rw (drop-append_le e.bytes (flat es) k (ground arith)),
            (c, cs),
          )
    | inr ge ↦
        let le : length e.bytes ≤ k = ground arith in
        elim (Bool-cases (k == length e.bytes)) [
          | inl eq ↦
              let at_end : length e.bytes ≡ k = ground arith in
              rw (nz, ge, eq)
                (
                  refl,
                  rw (take-append e.bytes (flat es) k at_end),
                  rw (drop-append e.bytes (flat es) k at_end),
                  cs,
                )
          | inr ne ↦
              let ih =
                read_full_events-IsClean es (k - length e.bytes) (acc ++ e.bytes) cs
                  (omega (arith, length-append e.bytes (flat es))) in
              rw (nz, ge, ne, c)
                (
                  ih.0,
                  ih.1 ∙ rw (take-append_ge e.bytes (flat es) k le, append_assoc),
                  ih.2 ∙ rw (drop-append_ge e.bytes (flat es) k le),
                  ih.3,
                )
        ]
  ]
]

-- `io.ReadFull` on an open connection.
pub read_full-IsClean :
    (c : Conn) (k : ℕ)
    → c.closed ≡ false
    → IsClean c.incoming
    → k ≤ length (flat c.incoming)
    → (es : List ReadEvent) × (read_full c k
        ≡ (record c { incoming = es }, take k (flat c.incoming), none))
      × (flat es ≡ drop k (flat c.incoming))
      × IsClean es
unfolding read_full
read_full-IsClean c k alive clean h =
    let (e, g, l, s) = read_full_events-IsClean c.incoming k [] clean h in
    ((read_full_events c.incoming k []).left, rw (alive, read_full) (rw (e, g)), l, s)

-- Whatever the connection does, what was read and what is left make up the stream.
read_full_events-splits :
    (es : List ReadEvent) (k : ℕ) (acc : Bytes)
    → let r = read_full_events es k acc in
      (got : Bytes) × (r.got ≡ acc ++ got)
      × (flat es ≡ got ++ flat r.left)
      × (r.error ≡ none → length got ≡ k)
unfolding read_full_events
read_full_events-splits [] k acc = ([], rw append-nil, refl, ground arith)
read_full_events-splits (e ∷ es) k acc = elim (Bool-cases (k == 0)) [
  | inl z ↦ rw z ([], rw append-nil, refl, ground arith)
  | inr nz ↦ elim (Bool-cases (ltb k (length e.bytes))) [
    | inl lt ↦
        rw (nz, lt)
          (
            take k e.bytes,
            refl,
            rw (← append_assoc, take-append-drop),
            λ x. ground (arith, length-take k e.bytes),
          )
    | inr ge ↦ elim (Bool-cases (k == length e.bytes)) [
      | inl eq ↦ rw (nz, ge, eq) (e.bytes, refl, refl, λ x. ground arith)
      | inr ne ↦ elim (Option-cases e.error) [
        | inr (err, q) ↦ rw (nz, ge, ne, q, read_full_events) (e.bytes, refl, refl, λ x. cc)
        | inl q ↦
            let (got, g, f, l) = read_full_events-splits es (k - length e.bytes) (acc ++ e.bytes) in
            rw (nz, ge, ne, q, read_full_events)
              (
                e.bytes ++ got,
                g ∙ append_assoc acc e.bytes got,
                ap (λ (x : Bytes). e.bytes ++ x) f ∙ sym (append_assoc e.bytes got _),
                λ x. ground (arith, l x, length-append e.bytes got),
              )
      ]
    ]
  ]
]

-- What `io.ReadFull` takes, it takes from the front of the stream.
pub record Takes (c : Conn) (k : ℕ) (c' : Conn) (got : Bytes) (e : Option NetError) : Type 0 where
  pub stream : flat c.incoming ≡ got ++ flat c'.incoming
  pub full : e ≡ none → length got ≡ k
  pub outgoing : c'.outgoing ≡ c.outgoing
  pub accepts : c'.accepts ≡ c.accepts
  pub closed : c'.closed ≡ c.closed

pub read_full-Takes : (c : Conn) (k : ℕ) → let r = read_full c k in Takes c k r.0 r.1 r.2
unfolding read_full
read_full-Takes c k = elim (Bool-cases c.closed) [
  | inl shut ↦
      rw (shut, read_full)
        (record { stream = refl; full = λ x. cc; outgoing = refl; accepts = refl; closed = refl })
  | inr alive ↦
      let (got, g, f, l) = read_full_events-splits c.incoming k [] in
      rw (alive, read_full)
        (record {
          stream =
              f ∙ ap (λ (x : Bytes). x ++ flat (read_full_events c.incoming k []).left) (sym g);
          full = λ x. rw g (l x);
          outgoing = refl;
          accepts = refl;
          closed = refl;
        })
]

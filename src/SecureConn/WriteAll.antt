-- ===== src/SecureConn/WriteAll.antt =====
-- `writeAll`: all of the text goes out, or a prefix of it with an error.
use espnetwork_serial.Prelude.{
  ℕ, zero, suc, ◌≤◌, ◌≡◌, ◌≢◌, refl, sym, ap, ◌∙◌, [], ◌∷◌, ◌++◌, Option, none, some, arith, length,
  take, drop, length-drop, take-append-drop, append_assoc, append-nil, ◌==◌, Bool-cases,
  Option-cases, inl, inr,
}
use espnetwork_serial.Prelude.Bytes.{Bytes}
use espnetwork_serial.Net.{Conn, conn_write}
use espnetwork_serial.SecureConn.Defs.{
  SecureError, out_of_fuel, err_short_write, net, write_all_loop, write_all,
}

-- The writes led from `c` to `c'` with the result `e`: `sent` is what of `p` went out.
pub record Writes (c : Conn) (p : Bytes) (c' : Conn) (e : Option SecureError) : Type 0 where
  pub sent : Bytes
  pub unsent : Bytes
  pub splits : p ≡ sent ++ unsent
  pub outgoing : c'.outgoing ≡ c.outgoing ++ sent
  pub incoming : c'.incoming ≡ c.incoming
  pub closed : c'.closed ≡ c.closed
  pub finished : e ≡ none → unsent ≡ []
  pub ended : e ≢ some out_of_fuel

-- A connection's `Write` takes some first bytes of the text.
pub conn_write_lem :
    (c : Conn) (p : Bytes)
    → let (c', n, e) = conn_write c p in
      (c'.outgoing ≡ c.outgoing ++ take n p) × (c'.incoming ≡ c.incoming) × (c'.closed ≡ c.closed)
unfolding conn_write
conn_write_lem c p = elim (Bool-cases c.closed) [
  | inl shut ↦ rw shut (rw append-nil, refl, refl)
  | inr alive ↦ rw alive (refl, refl, refl)
]

module _ (c : Conn) (p : Bytes) where
  nothing_sent : (e : Option SecureError) → e ≢ some out_of_fuel → p ≡ [] → Writes c p c e
  nothing_sent e ne z = record {
    sent = [];
    unsent = [];
    splits = z;
    outgoing = rw append-nil;
    incoming = refl;
    closed = refl;
    finished = λ _. refl;
    ended = ne;
  }

  let_go :
      (c' : Conn) (n : ℕ) (e : SecureError)
      → (c'.outgoing ≡ c.outgoing ++ take n p) × (c'.incoming ≡ c.incoming) × (c'.closed ≡ c.closed)
      → e ≢ out_of_fuel
      → Writes c p c' (some e)
  let_go c' n e w ne = record {
    sent = take n p;
    unsent = drop n p;
    splits = sym (take-append-drop n p);
    outgoing = w.0;
    incoming = w.1;
    closed = w.2;
    finished = λ x. cc;
    ended = λ x. ne (ground arith);
  }

  one_more :
      (n : ℕ) {c' c'' : Conn} {e : Option SecureError}
      → (c'.outgoing ≡ c.outgoing ++ take n p) × (c'.incoming ≡ c.incoming) × (c'.closed ≡ c.closed)
      → Writes c' (drop n p) c'' e
      → Writes c p c'' e
  one_more n w v = record {
    sent = take n p ++ v.sent;
    unsent = v.unsent;
    splits =
        sym (take-append-drop n p)
        ∙ ap (λ (q : Bytes). take n p ++ q) v.splits
        ∙ sym (append_assoc (take n p) v.sent v.unsent);
    outgoing = v.outgoing ∙ rw w.0 (append_assoc c.outgoing (take n p) v.sent);
    incoming = v.incoming ∙ w.1;
    closed = v.closed ∙ w.2;
    finished = v.finished;
    ended = v.ended;
  }

write_all_loop-Writes :
    (fuel : ℕ) (c : Conn) (p : Bytes)
    → length p ≤ fuel
    → let r = write_all_loop fuel c p in Writes c p r.0 r.1
unfolding write_all_loop
write_all_loop-Writes fuel c [] h = nothing_sent c [] none (λ x. cc) refl
write_all_loop-Writes zero c (b ∷ p) h = absurd (omega arith)
write_all_loop-Writes (suc fuel) c (b ∷ p) h =
    let out = conn_write c (b ∷ p) in
    let w = conn_write_lem c (b ∷ p) in
    elim (Option-cases out.2) [
      | inr (err, e) ↦ rw (e, write_all_loop) (let_go c (b ∷ p) out.0 out.1 (net err) w (λ x. cc))
      | inl e ↦ elim (Bool-cases (out.1 == 0)) [
        | inl z ↦
            rw (e, z, write_all_loop) (let_go c (b ∷ p) out.0 out.1 err_short_write w (λ x. cc))
        | inr nz ↦
            let ih =
              write_all_loop-Writes fuel out.0 (drop out.1 (b ∷ p))
                (ground (arith, length-drop out.1 (b ∷ p))) in
            rw (e, nz, write_all_loop) (one_more c (b ∷ p) out.1 w ih)
      ]
    ]

-- For every behaviour of the connection, `writeAll` ends: it has sent the whole text if it returns
-- no error, and otherwise some first part of it. The incoming side is left alone.
pub write_all-Writes : (c : Conn) (p : Bytes) → let r = write_all c p in Writes c p r.0 r.1
unfolding write_all
write_all-Writes c p = write_all_loop-Writes (length p) c p (omega arith)

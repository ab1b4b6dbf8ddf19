-- ===== src/SecureConn/Write/Loop.antt =====
-- The loop of `Write`, and `Write`.
use espnetwork_serial.Prelude.{
  ℕ, zero, suc, ◌+◌, ◌≤◌, ◌<◌, ◌≡◌, ◌≢◌, refl, sym, ◌∙◌, ap, [], ◌∷◌, ◌++◌, Option, none, some,
  arith, length, take, drop, length-take, length-drop, length-append, take-append-drop,
  Option-cases, Bool-cases, ◌==◌, inl, inr, append_assoc, append-nil,
}
use espnetwork_serial.Prelude.Bytes.{Bytes}
use espnetwork_serial.SecureConn.Gcm.{Gcm}
use espnetwork_serial.SecureConn.Defs.{
  SecureConn, SecureError, out_of_fuel, tx_exhausted, last_sequence, chunk_size, send_record,
  write_loop, write,
}
use espnetwork_serial.SecureConn.Write.Spec.{
  flatten, IsPayload, record_bytes, Keeps-refl, Keeps-trans, Sends,
}
use espnetwork_serial.SecureConn.Write.Record.{Emits, send_record-Emits}

module _ (g : Gcm) (s : SecureConn) (p : Bytes) where
  -- The loop stops before a round, with or without an error.
  stops :
      (e : Option SecureError)
      → s.tx_sequence ≤ last_sequence
      → e ≢ some out_of_fuel
      → (e ≡ none → p ≡ [])
      → Sends g s p s 0 e
  stops e b ne z = record {
    chunks = [];
    unsent = p;
    tail = [];
    payloads = tt;
    splits = refl;
    counted = refl;
    outgoing = sym (append-nil s.conn.outgoing);
    cut = inl refl;
    sequence = omega arith;
    bounded = b;
    keeps = Keeps-refl s;
    finished = λ x. (z x, refl);
    ended = ne;
  }

  -- The record of a round does not go out.
  breaks :
      (chunk : Bytes) (s' : SecureConn) (err : SecureError)
      → s.tx_sequence < last_sequence
      → IsPayload chunk
      → Emits g s chunk s' (some err)
      → Sends g s p s' 0 (some err)
  breaks chunk s' err b pay w = record {
    chunks = [];
    unsent = p;
    tail = w.tail;
    payloads = tt;
    splits = refl;
    counted = refl;
    outgoing = w.outgoing;
    cut = rw (w.failed (λ x. cc)) (inr (chunk, w.more, pay, w.splits));
    sequence = omega (arith, w.failed (λ x. cc));
    bounded = omega (arith, w.failed (λ x. cc));
    keeps = w.keeps;
    finished = λ x. cc;
    ended = w.ended;
  }

  -- The record goes out, and the loop goes on behind it.
  goes_on :
      (chunk rest : Bytes) (s' s'' : SecureConn) (n : ℕ) (e : Option SecureError)
      → p ≡ chunk ++ rest
      → IsPayload chunk
      → Emits g s chunk s' none
      → Sends g s' rest s'' n e
      → Sends g s p s'' (length chunk + n) e
  goes_on chunk rest s' s'' n e q pay w v = record {
    chunks = chunk ∷ v.chunks;
    unsent = v.unsent;
    tail = v.tail;
    payloads = (pay, v.payloads);
    splits =
        q
        ∙ ap (λ (x : Bytes). chunk ++ x) v.splits
        ∙ sym (append_assoc chunk (flatten v.chunks) v.unsent);
    counted = omega (arith, v.counted, length-append chunk (flatten v.chunks));
    outgoing =
        v.outgoing
        ∙ rw (w.outgoing, w.keeps.tx_aead, w.keeps.tx_nonce_prefix, next, ← whole)
            (simp append_assoc);
    cut = rw (w.keeps.tx_aead, w.keeps.tx_nonce_prefix) at v.cut;
    sequence = omega (arith, v.sequence, (w.sent refl).1);
    bounded = v.bounded;
    keeps = Keeps-trans w.keeps v.keeps;
    finished = v.finished;
    ended = v.ended;
  }
    where
      next : s'.tx_sequence ≡ suc s.tx_sequence
      next = omega (arith, (w.sent refl).1)

      whole : record_bytes g s.tx_aead s.tx_nonce_prefix s.tx_sequence chunk ≡ w.tail
      whole = w.splits ∙ rw (w.sent refl).0 (append-nil w.tail)

-- The first chunk of a text that is not empty.
chunk-IsPayload :
    (b : ℕ) (p : Bytes)
    → let size = chunk_size (length (b ∷ p)) in
      IsPayload (take size (b ∷ p)) × (length (take size (b ∷ p)) ≡ size)
chunk-IsPayload b p = ground (arith, length-take (chunk_size (length (b ∷ p))) (b ∷ p))

write_loop-Sends :
    (g : Gcm) (fuel : ℕ) (s : SecureConn) (p : Bytes) (total : ℕ)
    → length p ≤ fuel
    → s.tx_sequence ≤ last_sequence
    → let r = write_loop g fuel s p total in (n : ℕ) × (r.1 ≡ total + n) × Sends g s p r.0 n r.2
unfolding write_loop
write_loop-Sends g fuel s [] total h b = (0, omega arith, stops g s [] none b (λ x. cc) (λ x. refl))
write_loop-Sends g zero s (b ∷ p) total h k = absurd (omega arith)
write_loop-Sends g (suc fuel) s (b ∷ p) total h k =
    elim (Bool-cases (s.tx_sequence == last_sequence)) [
      | inl full ↦
          rw full (0, omega arith, stops g s (b ∷ p) (some tx_exhausted) k (λ x. cc) (λ x. cc))
      | inr room ↦
          let below : s.tx_sequence < last_sequence = ground arith in
          let w = send_record-Emits g s chunk below in
          elim (Option-cases (send_record g s chunk).1) [
            | inr (err, q) ↦
                rw (room, q, write_loop)
                  (0, omega arith, breaks g s (b ∷ p) chunk s' err below pay.0 (rw q at w))
            | inl q ↦
                let w' = rw q at w in
                let (n, total_is, v) =
                  write_loop-Sends g fuel s' rest (total + size)
                    (omega (arith, pay.0.0, pay.1, length-drop size (b ∷ p)))
                    (omega (arith, (w'.sent refl).1)) in
                rw (room, q, write_loop)
                  (
                    length chunk + n,
                    omega (arith, total_is, pay.1),
                    goes_on g s (b ∷ p) chunk rest s' _ n _ (sym (take-append-drop size (b ∷ p)))
                        pay.0 w' v,
                  )
          ]
    ]
  where
    size : ℕ
    size = chunk_size (length (b ∷ p))

    chunk : Bytes
    chunk = take size (b ∷ p)

    rest : Bytes
    rest = drop size (b ∷ p)

    s' : SecureConn
    s' = (send_record g s chunk).0

    pay : IsPayload chunk × (length chunk ≡ size)
    pay = chunk-IsPayload b p

-- For every behaviour of the connection, `Write` ends. What it has put on the wire are records of
-- consecutive sequence numbers over the first `n` bytes of the text, followed by a cut record at
-- most; with no error these are all of the text, and nothing is cut.
pub write-Sends :
    (g : Gcm) (s : SecureConn) (p : Bytes)
    → s.tx_sequence ≤ last_sequence
    → let r = write g s p in Sends g s p r.0 r.1 r.2
unfolding write
write-Sends g s p b =
    let (n, total_is, v) = write_loop-Sends g (length p) s p 0 (omega arith) b in
    let e : (write_loop g (length p) s p 0).1 ≡ n = omega arith in rw e v

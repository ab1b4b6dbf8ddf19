-- ===== src/SecureConn/Channel/Next.antt =====
-- `Read` while a text is pending.
use espnetwork_serial.Prelude.{
  ℕ, suc, ◌+◌, ◌≤◌, ◌<◌, ◌≡◌, refl, ◌∙◌, ap, false, List, [], ◌∷◌, ◌++◌, none, arith, length, take,
  drop, ltb, length-append, length-take, take-append, drop-append, take-append-drop, append_assoc,
  Bool-cases, inl, inr, All,
}
use espnetwork_serial.Prelude.Bytes.{Bytes}
use espnetwork_serial.Net.{read_full, flat, IsClean, read_full-IsClean}
use espnetwork_serial.SecureConn.Gcm.{Gcm, IsGcm}
use espnetwork_serial.SecureConn.Defs.{
  SecureConn, last_sequence, record_header_bytes, gcm_tag_bytes, make_nonce, read,
}
use espnetwork_serial.SecureConn.Write.{IsPayload, seal_records, flatten}
use espnetwork_serial.SecureConn.Channel.Stream.{Pending, Delivers, header_parts, empty_of_length}
use espnetwork_serial.SecureConn.Channel.Opens.{
  after_record, expected_header, expected_seal, opens_record,
}

module _ (g : Gcm) (s : SecureConn) (k : ℕ) (text rest : Bytes) (stop : ℕ) (pos : 0 < k) where
  left_over :
      (p : Pending g s text rest stop) → 0 < length s.rx_plain → Delivers g s k text rest stop
  unfolding read
  left_over p h = record {
    after = record s { rx_plain = drop k s.rx_plain };
    handed = take k s.rx_plain;
    later = drop k s.rx_plain ++ flatten p.chunks;
    result = ground arith;
    some_bytes = omega (arith, length-take k s.rx_plain);
    at_most = omega (arith, length-take k s.rx_plain);
    splits = p.content ∙ rw (← append_assoc, take-append-drop);
    pending = record {
      chunks = p.chunks;
      payloads = p.payloads;
      content = refl;
      stream = p.stream;
      clean = p.clean;
      alive = p.alive;
      count = p.count;
    };
  }

  next_record :
      (c : Bytes) (cs : List Bytes)
      → IsGcm g
      → s.rx_plain ≡ []
      → IsPayload c
      → All IsPayload cs
      → text ≡ flatten (c ∷ cs)
      → flat s.conn.incoming
        ≡ seal_records g s.rx_aead s.rx_nonce_prefix s.rx_sequence (c ∷ cs) ++ rest
      → IsClean s.conn.incoming
      → s.conn.closed ≡ false
      → s.rx_sequence + suc (length cs) ≡ stop
      → stop ≤ last_sequence
      → Delivers g s k text rest stop
  next_record c cs laws z pay pays content stream clean alive count room =
      let (head_len, _, _) = header_parts (length c) s.rx_sequence pay.1 (omega arith) in
      let seal_len =
        laws.length-seal s.rx_aead (make_nonce s.rx_nonce_prefix s.rx_sequence) c
          (expected_header s c) in
      let whole : flat s.conn.incoming ≡ expected_header s c ++ (expected_seal g s c ++ behind) =
        stream ∙ simp append_assoc in
      let (es, e1, f1, clean1) = read_full-IsClean s.conn record_header_bytes alive clean (
        omega (
          arith,
          ap length whole,
          length-append (expected_header s c) (expected_seal g s c ++ behind),
          head_len,
        )) in
      let c1 = record s.conn { incoming = es } in
      let middle : flat es ≡ expected_seal g s c ++ behind =
        f1
        ∙ rw (
          whole,
          drop-append (expected_header s c) (expected_seal g s c ++ behind) 10 head_len,
        ) in
      let (es2, e2, f2, clean2) =
        read_full-IsClean c1 (length c + gcm_tag_bytes) alive clean1
          (omega (arith, ap length middle, length-append (expected_seal g s c) behind, seal_len)) in
      let c2 = record s.conn { incoming = es2 } in
      let first : read_full s.conn record_header_bytes ≡ (c1, expected_header s c, none) =
        e1
        ∙ rw (
          whole,
          take-append (expected_header s c) (expected_seal g s c ++ behind) 10 head_len,
        ) in
      let second : read_full c1 (length c + gcm_tag_bytes) ≡ (c2, expected_seal g s c, none) =
        e2
        ∙ rw (
          middle,
          take-append (expected_seal g s c) behind (length c + gcm_tag_bytes) seal_len,
        ) in
      record {
        after = after_record s k c2 c;
        handed = take k c;
        later = drop k c ++ flatten cs;
        result = opens_record g s k pos c c1 c2 laws z pay (omega arith) first second;
        some_bytes = omega (arith, length-take k c);
        at_most = omega (arith, length-take k c);
        splits = content ∙ rw (← append_assoc, take-append-drop);
        pending = record {
          chunks = cs;
          payloads = pays;
          content = refl;
          stream =
              f2
              ∙ rw
                  (
                    middle,
                    drop-append (expected_seal g s c) behind (length c + gcm_tag_bytes) seal_len,
                  )
                  next;
          clean = clean2;
          alive = alive;
          count = omega arith;
        };
      }
    where
      behind : Bytes
      behind = seal_records g s.rx_aead s.rx_nonce_prefix (suc s.rx_sequence) cs ++ rest

      next : behind ≡ seal_records g s.rx_aead s.rx_nonce_prefix (s.rx_sequence + 1) cs ++ rest
      next = let e : s.rx_sequence + 1 ≡ suc s.rx_sequence = omega arith in rw e

  on_chunks :
      (chunks : List Bytes)
      → IsGcm g
      → s.rx_plain ≡ []
      → (p : Pending g s text rest stop) → p.chunks ≡ chunks
      → stop ≤ last_sequence
      → 1 ≤ length text
      → Delivers g s k text rest stop
  on_chunks [] laws z p e room h =
      let nothing : text ≡ [] = p.content ∙ rw (z, e) in absurd (omega (arith, ap length nothing))
  on_chunks (c ∷ cs) laws z p e room h =
      let pays = rw e at p.payloads in
      next_record c cs laws z pays.0 pays.1 (p.content ∙ rw (z, e)) (p.stream ∙ rw e) p.clean
        p.alive (omega (arith, p.count, ap length e)) room

-- While a text is pending, `Read` with room for a byte returns no error and at least one byte, the
-- bytes are the next ones of the text, and the rest stays pending: whatever the pieces in which
-- the stream arrives, nothing is lost, changed, repeated or reordered.
pub read-Delivers :
    (g : Gcm) (s : SecureConn) (k : ℕ) (text rest : Bytes) (stop : ℕ)
    → IsGcm g
    → 0 < k
    → stop ≤ last_sequence
    → 1 ≤ length text
    → Pending g s text rest stop
    → Delivers g s k text rest stop
read-Delivers g s k text rest stop laws pos room h p =
    elim (Bool-cases (ltb 0 (length s.rx_plain))) [
      | inl some_left ↦ left_over g s k text rest stop pos p (ground arith)
      | inr empty ↦
          on_chunks g s k text rest stop pos p.chunks laws
            (empty_of_length s.rx_plain (ground arith)) p refl room h
    ]

-- ===== src/SecureConn/Write/Record.antt =====
-- One round of the loop of `Write`.
use espnetwork_serial.Prelude.{
  ℕ, ◌+◌, ◌%◌, ◌<◌, ◌≡◌, ◌≢◌, refl, sym, ◌∙◌, ap, [], ◌++◌, Option, none, some, arith, length,
  Option-cases, inl, inr, append_assoc, append-nil,
}
use espnetwork_serial.Prelude.Bytes.{Bytes}
use espnetwork_serial.Net.{Conn}
use espnetwork_serial.SecureConn.Gcm.{Gcm}
use espnetwork_serial.SecureConn.Defs.{
  SecureConn, SecureError, out_of_fuel, last_sequence, u64_mod, record_header, make_nonce,
  write_all, send_record,
}
use espnetwork_serial.SecureConn.WriteAll.{Writes, write_all-Writes}
use espnetwork_serial.SecureConn.Write.Spec.{record_bytes, Keeps}

pub record Emits (g : Gcm) (s : SecureConn) (p : Bytes) (s' : SecureConn) (e : Option SecureError)
    : Type 0 where
  pub tail : Bytes
  pub more : Bytes
  pub splits : record_bytes g s.tx_aead s.tx_nonce_prefix s.tx_sequence p ≡ tail ++ more
  pub outgoing : s'.conn.outgoing ≡ s.conn.outgoing ++ tail
  pub keeps : Keeps s s'
  pub sent : e ≡ none → (more ≡ []) × (s'.tx_sequence ≡ s.tx_sequence + 1)
  pub failed : e ≢ none → s'.tx_sequence ≡ s.tx_sequence
  pub ended : e ≢ some out_of_fuel

module _ (g : Gcm) (s : SecureConn) (p : Bytes) where
  abbrev header : Bytes
  header = record_header (length p) s.tx_sequence

  abbrev sealed : Bytes
  sealed = g.seal s.tx_aead (make_nonce s.tx_nonce_prefix s.tx_sequence) p header

  -- The connection was left at `c`, with the same incoming side.
  set_conn-Keeps :
      (c : Conn) (q : ℕ)
      → c.incoming ≡ s.conn.incoming
      → c.closed ≡ s.conn.closed
      → Keeps s (record s { conn = c; tx_sequence = q })
  set_conn-Keeps c q i k = record {
    tx_aead = refl;
    tx_nonce_prefix = refl;
    rx_aead = refl;
    rx_nonce_prefix = refl;
    rx_sequence = refl;
    rx_plain = refl;
    incoming = i;
    closed = k;
  }

  header_failed :
      (c : Conn) (err : SecureError)
      → Writes s.conn header c (some err)
      → Emits g s p (record s { conn = c }) (some err)
  header_failed c err w = record {
    tail = w.sent;
    more = w.unsent ++ sealed;
    splits = ap (λ (x : Bytes). x ++ sealed) w.splits ∙ append_assoc w.sent w.unsent sealed;
    outgoing = w.outgoing;
    keeps = set_conn-Keeps c s.tx_sequence w.incoming w.closed;
    sent = λ x. cc;
    failed = λ x. refl;
    ended = w.ended;
  }

  header_sent : {c : Conn} (w : Writes s.conn header c none) → header ≡ w.sent
  header_sent w = w.splits ∙ rw (w.finished refl) (append-nil w.sent)

  both_outgoing :
      {c c' : Conn} {e : Option SecureError} (w : Writes s.conn header c none)
      (v : Writes c sealed c' e)
      → c'.outgoing ≡ s.conn.outgoing ++ (header ++ v.sent)
  both_outgoing w v =
      v.outgoing ∙ rw w.outgoing (append_assoc s.conn.outgoing w.sent v.sent ∙ rw (← header_sent w))

  sealed_failed :
      (c c' : Conn) (err : SecureError)
      → Writes s.conn header c none
      → Writes c sealed c' (some err)
      → Emits g s p (record s { conn = c' }) (some err)
  sealed_failed c c' err w v = record {
    tail = header ++ v.sent;
    more = v.unsent;
    splits = ap (λ (x : Bytes). header ++ x) v.splits ∙ sym (append_assoc header v.sent v.unsent);
    outgoing = both_outgoing w v;
    keeps = set_conn-Keeps c' s.tx_sequence (v.incoming ∙ w.incoming) (v.closed ∙ w.closed);
    sent = λ x. cc;
    failed = λ x. refl;
    ended = v.ended;
  }

  all_sent :
      (c c' : Conn)
      → s.tx_sequence < last_sequence
      → Writes s.conn header c none
      → Writes c sealed c' none
      → Emits g s p (record s { conn = c'; tx_sequence = (s.tx_sequence + 1) % u64_mod }) none
  all_sent c c' h w v = record {
    tail = header ++ v.sent;
    more = v.unsent;
    splits = ap (λ (x : Bytes). header ++ x) v.splits ∙ sym (append_assoc header v.sent v.unsent);
    outgoing = both_outgoing w v;
    keeps =
        set_conn-Keeps c' ((s.tx_sequence + 1) % u64_mod) (v.incoming ∙ w.incoming)
          (v.closed ∙ w.closed);
    sent = λ x. (v.finished refl, omega arith);
    failed = λ x. absurd (x refl);
    ended = v.ended;
  }

  pub send_record-Emits :
      s.tx_sequence < last_sequence → let r = send_record g s p in Emits g s p r.0 r.1
  unfolding send_record
  send_record-Emits h =
      let (c, e) = write_all s.conn header in
      let w = write_all-Writes s.conn header in
      let (c', e') = write_all (write_all s.conn header).0 sealed in
      let v = write_all-Writes (write_all s.conn header).0 sealed in
      elim (Option-cases (write_all s.conn header).1) [
        | inr (err, q) ↦ rw (q, send_record) (header_failed c err (rw q at w))
        | inl q ↦ elim (Option-cases (write_all (write_all s.conn header).0 sealed).1) [
          | inr (err, q') ↦
              rw (q, q', send_record) (sealed_failed c c' err (rw q at w) (rw q' at v))
          | inl q' ↦ rw (q, q', send_record) (all_sent c c' h (rw q at w) (rw q' at v))
        ]
      ]

-- ===== src/SecureConn/Channel/Receive.antt =====
-- The receiving loop of monitor/stress.go, and a whole text sent from one side to the other.
use espnetwork_serial.Prelude.{
  ℕ, false, zero, suc, ◌+◌, ◌-◌, ◌≤◌, ◌≡◌, refl, sym, ◌∙◌, ap, List, [], ◌∷◌, ◌++◌, none, some,
  arith, length, drop, ◌==◌, length-append, drop-append, append-nil, All, if◌then◌else◌,
}
use espnetwork_serial.Prelude.Bytes.{Bytes}
use espnetwork_serial.Net.{flat, IsClean}
use espnetwork_serial.SecureConn.Gcm.{Gcm, IsGcm}
use espnetwork_serial.SecureConn.Defs.{SecureConn, SecureError, last_sequence, read, write}
use espnetwork_serial.SecureConn.Write.{flatten, IsPayload, Sends, write-Sends}
use espnetwork_serial.SecureConn.Channel.Stream.{Pending, empty_of_length}
use espnetwork_serial.SecureConn.Channel.Next.{read-Delivers}

-- How the loop ends. `no_fuel` is no outcome of the program.
pub data ReceiveEnd : Type 0 where
  complete no_progress no_fuel : ReceiveEnd
  read_failed : SecureError → ReceiveEnd

-- `for offset < len(received) { … }`, with `n` bytes still to come.
unfoldable pub receive_loop : Gcm → ℕ → SecureConn → ℕ → SecureConn × Bytes × ReceiveEnd
receive_loop g zero s n = if n == 0 then (s, [], complete) else (s, [], no_fuel)
receive_loop g (suc fuel) s n =
    let (s', d, e) = read g s n in
    let rest = receive_loop g fuel s' (n - length d) in
    if n == 0 then (s, [], complete) else elim e [
      | some err ↦ (s', d, read_failed err)
      | none ↦ if length d == 0 then (s', [], no_progress) else (rest.0, d ++ rest.1, rest.2)
    ]

-- A round that goes on receives a byte, so the bytes wanted bound the rounds.
unfoldable pub receive : Gcm → SecureConn → ℕ → SecureConn × Bytes × ReceiveEnd
unfolding receive_loop
receive g s n = receive_loop g n s n

-- The whole text arrived, and the receiver expects the record after it.
pub record Received (r : SecureConn × Bytes × ReceiveEnd) (text : Bytes) (stop : ℕ) : Type 0 where
  pub text_is : r.1 ≡ text
  pub complete_is : r.2 ≡ complete
  pub sequence : r.0.rx_sequence ≡ stop
  pub drained : r.0.rx_plain ≡ []

empty-Pending :
    (g : Gcm) (s : SecureConn) (rest : Bytes) (stop : ℕ)
    → Pending g s [] rest stop
    → (s.rx_sequence ≡ stop) × (s.rx_plain ≡ [])
empty-Pending g s rest stop p = go p.chunks p.payloads p.content p.count
  where
    go :
        (cs : List Bytes)
        → All IsPayload cs
        → [] ≡ s.rx_plain ++ flatten cs
        → s.rx_sequence + length cs ≡ stop
        → (s.rx_sequence ≡ stop) × (s.rx_plain ≡ [])
    go [] h e c = (
      omega arith,
      empty_of_length s.rx_plain (omega (arith, ap length e, length-append s.rx_plain [])),
    )
    go (x ∷ cs) h e c = absurd (
        omega (
          arith,
          ap length e,
          length-append s.rx_plain (x ++ flatten cs),
          length-append x (flatten cs),
          h.0.0,
        ))

empty-Received :
    (g : Gcm) (s : SecureConn) (text rest : Bytes) (stop : ℕ)
    → length text ≡ 0
    → Pending g s text rest stop
    → Received (s, [], complete) text stop
empty-Received g s text rest stop l p =
    let nothing : text ≡ [] = empty_of_length text l in
    let (at_stop, drained) = empty-Pending g s rest stop (rw nothing at p) in
    record { text_is = sym nothing; complete_is = refl; sequence = at_stop; drained = drained }

receive_loop-Received :
    (g : Gcm) (fuel : ℕ) (s : SecureConn) (n : ℕ) (text rest : Bytes) (stop : ℕ)
    → IsGcm g
    → stop ≤ last_sequence
    → n ≤ fuel
    → length text ≡ n
    → Pending g s text rest stop
    → Received (receive_loop g fuel s n) text stop
unfolding receive_loop
receive_loop-Received g zero s zero text rest stop laws room f l p =
    empty-Received g s text rest stop l p
receive_loop-Received g zero s (suc n) text rest stop laws room f l p = absurd (omega arith)
receive_loop-Received g (suc fuel) s zero text rest stop laws room f l p =
    empty-Received g s text rest stop l p
receive_loop-Received g (suc fuel) s (suc n) text rest stop laws room f l p =
    let d = read-Delivers g s (suc n) text rest stop laws (omega arith) room (omega arith) p in
    let ih =
      receive_loop-Received g fuel d.after (suc n - length d.handed) d.later rest stop laws room
        (omega (arith, d.some_bytes))
        (omega (arith, ap length d.splits, length-append d.handed d.later)) d.pending in
    let more : (suc n == 0) ≡ false = ground arith in
    let got : (length d.handed == 0) ≡ false = ground (arith, d.some_bytes) in
    rw (more, d.result, d.result, got)
      (record {
        text_is = rw ih.text_is (sym d.splits);
        complete_is = ih.complete_is;
        sequence = ih.sequence;
        drained = ih.drained;
      })

-- A text that is pending is received whole, by as many reads as it takes.
receive-Received :
    (g : Gcm) (s : SecureConn) (text rest : Bytes) (stop : ℕ)
    → IsGcm g
    → stop ≤ last_sequence
    → Pending g s text rest stop
    → Received (receive g s (length text)) text stop
unfolding receive
receive-Received g s text rest stop laws room p =
    receive_loop-Received g (length text) s (length text) text rest stop laws room (omega arith)
      refl p

-- One side's receiving half matches the other's sending half.
pub record Paired (s r : SecureConn) : Type 0 where
  pub aead : r.rx_aead ≡ s.tx_aead
  pub nonce_prefix : r.rx_nonce_prefix ≡ s.tx_nonce_prefix
  pub sequence : r.rx_sequence ≡ s.tx_sequence
  pub drained : r.rx_plain ≡ []
  pub alive : r.conn.closed ≡ false

sent-Pending :
    (g : Gcm) (s s' r : SecureConn) (p : Bytes) (n : ℕ)
    → Paired s r
    → IsClean r.conn.incoming
    → flat r.conn.incoming ≡ drop (length s.conn.outgoing) s'.conn.outgoing
    → Sends g s p s' n none
    → Pending g r p [] s'.tx_sequence
sent-Pending g s s' r p n q clean wire v =
    let (nothing_left, nothing_cut) = v.finished refl in
    record {
      chunks = v.chunks;
      payloads = v.payloads;
      content = v.splits ∙ rw (nothing_left, q.drained) (append-nil (flatten v.chunks));
      stream =
          wire
          ∙ rw (v.outgoing, drop-append s.conn.outgoing _ (length s.conn.outgoing) refl)
              (rw (nothing_cut, q.aead, q.nonce_prefix, q.sequence));
      clean = clean;
      alive = q.alive;
      count = rw q.sequence (sym v.sequence);
    }

-- What one side's `Write` sent with no error, the other side receives whole and unchanged, if the
-- keys, nonce prefixes and sequence numbers of the two agree before, and the bytes arrive in order
-- with no error, in whatever pieces. The two sides then agree on the next sequence number again.
pub receive-write :
    (g : Gcm) (s r : SecureConn) (p : Bytes) (s' : SecureConn) (n : ℕ)
    → IsGcm g
    → s.tx_sequence ≤ last_sequence
    → Paired s r
    → write g s p ≡ (s', n, none)
    → IsClean r.conn.incoming
    → flat r.conn.incoming ≡ drop (length s.conn.outgoing) s'.conn.outgoing
    → Received (receive g r (length p)) p s'.tx_sequence
receive-write g s r p s' n laws b q ok clean wire =
    let v = rw ok at (write-Sends g s p b) in
    receive-Received g r p [] s'.tx_sequence laws v.bounded
      (sent-Pending g s s' r p n q clean wire v)

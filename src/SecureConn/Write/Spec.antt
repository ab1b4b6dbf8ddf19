-- ===== src/SecureConn/Write/Spec.antt =====
-- What goes over the wire: records with consecutive sequence numbers, each of 1 to 1024 bytes.
use espnetwork_serial.Prelude.{
  ℕ, suc, ◌+◌, ◌≤◌, ◌≡◌, ◌≢◌, refl, ◌∙◌, List, [], ◌∷◌, ◌++◌, Option, none, some, length, All, ◌⊎◌,
}
use espnetwork_serial.Prelude.Bytes.{Bytes}
use espnetwork_serial.SecureConn.Gcm.{Gcm}
use espnetwork_serial.SecureConn.Defs.{
  SecureConn, SecureError, out_of_fuel, record_max_payload, last_sequence, record_header,
  make_nonce,
}

abbrev pub flatten : List Bytes → Bytes
flatten [] = []
flatten (x ∷ xs) = x ++ flatten xs

abbrev pub IsPayload : Bytes → Type 0
IsPayload p = (1 ≤ length p) × (length p ≤ record_max_payload)

-- One record: the header, and the payload sealed under it.
abbrev pub record_bytes : Gcm → Bytes → Bytes → ℕ → Bytes → Bytes
record_bytes g key prefix sequence p =
    let header = record_header (length p) sequence in
    header ++ g.seal key (make_nonce prefix sequence) p header

abbrev pub seal_records : Gcm → Bytes → Bytes → ℕ → List Bytes → Bytes
seal_records g key prefix sequence [] = []
seal_records g key prefix sequence (p ∷ ps) =
    record_bytes g key prefix sequence p ++ seal_records g key prefix (suc sequence) ps

-- What a write leaves alone: the keys, the receiving half, and what is still to arrive.
pub record Keeps (s s' : SecureConn) : Type 0 where
  pub tx_aead : s'.tx_aead ≡ s.tx_aead
  pub tx_nonce_prefix : s'.tx_nonce_prefix ≡ s.tx_nonce_prefix
  pub rx_aead : s'.rx_aead ≡ s.rx_aead
  pub rx_nonce_prefix : s'.rx_nonce_prefix ≡ s.rx_nonce_prefix
  pub rx_sequence : s'.rx_sequence ≡ s.rx_sequence
  pub rx_plain : s'.rx_plain ≡ s.rx_plain
  pub incoming : s'.conn.incoming ≡ s.conn.incoming
  pub closed : s'.conn.closed ≡ s.conn.closed

pub Keeps-refl : (s : SecureConn) → Keeps s s
Keeps-refl s = record {
  tx_aead = refl;
  tx_nonce_prefix = refl;
  rx_aead = refl;
  rx_nonce_prefix = refl;
  rx_sequence = refl;
  rx_plain = refl;
  incoming = refl;
  closed = refl;
}

pub Keeps-trans : {s t u : SecureConn} → Keeps s t → Keeps t u → Keeps s u
Keeps-trans a b = record {
  tx_aead = b.tx_aead ∙ a.tx_aead;
  tx_nonce_prefix = b.tx_nonce_prefix ∙ a.tx_nonce_prefix;
  rx_aead = b.rx_aead ∙ a.rx_aead;
  rx_nonce_prefix = b.rx_nonce_prefix ∙ a.rx_nonce_prefix;
  rx_sequence = b.rx_sequence ∙ a.rx_sequence;
  rx_plain = b.rx_plain ∙ a.rx_plain;
  incoming = b.incoming ∙ a.incoming;
  closed = b.closed ∙ a.closed;
}

-- `tail` is empty, or the beginning of one more record under the sequence number `sequence`.
abbrev pub CutRecord : Gcm → Bytes → Bytes → ℕ → Bytes → Type 0
CutRecord g key prefix sequence tail =
    (tail ≡ [])
    ⊎ ((p : Bytes) × (more : Bytes) × IsPayload p
        × (record_bytes g key prefix sequence p ≡ tail ++ more))

-- A call of `Write` led from `s` to `s'`, took `n` bytes of `p` and returned `e`.
pub record Sends (g : Gcm) (s : SecureConn) (p : Bytes) (s' : SecureConn) (n : ℕ)
    (e : Option SecureError) : Type 0 where
  pub chunks : List Bytes
  pub unsent : Bytes
  pub tail : Bytes
  pub payloads : All IsPayload chunks
  pub splits : p ≡ flatten chunks ++ unsent
  pub counted : n ≡ length (flatten chunks)
  pub outgoing :
      s'.conn.outgoing
      ≡ s.conn.outgoing ++ (seal_records g s.tx_aead s.tx_nonce_prefix s.tx_sequence chunks ++ tail)
  pub cut : CutRecord g s.tx_aead s.tx_nonce_prefix s'.tx_sequence tail
  pub sequence : s'.tx_sequence ≡ s.tx_sequence + length chunks
  pub bounded : s'.tx_sequence ≤ last_sequence
  pub keeps : Keeps s s'
  pub finished : e ≡ none → (unsent ≡ []) × (tail ≡ [])
  pub ended : e ≢ some out_of_fuel

-- ===== src/App/Address.antt =====
-- `normalizeBoardAddress`, with `SplitHostPort` and `JoinHostPort` of Go's package net.
use espnetwork_serial.Prelude.{
  ℕ, ◌+◌, Bool, false, not, ◌&&◌, ◌||◌, [], ◌∷◌, ◌++◌, reverse, Option, none, some, ◌==◌, length,
  drop, if◌then◌else◌,
}
use espnetwork_serial.Prelude.Bytes.{Bytes, codes, same}
use espnetwork_serial.Prelude.Text.{trim_space, cut_byte}

-- `strings.Trim(s, "\"")`.
abbrev pub drop_quotes : Bytes → Bytes
drop_quotes [] = []
drop_quotes (c ∷ s) = if c == b'"' then drop_quotes s else c ∷ s

abbrev pub trim_quotes : Bytes → Bytes
trim_quotes s = reverse (drop_quotes (reverse (drop_quotes s)))

unfoldable pub has_byte : ℕ → Bytes → Bool
has_byte b [] = false
has_byte b (c ∷ s) = c == b || has_byte b s

abbrev prepend : ℕ → Bytes × Bytes → Bytes × Bytes
prepend c (front, back) = (c ∷ front, back)

-- The text cut at its last byte `b`.
unfoldable pub cut_last : ℕ → Bytes → Option (Bytes × Bytes)
cut_last b [] = none
cut_last b (c ∷ s) = elim (cut_last b s) [
  | some cut ↦ some (prepend c cut)
  | none ↦ if c == b then some ([], s) else none
]

abbrev pub begins_with : ℕ → Bytes → Bool
begins_with b [] = false
begins_with b (c ∷ s) = c == b

-- The host in brackets: the first `]` of `s` stands just before its last colon, which is at `i`.
abbrev pub bracketed_host : Bytes → ℕ → Bytes → Option (Bytes × Bytes) → Option (Bytes × Bytes)
bracketed_host s i port none = none
bracketed_host s i port (some (pre, post)) =
    if not (length pre + 1 == i)
    then none
    else if has_byte b'[' (drop 1 s) || has_byte b']' post
    then none
    else some (drop 1 pre, port)

abbrev pub plain_host : Bytes → Bytes → Bytes → Option (Bytes × Bytes)
plain_host s host port =
    if has_byte b':' host
    then none
    else if has_byte b'[' s || has_byte b']' s
    then none
    else some (host, port)

-- `net.SplitHostPort`; `none` stands for its errors.
unfoldable pub split_host_port : Bytes → Option (Bytes × Bytes)
unfolding cut_last has_byte
split_host_port s = elim (cut_last b':' s) [
  | none ↦ none
  | some (front, port) ↦
      if begins_with b'[' s
      then bracketed_host s (length front) port (cut_byte b']' s)
      else plain_host s front port
]

-- `net.JoinHostPort`.
unfoldable pub join_host_port : Bytes → Bytes → Bytes
unfolding has_byte
join_host_port host port =
    if has_byte b':' host then b'[' ∷ (host ++ b']' ∷ b':' ∷ port) else host ++ b':' ∷ port

abbrev pub default_device_port : Bytes
default_device_port = codes "3233"

-- The address, or the text of the error.
pub data Address : Type 0 where
  address bad_address : Bytes → Address

-- The text up to the first `%`.
abbrev pub before_zone : Option (Bytes × Bytes) → Bytes → Bytes
before_zone none s = s
before_zone (some (front, back)) s = front

-- What is not written out here: whether `net.ParseIP` accepts a text, and the verb `%q`.
pub record Texts : Type 0 where
  pub parses_ip : Bytes → Bool
  pub quoted : Bytes → Bytes

-- The body behind the trimming.
unfoldable pub normalize_trimmed : Texts → Bytes → Address
normalize_trimmed texts s =
    if same s [] then bad_address (codes "empty board port") else elim (split_host_port s) [
      | some _ ↦ address s
      | none ↦
          if texts.parses_ip (before_zone (cut_byte b'%' s) s) && has_byte b':' s
          then address (join_host_port s default_device_port)
          else if has_byte b':' s
          then bad_address (codes "invalid board address " ++ texts.quoted s)
          else address (join_host_port s default_device_port)
    ]

unfoldable pub normalize_board_address : Texts → Bytes → Address
unfolding normalize_trimmed
normalize_board_address texts board_port =
    normalize_trimmed texts (trim_space (trim_quotes board_port))

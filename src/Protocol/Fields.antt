-- ===== src/Protocol/Fields.antt =====
-- `parseESPNSFields`: the `name=value` tokens of a control line as a map.
use espnetwork_serial.Prelude.{
  ◌≡◌, refl, ◌∙◌, List, [], ◌∷◌, Option, none, some, arith, if◌then◌else◌,
}
use espnetwork_serial.Prelude.Bytes.{Bytes, same, same_iff}
use espnetwork_serial.Prelude.Text.{fields, cut_byte}

-- A `map[string]string`. A missing key reads as the empty string.
abbrev pub FieldMap : Type 0
FieldMap = List (Bytes × Bytes)

unfoldable pub get_field : Bytes → FieldMap → Bytes
get_field k [] = []
get_field k ((j, v) ∷ m) = if same j k then v else get_field k m

unfoldable pub set_field : Bytes → Bytes → FieldMap → FieldMap
set_field k v [] = (k, v) ∷ []
set_field k v ((j, w) ∷ m) = if same j k then (k, v) ∷ m else (j, w) ∷ set_field k v m

-- A token with no `=`, or with one at its front, is skipped.
abbrev pub add_cut : FieldMap → Option (Bytes × Bytes) → FieldMap
add_cut m none = m
add_cut m (some ([], v)) = m
add_cut m (some (c ∷ k, v)) = set_field (c ∷ k) v m

abbrev pub add_token : FieldMap → Bytes → FieldMap
add_token m token = add_cut m (cut_byte b'=' token)

unfoldable pub add_tokens : FieldMap → List Bytes → FieldMap
unfolding set_field
add_tokens m [] = m
add_tokens m (t ∷ ts) = add_tokens (add_token m t) ts

unfoldable pub parse_fields : Bytes → FieldMap
unfolding add_tokens
parse_fields line = add_tokens [] (fields line)

pub get_field-set_field :
    (k j v : Bytes) (m : FieldMap)
    → get_field j (set_field k v m) ≡ (if same k j then v else get_field j m)
unfolding get_field set_field
get_field-set_field k j v [] = refl
get_field-set_field k j v ((i, w) ∷ m) =
    ground (arith, same_iff k j, same_iff i k, same_iff i j, get_field-set_field k j v m)

-- The value that a token gives to the name `k`, if it is a token of that name.
abbrev pub cut_value : Bytes → Option (Bytes × Bytes) → Option Bytes
cut_value k none = none
cut_value k (some ([], v)) = none
cut_value k (some (c ∷ j, v)) = if same (c ∷ j) k then some v else none

abbrev pub token_value : Bytes → Bytes → Option Bytes
token_value k token = cut_value k (cut_byte b'=' token)

-- The last value that the tokens give to the name.
abbrev pub or_value : Option Bytes → Bytes → Bytes
or_value none v = v
or_value (some v) _ = v

abbrev pub last_value : Bytes → Bytes → List Bytes → Bytes
last_value k v [] = v
last_value k v (t ∷ ts) = last_value k (or_value (token_value k t) v) ts

get_field-add_cut :
    (k : Bytes) (m : FieldMap) (cut : Option (Bytes × Bytes))
    → get_field k (add_cut m cut) ≡ or_value (cut_value k cut) (get_field k m)
get_field-add_cut k m none = refl
get_field-add_cut k m (some ([], v)) = refl
get_field-add_cut k m (some (c ∷ j, v)) = ground (arith, get_field-set_field (c ∷ j) k v m)

get_field-add_tokens :
    (k : Bytes) (m : FieldMap) (ts : List Bytes)
    → get_field k (add_tokens m ts) ≡ last_value k (get_field k m) ts
unfolding add_tokens
get_field-add_tokens k m [] = refl
get_field-add_tokens k m (t ∷ ts) =
    get_field-add_tokens k (add_token m t) ts ∙ rw (get_field-add_cut k m (cut_byte b'=' t))

-- A field reads as the last value that a token of the line gives to its name, and as the empty text
-- if no token does.
pub get_field-parse_fields :
    (k line : Bytes) → get_field k (parse_fields line) ≡ last_value k [] (fields line)
unfolding parse_fields
get_field-parse_fields k line = get_field-add_tokens k [] (fields line) ∙ unfold get_field in refl

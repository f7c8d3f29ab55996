-- ===== src/Pager/Index.antt =====
-- The indices from characters to bytes of src/pager/mod.rs.
use mcp_repl.Prelude.{
  ℕ, zero, suc, ◌-◌, min, ltb, ◌==◌, Bool, false, get_or, if◌then◌else◌, List, [], ◌∷◌, ◌++◌, map,
  length, get_elem?, drop, is_empty, saturating_add,
}
use mcp_repl.Capture.Types.{Bytes}
use mcp_repl.Capture.Utf8.Decode.{ok, utf8_error, from_utf8, is_continuation}

-- Where the characters of valid UTF-8 start: the bytes that do not go on with one.
unfoldable pub char_starts : ℕ → Bytes → List ℕ
char_starts at [] = []
char_starts at (b ∷ bs) =
    let rest = char_starts (suc at) bs in if is_continuation b then rest else at ∷ rest

-- `(at..at + n)`.
unfoldable pub counted : ℕ → ℕ → List ℕ
counted at zero = []
counted at (suc n) = at ∷ counted (suc at) n

-- Bytes that are not UTF-8 count as a character each.
unfoldable pub build_char_index : Bytes → List ℕ
build_char_index bytes = elim (from_utf8 bytes) [
  | ok ↦ char_starts 0 bytes ++ (length bytes ∷ [])
  | utf8_error valid_up_to error_len ↦ counted 0 (suc (length bytes))
]

unfoldable pub extend_char_index : List ℕ → List ℕ → ℕ → List ℕ
extend_char_index target appended base_byte =
    (if is_empty target then 0 ∷ [] else target)
    ++ map (λ offset. saturating_add base_byte offset) (drop 1 appended)

unfoldable pub extend_source_offsets : List ℕ → List ℕ → (ℕ → ℕ) → List ℕ
extend_source_offsets target appended source_offset_for_byte =
    (if is_empty target then source_offset_for_byte 0 ∷ [] else target)
    ++ map source_offset_for_byte (drop 1 appended)

abbrev pub char_len : List ℕ → ℕ
char_len index = length index - 1

unfoldable pub byte_index_for_char_offset : List ℕ → ℕ → ℕ → ℕ
byte_index_for_char_offset index offset len_bytes =
    let idx = min offset (length index - 1) in
    if is_empty index then 0 else get_or (get_elem? index idx) len_bytes

-- `index.binary_search(&value)` on a strictly ascending index: where it is, or where it would be.
unfoldable pub binary_search : List ℕ → ℕ → Bool × ℕ
binary_search [] value = (false, 0)
binary_search (x ∷ xs) value =
    let rest = binary_search xs value in
    if ltb x value then (rest.0, suc rest.1) else (x == value, 0)

unfoldable pub char_offset_for_byte_index : List ℕ → ℕ → ℕ
char_offset_for_byte_index index byte_index =
    let found = binary_search index byte_index in
    if is_empty index then 0 else if found.0 then found.1 else found.1 - 1

-- Where the newlines stand.
unfoldable pub newlines : ℕ → Bytes → List ℕ
newlines at [] = []
newlines at (b ∷ bs) = let rest = newlines (suc at) bs in if b == b'\n' then at ∷ rest else rest

unfoldable pub line_end_offsets : Bytes → List ℕ → ℕ → List ℕ
line_end_offsets bytes index base_char =
    map (λ idx. saturating_add base_char (char_offset_for_byte_index index (saturating_add idx 1)))
      (newlines 0 bytes)

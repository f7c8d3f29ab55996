-- ===== src/Render/Bytes.antt =====
-- `render_bytes` of src/resolved_output.rs: bytes as text, with invalid ones escaped.
use mcp_repl.Prelude.{
  ℕ, zero, suc, ◌-◌, [], ◌∷◌, ◌++◌, Option, none, some, length, take, drop, saturating_add,
}
use mcp_repl.Capture.Types.{Bytes}
use mcp_repl.Capture.Utf8.Decode.{ok, utf8_error, from_utf8}
use mcp_repl.Capture.Tails.Queue.{escape_bytes}

-- Where the invalid bytes end: with `None` for the error's length, at the end of the text.
abbrev pub invalid_end : ℕ → Option ℕ → Bytes → ℕ
invalid_end valid_up_to none remaining = length remaining
invalid_end valid_up_to (some len) remaining = saturating_add valid_up_to len

-- Each round takes a byte at least, so the number of bytes is enough fuel.
unfoldable pub render_loop : ℕ → Bytes → Bytes
render_loop zero remaining = []
render_loop (suc fuel) [] = []
render_loop (suc fuel) (b ∷ bs) = elim (from_utf8 (b ∷ bs)) [
  | ok ↦ b ∷ bs
  | utf8_error valid_up_to error_len ↦
      let to = invalid_end valid_up_to error_len (b ∷ bs) in
      take valid_up_to (b ∷ bs)
      ++ (escape_bytes (take (to - valid_up_to) (drop valid_up_to (b ∷ bs)))
          ++ render_loop fuel (drop to (b ∷ bs)))
]

unfoldable pub render_bytes : Bytes → ℕ → ℕ → Bytes
render_bytes bytes start end =
    let remaining = take (end - start) (drop start bytes) in
    render_loop (length remaining) remaining

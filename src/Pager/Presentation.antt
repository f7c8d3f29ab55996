-- ===== src/Pager/Presentation.antt =====
-- The texts of the pager: src/pager/presentation.rs.
use mcp_repl.Capture.Utf8.Decode.{is_continuation}
use mcp_repl.Prelude.{
  suc, ◌-◌, leb, not, ◌∷◌, length, take, ℕ, ◌*◌, ◌/◌, ◌%◌, min, ltb, ◌==◌, ◌&&◌, Option, none, some,
  if◌then◌else◌, [], ◌++◌, u64_max, codes, decimal,
}
use mcp_repl.Capture.Types.{Bytes}
use mcp_repl.Ranges.Set.{Range, covers}
use mcp_repl.Render.Content.{WorkerContent, server_stderr}
use mathlib.Core.List.{List}

unfoldable pub footer_min : ℕ → Bytes
footer_min pages_left =
    if pages_left == 0
    then codes "(END)"
    else codes "--More-- (" ++ (decimal pages_left ++ codes "p)")

-- `@start..end`.
abbrev range_text : ℕ → ℕ → Bytes
range_text start end = codes "@" ++ (decimal start ++ (codes ".." ++ decimal end))

abbrev position_range : ℕ → ℕ → Option Range → Bytes
position_range current_offset total_chars none =
    codes "@" ++ (decimal current_offset ++ (codes "/" ++ decimal total_chars))
position_range current_offset total_chars (some r) =
    if r.1 == current_offset
    then range_text r.0 r.1 ++ (codes "/" ++ decimal total_chars)
    else codes "@" ++ (decimal current_offset ++ (codes "/" ++ decimal total_chars))

unfoldable pub position_marker : ℕ → ℕ → Option Range → Bytes
position_marker current_offset total_chars last_range =
    let permille = min (min (current_offset * 1000) u64_max / total_chars) 1000 in
    if total_chars == 0
    then []
    else decimal (permille / 10)
      ++ (codes "."
          ++ (decimal (permille % 10)
              ++ (codes "%, " ++ position_range current_offset total_chars last_range)))

unfoldable pub elision_marker : ℕ → ℕ → WorkerContent
elision_marker start end =
    server_stderr
      (codes "[pager] elided output (already shown): " ++ (range_text start end ++ codes "\n"))

unfoldable pub gap_marker_if_needed :
    Option Range → Option Range → List Range → Option WorkerContent
gap_marker_if_needed none first_range seen = none
gap_marker_if_needed (some l) none seen = none
gap_marker_if_needed (some l) (some f) seen =
    if ltb l.1 f.0 && covers seen l.1 f.0 then some (elision_marker l.1 f.0) else none

-- The characters of a text, at byte `at` of it, that start before byte `keep_bytes`.
unfoldable pub chars_before : ℕ → ℕ → Bytes → Bytes
chars_before keep_bytes at [] = []
chars_before keep_bytes at (b ∷ bs) =
    let rest = chars_before keep_bytes (suc at) bs in
    if not (is_continuation b) && leb keep_bytes at then [] else b ∷ rest

unfoldable pub truncate_with_ellipsis : Bytes → ℕ → Bytes
truncate_with_ellipsis text max_bytes =
    if leb (length text) max_bytes
    then text
    else if leb max_bytes 3
    then take max_bytes (codes "...")
    else chars_before (max_bytes - 3) 0 text ++ codes "..."

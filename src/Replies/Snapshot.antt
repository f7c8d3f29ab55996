-- ===== src/Replies/Snapshot.antt =====
-- src/output_snapshot.rs: a page of output with the images that belong to it.
use mcp_repl.Prelude.{
  ℕ, ◌-◌, min, ltb, leb, ◌==◌, Bool, true, false, not, ◌&&◌, Option, none, some, get_or,
  if◌then◌else◌, List, [], ◌∷◌, ◌++◌, map, take, is_empty, codes, decimal, suc, zero,
}
use mcp_repl.Capture.Types.{
  Bytes, OutputEvent, OutputEventKind, image, input_echo, input_wait, request_boundary, session_end,
}
use mcp_repl.Ranges.Set.{Range}
use mcp_repl.Capture.Ring.Read.{read_range, saw_stderr_in_range}
use mcp_repl.Capture.Timeline.Buffer.{OutputBuffer}
use mcp_repl.Render.Content.{WorkerContent, content_text, content_image, server_stderr}
use mcp_repl.Render.Push.{RenderedTextState}
use mcp_repl.Pager.Buffer.{PagerBuffer}
use mcp_repl.Pager.Pages.{max_images_per_page}
use mcp_repl.Pager.Snapshot.{take_range_from_ring, take_snapshot_page_from_ring}
use mcp_repl.Replies.Presentation.{append_protocol_warnings}

pub record SnapshotWithImages : Type 0 where
  pub contents : List WorkerContent
  pub pages_left : ℕ
  pub buffer : Option PagerBuffer
  pub last_range : Option Range

pub record CompletionSnapshot : Type 0 where
  pub snapshot : SnapshotWithImages
  pub saw_stderr : Bool

unfoldable pub page_end_offset : ℕ → ℕ → ℕ → Option ℕ → ℕ
page_end_offset start_offset end_offset pages_left last_range_end_offset =
    if pages_left == 0 then end_offset else get_or last_range_end_offset start_offset

abbrev pub ImageGroups : Type 0
ImageGroups = List (ℕ × WorkerContent)

abbrev close_group : Option (ℕ × WorkerContent) → ImageGroups
close_group none = []
close_group (some g) = g ∷ []

-- An image that is not new takes the place of the one before.
unfoldable pub group_images : Option (ℕ × WorkerContent) → List OutputEvent → ImageGroups
group_images current [] = close_group current
group_images current (e ∷ es) = elim e.kind [
  | image id payload mime_type is_new ↦
      let next = some (e.offset, content_image payload mime_type id is_new) in
      let rest = group_images next es in if is_new then close_group current ++ rest else rest
  | _ ↦ group_images current es
]

unfoldable pub collect_image_groups : OutputBuffer RenderedTextState → ℕ → ℕ → ImageGroups
collect_image_groups output start_offset end_offset =
    group_images none (read_range start_offset end_offset output.ring.inner).events

abbrev elided : ℕ → ℕ → WorkerContent
elided last_offset offset = server_stderr (
    codes "[pager] elided output: @"
    ++ (decimal last_offset ++ (codes ".." ++ (decimal offset ++ codes "\n"))))

-- The loop, with how many images may still follow.
unfoldable pub append_groups_loop :
    ℕ → ℕ → ℕ → List WorkerContent → ImageGroups → List WorkerContent
append_groups_loop page_end_offset left last_offset contents [] = contents
append_groups_loop page_end_offset zero last_offset contents (g ∷ gs) =
    let skipped = append_groups_loop page_end_offset zero last_offset contents gs in
    if leb g.0 page_end_offset then skipped else contents
append_groups_loop page_end_offset (suc left) last_offset contents (g ∷ gs) =
    let skipped = append_groups_loop page_end_offset (suc left) last_offset contents gs in
    let marked =
      if ltb last_offset g.0 then contents ++ (elided last_offset g.0 ∷ []) else contents in
    let more = append_groups_loop page_end_offset left g.0 (marked ++ (g.1 ∷ [])) gs in
    if leb g.0 page_end_offset then skipped else more

unfoldable pub append_image_groups_after_page :
    List WorkerContent → ℕ → ImageGroups → ℕ → List WorkerContent
append_image_groups_after_page contents page_end_offset groups max_images =
    append_groups_loop page_end_offset max_images page_end_offset contents groups

abbrev is_content_image : WorkerContent → Bool
is_content_image (content_image d m i n) = true
is_content_image (content_text t s o v) = false

unfoldable pub count_content_images : List WorkerContent → ℕ
count_content_images [] = 0
count_content_images (c ∷ cs) =
    let rest = count_content_images cs in if is_content_image c then suc rest else rest

unfoldable pub snapshot_page_with_images :
    OutputBuffer RenderedTextState → ℕ → ℕ → SnapshotWithImages × OutputBuffer RenderedTextState
snapshot_page_with_images output end_offset target_bytes =
    let start_offset = get_or output.cursor.offset end_offset in
    let image_groups = collect_image_groups output start_offset end_offset in
    let p = take_snapshot_page_from_ring output end_offset target_bytes in
    let page = p.0 in
    let shown = count_content_images page.contents in
    let page_end =
      page_end_offset start_offset end_offset page.pages_left page.last_range_end_byte in
    let remaining_images = max_images_per_page - shown in
    let all_images = page.contents ++ map (λ g. g.1) (take max_images_per_page image_groups) in
    let more_images =
      append_image_groups_after_page page.contents page_end image_groups remaining_images in
    let contents =
      if (page.pages_left == 0) && ((shown == 0) && not (is_empty image_groups))
      then all_images
      else if ltb 0 remaining_images && ltb page_end end_offset
      then more_images
      else page.contents in
    (
      record {
        contents = contents;
        pages_left = page.pages_left;
        buffer = page.buffer;
        last_range = page.last_range;
      },
      p.1,
    )

abbrev is_silent : OutputEventKind → Bool
is_silent (input_echo t) = true
is_silent input_wait = true
is_silent request_boundary = true
is_silent session_end = true
is_silent _ = false

unfoldable pub all_silent : List OutputEvent → Bool
all_silent [] = true
all_silent (e ∷ es) = is_silent e.kind && all_silent es

unfoldable pub snapshot_pending_timeout_page_with_images :
    OutputBuffer RenderedTextState → ℕ → ℕ → SnapshotWithImages × OutputBuffer RenderedTextState
snapshot_pending_timeout_page_with_images output end_offset target_bytes =
    let start_offset = get_or output.cursor.offset end_offset in
    let range = read_range start_offset end_offset output.ring.inner in
    if is_empty range.bytes && (not (is_empty range.events) && all_silent range.events)
    then (record { contents = []; pages_left = 0; buffer = none; last_range = none }, output)
    else snapshot_page_with_images output end_offset target_bytes

unfoldable pub snapshot_after_completion :
    OutputBuffer RenderedTextState → ℕ → ℕ → ℕ → CompletionSnapshot × OutputBuffer RenderedTextState
snapshot_after_completion output start_offset end_offset target_bytes =
    let saw_stderr =
      saw_stderr_in_range (min start_offset end_offset) end_offset output.ring.inner in
    let s = snapshot_page_with_images output end_offset target_bytes in
    (record { snapshot = s.0; saw_stderr = saw_stderr }, s.1)

-- The contents, whether standard error was seen, and the buffer.
unfoldable pub take_range_from_ring_after_completion :
    OutputBuffer RenderedTextState
    → ℕ
    → ℕ
    → List Bytes
    → (List WorkerContent × Bool) × OutputBuffer RenderedTextState
take_range_from_ring_after_completion output start_offset end_offset protocol_warnings =
    let saw_stderr =
      saw_stderr_in_range (min start_offset end_offset) end_offset output.ring.inner in
    let r = take_range_from_ring output end_offset in
    ((append_protocol_warnings r.0 protocol_warnings, saw_stderr), r.1)

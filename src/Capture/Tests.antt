-- ===== src/Capture/Tests.antt =====
-- Runs of the output timeline (src/output_capture.rs) on concrete output.
use mcp_repl.Prelude.{
  ◌+◌, ◌-◌, ◌≤◌, ◌≡◌, refl, true, false, List, [], ◌∷◌, ◌++◌, length, min, max, take, drop, arith,
}
use mcp_repl.Capture.Types.{
  Bytes, codes, worker, server, raw, ipc, input_echo, input_wait, text, event_size_bytes,
}
use mcp_repl.Capture.Utf8.Decode.{
  two_bytes, first_char, validate, from_utf8, flushable_loop, flushable_prefix_len,
}
use mcp_repl.Capture.Utf8.Stream.{complete_len}
use mcp_repl.Capture.Utf8.Agree.{flushable_prefix_len-eq-complete_len, flushable_prefix_len-append}
use mcp_repl.Capture.Ring.State.{OutputRingInner, empty_inner, trim_to_offset}
use mcp_repl.Capture.Ring.Room.{make_room_for, trim_tail_for_room}
use mcp_repl.Capture.Ring.Append.{OutputRing, tail, with_retention}
use mcp_repl.Capture.Ring.Text.{append_bytes_with_source}
use mcp_repl.Capture.Ring.Consume.{consume_inner, consume_inner_with_boundary_events}
use mcp_repl.Capture.Ring.Read.{read_range}
use mcp_repl.Capture.Ring.Invariant.{IsSound, retained}
use mcp_repl.Capture.Ring.MakeRoom.{Made, make_room_for-Made}
use mcp_repl.Capture.Ring.TrimTail.{Cut, trim_tail_for_room-Cut}
use mcp_repl.Capture.Ring.Consumed.{
  Consumed, consume_inner-Consumed, consume_inner_with_boundary_events-Consumed,
}
use mcp_repl.Capture.Ring.Run.{
  IsRing, RingOp, append_text, append_event, consume, consume_boundary, start_append, append_chunk,
  truncation_notice, run, run-IsRing,
}
use mcp_repl.Capture.Ring.Contents.{Later, trim_to_offset-Later}
use mcp_repl.Capture.Ring.Window.{append_bytes_with_source-text}
use mcp_repl.Capture.Ring.ReadBack.{read_range-bytes}

abbrev hello : Bytes
hello = codes "hello\n"

-- "é" in two pieces.
abbrev e_acute_start : Bytes
e_acute_start = b'a' ∷ 0xc3 ∷ []

abbrev e_acute_end : Bytes
e_acute_end = 0xa9 ∷ b'b' ∷ []

flushable_start : flushable_prefix_len e_acute_start ≡ 1
unfolding flushable_prefix_len flushable_loop from_utf8 validate first_char two_bytes
flushable_start = refl

flushable_whole : flushable_prefix_len (e_acute_start ++ e_acute_end) ≡ 4
unfolding flushable_prefix_len flushable_loop from_utf8 validate first_char two_bytes
flushable_whole = refl

flushable_prefix_len-eq-complete_len_example :
    flushable_prefix_len e_acute_start ≡ complete_len e_acute_start
flushable_prefix_len-eq-complete_len_example =
    flushable_prefix_len-eq-complete_len e_acute_start (omega arith)

flushable_prefix_len-append_example :
    flushable_prefix_len (e_acute_start ++ e_acute_end)
    ≡ flushable_prefix_len e_acute_start
      + flushable_prefix_len
          (drop (flushable_prefix_len e_acute_start) e_acute_start ++ e_acute_end)
flushable_prefix_len-append_example =
    flushable_prefix_len-append e_acute_start e_acute_end (omega arith)

-- Text, an echo, a marker, more text than fits, and what a reader consumes, also between two chunks.
abbrev session : List RingOp
session =
    append_text hello false worker raw
    ∷ append_event (input_echo (codes "> 1"))
    ∷ append_event input_wait
    ∷ append_text (codes "0123456789012345678901234567") true worker ipc
    ∷ consume 8
    ∷ consume_boundary 9 1
    ∷ append_event (text hello true server)
    ∷ start_append
    ∷ append_chunk (codes "h") 1 false worker raw
    ∷ consume 40
    ∷ append_chunk (codes "i") 0 false worker raw
    ∷ truncation_notice
    ∷ []

run-IsRing_example : IsRing (run (with_retention 30 tail) session)
run-IsRing_example = run-IsRing 30 tail session (omega arith) (omega arith) (omega arith)

fresh-IsRing : IsRing (run (with_retention 4 tail) [])
fresh-IsRing = run-IsRing 4 tail [] (omega arith) (omega arith) (omega arith)

-- One piece of text on a new ring of four bytes.
abbrev small_ring : OutputRing
small_ring = with_retention 4 tail

append_bytes_with_source-text_example :
    let g = small_ring.inner in
    let g' = (append_bytes_with_source hello false worker raw small_ring).inner in
    (g'.end_offset ≡ g.end_offset + length hello)
    × (g.start_offset ≤ g'.start_offset)
    × (g'.start_offset ≤ g'.end_offset)
    × (retained g'.chunks ≡ drop (g'.start_offset - g.start_offset) (retained g.chunks ++ hello))
unfolding with_retention run empty_inner
append_bytes_with_source-text_example =
    append_bytes_with_source-text hello false worker raw small_ring fresh-IsRing refl (omega arith)

-- A state with two chunks and an echo between them.
abbrev two_chunks : OutputRingInner
two_chunks = record {
  chunks =
      record {
        bytes = hello;
        range_start = 2;
        range_end = 6;
        start_offset = 10;
        is_stderr = false;
        origin = worker;
        source = raw;
      }
      ∷ record {
        bytes = codes "err";
        range_start = 0;
        range_end = 3;
        start_offset = 14;
        is_stderr = true;
        origin = worker;
        source = ipc;
      }
      ∷ [];
  line_ends = 14 ∷ [];
  events = record { offset = 14; kind = input_echo (codes "> 1") } ∷ [];
  start_offset = 10;
  end_offset = 17;
  buffered_bytes = 7;
  buffered_event_bytes = event_size_bytes (input_echo (codes "> 1"));
  progress_seq = 2;
}

two_chunks-IsSound : IsSound true two_chunks
unfolding event_size_bytes
two_chunks-IsSound = ground arith

two_chunks-IsSound_loose : IsSound false two_chunks
unfolding event_size_bytes
two_chunks-IsSound_loose = ground arith

read_range-bytes_example :
    let r = read_range 12 15 two_chunks in
    let from = max 12 10 in
    let to = min 15 17 in
    (r.start_offset ≡ from)
    × (r.end_offset ≡ to)
    × (r.bytes ≡ take (to - from) (drop (from - 10) (retained two_chunks.chunks)))
read_range-bytes_example = read_range-bytes 12 15 two_chunks two_chunks-IsSound

make_room_for-Made_example : Made true 8 12 two_chunks (make_room_for 8 12 two_chunks).1
make_room_for-Made_example =
    make_room_for-Made true 8 12 two_chunks (omega arith) (omega arith) two_chunks-IsSound

trim_to_offset-Later_example : Later two_chunks (trim_to_offset 13 two_chunks)
trim_to_offset-Later_example = trim_to_offset-Later 13 two_chunks two_chunks-IsSound

two_chunks-small : two_chunks.buffered_bytes + two_chunks.buffered_event_bytes ≤ 40
unfolding event_size_bytes
two_chunks-small = omega arith

trim_tail_for_room-Cut_example :
    let g' = trim_tail_for_room 20 40 two_chunks in
    Cut two_chunks g' × (g'.buffered_bytes + g'.buffered_event_bytes + 20 ≤ 40)
trim_tail_for_room-Cut_example =
    trim_tail_for_room-Cut 20 40 two_chunks (omega arith) (omega arith) two_chunks-small
      two_chunks-IsSound_loose

consume_inner-Consumed_example : Consumed true 15 two_chunks (consume_inner 15 two_chunks)
consume_inner-Consumed_example = consume_inner-Consumed true 15 two_chunks two_chunks-IsSound

consume_inner_with_boundary_events-Consumed_example :
    Consumed true 15 two_chunks (consume_inner_with_boundary_events 15 1 two_chunks)
consume_inner_with_boundary_events-Consumed_example =
    consume_inner_with_boundary_events-Consumed true 15 1 two_chunks two_chunks-IsSound

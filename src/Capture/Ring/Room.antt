-- ===== src/Capture/Ring/Room.antt =====
-- How `OutputRingInner` of src/output_capture.rs makes room. Each `while` loop takes fuel, one more
-- than the rounds it can make: a round drops an event, or a chunk, or is the last.
use mcp_repl.Prelude.{
  ℕ, zero, suc, ◌+◌, ◌-◌, min, max, ltb, leb, Bool, true, false, not, ◌||◌, Option, none, some,
  if◌then◌else◌, List, [], ◌∷◌, ◌++◌, length, get_last?, drop_last, saturating_add,
}
use mcp_repl.Capture.Types.{
  OutputEvent, OutputChunk, chunk_len, chunk_end, is_input_echo, event_size_bytes,
}
use mcp_repl.Capture.Ring.State.{
  OutputRingInner, is_over, total_buffered_bytes, pop_front_event, trim_to_offset,
}

pub record DropStats : Type 0 where
  pub dropped_bytes : ℕ
  pub dropped_visible_events : ℕ

abbrev pub no_drops : DropStats
no_drops = record { dropped_bytes = 0; dropped_visible_events = 0 }

abbrev pub dropped_visible : DropStats → Bool
dropped_visible d = ltb 0 d.dropped_bytes || ltb 0 d.dropped_visible_events

-- The oldest input echo, and the events without it.
unfoldable pub remove_echo : List OutputEvent → Option (OutputEvent × List OutputEvent)
remove_echo [] = none
remove_echo (e ∷ es) =
    if is_input_echo e.kind
    then some (e, es)
    else elim (remove_echo es) [ none ↦ none | some (x, rest) ↦ some (x, e ∷ rest) ]

-- `none` when there is no input echo, where the method returns `false`.
unfoldable pub pop_oldest_input_echo_event : OutputRingInner → Option OutputRingInner
pop_oldest_input_echo_event g = elim (remove_echo g.events) [
  | none ↦ none
  | some (e, es) ↦ some (record g {
    events = es;
    buffered_event_bytes = g.buffered_event_bytes - event_size_bytes e.kind;
  })
]

-- How many were dropped, and the state after.
unfoldable pub drop_echoes_loop : ℕ → ℕ → ℕ → ℕ → OutputRingInner → ℕ × OutputRingInner
drop_echoes_loop zero needed capacity dropped g = (dropped, g)
drop_echoes_loop (suc fuel) needed capacity dropped g = elim (is_over g needed capacity) [
  | false ↦ (dropped, g)
  | true ↦ elim (pop_oldest_input_echo_event g) [
    | none ↦ (dropped, g)
    | some g' ↦ drop_echoes_loop fuel needed capacity (saturating_add dropped 1) g'
  ]
]

unfoldable pub drop_input_echoes_for_room : ℕ → ℕ → OutputRingInner → ℕ × OutputRingInner
drop_input_echoes_for_room needed capacity g =
    drop_echoes_loop (suc (length g.events)) needed capacity 0 g

unfoldable pub make_room_for_input_echo : ℕ → ℕ → OutputRingInner → Bool × OutputRingInner
make_room_for_input_echo needed capacity g =
    let g' = (drop_input_echoes_for_room needed capacity g).1 in
    if leb capacity needed then (false, g) else (not (is_over g' needed capacity), g')

unfoldable pub count_visible : List OutputEvent → ℕ
count_visible [] = 0
count_visible (e ∷ es) = if is_input_echo e.kind then count_visible es else suc (count_visible es)

-- The front chunk goes first; events go only when no chunk is left.
unfoldable pub make_room_loop :
    ℕ → ℕ → ℕ → DropStats → OutputRingInner → DropStats × OutputRingInner
make_room_loop zero needed capacity d g = (d, g)
make_room_loop (suc fuel) needed capacity d g = elim (is_over g needed capacity) [
  | false ↦ (d, g)
  | true ↦ elim g.chunks [
    | front ∷ _ ↦
        let g' = trim_to_offset (max (chunk_end front) (saturating_add g.start_offset 1)) g in
        make_room_loop fuel needed capacity
          (record d {
            dropped_bytes = saturating_add d.dropped_bytes (g'.start_offset - g.start_offset);
          })
          g'
    | [] ↦ elim g.events [
      | [] ↦ (d, g)
      | _ ∷ _ ↦
          make_room_loop fuel needed capacity
            (record d { dropped_visible_events = saturating_add d.dropped_visible_events 1 })
            (pop_front_event g)
    ]
  ]
]

-- The first branch drops all: the entry alone fills the capacity.
unfoldable pub make_room_for : ℕ → ℕ → OutputRingInner → DropStats × OutputRingInner
make_room_for needed capacity g =
    let g' = (drop_input_echoes_for_room needed capacity g).1 in
    let looped =
      make_room_loop (suc (length g'.chunks + length g'.events)) needed capacity no_drops g' in
    if leb capacity needed
    then (
      record {
        dropped_bytes = g.end_offset - g.start_offset;
        dropped_visible_events = count_visible g.events;
      },
      record g {
        chunks = [];
        line_ends = [];
        events = [];
        start_offset = g.end_offset;
        buffered_bytes = 0;
        buffered_event_bytes = 0;
      },
    )
    else looped

unfoldable pub retained_end_offset : OutputRingInner → ℕ
retained_end_offset g =
    max (elim (get_last? g.chunks) [ none ↦ g.start_offset | some c ↦ chunk_end c ]) g.start_offset

-- `pop_back_event` on a queue whose last element is `e`.
unfoldable pub pop_back_event : OutputEvent → OutputRingInner → OutputRingInner
pop_back_event e g = record g {
  events = drop_last g.events;
  buffered_event_bytes = g.buffered_event_bytes - event_size_bytes e.kind;
}

-- `while matches!(line_ends.back(), Some(line_end) if line_end > limit)`; the fuel is the length.
unfoldable pub drop_line_ends_back : ℕ → ℕ → List ℕ → List ℕ
drop_line_ends_back zero limit ls = ls
drop_line_ends_back (suc fuel) limit ls = elim (get_last? ls) [
  | none ↦ ls
  | some l ↦ elim (ltb limit l) [
    | true ↦ drop_line_ends_back fuel limit (drop_last ls)
    | false ↦ ls
  ]
]

unfoldable pub pop_back_events_after : ℕ → ℕ → OutputRingInner → OutputRingInner
pop_back_events_after zero limit g = g
pop_back_events_after (suc fuel) limit g = elim (get_last? g.events) [
  | none ↦ g
  | some e ↦ elim (ltb limit e.offset) [
    | true ↦ pop_back_events_after fuel limit (pop_back_event e g)
    | false ↦ g
  ]
]

unfoldable pub cleanup_back : OutputRingInner → OutputRingInner
cleanup_back g =
    let retained_end = retained_end_offset g in
    pop_back_events_after (length g.events) retained_end
      (record g { line_ends = drop_line_ends_back (length g.line_ends) retained_end g.line_ends })

-- The last chunk is `back`; `drop_len` bytes at its end go, and the chunk with its last byte.
unfoldable pub shrink_back : ℕ → OutputChunk → OutputRingInner → OutputRingInner
shrink_back drop_len back g =
    let back' = record back { range_end = back.range_end - drop_len } in
    cleanup_back (record g {
      chunks =
          if leb back'.range_end back'.range_start
          then drop_last g.chunks
          else drop_last g.chunks ++ (back' ∷ []);
      buffered_bytes = g.buffered_bytes - drop_len;
    })

-- Is the last event not before the end of the last chunk?
unfoldable pub last_event_after_chunks : OutputRingInner → Option OutputEvent
last_event_after_chunks g = elim (get_last? g.events) [
  | none ↦ none
  | some e ↦
      if leb (elim (get_last? g.chunks) [ none ↦ 0 | some c ↦ chunk_end c ]) e.offset
      then some e
      else none
]

-- The statistics that this loop returns are read by no caller, and are left out.
unfoldable pub trim_tail_loop : ℕ → ℕ → ℕ → OutputRingInner → OutputRingInner
trim_tail_loop zero needed capacity g = g
trim_tail_loop (suc fuel) needed capacity g = elim (is_over g needed capacity) [
  | false ↦ g
  | true ↦ elim (last_event_after_chunks g) [
    | some e ↦ trim_tail_loop fuel needed capacity (pop_back_event e g)
    | none ↦ elim (get_last? g.chunks) [
      | none ↦ g
      | some back ↦
          let excess = saturating_add (total_buffered_bytes g) needed - capacity in
          let drop_len = min excess (chunk_len back) in
          elim (leb drop_len 0) [
            | true ↦ g
            | false ↦ trim_tail_loop fuel needed capacity (shrink_back drop_len back g)
          ]
    ]
  ]
]

unfoldable pub trim_tail_for_room : ℕ → ℕ → OutputRingInner → OutputRingInner
trim_tail_for_room needed capacity g =
    trim_tail_loop (suc (length g.chunks + length g.events)) needed capacity g

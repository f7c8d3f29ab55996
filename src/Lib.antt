-- ===== src/Lib.antt =====
-- Verification library of mcp-repl, a server that runs an R or Python session for a client and
-- returns what the session prints.
--
-- The parts modelled and how they meet. Text of the session comes in byte pieces, on several streams,
-- together with events (images, echoes of input, markers). A timeline holds back bytes of an incomplete
-- character (`OutputUtf8Tails`), and hands complete text and events to a bounded ring
-- (`OutputRing`), from which readers take ranges of text and consume it. Whether a batch of input
-- may start, and when it is complete, is kept in an `InputState`; what a Python session reads from its
-- standard input waits in a `PythonInputQueue`. A range that is read from the ring is rendered to the contents
-- of a reply: text of a stream, with labels, echoes and images between. Output that is too long for one
-- reply enters a `PagerBuffer`, from which the pager takes pages as the client asks for them with commands;
-- it remembers which parts it has shown in a `RangeSet`. What a request has printed when it is over, with the
-- prompt and the status, makes its reply; what is printed between requests waits in a `PendingOutputTape`.
--
-- - Capture/Types.antt: the types of output, of src/output_capture.rs, src/resolved_output.rs and
--   src/worker_protocol.rs. Text is a list of byte values.
-- - Capture/Utf8/*.antt: `flushable_prefix_len` of src/output_capture.rs. It calls `str::from_utf8` of
--   Rust's standard library, of which Decode.antt writes out what its documentation promises
--   (`valid_up_to` and `error_len` of the error). Stream.antt is a decoder to compare it with.
-- - Capture/Tails/*.antt: `OutputUtf8Tails` of src/output_capture.rs. A method returns what is ready and
--   what stays.
-- - Capture/Ring/*.antt: `OutputRing` and `OutputRingInner` of src/output_capture.rs. State, Room, Append,
--   Text, Events, Consume and Read hold the operations, a method that takes `&mut self` being a function
--   from state to state; the other files hold what is proved of them.
-- - Capture/Timeline/*.antt: `OutputTimeline` (State.antt) and `OutputBuffer` (Buffer.antt) of
--   src/output_capture.rs. `drain_formatted` takes the rendering of a range as an argument, of which it
--   uses nothing: what is proved of it holds for that of Render/Events.antt in each mode.
-- - Render/*.antt: src/resolved_output.rs, with the contents of src/worker_protocol.rs (Content.antt).
--   Bytes.antt escapes bytes that are not UTF-8, Push.antt adds a text to the contents, Emit.antt is the
--   loop over the spans (`TextRangeEmitter::emit`) and Events.antt that over the events. The variables
--   that the source's functions share by mutable reference are the records `Rendering`, `Emission` and
--   `Walk`. Labels, Adding, Labelling and Labelled.antt hold what is proved.
-- - Pager/Command/*.antt: the commands of src/pager/command.rs. A text is a list of code points; the methods
--   of `str` that the parser calls are written out in Prelude/Text.antt from their documentation.
-- - Pager/*.antt: `PagerBuffer` of src/pager/mod.rs, how output enters it (Index, Buffer) and what is read from
--   it (Read), the pages and parts that are taken from it (Pages, Take), and the markers of
--   src/pager/presentation.rs (Presentation). A loop over a page is a function of one round, `page_step`,
--   which says whether the loop goes on; so is the loop over the flags of a search, with `flag_step`. Snapshot.antt takes pages from the ring, and
--   Images.antt has the deduplication of images and the footer. Indexed, Extended, InBounds, Bounds,
--   Seen, Parts, Shown and Moves.antt hold what is proved.
-- - Replies/*.antt: `PendingOutputTape` of src/pending_output_tape.rs (Tape.antt; the ring that its timeline
--   and its buffer share is kept once), src/reply_presentation.rs (Presentation.antt; the family of systems
--   that it is compiled for is an argument), src/completion_reply.rs (Completion.antt) and
--   src/output_snapshot.rs (Snapshot.antt). Prompts and Final.antt hold what is proved.
-- - Input/*.antt: `InputState` of src/input_state.rs. An `Instant` is a number.
-- - Stdin/*.antt: `PythonInputQueue` of src/python_input_queue.rs (Queue.antt), the
--   control prefixes of src/stdin_payload.rs (Control.antt) and what is planned for one in
--   src/worker_process/control_prefix.rs (Plan.antt).
-- - Ranges/*.antt: `RangeSet` and `RangeSpan` of src/pager/ranges.rs.
-- - Prelude/*.antt: names of the library passed on, lemmas on lists, and 64-bit words.
--
-- Numbers. `u64` and `usize` are natural numbers with the saturating operations written out
-- (`saturating_add`, with `u64_max` as its bound; a saturating subtraction is the subtraction of natural
-- numbers). The length of a collection is at most `isize::MAX`, as Rust guarantees.
--
-- Loops. A loop over a queue is a recursion on it where each round takes an element. The others take fuel:
-- `make_room_loop` and `trim_tail_loop` one more than the number of chunks and events, of which each round
-- removes one or makes the room that ends the loop; the append loops the number of bytes, of which each round
-- takes at least one; `drain_gaps_loop` one more than twice the number of entries, since an entry takes two
-- rounds at most; `flushable_loop` and `validate` the number of bytes, of which each
-- round takes at least one; `search_flags_loop` one more than the text's length, since a flag takes characters;
-- `render_loop` the number of bytes; `page_loop`, `advance_loop` and `segment_loop` one more than
-- the characters from the cursor to the end, since each round that goes on moves the cursor; `decimal_loop` the 20 digits of a
-- `u64`.
--
-- Locks. `append_bytes_with_source` takes the lock of a ring once to note progress, once for each chunk and,
-- where the tail is retained, once more for the truncation notice, so that a reader can run between two
-- chunks. The other methods of a ring take its lock once. A sequence is an explicit list of steps. For a ring
-- (Capture/Ring/Run.antt) a step is a whole call, or what an append does under one lock, so that a sequence may
-- have any calls between the chunks of an append. Everywhere else a call runs from its beginning to its end, and
-- interleavings within it are not modelled.
--
-- Not modelled: processes, sockets, files, timers, the sandboxes, the R and Python runtimes, the
-- search and the state machine of the pager, and the server's responses.
pub mod Prelude
pub mod Input
pub mod Stdin
pub mod Ranges
pub mod Capture
pub mod Pager
pub mod Render
pub mod Replies

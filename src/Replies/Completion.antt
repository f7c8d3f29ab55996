-- ===== src/Replies/Completion.antt =====
-- src/completion_reply.rs: the reply to a request that has come to its end, or to its timeout.
use mcp_repl.Prelude.{
  ℕ, ◌*◌, ◌/◌, min, Bool, false, not, ◌&&◌, Option, none, some, if◌then◌else◌, List, [], ◌∷◌, ◌++◌,
  is_empty, codes, decimal, u64_max,
}
use mcp_repl.Capture.Types.{Bytes}
use mcp_repl.Render.Content.{WorkerContent, WorkerReply, timeout, server_stdout}
use mcp_repl.Replies.Presentation.{
  Backend, normalize_prompt, append_protocol_warnings, reconcile_completion_prompt,
}

pub record CompletionInfo : Type 0 where
  pub prompt : Option Bytes
  pub prompt_variants : Option (List Bytes)
  pub protocol_warnings : List Bytes
  pub session_end_seen : Bool

unfoldable pub empty_info : CompletionInfo
empty_info = record {
  prompt = none;
  prompt_variants = none;
  protocol_warnings = [];
  session_end_seen = false;
}

pub data CompletionReplyMode : Type 0 where
  -- idle_status_if_empty
  files : Bool → CompletionReplyMode
  -- pager_active
  pager : Bool → CompletionReplyMode

pub data PagerCompletionPrompt : Type 0 where
  prompt_free : PagerCompletionPrompt
  some_prompt : Bytes → PagerCompletionPrompt

unfoldable pub from_prompt : Option Bytes → PagerCompletionPrompt
from_prompt none = prompt_free
from_prompt (some p) = some_prompt p

unfoldable pub into_prompt : PagerCompletionPrompt → Option Bytes
into_prompt prompt_free = none
into_prompt (some_prompt p) = some p

pub record BuiltCompletionReply : Type 0 where
  pub reply : WorkerReply
  pub prompt_to_remember : Option Bytes
  pub pager_prompt : Option PagerCompletionPrompt

unfoldable pub idle_status_content : WorkerContent
idle_status_content = server_stdout (codes "<<repl status: idle>>")

unfoldable pub input_wait_status_content : WorkerContent
input_wait_status_content = server_stdout (codes "<<repl status: waiting for input>>")

-- The timeout in milliseconds, which a `Duration` counts in 128 bits.
unfoldable pub timeout_status_content : ℕ → WorkerContent
timeout_status_content millis =
    let elapsed_ms = (min millis u64_max / 100) * 100 in
    server_stdout (
      codes "<<repl status: busy, write_stdin timeout reached; elapsed_ms="
      ++ (decimal elapsed_ms ++ codes ">>"))

unfoldable pub finalize_contents : List WorkerContent → CompletionInfo → List WorkerContent
finalize_contents contents completion =
    append_protocol_warnings contents completion.protocol_warnings

-- A worker that waits for input has an empty prompt.
abbrev waits_for_input : Option Bytes → Bool
waits_for_input none = false
waits_for_input (some p) = is_empty p

abbrev raw_prompt_of : Bool → CompletionInfo → Option Bytes
raw_prompt_of session_end completion = if session_end then none else completion.prompt

-- The contents in each mode, before the prompt is reconciled.
unfoldable pub status_contents :
    List WorkerContent → CompletionInfo → Bool → CompletionReplyMode → List WorkerContent
status_contents contents completion session_end (files idle_status_if_empty) =
    let final = finalize_contents contents completion in
    if not session_end && (idle_status_if_empty && is_empty final)
    then final ++ (idle_status_content ∷ [])
    else final
status_contents contents completion session_end (pager pager_active) =
    finalize_contents contents completion

-- Does the reply show the prompt?
abbrev shows_prompt : Bool → CompletionReplyMode → Bool
shows_prompt session_end (files idle_status_if_empty) = not session_end
shows_prompt session_end (pager pager_active) = not session_end && not pager_active

unfoldable pub pager_prompt_of :
    Bool → CompletionReplyMode → Option Bytes → Option PagerCompletionPrompt
pager_prompt_of session_end (files idle_status_if_empty) prompt = none
pager_prompt_of session_end (pager pager_active) prompt =
    if pager_active && not session_end then some (from_prompt prompt) else none

unfoldable pub build_completed_reply :
    Bool
    → List WorkerContent
    → Bool
    → CompletionInfo
    → Bool
    → CompletionReplyMode
    → Backend
    → BuiltCompletionReply
build_completed_reply unix contents is_error completion session_end mode backend =
    let raw_prompt = raw_prompt_of session_end completion in
    let resolved_prompt = normalize_prompt raw_prompt in
    let waiting =
      if waits_for_input raw_prompt
      then contents ++ (input_wait_status_content ∷ [])
      else contents in
    let final = status_contents waiting completion session_end mode in
    let shown = shows_prompt session_end mode in
    record {
      reply = record {
        contents =
            if shown then reconcile_completion_prompt unix final resolved_prompt backend else final;
        is_error = is_error;
        error_code = none;
        prompt = if shown then resolved_prompt else none;
        prompt_variants = completion.prompt_variants;
      };
      prompt_to_remember = raw_prompt;
      pager_prompt = pager_prompt_of session_end mode resolved_prompt;
    }

unfoldable pub build_timeout_reply : List WorkerContent → Bool → WorkerReply
build_timeout_reply contents is_error = record {
  contents = contents;
  is_error = is_error;
  error_code = some timeout;
  prompt = none;
  prompt_variants = none;
}

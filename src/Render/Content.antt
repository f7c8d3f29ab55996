-- ===== src/Render/Content.antt =====
-- The contents of replies (src/worker_protocol.rs). A `String` is its UTF-8 bytes.
use mcp_repl.Prelude.{Bool, true, false, Option, List}
use mcp_repl.Capture.Types.{Bytes, ContentOrigin, worker, server}

pub data ContentVisibility : Type 0 where
  reply_and_transcript transcript_only : ContentVisibility

pub data TextStream : Type 0 where
  stdout stderr : TextStream

pub data WorkerErrorCode : Type 0 where
  busy timeout input_rejected_pending_output input_rejected_background_output : WorkerErrorCode
  session_start_failed worker_execution_failed interrupted : WorkerErrorCode

pub data WorkerContent : Type 0 where
  -- text, stream, origin, visibility
  content_text : Bytes → TextStream → ContentOrigin → ContentVisibility → WorkerContent
  -- data, mime_type, id, is_new
  content_image : Bytes → Bytes → Bytes → Bool → WorkerContent

pub record WorkerReply : Type 0 where
  pub contents : List WorkerContent
  pub is_error : Bool
  pub error_code : Option WorkerErrorCode
  pub prompt : Option Bytes
  pub prompt_variants : Option (List Bytes)

abbrev pub is_reply_visible : ContentVisibility → Bool
is_reply_visible reply_and_transcript = true
is_reply_visible transcript_only = false

-- `#[derive(PartialEq)]`.
abbrev pub visibility_eq : ContentVisibility → ContentVisibility → Bool
visibility_eq reply_and_transcript reply_and_transcript = true
visibility_eq transcript_only transcript_only = true
visibility_eq _ _ = false

abbrev pub stream_eq : TextStream → TextStream → Bool
stream_eq stdout stdout = true
stream_eq stderr stderr = true
stream_eq _ _ = false

abbrev pub worker_stdout : Bytes → WorkerContent
worker_stdout text = content_text text stdout worker reply_and_transcript

abbrev pub worker_stdout_transcript_only : Bytes → WorkerContent
worker_stdout_transcript_only text = content_text text stdout worker transcript_only

abbrev pub worker_stderr : Bytes → WorkerContent
worker_stderr text = content_text text stderr worker reply_and_transcript

abbrev pub server_stdout : Bytes → WorkerContent
server_stdout text = content_text text stdout server reply_and_transcript

abbrev pub server_stderr : Bytes → WorkerContent
server_stderr text = content_text text stderr server reply_and_transcript

-- ===== src/Replies/Presentation.antt =====
-- src/reply_presentation.rs: warnings and prompts in the contents of a reply.
use mcp_repl.Prelude.{
  Bool, true, false, Option, none, some, get_or, if◌then◌else◌, List, [], ◌∷◌, ◌++◌, is_empty,
  codes, strip_suffix,
}
use mcp_repl.Capture.Types.{Bytes, worker, server}
use mcp_repl.Render.Content.{
  WorkerContent, content_text, content_image, TextStream, stdout, stderr, worker_stdout,
  server_stderr, ContentVisibility,
}

pub data Backend : Type 0 where
  r python : Backend

unfoldable pub normalize_prompt : Option Bytes → Option Bytes
normalize_prompt none = none
normalize_prompt (some value) = if is_empty value then none else some value

unfoldable pub append_protocol_warnings : List WorkerContent → List Bytes → List WorkerContent
append_protocol_warnings contents [] = contents
append_protocol_warnings contents (warning ∷ warnings) =
    append_protocol_warnings (contents ++ (server_stderr (codes "[repl] " ++ warning) ∷ []))
      warnings

abbrev ends_with : Bytes → Bytes → Bool
ends_with text suffix = elim (strip_suffix suffix text) [ none ↦ false | some t ↦ true ]

-- The last text of the contents, of any stream and origin.
unfoldable pub last_text : List WorkerContent → Option Bytes
last_text [] = none
last_text (content_image d m i n ∷ cs) = last_text cs
last_text (content_text t s o v ∷ cs) = some (get_or (last_text cs) t)

unfoldable pub append_prompt : List WorkerContent → Option Bytes → List WorkerContent
append_prompt contents none = contents
append_prompt contents (some prompt) =
    if is_empty prompt then contents else contents ++ (worker_stdout prompt ∷ [])

unfoldable pub append_prompt_if_missing : List WorkerContent → Option Bytes → List WorkerContent
append_prompt_if_missing contents none = contents
append_prompt_if_missing contents (some prompt) =
    let present : Bool = elim (last_text contents) [ none ↦ false | some t ↦ ends_with t prompt ] in
    if is_empty prompt
    then contents
    else if present
    then contents
    else contents ++ (worker_stdout prompt ∷ [])

-- What is left of a text without the prompt: nothing, if it was the prompt alone.
unfoldable pub strip_text :
    Bytes → Bytes → TextStream → ContentVisibility → Option (List WorkerContent)
strip_text prompt text stream visibility = elim (strip_suffix prompt text) [
  | none ↦ none
  | some prefix ↦
      if is_empty prefix then some [] else some (content_text prefix stream worker visibility ∷ [])
]

-- From the last text on: `none` where there is no text.
unfoldable pub strip_last_text : Bytes → List WorkerContent → Option (List WorkerContent)
strip_last_text prompt [] = none
strip_last_text prompt (content_image d m i n ∷ cs) = elim (strip_last_text prompt cs) [
  | none ↦ none
  | some stripped ↦ some (content_image d m i n ∷ stripped)
]
strip_last_text prompt (content_text t s o v ∷ cs) = elim (strip_last_text prompt cs) [
  | none ↦ some (get_or (strip_text prompt t s v) (content_text t s o v ∷ []) ++ cs)
  | some stripped ↦ some (content_text t s o v ∷ stripped)
]

unfoldable pub strip_trailing_prompt : Bytes → List WorkerContent → List WorkerContent
strip_trailing_prompt prompt contents =
    if is_empty prompt then contents else get_or (strip_last_text prompt contents) contents

-- A content with none but texts of the server behind it: those pass the decision on.
unfoldable pub strip_deciding :
    Bytes → WorkerContent → List WorkerContent → Option (List WorkerContent)
strip_deciding prompt (content_image d m i n) cs = some (content_image d m i n ∷ cs)
strip_deciding prompt (content_text t s server v) cs = none
strip_deciding prompt (content_text t stderr worker v) cs =
    some (content_text t stderr worker v ∷ cs)
strip_deciding prompt (content_text t stdout worker v) cs =
    some (get_or (strip_text prompt t stdout v) (content_text t stdout worker v ∷ []) ++ cs)

-- From the content on that decides: `none` where all are texts of the server.
unfoldable pub strip_last_worker_stdout : Bytes → List WorkerContent → Option (List WorkerContent)
strip_last_worker_stdout prompt [] = none
strip_last_worker_stdout prompt (c ∷ cs) = elim (strip_last_worker_stdout prompt cs) [
  | some stripped ↦ some (c ∷ stripped)
  | none ↦ strip_deciding prompt c cs
]

unfoldable pub strip_trailing_worker_stdout_prompt : Bytes → List WorkerContent → List WorkerContent
strip_trailing_worker_stdout_prompt prompt contents =
    if is_empty prompt then contents else get_or (strip_last_worker_stdout prompt contents) contents

-- With `#[cfg(not(target_family = "unix"))]`, a prompt that trails is taken off first.
abbrev without_prompt : Option Bytes → List WorkerContent → List WorkerContent
without_prompt none contents = contents
without_prompt (some prompt) contents = strip_trailing_worker_stdout_prompt prompt contents

-- `unix` says for which family of systems the code is compiled.
module _ (unix : Bool) where
  unfoldable pub reconcile_python_completion_prompt :
      List WorkerContent → Option Bytes → List WorkerContent
  reconcile_python_completion_prompt contents prompt =
      if unix
      then append_prompt contents prompt
      else append_prompt_if_missing (without_prompt prompt contents) prompt

  unfoldable pub reconcile_python_polled_completion_prompt :
      List WorkerContent → Option Bytes → List WorkerContent
  reconcile_python_polled_completion_prompt contents prompt =
      if unix
      then append_prompt_if_missing contents prompt
      else append_prompt_if_missing (without_prompt prompt contents) prompt

  unfoldable pub reconcile_completion_prompt :
      List WorkerContent → Option Bytes → Backend → List WorkerContent
  reconcile_completion_prompt contents prompt python =
      reconcile_python_completion_prompt contents prompt
  reconcile_completion_prompt contents prompt r = append_prompt contents prompt

  unfoldable pub reconcile_trailing_completion_prompt :
      List WorkerContent → Option Bytes → Backend → List WorkerContent
  reconcile_trailing_completion_prompt contents prompt python =
      reconcile_python_completion_prompt contents prompt
  reconcile_trailing_completion_prompt contents prompt r = append_prompt contents prompt

  unfoldable pub reconcile_polled_completion_prompt :
      List WorkerContent → Option Bytes → Backend → List WorkerContent
  reconcile_polled_completion_prompt contents prompt python =
      reconcile_python_polled_completion_prompt contents prompt
  reconcile_polled_completion_prompt contents prompt r = append_prompt_if_missing contents prompt

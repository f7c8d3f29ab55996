-- ===== src/Replies/Prompts.antt =====
-- The prompt of a reply (src/completion_reply.rs, src/reply_presentation.rs).
use mcp_repl.Prelude.{
  ◌≡◌, refl, Bool, true, false, Option, none, some, List, [], ◌∷◌, ◌++◌, get_last?, is_empty, arith,
}
use mcp_repl.Capture.Types.{Bytes}
use mcp_repl.Render.Content.{WorkerContent, worker_stdout}
use mcp_repl.Replies.Presentation.{
  Backend, r, python, normalize_prompt, append_prompt, reconcile_completion_prompt,
  reconcile_python_completion_prompt,
}
use mcp_repl.Replies.Completion.{
  CompletionInfo, CompletionReplyMode, files, pager, build_completed_reply, pager_prompt_of,
}

get_last?-snoc : (cs : List WorkerContent) (c : WorkerContent) → get_last? (cs ++ (c ∷ [])) ≡ some c
get_last?-snoc [] c = refl
get_last?-snoc (x ∷ []) c = refl
get_last?-snoc (x ∷ y ∷ cs) c = get_last?-snoc (y ∷ cs) c

append_prompt-last :
    (contents : List WorkerContent) (p : Bytes)
    → is_empty p ≡ false
    → get_last? (append_prompt contents (some p)) ≡ some (worker_stdout p)
unfolding append_prompt
append_prompt-last contents p e = rw e (get_last?-snoc contents (worker_stdout p))

normalize_prompt-some :
    (o : Option Bytes) {p : Bytes}
    → normalize_prompt o ≡ some p
    → (o ≡ some p) × (is_empty p ≡ false)
unfolding normalize_prompt
normalize_prompt-some none e = ground (arith, e)
normalize_prompt-some (some v) {p} e = ground (arith, e)

reconciled-last :
    (contents : List WorkerContent) (p : Bytes) (backend : Backend)
    → is_empty p ≡ false
    → get_last? (reconcile_completion_prompt true contents (some p) backend)
      ≡ some (worker_stdout p)
unfolding reconcile_completion_prompt reconcile_python_completion_prompt
reconciled-last contents p r e = append_prompt-last contents p e
reconciled-last contents p python e = append_prompt-last contents p e

-- On Unix, a completed reply that names a prompt ends with that prompt as text of standard output;
-- the prompt is not empty, is the one that the completion gave and is remembered, the session has
-- not ended, and the pager has no prompt of its own.
pub build_completed_reply-prompt :
    (contents : List WorkerContent) (is_error : Bool) (completion : CompletionInfo)
    (session_end : Bool) (mode : CompletionReplyMode) (backend : Backend) (p : Bytes)
    → let b = build_completed_reply true contents is_error completion session_end mode backend in
      b.reply.prompt ≡ some p
      → (get_last? b.reply.contents ≡ some (worker_stdout p))
        × (is_empty p ≡ false)
        × (session_end ≡ false)
        × (completion.prompt ≡ some p)
        × (b.prompt_to_remember ≡ some p)
        × (b.pager_prompt ≡ none)
unfolding build_completed_reply pager_prompt_of
build_completed_reply-prompt contents is_error completion true (files idle) backend p e =
    ground (arith, e)
build_completed_reply-prompt contents is_error completion true (pager active) backend p e =
    ground (arith, e)
build_completed_reply-prompt contents is_error completion false (pager true) backend p e =
    ground (arith, e)
build_completed_reply-prompt contents is_error completion false (pager false) backend p e =
    let n = normalize_prompt-some completion.prompt {p = p} e in
    (rw e (reconciled-last _ p backend n.1), n.1, refl, n.0, n.0, refl)
build_completed_reply-prompt contents is_error completion false (files idle) backend p e =
    let n = normalize_prompt-some completion.prompt {p = p} e in
    (rw e (reconciled-last _ p backend n.1), n.1, refl, n.0, n.0, refl)

-- ===== src/Stdin/Control.antt =====
-- The control prefixes of input (src/stdin_payload.rs). The input is the list of its bytes; the two
-- control characters take one byte each.
use mcp_repl.Prelude.{
  ◌≡◌, refl, ◌==◌, if◌then◌else◌, Option, none, some, [], ◌∷◌, ◌↔◌, ◌⊎◌, inl, inr, ap, ◌∙◌, arith,
}
use mcp_repl.Stdin.Queue.{Bytes}

pub data WriteStdinControlAction : Type 0 where
  interrupt restart : WriteStdinControlAction

pub data TimeoutBundleReuse : Type 0 where
  no_reuse full_reply follow_up_input : TimeoutBundleReuse

unfoldable pub split_write_stdin_control_prefix : Bytes → Option (WriteStdinControlAction × Bytes)
split_write_stdin_control_prefix [] = none
split_write_stdin_control_prefix (first ∷ rest) =
    if first == 0x3
    then some (interrupt, rest)
    else if first == 0x4
    then some (restart, rest)
    else none

unfoldable pub timeout_bundle_reuse_for_input : Bytes → TimeoutBundleReuse
timeout_bundle_reuse_for_input [] = full_reply
timeout_bundle_reuse_for_input (b ∷ bs) = elim (split_write_stdin_control_prefix (b ∷ bs)) [
  | none ↦ follow_up_input
  | some (interrupt, []) ↦ full_reply
  | some (interrupt, _ ∷ _) ↦ follow_up_input
  | some (restart, _) ↦ no_reuse
]

-- How a client writes an action and what follows it.
abbrev pub write_control : WriteStdinControlAction → Bytes → Bytes
write_control interrupt tail = 0x3 ∷ tail
write_control restart tail = 0x4 ∷ tail

pub split_sound :
    (input : Bytes) (action : WriteStdinControlAction) (tail : Bytes)
    → split_write_stdin_control_prefix input ≡ some (action, tail)
    → input ≡ write_control action tail
unfolding split_write_stdin_control_prefix
split_sound [] action tail e = ground (arith, e)
split_sound (b ∷ bs) interrupt tail e = ground (arith, e)
split_sound (b ∷ bs) restart tail e = ground (arith, e)

split-write_control :
    (action : WriteStdinControlAction) (tail : Bytes)
    → split_write_stdin_control_prefix (write_control action tail) ≡ some (action, tail)
unfolding split_write_stdin_control_prefix
split-write_control interrupt tail = refl
split-write_control restart tail = refl

-- The split of an input gives an action and a tail exactly when the input is the action's control
-- character followed by the tail.
pub split_write_stdin_control_prefix_iff :
    (input : Bytes) (action : WriteStdinControlAction) (tail : Bytes)
    → (split_write_stdin_control_prefix input ≡ some (action, tail))
      ↔ (input ≡ write_control action tail)
split_write_stdin_control_prefix_iff input action tail = (
  split_sound input action tail,
  λ e. ap split_write_stdin_control_prefix e ∙ split-write_control action tail,
)

full_reply_sound :
    (input : Bytes)
    → timeout_bundle_reuse_for_input input ≡ full_reply
    → (input ≡ []) ⊎ (input ≡ write_control interrupt [])
unfolding timeout_bundle_reuse_for_input split_write_stdin_control_prefix
full_reply_sound [] e = inl refl
full_reply_sound (b ∷ []) e = ground (arith, e)
full_reply_sound (b ∷ c ∷ bs) e = ground (arith, e)

full_reply_complete :
    (input : Bytes)
    → (input ≡ []) ⊎ (input ≡ write_control interrupt [])
    → timeout_bundle_reuse_for_input input ≡ full_reply
unfolding timeout_bundle_reuse_for_input split_write_stdin_control_prefix
full_reply_complete input (inl e) = ap timeout_bundle_reuse_for_input e
full_reply_complete input (inr e) = ap timeout_bundle_reuse_for_input e

-- An input is answered with the full reply exactly when it is empty or is the interrupt character
-- alone.
pub timeout_bundle_reuse_for_input_iff :
    (input : Bytes)
    → (timeout_bundle_reuse_for_input input ≡ full_reply)
      ↔ ((input ≡ []) ⊎ (input ≡ write_control interrupt []))
timeout_bundle_reuse_for_input_iff input = (full_reply_sound input, full_reply_complete input)

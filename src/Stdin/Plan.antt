-- ===== src/Stdin/Plan.antt =====
-- What is done for a control prefix: src/worker_process/control_prefix.rs. `Update` stands for
-- `SandboxStateUpdate`, of which only copies are made here.
use mathlib.Core.Path.{subst}
use mcp_repl.Prelude.{
  ap, inl, inr, Option-cases, Bool-cases, ◌⊎◌, ◌↔◌, ℕ, ◌≡◌, refl, sym, Bool, true, false, not, ◌&&◌,
  ◌||◌, Option, none, some, if◌then◌else◌, arith,
}
use mcp_repl.Stdin.Queue.{Bytes}
use mcp_repl.Stdin.Control.{
  WriteStdinControlAction, interrupt, restart, split_write_stdin_control_prefix, write_control,
  split_sound,
}

pub record WriteStdinOptions (Update : Type 0) : Type 0 where
  pub page_bytes_override : Option ℕ
  pub pending_state_prechecked : Bool
  pub deferred_sandbox_state_update : Option Update
  pub suppress_session_end_reset : Bool

pub record ControlPrefixInput : Type 0 where
  pub action : WriteStdinControlAction
  pub tail : Bytes

pub record ControlPrefixPlan (Update : Type 0) : Type 0 where
  pub action : WriteStdinControlAction
  pub tail : Bytes
  pub stage_before_control : Bool
  pub stage_interrupt_after_session_end : Bool
  pub staged_sandbox_state_update : Option Update
  pub tail_sandbox_state_update : Option Update

-- `prechecked_follow_up_requires_meta_error`, or the plan.
pub data PlanResult (Update : Type 0) : Type 0 where
  requires_meta_error : PlanResult Update
  planned : ControlPrefixPlan Update → PlanResult Update

-- `ControlPrefixInput::split`.
unfoldable pub split : Bytes → Option ControlPrefixInput
split input = elim (split_write_stdin_control_prefix input) [
  | none ↦ none
  | some p ↦ some (record { action = p.0; tail = p.1 })
]

abbrev pub is_restart : WriteStdinControlAction → Bool
is_restart interrupt = false
is_restart restart = true

abbrev pub is_missing {ℓ} : {A : Type ℓ} → Option A → Bool
is_missing none = true
is_missing (some a) = false

module _ {Update : Type 0} where
  unfoldable pub control_tail : WriteStdinOptions Update → Option Update → WriteStdinOptions Update
  control_tail options deferred_sandbox_state_update = record {
    page_bytes_override = options.page_bytes_override;
    pending_state_prechecked = false;
    deferred_sandbox_state_update = deferred_sandbox_state_update;
    suppress_session_end_reset = false;
  }

  -- A follow-up that was checked before, and would spawn a process without saying how.
  abbrev pub needs_meta : Bool → WriteStdinOptions Update → Bool
  needs_meta control_requires_spawn options =
      options.pending_state_prechecked
      && (control_requires_spawn
          && (is_missing options.deferred_sandbox_state_update
              && not options.suppress_session_end_reset))

  unfoldable pub made_plan :
      ControlPrefixInput → Bool → WriteStdinOptions Update → ControlPrefixPlan Update
  made_plan input control_requires_spawn options =
      let stage_before_control = control_requires_spawn || is_restart input.action in
      let update = options.deferred_sandbox_state_update in
      record {
        action = input.action;
        tail = input.tail;
        stage_before_control = stage_before_control;
        stage_interrupt_after_session_end =
            not (is_restart input.action) && not stage_before_control;
        staged_sandbox_state_update = if stage_before_control then update else none;
        tail_sandbox_state_update = if stage_before_control then none else update;
      }

  unfoldable pub plan : ControlPrefixInput → Bool → WriteStdinOptions Update → PlanResult Update
  plan input control_requires_spawn options =
      if needs_meta control_requires_spawn options
      then requires_meta_error
      else planned (made_plan input control_requires_spawn options)

-- A follow-up that was checked before needs a process, and nothing says with which sandbox.
abbrev pub NeedsMeta : {Update : Type 0} → Bool → WriteStdinOptions Update → Type 0
NeedsMeta control_requires_spawn options =
    (options.pending_state_prechecked ≡ true)
    × (control_requires_spawn ≡ true)
    × (options.deferred_sandbox_state_update ≡ none)
    × (options.suppress_session_end_reset ≡ false)

-- What a plan does, and where the update goes.
pub record IsPlan {Update : Type 0} (input : Bytes) (control_requires_spawn : Bool)
    (options : WriteStdinOptions Update) (p : ControlPrefixPlan Update) : Type 0 where
  whole : input ≡ write_control p.action p.tail
  staged :
      (p.stage_before_control ≡ true) ↔ ((control_requires_spawn ≡ true) ⊎ (p.action ≡ restart))
  interrupt_late : p.stage_interrupt_after_session_end ≡ not p.stage_before_control
  before :
      p.staged_sandbox_state_update
      ≡ (if p.stage_before_control then options.deferred_sandbox_state_update else none)
  after :
      p.tail_sandbox_state_update
      ≡ (if p.stage_before_control then none else options.deferred_sandbox_state_update)

-- An error, or a plan, each where it belongs.
abbrev pub IsAnswer :
    {Update : Type 0} → Bytes → Bool → WriteStdinOptions Update → PlanResult Update → Type 0
IsAnswer input control_requires_spawn options requires_meta_error =
    NeedsMeta control_requires_spawn options
IsAnswer input control_requires_spawn options (planned p) =
    (¬ NeedsMeta control_requires_spawn options) × IsPlan input control_requires_spawn options p

split_whole :
    (input : Bytes) {c : ControlPrefixInput}
    → split input ≡ some c
    → input ≡ write_control c.action c.tail
unfolding split
split_whole input {c} e = elim (Option-cases (split_write_stdin_control_prefix input)) [
  | inl q ↦ ground (arith, e, q)
  | inr (a, q) ↦
      let f : c ≡ record { action = a.0; tail = a.1 } = ground (arith, e, q) in
      subst (λ (d : ControlPrefixInput). input ≡ write_control d.action d.tail) (sym f)
        (split_sound input a.0 a.1 q)
]

made_plan-IsPlan :
    {Update : Type 0} (input : Bytes) (action : WriteStdinControlAction) (tail : Bytes)
    (control_requires_spawn : Bool) (options : WriteStdinOptions Update)
    → input ≡ write_control action tail
    → IsPlan input control_requires_spawn options
        (made_plan (record { action = action; tail = tail }) control_requires_spawn options)
unfolding made_plan
made_plan-IsPlan input restart tail false options w = record {
  whole = w;
  staged = (λ h. inr refl, λ h. refl);
  interrupt_late = refl;
  before = refl;
  after = refl;
}
made_plan-IsPlan input restart tail true options w = record {
  whole = w;
  staged = (λ h. inl refl, λ h. refl);
  interrupt_late = refl;
  before = refl;
  after = refl;
}
made_plan-IsPlan input interrupt tail true options w = record {
  whole = w;
  staged = (λ h. inl refl, λ h. refl);
  interrupt_late = refl;
  before = refl;
  after = refl;
}
made_plan-IsPlan input interrupt tail false options w = record {
  whole = w;
  staged = (λ h. inl h, λ h. elim h [ inl e ↦ e | inr e ↦ ap is_restart e ]);
  interrupt_late = refl;
  before = refl;
  after = refl;
}

is_missing_sound : {A : Type 0} (a : Option A) → is_missing a ≡ true → a ≡ none
is_missing_sound none e = refl
is_missing_sound (some a) e = absurd (ground (arith, e))

module _ {Update : Type 0} (control_requires_spawn : Bool)
    (options : WriteStdinOptions Update) where
  needs_meta-NeedsMeta :
      needs_meta control_requires_spawn options ≡ true → NeedsMeta control_requires_spawn options
  needs_meta-NeedsMeta e =
      let m = is_missing_sound options.deferred_sandbox_state_update in
      (ground (arith, e), ground (arith, e), m (ground (arith, e)), ground (arith, e))

  not-NeedsMeta :
      needs_meta control_requires_spawn options ≡ false → ¬ NeedsMeta control_requires_spawn options
  not-NeedsMeta e m = ground (arith, e, m.0, m.1, ap is_missing m.2, m.3)

-- For every input with a control prefix the answer is the error exactly where a follow-up that was
-- checked before needs a process, no update of the sandbox is deferred, and a reset at the
-- session's end is not suppressed. Everywhere else it is a plan whose action and tail are the whole
-- input, whose control is staged first exactly if a process is needed or it is a restart, whose
-- interrupt is staged after the session's end exactly if the control is not staged first, and which
-- hands the deferred update to the control if that is staged first, and to the tail otherwise.
pub plan-IsAnswer :
    {Update : Type 0} (input : Bytes) (c : ControlPrefixInput) (control_requires_spawn : Bool)
    (options : WriteStdinOptions Update)
    → split input ≡ some c
    → IsAnswer input control_requires_spawn options (plan c control_requires_spawn options)
unfolding plan
plan-IsAnswer input c control_requires_spawn options s =
    elim (Bool-cases (needs_meta control_requires_spawn options)) [
      | inl e ↦ rw e (needs_meta-NeedsMeta control_requires_spawn options e)
      | inr e ↦ rw e (
        not-NeedsMeta control_requires_spawn options e,
        made_plan-IsPlan input c.action c.tail control_requires_spawn options
            (split_whole input {c = c} s),
      )
    ]

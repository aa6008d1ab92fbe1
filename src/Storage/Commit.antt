-- ===== src/Storage/Commit.antt =====
-- crates/zhir-core/src/storage/commit.rs: one checkpoint write and its validation against the
-- stored core. The cached core and digest are values, so caching them is not modelled.
pub mod Checks
pub mod Advance
pub mod Delta
use zhir.Prelude.{
  ℕ, zero, suc, ◌+◌, String, Bool, true, false, not, ◌&&◌, ◌||◌, Option, none, some, List, [], ◌∷◌,
  Map, ◌==◌, ltb, leb, find, length, lookup, same, is_some, if◌then◌else◌, String-discrete,
  ℕ_discrete,
}
use zhir.Error.{Result, ok, err, storage, conflict, deadline, refuse_if, for_each, ◌>>=◌, ◌>>◌}
use zhir.Value.{Json}
use zhir.Operation.{
  OperationRecord, CallRef-discrete, OperationOwner-discrete, OperationRecord-discrete, terminal,
  Content-discrete,
}
use zhir.Profile.{profile_eq, RequestProfile-discrete}
use zhir.Run.Options.{validate_options, options_eq}
use zhir.Run.{
  Checkpoint, CommandIntent, PendingCommand, Fact, update_profile, is_terminal, is_suspended,
}
use zhir.Run.Validation.{validate}
use zhir.History.Entry.{HistoryEntry, Hashing, Digest, append_digest, zero_digest, validate_entry}
use zhir.History.Since.{Digest-discrete}
use zhir.Storage.Core.{CheckpointCore, core_of}

-- crates/zhir-core/src/storage/mod.rs
pub data HistoryDelta (V : Type 0) : Type 0 where
  initial append replace : (messages : List (HistoryEntry V)) → HistoryDelta V
  unchanged : HistoryDelta V

-- An instant is a number.
pub record Commit (V : Type 0) : Type 0 where
  pub checkpoint : Checkpoint V
  pub history : HistoryDelta V
  pub deadline : Option ℕ

unfoldable pub OptionText-discrete : Discrete (Option String)
OptionText-discrete = hlevel String-discrete

unfoldable pub OptionNumber-discrete : Discrete (Option ℕ)
OptionNumber-discrete = hlevel ℕ_discrete

abbrev passed : Option ℕ → ℕ → Bool
passed none now = false
passed (some d) now = leb d now

-- `Commit::check_deadline`
unfoldable pub check_deadline : {V : Type 0} → Commit V → ℕ → Result (Unit {0})
check_deadline c now = refuse_if (passed c.deadline now) deadline

abbrev pub checked_pred : ℕ → Option ℕ
checked_pred zero = none
checked_pred (suc n) = some n

-- `Commit::expected_revision`
unfoldable pub expected_revision : {V : Type 0} → Commit V → Option ℕ
expected_revision c = checked_pred c.checkpoint.revision

abbrev pub is_attached : Fact → Bool
is_attached Fact.attached = true
is_attached _ = false

abbrev pub is_rewrite : Fact → Bool
is_rewrite (Fact.history_rewrite _) = true
is_rewrite _ = false

-- Did the cursor of an operation move backwards?
abbrev pub cursor_lost : Option ℕ → Option ℕ → Bool
cursor_lost none current = false
cursor_lost (some sequence) none = true
cursor_lost (some sequence) (some next) = ltb next sequence

module _ {V : Type 0} where
  abbrev pub revision_of : Option (CheckpointCore V) → Option ℕ
  revision_of none = none
  revision_of (some p) = some p.revision

  abbrev pub id_of : Option (CheckpointCore V) → Option String
  id_of none = none
  id_of (some p) = some p.id

  abbrev pub other_run : Option (CheckpointCore V) → CheckpointCore V → Bool
  other_run none next = false
  other_run (some p) next = not (same String-discrete p.context.run_id next.context.run_id)

  -- What of a run's context and state never changes or decreases.
  unfoldable pub check_context : CheckpointCore V → CheckpointCore V → Result (Unit {0})
  check_context p next =
      refuse_if
        (not (p.context.started_at_ms == next.context.started_at_ms)
          || not (same OptionNumber-discrete p.context.deadline_at_ms next.context.deadline_at_ms)
          || not (same OptionText-discrete p.context.parent_run_id next.context.parent_run_id)
          || not (
              same OptionText-discrete p.context.parent_runtime_tool_call_id
                next.context.parent_runtime_tool_call_id))
        (storage "immutable run context changed")

  unfoldable pub check_monotonic : CheckpointCore V → CheckpointCore V → Result (Unit {0})
  check_monotonic p next =
      let a = p.active.session in
      let b = next.active.session in
      refuse_if
        (not (same String-discrete b.id a.id)
          || ltb b.output_epoch a.output_epoch
          || ltb b.profile_revision a.profile_revision
          || ltb b.context_revision a.context_revision
          || ltb b.acknowledged_context_revision a.acknowledged_context_revision
          || ltb b.input_position a.input_position
          || ltb b.generated_input_position a.generated_input_position
          || ltb next.metrics.generation_requests p.metrics.generation_requests
          || ltb next.metrics.runtime_tool_calls p.metrics.runtime_tool_calls)
        (storage "non-monotonic run state")

module _ {V : Type 0} ⦃j : Json V⦄ where
  unfoldable pub CommandIntent-discrete : Discrete (CommandIntent V)
  CommandIntent-discrete =
      hlevel (String-discrete, ℕ_discrete, Content-discrete, RequestProfile-discrete, j.discrete)

  -- The derived `==` of intents, where a profile holds a double.
  unfoldable pub intent_eq : CommandIntent V → CommandIntent V → Bool
  unfolding profile_eq CommandIntent-discrete
  intent_eq (update_profile r p) (update_profile s q) = r == s && profile_eq p q
  intent_eq a b = same CommandIntent-discrete a b

  abbrev check_kept : OperationRecord V → Option (OperationRecord V) → Result (Unit {0})
  check_kept old none =
      refuse_if (not (terminal old.state)) (storage "unfinished operation removed")
  check_kept old (some current) = do
    refuse_if
        (not (same CallRef-discrete old.origin current.origin)
          || not (same OperationOwner-discrete old.owner current.owner)
          || not (old.call_entry == current.call_entry))
        (storage "operation identity changed after admission")
    refuse_if (terminal old.state && not (same OperationRecord-discrete old current))
        (storage "terminal operation changed")
    refuse_if (cursor_lost old.last_sequence current.last_sequence)
        (storage "operation cursor moved backwards")

  -- The body of the loop over the previous operations.
  unfoldable pub check_operation :
      Map String (OperationRecord V) → String × OperationRecord V → Result (Unit {0})
  unfolding lookup terminal
  check_operation operations (id, old) = check_kept old (lookup String-discrete id operations)

  abbrev changed_command : PendingCommand V → Option (PendingCommand V) → Bool
  changed_command old none = false
  changed_command old (some current) =
      not (intent_eq old.intent current.intent) || (old.sent && not current.sent)

  -- The body of the loop over the previous commands.
  unfoldable pub check_command : List (PendingCommand V) → PendingCommand V → Result (Unit {0})
  unfolding intent_eq
  check_command commands old =
      refuse_if
        (changed_command old (find (λ command. same String-discrete command.id old.id) commands))
        (storage "pending command changed after admission")

  abbrev pub is_replace : HistoryDelta V → Bool
  is_replace (replace _) = true
  is_replace _ = false

  abbrev has_work : CheckpointCore V → Bool
  has_work p =
      ltb 0 (length p.active.operations)
      || ltb 0 (length p.active.commands)
      || ltb 0 (length p.active.media)

  -- The checks against a stored core.
  unfoldable pub check_previous :
      HistoryDelta V → CheckpointCore V → CheckpointCore V → Result (Unit {0})
  unfolding check_context check_monotonic check_operation check_command is_terminal
  check_previous history p next = do
    check_context p next
    refuse_if (is_terminal p.state) (storage "terminal run cannot advance")
    refuse_if (is_suspended p.state && not (is_attached next.fact))
        (storage "suspended run requires attach")
    check_monotonic p next
    for_each (check_operation next.active.operations) p.active.operations
    for_each (check_command next.active.commands) p.active.commands
    refuse_if (is_replace history && (has_work p || not (is_rewrite next.fact)))
        (storage "history rewrite crosses active work")

  abbrev pub against :
      HistoryDelta V → Option (CheckpointCore V) → CheckpointCore V → Result (Unit {0})
  against history none next = ok tt
  against history (some p) next = check_previous history p next

module _ {V : Type 0} ⦃j : Json V⦄ ⦃hashing : Hashing V⦄ where
  -- The loop over the messages of a delta: their number and the digest, from those before them.
  unfoldable pub fold_messages : ℕ → Digest → List (HistoryEntry V) → Result (ℕ × Digest)
  unfolding validate_entry
  fold_messages count digest [] = ok (count, digest)
  fold_messages count digest (m ∷ ms) = do
    validate_entry m
    digest' ← append_digest digest m
    fold_messages (count + 1) digest' ms

  unfoldable pub apply_delta : HistoryDelta V → Option (CheckpointCore V) → Result (ℕ × Digest)
  unfolding fold_messages zero_digest
  apply_delta (initial ms) none = fold_messages 0 zero_digest ms
  apply_delta (replace ms) (some p) = fold_messages 0 zero_digest ms
  apply_delta (append (m ∷ ms)) (some p) = fold_messages p.history_count p.history_digest (m ∷ ms)
  apply_delta unchanged (some p) = ok (p.history_count, p.history_digest)
  apply_delta _ _ = err (storage "invalid history change")

  abbrev pub changed_options : Option (CheckpointCore V) → CheckpointCore V → Bool
  changed_options none next = false
  changed_options (some p) next = not (options_eq p.options next.options)

  -- `Commit::validate_against`
  unfoldable pub validate_against : Commit V → Option (CheckpointCore V) → Result (Unit {0})
  unfolding core_of validate_options expected_revision options_eq check_previous apply_delta
      validate
  validate_against c previous = do
    let next = core_of c.checkpoint
    validate_options next.options
    refuse_if (not (same OptionNumber-discrete (revision_of previous) (expected_revision c)))
        (conflict (expected_revision c) (revision_of previous))
    refuse_if (changed_options previous next) (storage "run options changed after start")
    refuse_if
        (not (same OptionText-discrete (id_of previous) next.parent_id) || other_run previous next)
        (storage "checkpoint parent/run mismatch")
    against c.history previous next
    (count, digest) ← apply_delta c.history previous
    refuse_if
        (not (count == next.history_count) || not (same Digest-discrete digest next.history_digest))
        (storage "history delta mismatch")
    validate c.checkpoint

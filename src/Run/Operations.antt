-- ===== src/Run/Operations.antt =====
-- `validate_operations` of crates/zhir-core/src/run/validation.rs: the operations of a checkpoint
-- against its history.
use zhir.Prelude.{
  ℕ, String, Bool, true, false, not, ◌&&◌, ◌||◌, Option, none, some, Map, leb, any, same,
  String-discrete,
}
use zhir.Error.{Result, ok, invalid, refuse_if, for_each, ◌>>=◌, ◌>>◌}
use zhir.Operation.{
  CallRef, CallRef-discrete, OperationOwner, runtime_tool, provider, delegation, OperationRecord,
  OperationState-discrete, terminal, validate_record, outcome_state,
}
use zhir.Message.{Message, Output, RuntimeToolCall, assistant, delegation_result, runtime_tool_call}
use zhir.Message
use zhir.History.Entry.{HistoryEntry}
use zhir.History.Chain.{History, get}
use zhir.Run.{Checkpoint}

-- `option.as_ref() == Some(&x)`
abbrev pub is_just {ℓ} : {A : Type ℓ} → Discrete A → Option A → A → Bool
is_just d none x = false
is_just d (some y) x = same d y x

abbrev pub is_delegation : OperationOwner → Bool
is_delegation delegation = true
is_delegation _ = false

abbrev pub is_tool : OperationOwner → String → Bool
is_tool (runtime_tool name) wanted = same String-discrete name wanted
is_tool _ wanted = false

abbrev pub beyond : Option ℕ → ℕ → Bool
beyond none len = false
beyond (some index) len = leb len index

abbrev pub found_or {ℓ} : {A : Type ℓ} → Option A → String → Result A
found_or none message = Result.err (invalid message)
found_or (some a) message = ok a

module _ {V : Type 0} where
  -- `operations.values().any(p)`
  abbrev pub any_operation : (OperationRecord V → Bool) → Map String (OperationRecord V) → Bool
  any_operation p ops = any (λ e. p e.1) ops

  abbrev is_call : OperationRecord V → String → Output V → Bool
  is_call operation name (runtime_tool_call call) =
      same String-discrete call.name name && same String-discrete call.id operation.origin.call_id
  is_call operation name _ = false

  unfoldable pub call_matches : Message V → OperationRecord V → String → Bool
  call_matches (assistant output _) operation name = any (is_call operation name) output
  call_matches _ operation name = false

  abbrev is_request : OperationRecord V → Output V → Bool
  is_request operation (Message.delegation request) =
      same String-discrete request.id operation.origin.call_id
  is_request operation _ = false

  unfoldable pub request_matches : Message V → OperationRecord V → Bool
  request_matches (assistant output _) operation = any (is_request operation) output
  request_matches _ operation = false

  abbrev is_result : OperationRecord V → String → Message V → Bool
  is_result operation name (Message.runtime_tool call_id result_name outcome) =
      same String-discrete name result_name
      && same String-discrete call_id operation.origin.call_id
      && same OperationState-discrete operation.state (outcome_state outcome)
  is_result operation name _ = false

  abbrev is_delegation_result : OperationRecord V → Message V → Bool
  is_delegation_result operation (delegation_result id outcome) =
      same String-discrete id operation.origin.call_id
      && same OperationState-discrete (outcome_state outcome) operation.state
  is_delegation_result operation _ = false

  unfoldable pub result_matches : HistoryEntry V → OperationRecord V → String → Bool
  unfolding outcome_state
  result_matches entry operation name =
      is_just CallRef-discrete entry.origin operation.origin
      && is_result operation name entry.message

  -- The same of the result of a delegation.
  unfoldable pub delegation_matches : HistoryEntry V → OperationRecord V → Bool
  unfolding outcome_state
  delegation_matches entry operation =
      is_just CallRef-discrete entry.origin operation.origin
      && is_delegation_result operation entry.message

  abbrev pub entry_at : History V → Option ℕ → (HistoryEntry V → Bool) → Bool
  entry_at h none test = true
  entry_at h (some index) test = elim (get h index) [ none ↦ false | some e ↦ test e ]

  abbrev pub validate_owner :
      History V → HistoryEntry V → OperationRecord V → OperationOwner → Result (Unit {0})
  validate_owner h call operation (runtime_tool name) = do
    refuse_if (not (call_matches call.message operation name)) (invalid "operation call mismatch")
    refuse_if (not (entry_at h operation.result_entry (λ e. result_matches e operation name)))
        (invalid "operation outcome mismatch")
  validate_owner h call operation delegation = do
    refuse_if (not (request_matches call.message operation)) (invalid "delegation call mismatch")
    refuse_if (not (entry_at h operation.result_entry (λ e. delegation_matches e operation)))
        (invalid "delegation outcome mismatch")
  validate_owner h call operation (provider _) = ok tt

  -- The body of the last loop of `validate_operations`.
  unfoldable pub validate_operation : History V → String × OperationRecord V → Result (Unit {0})
  unfolding get validate_record call_matches result_matches request_matches delegation_matches
  validate_operation h (id, operation) = do
    validate_record operation
    call ← found_or (get h operation.call_entry) "missing operation call"
    refuse_if (not (is_just CallRef-discrete call.origin operation.origin))
        (invalid "operation origin differs from history")
    validate_owner h call operation operation.owner
    refuse_if
        (not (same String-discrete id operation.id)
          || leb h.len operation.call_entry
          || beyond operation.result_entry h.len)
        (invalid "operation history reference mismatch")

  abbrev pub waits_for : CallRef → (OperationOwner → Bool) → OperationRecord V → Bool
  waits_for origin owned op =
      same CallRef-discrete op.origin origin && owned op.owner && not (terminal op.state)

  -- `Checkpoint::validate_operations`
  unfoldable pub validate_operations : Checkpoint V → Result (Unit {0})
  unfolding validate_operation terminal
  validate_operations c = do
    for_each
        (λ origin.
          refuse_if (not (any_operation (waits_for origin is_delegation) c.active.operations))
            (invalid "pending delegation has no active operation"))
        c.history.order.delegations
    for_each
        (λ (origin, call).
          refuse_if
            (not (any_operation (waits_for origin (λ o. is_tool o call.name)) c.active.operations))
            (invalid "pending call has no active operation"))
        c.history.order.calls
    for_each (validate_operation c.history) c.active.operations

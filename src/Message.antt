-- ===== src/Message.antt =====
-- crates/zhir-core/src/message/mod.rs and the tool calls of crates/zhir-core/src/tool/mod.rs: what
-- a conversation holds, and its validation.
use Prim.Native.Char.{code}
use zhir.Prelude.{
  ℕ, String, Bool, true, false, not, ◌&&◌, ◌||◌, Option, none, some, List, [], ◌∷◌, ◌++◌, is_empty,
  leb, ◌==◌, same, String-discrete, contains,
}
use zhir.Error.{Failure, Result, ok, invalid, refuse_if, for_each, ◌>>=◌, ◌>>◌}
use zhir.Value.{Json, is_object}
use zhir.Operation.{
  Content, OperationOutcome, DelegationRequest, validate_content, validate_outcome, outcome_content,
  Content-discrete, OperationOutcome-discrete,
}
use zhir.Operation

pub data RuntimeToolInput (V : Type 0) : Type 0 where
  structured : V → RuntimeToolInput V
  freeform : String → RuntimeToolInput V

pub record RuntimeToolCall (V : Type 0) : Type 0 where
  pub id : String
  pub name : String
  pub input : RuntimeToolInput V

pub data ProviderToolStatus : Type 0 where
  cancelled pending running completed incomplete failed : ProviderToolStatus

pub data ProviderToolOutcome (V : Type 0) : Type 0 where
  success : (structured : V) → ProviderToolOutcome V
  failure : (error : Failure) → ProviderToolOutcome V
  cancelled : (reason : String) → ProviderToolOutcome V

pub record ProviderToolCall (V : Type 0) : Type 0 where
  pub id : String
  pub provider : String
  pub name : String
  pub status : ProviderToolStatus
  pub outcome : Option (ProviderToolOutcome V)
  pub output : List (Content V)
  pub payload : V

pub data Output (V : Type 0) : Type 0 where
  delegation : (request : DelegationRequest) → Output V
  content : (content : Content V) → Output V
  runtime_tool_call : (call : RuntimeToolCall V) → Output V
  provider_tool_call : (call : ProviderToolCall V) → Output V

pub data Message (V : Type 0) : Type 0 where
  delegation_result : (id : String) (outcome : OperationOutcome V) → Message V
  system user external : (content : List (Content V)) → Message V
  assistant : (output : List (Output V)) (provider_data : V) → Message V
  runtime_tool : (call_id name : String) (outcome : OperationOutcome V) → Message V

unfoldable pub Failure-discrete : Discrete Failure
Failure-discrete = hlevel String-discrete

unfoldable pub ProviderToolStatus-discrete : Discrete ProviderToolStatus
ProviderToolStatus-discrete = hlevel

-- `ProviderToolOutcome::from(&OperationOutcome)`
unfoldable pub settlement : {V : Type 0} → OperationOutcome V → ProviderToolOutcome V
settlement (Operation.success _ s) = success s
settlement (Operation.failure e) = failure e
settlement (OperationOutcome.cancelled r) = ProviderToolOutcome.cancelled r

-- `ProviderToolStatus::from(&ProviderToolOutcome)`
unfoldable pub settled_status : {V : Type 0} → ProviderToolOutcome V → ProviderToolStatus
settled_status (success _) = completed
settled_status (failure _) = failed
settled_status (ProviderToolOutcome.cancelled _) = ProviderToolStatus.cancelled

abbrev is_success : {V : Type 0} → ProviderToolOutcome V → Bool
is_success (success _) = true
is_success _ = false

-- The characters that `str::trim` removes: Unicode's `White_Space`.
is_whitespace : ℕ → Bool
is_whitespace c =
    (leb 9 c && leb c 13)
    || c == 32
    || c == 133
    || c == 160
    || c == 5760
    || (leb 8192 c && leb c 8202)
    || c == 8232
    || c == 8233
    || c == 8239
    || c == 8287
    || c == 12288

-- `s.trim().is_empty()`
unfoldable pub is_blank : String → Bool
unfolding is_whitespace
is_blank String.[] = true
is_blank (String.◌∷◌ c s) = is_whitespace (code c) && is_blank s

abbrev no_items : {A : Type 0} → List A → Bool
no_items [] = true
no_items _ = false

-- `call.status` and `call.output` against the settlement that the kernel recorded.
unfoldable pub unsettled_mismatch : {V : Type 0} → ProviderToolCall V → Bool
unfolding settled_status ProviderToolStatus-discrete
unsettled_mismatch call = elim call.outcome [
  | none ↦ false
  | some o ↦
      not (same ProviderToolStatus-discrete call.status (settled_status o))
      || (not (is_success o) && not (no_items call.output))
]

module _ {V : Type 0} ⦃j : Json V⦄ where
  abbrev bad_input : RuntimeToolInput V → Bool
  bad_input (structured v) = not (is_object v)
  bad_input (freeform _) = false

  -- `RuntimeToolCall::validate`
  unfoldable pub validate_call : RuntimeToolCall V → Result (Unit {0})
  unfolding is_empty
  validate_call call = do
    refuse_if (is_empty call.id || is_empty call.name) (invalid "empty tool identity")
    refuse_if (bad_input call.input) (invalid "structured arguments must be an object")

  -- One turn of the loop of `validate_output`: the identities seen so far, with the item's.
  unfoldable pub validate_item : List String → Output V → Result (List String)
  unfolding is_empty is_blank contains validate_call validate_content unsettled_mismatch
  validate_item ids (delegation request) = do
    refuse_if
        (is_empty request.id || is_blank request.prompt || contains String-discrete request.id ids)
        (invalid "invalid delegation")
    ok (request.id ∷ ids)
  validate_item ids (content c) = do validate_content c; ok ids
  validate_item ids (runtime_tool_call call) = do
    validate_call call
    refuse_if (contains String-discrete call.id ids) (invalid "duplicate tool call id")
    ok (call.id ∷ ids)
  validate_item ids (provider_tool_call call) = do
    refuse_if (contains String-discrete call.id ids) (invalid "duplicate output call id")
    refuse_if (is_empty call.id || is_empty call.provider || is_empty call.name)
        (invalid "empty provider call identity")
    for_each validate_content call.output
    refuse_if (unsettled_mismatch call) (invalid "provider settlement disagrees with output")
    ok (call.id ∷ ids)

  unfoldable pub validate_items : List String → List (Output V) → Result (Unit {0})
  validate_items ids [] = ok tt
  validate_items ids (item ∷ items) = do ids' ← validate_item ids item; validate_items ids' items

  unfoldable pub validate_output : List (Output V) → Result (Unit {0})
  unfolding validate_items validate_item
  validate_output output = validate_items [] output

  -- `Message::validate`
  unfoldable pub validate_message : Message V → Result (Unit {0})
  unfolding is_empty validate_outcome validate_content validate_output
  validate_message (delegation_result id outcome) = do
    refuse_if (is_empty id) (invalid "empty delegation identity")
    validate_outcome outcome
  validate_message (system cs) = for_each validate_content cs
  validate_message (user cs) = for_each validate_content cs
  validate_message (external cs) = for_each validate_content cs
  validate_message (assistant output _) = validate_output output
  validate_message (runtime_tool call_id name outcome) = do
    refuse_if (is_empty call_id || is_empty name) (invalid "empty tool message identity")
    validate_outcome outcome

  unfoldable pub Contents-discrete : Discrete (List (Content V))
  Contents-discrete = hlevel Content-discrete

  unfoldable pub same_settlement : Option (ProviderToolOutcome V) → OperationOutcome V → Bool
  same_settlement (some (success p)) (Operation.success _ s) = same j.discrete p s
  same_settlement (some (failure p)) (Operation.failure e) = same Failure-discrete p e
  same_settlement (some (ProviderToolOutcome.cancelled p)) (OperationOutcome.cancelled r) =
      same String-discrete p r
  same_settlement _ _ = false

  -- `ProviderToolCall::matches_outcome`
  unfoldable pub matches_outcome : ProviderToolCall V → OperationOutcome V → Bool
  unfolding same_settlement outcome_content
  matches_outcome call outcome =
      same_settlement call.outcome outcome
      && same Contents-discrete call.output (outcome_content outcome)

  unfoldable pub RuntimeToolCall-discrete : Discrete (RuntimeToolCall V)
  RuntimeToolCall-discrete = hlevel (String-discrete, j.discrete)

  unfoldable pub Output-discrete : Discrete (Output V)
  Output-discrete = hlevel (String-discrete, Content-discrete, j.discrete)

  unfoldable pub Message-discrete : Discrete (Message V)
  Message-discrete =
      hlevel
        (String-discrete, Content-discrete, Output-discrete, OperationOutcome-discrete, j.discrete)

abbrev is_shown : ProviderToolStatus → Bool
is_shown completed = true
is_shown incomplete = true
is_shown failed = true
is_shown _ = false

abbrev visible : {V : Type 0} → Output V → List (Content V)
visible (content c) = c ∷ []
visible (provider_tool_call call) = elim (is_shown call.status) [ true ↦ call.output | false ↦ [] ]
visible _ = []

unfoldable pub visible_content : {V : Type 0} → List (Output V) → List (Content V)
visible_content [] = []
visible_content (o ∷ os) = visible o ++ visible_content os

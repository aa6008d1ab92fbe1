-- ===== src/Operation.antt =====
-- crates/zhir-core/src/operation.rs: durable work identity and lifecycle, with the `Content` of
-- crates/zhir-core/src/message/mod.rs that an outcome carries.
use zhir.Prelude.{
  ℕ, String, Bool, true, false, not, ◌||◌, Option, none, some, List, [], is_empty, is_some,
  String-discrete, ℕ_discrete,
}
use zhir.Error.{Failure, Result, ok, invalid, refuse_if, for_each, ◌>>◌}
use zhir.Value.{Json, no_members}
use zhir.Profile.{validate_extensions}
use zhir.Resource.{ResourceInput, validate_resource}

pub data Content (V : Type 0) : Type 0 where
  text : (text : String) → Content V
  resource : (input : ResourceInput V) → Content V
  opaque : (provider : String) (payload : V) → Content V

pub record CallRef : Type 0 where
  pub session_id : String
  pub item_id : String
  pub generation_id : Option String
  pub caller_id : String
  pub call_id : String

pub data OperationState : Type 0 where
  queued running waiting cancelling succeeded failed cancelled unknown : OperationState

unfoldable pub terminal : OperationState → Bool
terminal succeeded = true
terminal failed = true
terminal cancelled = true
terminal _ = false

pub record RecoveryRef (V : Type 0) : Type 0 where
  pub adapter : String
  pub payload : V

pub data OperationOwner : Type 0 where
  runtime_tool : (name : String) → OperationOwner
  provider : (provider : String) → OperationOwner
  delegation : OperationOwner

pub data OperationOutcome (V : Type 0) : Type 0 where
  success : (content : List (Content V)) (structured : V) → OperationOutcome V
  failure : (error : Failure) → OperationOutcome V
  cancelled : (reason : String) → OperationOutcome V

pub data OperationUpdate (V : Type 0) : Type 0 where
  context : (content : List (Content V)) → OperationUpdate V
  running : (recovery : Option (RecoveryRef V)) → OperationUpdate V
  waiting : (prompt : V) (recovery : Option (RecoveryRef V)) → OperationUpdate V
  progress : (value : V) → OperationUpdate V
  finished : (outcome : OperationOutcome V) → OperationUpdate V
  unknown : (reason : String) → OperationUpdate V

pub record OperationEvent (V : Type 0) : Type 0 where
  pub sequence : ℕ
  pub update : OperationUpdate V

pub record DelegationRequest : Type 0 where
  pub id : String
  pub prompt : String

pub record OperationRecord (V : Type 0) : Type 0 where
  pub id : String
  pub origin : CallRef
  pub owner : OperationOwner
  pub state : OperationState
  pub call_entry : ℕ
  pub result_entry : Option ℕ
  pub recovery : Option (RecoveryRef V)
  pub last_sequence : Option ℕ
  pub last_update : Option (OperationUpdate V)
  pub wait : Option V

-- `is_some_and(String::is_empty)`
abbrev pub empty_text : Option String → Bool
empty_text none = false
empty_text (some s) = is_empty s

abbrev pub differ : Bool → Bool → Bool
differ true b = not b
differ false b = b

abbrev empty_adapter : {V : Type 0} → Option (RecoveryRef V) → Bool
empty_adapter none = false
empty_adapter (some r) = is_empty r.adapter

-- `OperationRecord::validate`
unfoldable pub validate_record : {V : Type 0} → OperationRecord V → Result (Unit {0})
unfolding is_empty terminal
validate_record r = do
  refuse_if
      (is_empty r.id
        || is_empty r.origin.session_id
        || is_empty r.origin.item_id
        || empty_text r.origin.generation_id
        || is_empty r.origin.caller_id
        || is_empty r.origin.call_id)
      (invalid "empty operation identity")
  refuse_if (differ (is_some r.last_sequence) (is_some r.last_update))
      (invalid "operation cursor requires its acknowledged update")
  refuse_if (differ (terminal r.state) (is_some r.result_entry))
      (invalid "operation terminal state and result disagree")
  refuse_if (empty_adapter r.recovery) (invalid "empty recovery adapter")

-- `OperationState::from`
unfoldable pub outcome_state : {V : Type 0} → OperationOutcome V → OperationState
outcome_state (success _ _) = succeeded
outcome_state (failure _) = failed
outcome_state (cancelled _) = OperationState.cancelled

unfoldable pub outcome_content : {V : Type 0} → OperationOutcome V → List (Content V)
outcome_content (success content _) = content
outcome_content _ = []

unfoldable pub OperationState-discrete : Discrete OperationState
OperationState-discrete = hlevel

unfoldable pub OperationOwner-discrete : Discrete OperationOwner
OperationOwner-discrete = hlevel String-discrete

unfoldable pub CallRef-discrete : Discrete CallRef
CallRef-discrete = hlevel String-discrete

module _ {V : Type 0} ⦃j : Json V⦄ where
  -- `Content::validate`
  unfoldable pub validate_content : Content V → Result (Unit {0})
  unfolding is_empty validate_resource validate_extensions
  validate_content (resource input) = do
    validate_resource input.resource
    validate_extensions input.usage.extensions
  validate_content (opaque p payload) =
      refuse_if (is_empty p || no_members payload)
        (invalid "opaque content requires provider and nonempty object")
  validate_content (text t) = ok tt

  -- `OperationOutcome::validate`
  unfoldable pub validate_outcome : OperationOutcome V → Result (Unit {0})
  unfolding outcome_content validate_content
  validate_outcome o = for_each validate_content (outcome_content o)

  unfoldable pub Content-discrete : Discrete (Content V)
  Content-discrete = hlevel (String-discrete, ℕ_discrete, j.discrete)

  unfoldable pub OperationOutcome-discrete : Discrete (OperationOutcome V)
  OperationOutcome-discrete = hlevel (String-discrete, Content-discrete, j.discrete)

  unfoldable pub OperationUpdate-discrete : Discrete (OperationUpdate V)
  OperationUpdate-discrete =
      hlevel (String-discrete, Content-discrete, OperationOutcome-discrete, j.discrete)

  unfoldable pub OperationRecord-discrete : Discrete (OperationRecord V)
  OperationRecord-discrete = hlevel (
    String-discrete, ℕ_discrete, CallRef-discrete, OperationOwner-discrete,
    OperationUpdate-discrete, j.discrete,
  )

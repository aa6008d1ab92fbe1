-- ===== src/History/Order.antt =====
-- `Order` of crates/zhir-core/src/run/history.rs: the identities of a history's entries, and the
-- calls and delegations that have no result yet. The first fault is kept, and what was written
-- before it stays.
pub mod Ledger
use zhir.Prelude.{
  ℕ, String, Bool, ◌||◌, not, Option, none, some, List, [], ◌∷◌, Map, same, has_key, lookup, insert,
  remove, contains, add, discard, if◌then◌else◌, String-discrete,
}
use zhir.Operation.{CallRef, CallRef-discrete}
use zhir.Message.{
  Message, Output, RuntimeToolCall, delegation, runtime_tool_call, assistant, delegation_result,
  runtime_tool,
}
use zhir.History.Entry.{HistoryEntry}

pub record Order (V : Type 0) : Type 0 where
  pub ids : Map String ℕ
  pub calls : Map CallRef (RuntimeToolCall V)
  pub completed : List CallRef
  pub delegations : List CallRef
  pub error : Option String

abbrev pub default_order : {V : Type 0} → Order V
default_order = record { ids = []; calls = []; completed = []; delegations = []; error = none }

-- What `update` leaves of the order, and its error.
abbrev Updated : Type 0 → Type 0
Updated V = Order V × Option String

module _ {V : Type 0} where
  -- Is the origin known, as a pending call, as a pending delegation or as completed?
  unfoldable pub is_known : Order V → CallRef → Bool
  unfolding has_key lookup contains
  is_known o k =
      has_key CallRef-discrete k o.calls
      || contains CallRef-discrete k o.delegations
      || contains CallRef-discrete k o.completed

  -- The body of the loop over an assistant's output.
  unfoldable pub update_item : Order V → Option CallRef → Output V → Updated V
  unfolding is_known add insert
  update_item o none (delegation request) = (o, some "delegation requires an origin")
  update_item o (some origin) (delegation request) =
      let k = record origin { call_id = request.id } in
      if is_known o k
      then (o, some "duplicate operation identity")
      else (record o { delegations = add CallRef-discrete k o.delegations }, none)
  update_item o none (runtime_tool_call call) = (o, some "tool request requires an origin")
  update_item o (some origin) (runtime_tool_call call) =
      let k = record origin { call_id = call.id } in
      if is_known o k
      then (o, some "duplicate tool call identity")
      else (record o { calls = insert CallRef-discrete k call o.calls }, none)
  update_item o origin _ = (o, none)

  unfoldable pub update_items : Order V → Option CallRef → List (Output V) → Updated V
  update_items o origin [] = (o, none)
  update_items o origin (item ∷ items) =
      let (o', error) = update_item o origin item in
      elim error [ some e ↦ (o', some e) | none ↦ update_items o' origin items ]

  -- The result of a delegation, and of a tool call.
  unfoldable pub settle_delegation : Order V → Option CallRef → String → Updated V
  unfolding contains add discard
  settle_delegation o none id = (o, some "delegation result requires an origin")
  settle_delegation o (some k) id =
      if not (same String-discrete k.call_id id) || not (contains CallRef-discrete k o.delegations)
      then (o, some "delegation result has no matching pending request")
      else (
        record o {
          delegations = discard CallRef-discrete k o.delegations;
          completed = add CallRef-discrete k o.completed;
        },
        none,
      )

  abbrev settle_found : Order V → CallRef → String → String → Option (RuntimeToolCall V) → Updated V
  settle_found o k call_id name none = (o, some "tool result has no pending call")
  settle_found o k call_id name (some call) =
      if not (same String-discrete call.id call_id) || not (same String-discrete call.name name)
      then (o, some "tool result identity mismatch")
      else (
        record o {
          calls = remove CallRef-discrete k o.calls;
          completed = add CallRef-discrete k o.completed;
        },
        none,
      )

  unfoldable pub settle_call : Order V → Option CallRef → String → String → Updated V
  unfolding lookup add remove
  settle_call o none call_id name = (o, some "tool result requires an origin")
  settle_call o (some k) call_id name =
      settle_found o k call_id name (lookup CallRef-discrete k o.calls)

  unfoldable pub update_message : Order V → Option CallRef → Message V → Updated V
  unfolding update_items update_item settle_delegation settle_call
  update_message o origin (assistant output _) = update_items o origin output
  update_message o origin (delegation_result id _) = settle_delegation o origin id
  update_message o origin (runtime_tool call_id name _) = settle_call o origin call_id name
  update_message o origin _ = (o, none)

  unfoldable pub update : Order V → HistoryEntry V → ℕ → Updated V
  unfolding has_key insert lookup update_message
  update o entry index =
      if has_key String-discrete entry.id o.ids
      then (o, some "duplicate history identity")
      else update_message (record o { ids = insert String-discrete entry.id index o.ids })
          entry.origin entry.message

  -- `Order::append`
  unfoldable pub append_order : Order V → HistoryEntry V → ℕ → Order V
  unfolding update
  append_order o entry index = elim o.error [
    | some _ ↦ o
    | none ↦ let (o', error) = update o entry index in record o' { error = error }
  ]

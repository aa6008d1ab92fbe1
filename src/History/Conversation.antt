-- ===== src/History/Conversation.antt =====
-- crates/zhir-core/src/model/conversation.rs: the messages that a model is given. Assistant entries of
-- one response are one message, at the place of the first.
use zhir.Prelude.{
  ℕ, zero, suc, String, Option, none, some, List, [], ◌∷◌, ◌++◌, Map, length, ltb, lookup, insert,
  String-discrete, if◌then◌else◌,
}
use zhir.Value.{Json, is_null}
use zhir.Operation.{CallRef}
use zhir.Message.{Message, Output, assistant, provider_tool_call}
use zhir.History.Entry.{HistoryEntry}

abbrev ResponseKey : Type 0
ResponseKey = String × Option String × Option String

abbrev CallKey : Type 0
CallKey = String × String

pub record Response : Type 0 where
  pub message_index : ℕ
  pub provider_positions : Map CallKey ℕ

unfoldable ResponseKey-discrete : Discrete ResponseKey
ResponseKey-discrete = hlevel String-discrete

unfoldable CallKey-discrete : Discrete CallKey
CallKey-discrete = hlevel String-discrete

-- `xs[i] = x`; an index out of range, where the code panics, changes nothing.
abbrev set_at {ℓ} : {A : Type ℓ} → List A → ℕ → A → List A
set_at [] i x = []
set_at (y ∷ ys) zero x = x ∷ ys
set_at (y ∷ ys) (suc i) x = y ∷ set_at ys i x

abbrev nth {ℓ} : {A : Type ℓ} → List A → ℕ → Option A
nth [] i = none
nth (y ∷ ys) zero = some y
nth (y ∷ ys) (suc i) = nth ys i

-- The item, alone where the response has a message for no generation.
abbrev key_of : CallRef → ResponseKey
key_of origin = (
  origin.session_id,
  origin.generation_id,
  elim origin.generation_id [ none ↦ some origin.item_id | some _ ↦ none ],
)

module _ {V : Type 0} where
  abbrev merge_call :
      Response → List (Output V) → Output V → CallKey → Option ℕ → Response × List (Output V)
  merge_call r output item key (some position) =
      if ltb position (length output)
      then (r, set_at output position item)
      else (r, output ++ item ∷ [])
  merge_call r output item key none = (
    record r {
      provider_positions = insert CallKey-discrete key (length output) r.provider_positions;
    },
    output ++ item ∷ [],
  )

  -- `Response::merge`
  unfoldable pub merge : Response → List (Output V) → Output V → Response × List (Output V)
  unfolding lookup insert CallKey-discrete
  merge r output (provider_tool_call call) =
      merge_call r output (provider_tool_call call) (call.provider, call.id)
        (lookup CallKey-discrete (call.provider, call.id) r.provider_positions)
  merge r output item = (r, output ++ item ∷ [])

  abbrev merge_all : Response → List (Output V) → List (Output V) → Response × List (Output V)
  merge_all r accumulated [] = (r, accumulated)
  merge_all r accumulated (item ∷ items) =
      let (r', accumulated') = merge r accumulated item in merge_all r' accumulated' items

-- The messages so far, and the responses by their keys.
pub record Projection (V : Type 0) : Type 0 where
  pub messages : List (Message V)
  pub responses : Map ResponseKey Response

module _ {V : Type 0} ⦃j : Json V⦄ where
  abbrev push_message : Projection V → Message V → Projection V
  push_message p message = record p { messages = p.messages ++ message ∷ [] }

  abbrev opened : Projection V → ResponseKey → Projection V × Response
  opened p key =
      let r : Response = record { message_index = length p.messages; provider_positions = [] } in
      (
        record {
          messages = p.messages ++ assistant [] j.null ∷ [];
          responses = insert ResponseKey-discrete key r p.responses;
        },
        r,
      )

  -- `response`
  abbrev response : Projection V → ResponseKey → Projection V × Response
  response p key = elim (lookup ResponseKey-discrete key p.responses) [
    | some r ↦ (p, r)
    | none ↦ opened p key
  ]

  -- A message of a response, and an entry's part of it.
  abbrev extend :
      Projection V
      → ResponseKey
      → Response
      → List (Output V)
      → V
      → Option (Message V)
      → Projection V
  extend p key r output provider_data (some (assistant accumulated previous)) =
      let (r', accumulated') = merge_all r accumulated output in
      record {
        messages =
            set_at p.messages r.message_index
              (assistant accumulated' (if is_null provider_data then previous else provider_data));
        responses = insert ResponseKey-discrete key r' p.responses;
      }
  extend p key r output provider_data _ = p

  abbrev add_response : Projection V → ResponseKey → List (Output V) → V → Projection V
  add_response p key output provider_data =
      let (p', r) = response p key in
      extend p' key r output provider_data (nth p'.messages r.message_index)

  -- The body of the loop of `conversation`.
  abbrev add_entry : Projection V → Option CallRef → Message V → Projection V
  add_entry p (some origin) (assistant output provider_data) =
      add_response p (key_of origin) output provider_data
  add_entry p _ message = push_message p message

  unfoldable pub add_entries : Projection V → List (HistoryEntry V) → Projection V
  unfolding merge lookup insert ResponseKey-discrete
  add_entries p [] = p
  add_entries p (entry ∷ entries) = add_entries (add_entry p entry.origin entry.message) entries

  -- `conversation`
  unfoldable pub conversation : List (HistoryEntry V) → List (Message V)
  unfolding add_entries
  conversation entries = (add_entries (record { messages = []; responses = [] }) entries).messages

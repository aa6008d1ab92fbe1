-- ===== src/Policies/Window.antt =====
-- crates/zhir-policies/src/history.rs: `HistoryWindow`, which keeps the last turns of a history.
pub mod Suffix
use Prim.Native.String.{◌++◌ as append_text}
use zhir.Prelude.{
  ℕ, zero, suc, ◌+◌, ◌-◌, ◌≤◌, ◌≡◌, refl, ap, arith, String, Bool, true, false, Bool-cases, not,
  ◌||◌, ◌==◌, leb, ltb, Option, none, some, List, [], ◌∷◌, ◌++◌, inl, inr, length, get_elem?, take,
  drop, retain, is_some, if◌then◌else◌,
}
use zhir.Error.{Result, ok, err, invalid, uncertain, refuse_if, ◌>>=◌, ◌>>◌, >>=-eq-ok, >>-eq-ok}
use zhir.Value.{Json}
use zhir.Operation.{terminal}
use zhir.Message.{Message}
use zhir.History.Entry.{Hashing, HistoryEntry}
use zhir.History.Chain.{entries, from_entries, validate_history}
use zhir.Run.{Checkpoint, is_active}
use zhir.Run.Operations.{any_operation}
use zhir.Run.Validation.{validate}
use zhir.Engine.Action.{Rewrite}
use zhir.Engine.Session.{no_items}

pub record HistoryWindow (V : Type 0) : Type 0 where
  pub turns : ℕ
  pub dependencies : Option (Checkpoint V → ℕ → Result ℕ)

abbrev or_this : Option ℕ → Bool → ℕ → Option ℕ
or_this (some later) within index = some later
or_this none true index = some index
or_this none false index = none

-- `iter().rev().find(|index| index <= required)`
unfoldable pub last_within : ℕ → List ℕ → Option ℕ
last_within required [] = none
last_within required (index ∷ rest) = or_this (last_within required rest) (leb index required) index

abbrev or_first : Option ℕ → ℕ
or_first none = 0
or_first (some index) = index

module _ {V : Type 0} where
  -- A user's message starts a turn.
  abbrev pub starts_turn : HistoryEntry V → Bool
  starts_turn entry = elim entry.message [ Message.user _ ↦ true | _ ↦ false ]

  abbrev pub is_system : HistoryEntry V → Bool
  is_system entry = elim entry.message [ Message.system _ ↦ true | _ ↦ false ]

  -- `HistoryWindow::last_turns`
  unfoldable pub last_turns : ℕ → Result (HistoryWindow V)
  last_turns turns = do
    refuse_if (turns == 0) (invalid "history window must retain at least one turn")
    ok (record { turns = turns; dependencies = none })

  -- `HistoryWindow::with_dependencies`
  abbrev pub with_dependencies : HistoryWindow V → (Checkpoint V → ℕ → Result ℕ) → HistoryWindow V
  with_dependencies window dependencies = record window { dependencies = some dependencies }

  -- The indices of the entries that start a turn, the first entry having the given one.
  unfoldable pub starts_from : ℕ → List (HistoryEntry V) → List ℕ
  starts_from index [] = []
  starts_from index (entry ∷ rest) =
      let later = starts_from (suc index) rest in if starts_turn entry then index ∷ later else later

  -- The start of the window, which the dependencies of the host may move back to the start of a turn.
  unfoldable pub window_start : HistoryWindow V → Checkpoint V → List ℕ → ℕ → Result ℕ
  window_start window c starts first = elim window.dependencies [
    | none ↦ ok first
    | some dependencies ↦ do
      required ← dependencies c first
      refuse_if (ltb first required) (invalid "history dependency must expand the retained window")
      ok (or_first (last_within required starts))
  ]

  -- The filter of the entries from an index on and the system's messages before it.
  unfoldable pub retained_from : ℕ → ℕ → List (HistoryEntry V) → List (HistoryEntry V)
  retained_from first index [] = []
  retained_from first index (entry ∷ rest) =
      let later = retained_from first (suc index) rest in
      if leb first index || is_system entry then entry ∷ later else later

module _ {V : Type 0} ⦃j : Json V⦄ ⦃hashing : Hashing V⦄ where
  -- The rewrite, where it leaves something out; `decimal` prints a number.
  unfoldable pub rewrite_from :
      (ℕ → String) → ℕ → List (HistoryEntry V) → ℕ → Result (Option (Rewrite V))
  rewrite_from decimal turns messages first =
      let retained = retained_from first 0 messages in
      if length retained == length messages
      then ok none
      else from_entries retained >>= λ history.
          validate_history history
          >> ok (
              some (record {
                entries = retained;
                reason =
                    append_text "retain last " (append_text (decimal turns) " complete user turns");
              }))

  -- `starts[starts.len() - self.turns]`; an index out of range, where the code panics, is an error.
  abbrev pub reduce_at :
      (ℕ → String)
      → HistoryWindow V
      → Checkpoint V
      → List ℕ
      → Option ℕ
      → Result (Option (Rewrite V))
  reduce_at decimal window c starts none = err (uncertain "panic")
  reduce_at decimal window c starts (some found) = do
    first ← window_start window c starts found
    rewrite_from decimal window.turns (entries c.history) first

  -- Whether the run is between two responses, with nothing open.
  abbrev pub is_busy : Checkpoint V → Bool
  is_busy c =
      not (is_active c.state)
      || not (is_some c.active.session.response_status)
      || any_operation (λ o. not (terminal o.state)) c.active.operations
      || not (no_items c.active.commands)

  -- `HistoryWindow::reduce`
  unfoldable pub reduce :
      (ℕ → String) → HistoryWindow V → Checkpoint V → Result (Option (Rewrite V))
  reduce decimal window c = do
    validate c
    let starts : List ℕ = starts_from 0 (entries c.history)
    if is_busy c || leb (length starts) window.turns
        then ok none
        else reduce_at decimal window c starts (get_elem? starts (length starts - window.turns))

-- ===== src/Fixtures.antt =====
-- Concrete data for the tests: an encoding, the entries of a short conversation and a checkpoint.
pub mod Runs
pub mod Engines
use zhir.Prelude.{
  ℕ, ◌+◌, ℕ_discrete, ◌≡◌, refl, true, false, Option, none, some, List, [], ◌∷◌, length, ◌++◌, inl,
}
use zhir.Error.{Result, ok, err}
use zhir.Value.{Json}
use zhir.Operation.{CallRef, Content, text, success, OperationRecord}
use zhir.Operation
use zhir.Message.{Message, user, assistant, RuntimeToolCall, freeform}
use zhir.Message
use zhir.Profile.{RequestProfile}
use zhir.History.Entry.{HistoryEntry, Hashing, validate_entry, append_digest}
use zhir.History.Refine.{IsWellFormed, from_entries-IsWellFormed}
use zhir.History.Chain.{append_one, History, from_entries, default_history}
use zhir.Model
use zhir.Run.Options.{RunOptions, Limits, RuntimeToolSelection, RunMode}
use zhir.Run.{
  Suspension, Checkpoint, ControlAction, RunContext, State, Metrics, Fact, SessionSnapshot,
  SessionEstablishment, SessionClosure,
}
use zhir.Run.Ticket.{SuspensionTicket, ticket_of}
use zhir.Storage.Core.{CoreEncoding}
use zhir.Storage.Commit.{Commit, HistoryDelta}

-- A value is the number of its members.
instance abbrev pub NumberJson : Json ℕ
NumberJson = record { discrete = ℕ_discrete; null = 0; object_len = λ n. some n }

abbrev size : Message ℕ → ℕ
size (user content) = length content
size (assistant output _) = 100 + length output
size _ = 200

-- An entry is encoded by its size, and a digest keeps the bytes that it was made of.
instance abbrev pub SizeHashing : Hashing ℕ
SizeHashing = record { to_vec = λ e. inl (size e.message ∷ []); sha256 = λ bytes. bytes }

instance abbrev pub RevisionEncoding : CoreEncoding ℕ
RevisionEncoding = record { core_to_vec = λ c. inl (c.revision ∷ []); hex = λ d. "digest" }

abbrev pub call_ref : CallRef
call_ref = record {
  session_id = "s";
  item_id = "i";
  generation_id = some "g";
  caller_id = "model";
  call_id = "c1";
}

abbrev pub question : HistoryEntry ℕ
question = record { id = "m1"; origin = none; message = user (text "hi" ∷ []) }

abbrev pub request : HistoryEntry ℕ
request = record {
  id = "m2";
  origin = some call_ref;
  message =
      assistant
        (Message.runtime_tool_call (record { id = "c1"; name = "clock"; input = freeform "now" })
          ∷ [])
        0;
}

abbrev pub answer : HistoryEntry ℕ
answer = record {
  id = "m3";
  origin = some call_ref;
  message = Message.runtime_tool "c1" "clock" (success (text "noon" ∷ []) 0);
}

abbrev pub conversation : List (HistoryEntry ℕ)
conversation = question ∷ request ∷ []

abbrev pub history_or : Result (History ℕ) → History ℕ
history_or (ok h) = h
history_or (err _) = default_history

unfoldable pub asked : History ℕ
unfolding from_entries
asked = history_or (from_entries conversation)

unfoldable pub settled : History ℕ
unfolding from_entries
settled = history_or (from_entries (question ∷ request ∷ answer ∷ []))

pub asked-built : from_entries conversation ≡ ok asked
unfolding from_entries asked append_one validate_entry append_digest
asked-built = refl

pub asked-IsWellFormed : IsWellFormed asked
asked-IsWellFormed = (from_entries-IsWellFormed asked conversation asked-built).0

pub settled-built : from_entries (conversation ++ answer ∷ []) ≡ ok settled
unfolding from_entries settled append_one validate_entry append_digest
settled-built = refl

pub settled-IsWellFormed : IsWellFormed settled
settled-IsWellFormed =
    (from_entries-IsWellFormed settled (conversation ++ answer ∷ []) settled-built).0

-- ===== src/History/Entry.antt =====
-- `HistoryEntry` and its digest. `serde_json::to_vec` and SHA-256 are not part of the repository.
use zhir.Prelude.{
  ℕ, zero, suc, ◌/◌, ◌%◌, ◌^◌, String, Option, List, [], ◌∷◌, ◌++◌, ◌⊎◌, inl, inr, length, is_empty,
  String-discrete,
}
use zhir.Error.{Result, ok, err, invalid, refuse_if, ◌>>=◌, ◌>>◌}
use zhir.Value.{Json}
use zhir.Operation.{CallRef, CallRef-discrete}
use zhir.Message.{Message, validate_message, Message-discrete}

pub record HistoryEntry (V : Type 0) : Type 0 where
  pub id : String
  pub origin : Option CallRef
  pub message : Message V

abbrev pub Digest : Type 0
Digest = List ℕ

pub record Hashing (V : Type 0) : Type 0 where
  -- `serde_json::to_vec` of an entry: its bytes, or the text of the error
  pub to_vec : HistoryEntry V → List ℕ ⊎ String
  -- SHA-256 of a sequence of bytes
  pub sha256 : List ℕ → Digest

abbrev be_bytes : ℕ → ℕ → List ℕ
be_bytes zero n = []
be_bytes (suc k) n = n / 256 ^ k % 256 ∷ be_bytes k n

-- `(n as u64).to_be_bytes()`
unfoldable pub be_bytes64 : ℕ → List ℕ
be_bytes64 n = be_bytes 8 n

abbrev zeros : ℕ → Digest
zeros zero = []
zeros (suc n) = 0 ∷ zeros n

-- `[0; 32]`
unfoldable pub zero_digest : Digest
zero_digest = zeros 32

abbrev pub encoded : List ℕ ⊎ String → Result (List ℕ)
encoded (inl bytes) = ok bytes
encoded (inr message) = err (invalid message)

unfoldable pub append_digest :
    {V : Type 0} ⦃h : Hashing V⦄ → Digest → HistoryEntry V → Result Digest
append_digest ⦃h⦄ previous entry = do
  bytes ← encoded (h.to_vec entry)
  ok (h.sha256 (previous ++ be_bytes64 (length bytes) ++ bytes))

module _ {V : Type 0} ⦃j : Json V⦄ where
  -- `HistoryEntry::validate`
  unfoldable pub validate_entry : HistoryEntry V → Result (Unit {0})
  unfolding is_empty validate_message
  validate_entry e = do
    refuse_if (is_empty e.id) (invalid "empty history identity")
    validate_message e.message

  unfoldable pub HistoryEntry-discrete : Discrete (HistoryEntry V)
  HistoryEntry-discrete = hlevel (String-discrete, CallRef-discrete, Message-discrete)

-- ===== src/History/Chain/Chunks.antt =====
-- The sizes of the chunks: `push` starts a new one only when the last one is full.
use zhir.Prelude.{ℕ, ◌≤◌, ◌<◌, ◌≡◌, [], ◌∷◌, arith, length, length-append}
use zhir.History.Entry.{HistoryEntry, Digest}
use zhir.History.Chain.{Chain, nil, node, push, chunk_size}

module _ {V : Type 0} where
  abbrev IsFull : Chain V → Type 0
  IsFull nil = Unit {0}
  IsFull (node _ messages _ _ _) = length messages ≡ chunk_size

  -- No chunk is empty or too long, and only the last one may have room.
  abbrev pub HasChunks : Chain V → Type 0
  HasChunks nil = Unit {0}
  HasChunks (node previous messages _ _ _) =
      (0 < length messages) × (length messages ≤ chunk_size) × IsFull previous × HasChunks previous

  pub push-HasChunks :
      (c : Chain V) (len : ℕ) (d : Digest) (e : HistoryEntry V)
      → HasChunks c
      → HasChunks (push c len d e)
  unfolding push
  push-HasChunks nil len d e h = (omega arith, omega arith, tt, tt)
  push-HasChunks (node p ms ds n x) len d e h = ground (arith, length-append ms (e ∷ []))

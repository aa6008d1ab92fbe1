-- ===== src/History/Since.antt =====
-- `History::appended_since` of crates/zhir-core/src/run/history.rs.
pub mod Suffix
use mathlib.Core.List.{reverse}
use zhir.Prelude.{
  ℕ, zero, suc, ◌-◌, Option, none, some, List, [], ◌∷◌, ltb, leb, ◌==◌, length, get_elem?, drop,
  if◌then◌else◌, same, ℕ_discrete,
}
use zhir.Error.{Result, ok, err, invalid}
use zhir.History.Entry.{HistoryEntry, Digest, zero_digest}
use zhir.History.Chain.{Chain, nil, node, History, flatten}

unfoldable pub Digest-discrete : Discrete Digest
Digest-discrete = hlevel ℕ_discrete

abbrev pub mismatch : {A : Type 0} → Result A
mismatch = err (invalid "history prefix changed without rewrite")

module _ {V : Type 0} where
  -- The digest of an `Option<Arc<Node>>`, and of the prefix that ends `offset` entries into the
  -- chunk behind it. `none` is an index out of range, a panic.
  abbrev pub chain_digest : Chain V → Digest
  chain_digest nil = zero_digest
  chain_digest (node _ _ _ _ digest) = digest

  abbrev pub prefix_digest : Chain V → List Digest → ℕ → Option Digest
  prefix_digest previous digests zero = some (chain_digest previous)
  prefix_digest previous digests (suc index) = get_elem? digests index

  -- `&items[offset..]`; `none` is an offset behind the end, a panic.
  abbrev pub slice_from : ℕ → List (HistoryEntry V) → Option (List (HistoryEntry V))
  slice_from offset items = if leb offset (length items) then some (drop offset items) else none

  abbrev pub sliced :
      Option (List (HistoryEntry V)) → Option (Result (List (List (HistoryEntry V))))
  sliced none = none
  sliced (some items) = some (ok (items ∷ []))

  -- The node at which the walk stops: the rest of its chunk, if the prefix's digest is there.
  unfoldable pub cut :
      Digest
      → List (HistoryEntry V)
      → ℕ
      → Option Digest
      → Option (Result (List (List (HistoryEntry V))))
  cut wanted messages offset none = none
  cut wanted messages offset (some digest) =
      if same Digest-discrete digest wanted
      then sliced (slice_from offset messages)
      else some mismatch

  abbrev pub put_chunk :
      List (HistoryEntry V)
      → Option (Result (List (List (HistoryEntry V))))
      → Option (Result (List (List (HistoryEntry V))))
  put_chunk messages (some (ok cs)) = some (ok (messages ∷ cs))
  put_chunk messages other = other

  -- The chunks behind the prefix of `len` entries, the newest first; `none` is a panic.
  unfoldable pub walk : Chain V → ℕ → Digest → Option (Result (List (List (HistoryEntry V))))
  unfolding cut
  walk nil wanted_len wanted = some (ok [])
  walk (node previous messages digests len digest) wanted_len wanted =
      let start = len - length messages in
      let rest = put_chunk messages (walk previous wanted_len wanted) in
      if leb start wanted_len
      then cut wanted messages (wanted_len - start)
          (prefix_digest previous digests (wanted_len - start))
      else rest

  abbrev joined :
      Option (Result (List (List (HistoryEntry V)))) → Option (Result (List (HistoryEntry V)))
  joined none = none
  joined (some (err e)) = some (err e)
  joined (some (ok cs)) = some (ok (flatten (reverse cs)))

  -- `History::appended_since`; `none` is a panic.
  unfoldable pub appended_since : History V → History V → Option (Result (List (HistoryEntry V)))
  unfolding walk flatten
  appended_since h previous =
      if ltb h.len previous.len
      then some mismatch
      else if previous.len == h.len
      then some (if same Digest-discrete previous.digest h.digest then ok [] else mismatch)
      else joined (walk h.head previous.len previous.digest)

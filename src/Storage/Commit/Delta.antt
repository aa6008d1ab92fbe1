-- ===== src/Storage/Commit/Delta.antt =====
-- The history delta of a commit, against the entries of the two histories.
use zhir.Prelude.{ℕ, ◌+◌, ◌≡◌, sym, ◌∙◌, Option, none, some, List, [], ◌∷◌, ◌++◌, arith, length}
use zhir.Error.{ok, >>=-eq-ok}
use zhir.Value.{Json}
use zhir.Run.{Checkpoint}
use zhir.History.Entry.{HistoryEntry, Hashing, Digest, append_digest, zero_digest, validate_entry}
use zhir.History.Chain.{entries}
use zhir.History.Chain.Digests.{digest_from, digest_from-append}
use zhir.History.Refine.{IsWellFormed, digest-eq-fold}
use zhir.History.Since.Suffix.{NoCollision}
use zhir.Storage.Core.{core_of, head_core}
use zhir.Storage.Commit.{
  Commit, HistoryDelta, initial, append, replace, unchanged, fold_messages, apply_delta,
  validate_against,
}
use zhir.Storage.Commit.Advance.{validate_against_checks}

module _ {V : Type 0} where
  -- The entries that a stored checkpoint has.
  abbrev pub stored_entries : Option (Checkpoint V) → List (HistoryEntry V)
  stored_entries none = []
  stored_entries (some p) = entries p.history

  -- The entries that a delta stands for, from those before it.
  abbrev pub after : HistoryDelta V → List (HistoryEntry V) → List (HistoryEntry V)
  after (initial ms) es = ms
  after (append ms) es = es ++ ms
  after (replace ms) es = ms
  after unchanged es = es

  abbrev pub StoredIsWellFormed : ⦃hashing : Hashing V⦄ → Option (Checkpoint V) → Type 0
  StoredIsWellFormed none = Unit {0}
  StoredIsWellFormed (some p) = IsWellFormed p.history

module _ {V : Type 0} ⦃j : Json V⦄ ⦃hashing : Hashing V⦄ where
  fold_messages_inv :
      (n : ℕ) (d : Digest) (ms : List (HistoryEntry V)) {n' : ℕ} {d' : Digest}
      → fold_messages n d ms ≡ ok (n', d')
      → (n' ≡ n + length ms) × (digest_from d ms ≡ ok d')
  unfolding fold_messages digest_from
  fold_messages_inv n d [] h = (ground arith, ground arith)
  fold_messages_inv n d (m ∷ ms) h =
      let (_, _, h1) = >>=-eq-ok (validate_entry m) _ h in
      let (x, hashed, h2) = >>=-eq-ok (append_digest d m) (λ y. fold_messages (n + 1) y ms) h1 in
      let (count, folded) = fold_messages_inv (n + 1) x ms h2 in (omega arith, rw hashed folded)

  -- A delta that applies has the digest of the entries that it stands for.
  apply_delta_inv :
      (delta : HistoryDelta V) (stored : Option (Checkpoint V)) {n : ℕ} {d : Digest}
      → StoredIsWellFormed stored
      → apply_delta delta (head_core stored) ≡ ok (n, d)
      → digest_from zero_digest (after delta (stored_entries stored)) ≡ ok d
  unfolding apply_delta core_of
  apply_delta_inv (initial ms) none w h = (fold_messages_inv 0 zero_digest ms h).1
  apply_delta_inv (initial ms) (some p) w h = absurd (ground arith)
  apply_delta_inv (replace ms) none w h = absurd (ground arith)
  apply_delta_inv (replace ms) (some p) w h = (fold_messages_inv 0 zero_digest ms h).1
  apply_delta_inv (append []) none w h = absurd (ground arith)
  apply_delta_inv (append []) (some p) w h = absurd (ground arith)
  apply_delta_inv (append (m ∷ ms)) none w h = absurd (ground arith)
  apply_delta_inv (append (m ∷ ms)) (some p) w h =
      digest_from-append zero_digest (entries p.history) (m ∷ ms) (digest-eq-fold p.history w)
      ∙ (fold_messages_inv p.history.len p.history.digest (m ∷ ms) h).1
  apply_delta_inv unchanged none w h = absurd (ground arith)
  apply_delta_inv unchanged (some p) w h = digest-eq-fold p.history w ∙ ground arith

  -- A commit that passes against the stored checkpoint has the entries of the stored history
  -- changed by its delta, when both histories are well formed and their digests do not
  -- collide.
  pub validate_against-after :
      (c : Commit V) (stored : Option (Checkpoint V))
      → StoredIsWellFormed stored
      → IsWellFormed c.checkpoint.history
      → NoCollision (entries c.checkpoint.history) (after c.history (stored_entries stored))
      → validate_against c (head_core stored) ≡ ok tt
      → entries c.checkpoint.history ≡ after c.history (stored_entries stored)
  validate_against-after c stored w v free h =
      let (_, _, _, _, applied, _) = validate_against_checks c (head_core stored) h in
      free
        (digest-eq-fold c.checkpoint.history v ∙ sym (apply_delta_inv c.history stored w applied))

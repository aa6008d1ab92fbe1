-- ===== src/Storage/Memory/Fresh.antt =====
-- A commit of an identity that the in-memory store has not seen.
use zhir.Prelude.{ℕ, ◌≡◌, ◌⊎◌, refl, String, none, lookup, inl, inr}
use zhir.Error.{Error, Result, ok, err}
use zhir.Value.{Json}
use zhir.History.Entry.{Hashing}
use zhir.Storage.Core.{CoreEncoding, core_of, core_digest}
use zhir.Storage.Commit.{Commit}
use zhir.Storage.Memory.{
  Store, Key-discrete, key_of, check_new, commit, store_commit, after_new, commit_with,
}

module _ {V : Type 0} ⦃j : Json V⦄ ⦃hashing : Hashing V⦄ ⦃coding : CoreEncoding V⦄ where
  -- Refused with the store as it was, or written.
  abbrev pub Decided : Store V → Commit V → Result (Unit {0}) × Store V → Type 0
  Decided s c t =
      ((error : Error) × (t ≡ (err error, s)))
      ⊎ ((digest : String) × (t ≡ (ok tt, store_commit s c digest)))

  after_new-Decided :
      (s : Store V) (c : Commit V) (digest : String) (r : Result (Unit {0}))
      → Decided s c (after_new s c digest r)
  after_new-Decided s c digest (ok _) = inr (digest, refl)
  after_new-Decided s c digest (err error) = inl (error, refl)

  commit_with-Decided :
      (s : Store V) (c : Commit V) (now : ℕ) (r : Result String)
      → lookup Key-discrete (key_of c) s.ids ≡ none
      → Decided s c (commit_with s c now r)
  commit_with-Decided s c now (err error) new = inl (error, refl)
  commit_with-Decided s c now (ok digest) new =
      rw new (after_new-Decided s c digest (check_new s c now))

  -- A commit of a new identity either fails and leaves the store as it is, or is written.
  pub commit-Decided :
      (s : Store V) (c : Commit V) (now : ℕ)
      → lookup Key-discrete (key_of c) s.ids ≡ none
      → Decided s c (commit s c now)
  unfolding commit
  commit-Decided s c now new = commit_with-Decided s c now (core_digest (core_of c.checkpoint)) new

-- ===== src/Engine/Announced.antt =====
-- What the observers of an engine have seen of its commits.
use zhir.Prelude.{ℕ, ◌≡◌, refl, inl, inr, String, Bool-cases, List, [], ◌∷◌, Map}
use zhir.Error.{Result, ok, err}
use zhir.Operation.{OperationRecord}
use zhir.Value.{Json}
use zhir.History.Entry.{Hashing}
use zhir.Run.{Checkpoint, Fact}
use zhir.Engine.State.{
  Engine, EventData, operation_changed, checkpoint_committed, operation_progress, model_delta,
  observation_gap,
}
use zhir.Engine.Action.{RunStore, Environment, next_u64, adjust, emit, new_id, read_clock}
use zhir.Engine.Commit.{answered, is_changed}
use zhir.Engine.Commit.Outcome.{answer, commit-eq, conclude, observed, saved}
use zhir.Engine.Keeps.{IsInvariant}
use zhir.Engine.Steps.{Steps, steps-keep}

module _ {V : Type 0} where
  -- The commits among the events, the latest first, are those of one revision after another, down from
  -- `revision` to the one after `first`.
  unfoldable pub Counts : ℕ → ℕ → List (EventData V) → Type 0
  Counts first revision [] = revision ≡ first
  Counts first revision (checkpoint_committed id committed state fact ∷ events) =
      (committed ≡ revision)
      × ((previous : ℕ) × (revision ≡ next_u64 previous) × Counts first previous events)
  Counts first revision (operation_changed _ _ ∷ events) = Counts first revision events
  Counts first revision (operation_progress _ _ ∷ events) = Counts first revision events
  Counts first revision (model_delta _ _ ∷ events) = Counts first revision events
  Counts first revision (observation_gap _ ∷ events) = Counts first revision events

  Counts-observed :
      (first revision : ℕ) (before operations : Map String (OperationRecord V))
      (events : List (EventData V))
      → Counts first revision events
      → Counts first revision (observed before operations events)
  unfolding Counts
  Counts-observed first revision before [] events h = h
  Counts-observed first revision before ((id, operation) ∷ rest) events h =
      elim (Bool-cases (is_changed before (id, operation))) [
        | inl b ↦ rw b (Counts-observed first revision before rest _ h)
        | inr b ↦ rw b (Counts-observed first revision before rest _ h)
      ]

module _ {V S : Type 0} ⦃store : RunStore V S⦄ ⦃environment : Environment V⦄ where
  IsAnnounced : ℕ → Engine V S → Type 0
  IsAnnounced first e = Counts first e.current.revision e.events

  conclude-IsAnnounced :
      (first : ℕ) (r : Result (Unit {0})) (e : Engine V S) (s : S) (next : Checkpoint V)
      (fact : Fact)
      → IsAnnounced first e
      → IsAnnounced first (conclude r e s (saved e next fact)).1
  unfolding IsAnnounced Counts
  conclude-IsAnnounced first (err error) e s next fact h = h
  conclude-IsAnnounced first (ok _) e s next fact h =
      Counts-observed first (next_u64 e.current.revision) e.current.active.operations
        next.active.operations _ (refl, (e.current.revision, refl, h))

  announced : (first : ℕ) → IsInvariant (IsAnnounced first)
  unfolding IsAnnounced Counts adjust emit new_id read_clock
  announced first = record {
    adjusts = λ f. record { after = λ e h. h };
    progresses = λ id value. record { after = λ e h. h };
    streams = λ id delta. record { after = λ e h. h };
    draws = record { after = λ e h. h };
    reads = record { after = λ e h. h };
    commits = λ next fact history. record {
      after = λ e h.
          let (r, s) = answer e next fact history in
          rw (commit-eq next fact history e)
            (conclude-IsAnnounced first (answered r) e s next fact h);
    };
  }

module _ {V S : Type 0} ⦃j : Json V⦄ ⦃hashing : Hashing V⦄ ⦃store : RunStore V S⦄
    ⦃environment : Environment V⦄ where
  -- Over any store, whatever the engine is given to handle and whatever it returns: if no
  -- event was emitted before, the commits among its events have revisions that count up by
  -- one, in 64 bits, from the revision that it had, and the last one has the revision of its
  -- checkpoint.
  pub Steps-Counts :
      {e f : Engine V S}
      → Steps e f
      → e.events ≡ []
      → Counts e.current.revision f.current.revision f.events
  unfolding IsAnnounced Counts
  Steps-Counts {e} steps none_yet =
      steps-keep (announced e.current.revision) steps (rw none_yet refl)

-- ===== src/Storage/Tests.antt =====
-- A run that is committed, completed and read back, and the stores that theorems are applied to.
use zhir.Prelude.{
  String-discrete, ℕ, ◌≡◌, refl, none, some, [], ◌∷◌, ◌++◌, lookup, insert, ℕ_discrete,
}
use zhir.Error.{Error, ok, err}
use zhir.Profile.{RequestProfile-discrete}
use zhir.Operation.{CallRef-discrete, OperationOwner-discrete, OperationState-discrete}
use zhir.Fixtures.{
  NumberJson, SizeHashing, RevisionEncoding, answer, asked, settled, asked-IsWellFormed,
  settled-IsWellFormed,
}
use zhir.Fixtures.Runs.{paused, pause_ticket, waiting, finished, first_commit, last_commit}
use zhir.History.Entry.{append_digest, be_bytes64, validate_entry}
use zhir.History.Chain.{append_one, entries}
use zhir.History.Since.{Digest-discrete}
use zhir.Run.{is_terminal}
use zhir.Run.Ticket.{from_checkpoint, Ticket-discrete}
use zhir.Storage.Resume.{ResumeTarget, resume_run}
use zhir.Storage.Resume.Exact.{resume-issued, resume-same}
use zhir.Storage.Core.{core_of}
use zhir.Storage.Commit.{validate_against, OptionNumber-discrete, OptionText-discrete}
use zhir.Storage.Commit.Advance.{Advances, validate_against-Advances}
use zhir.Storage.Commit.Delta.{validate_against-after}
use zhir.Storage.Memory.{
  Store, Memory, Key-discrete, empty_store, commit, load_head, delete, new_memory, commit_memory,
  delete_memory,
}
use zhir.Storage.Memory.Safety.{Follows, commit-Follows, commit-repeat, commit-terminal}
use zhir.Storage.Memory.Reach.{
  Step, Reach, IsHead, reach-IsHead, Committed, LaterHead, committed-LaterHead,
}
use zhir.Storage.Memory.Ephemeral.{
  Simulates, Agrees, insert-agree, delete_memory-Simulates, commit_memory-Simulates,
}

first-passes : validate_against first_commit none ≡ ok tt
unfolding validate_against OptionNumber-discrete OptionText-discrete append_digest asked append_one
    Digest-discrete ℕ_discrete be_bytes64 CallRef-discrete
first-passes = refl

last-passes : validate_against last_commit (some (core_of waiting)) ≡ ok tt
unfolding validate_against OptionNumber-discrete ℕ_discrete RequestProfile-discrete
    OptionText-discrete CallRef-discrete OperationOwner-discrete append_digest asked append_one
    settled Digest-discrete be_bytes64 OperationState-discrete
last-passes = refl

settled-entries : entries settled ≡ entries asked ++ answer ∷ []
unfolding entries asked settled append_one validate_entry append_digest
settled-entries = refl

-- The store after the first commit, and after the last.
unfoldable one_store : Store ℕ
unfolding commit
one_store = (commit empty_store first_commit 10).1

unfoldable done_store : Store ℕ
unfolding commit
done_store = (commit one_store last_commit 20).1

one_store-head : load_head one_store "run" ≡ some waiting
unfolding load_head one_store OptionNumber-discrete OptionText-discrete append_digest asked
    append_one Digest-discrete ℕ_discrete be_bytes64 CallRef-discrete
one_store-head = refl

last-written : commit one_store last_commit 20 ≡ (ok tt, done_store)
unfolding commit done_store one_store OptionNumber-discrete OptionText-discrete append_digest asked
    append_one Digest-discrete ℕ_discrete be_bytes64 CallRef-discrete Key-discrete
    RequestProfile-discrete OperationOwner-discrete settled OperationState-discrete
last-written = refl

done_store-head : load_head done_store "run" ≡ some finished
unfolding load_head done_store one_store OptionNumber-discrete OptionText-discrete append_digest
    asked append_one Digest-discrete ℕ_discrete be_bytes64 CallRef-discrete Key-discrete
    RequestProfile-discrete OperationOwner-discrete settled OperationState-discrete
done_store-head = refl

-- A commit after its deadline is refused.
late_test : (commit one_store last_commit 50).0 ≡ err Error.deadline
unfolding commit one_store OptionNumber-discrete OptionText-discrete append_digest asked append_one
    Digest-discrete ℕ_discrete be_bytes64 CallRef-discrete Key-discrete
late_test = refl

-- The store of one run, opened at the first checkpoint.
abbrev one_memory : Memory ℕ
one_memory = record { head = some waiting; ids = ("k0", "digest") ∷ [] }

opened_test : new_memory (some waiting) ≡ some one_memory
unfolding new_memory
opened_test = refl

one_memory-Simulates : Simulates "run" one_memory one_store
unfolding load_head lookup insert one_store OptionNumber-discrete OptionText-discrete append_digest
    asked append_one Digest-discrete ℕ_discrete be_bytes64 CallRef-discrete Key-discrete
one_memory-Simulates = record {
  head = refl;
  own = refl;
  ids = λ id. insert-agree "run" "k0" id "digest" [] [] refl;
  empty = tt;
}

-- The witnesses.
validate_against-Advances_example : Advances (core_of waiting) (core_of finished)
validate_against-Advances_example =
    validate_against-Advances last_commit (core_of waiting) last-passes

validate_against-after_example : entries settled ≡ entries asked ++ answer ∷ []
validate_against-after_example =
    validate_against-after last_commit (some waiting) asked-IsWellFormed settled-IsWellFormed
      (λ _. settled-entries) last-passes

commit-Follows_example :
    Follows (load_head one_store "run") (load_head (commit one_store last_commit 20).1 "run")
commit-Follows_example = commit-Follows one_store last_commit 20 "run"

commit-repeat_example : commit done_store last_commit 90 ≡ (ok tt, done_store)
commit-repeat_example = commit-repeat one_store done_store last_commit 20 90 last-written

commit-terminal_example : load_head (commit done_store first_commit 30).1 "run" ≡ some finished
unfolding is_terminal
commit-terminal_example =
    commit-terminal done_store first_commit 30 "run" finished done_store-head refl

-- A run that was deleted and is started again.
unfoldable restarted_store : Store ℕ
unfolding commit one_store delete
restarted_store = (commit (delete one_store "run") first_commit 30).1

calls : Reach {V = ℕ} empty_store restarted_store
unfolding one_store commit restarted_store delete
calls =
    Reach.then
      (Reach.then (Reach.then Reach.here (Step.committed first_commit 10)) (Step.deleted "run"))
      (Step.committed first_commit 30)

-- The head is there again, and the witness is about it.
reach-IsHead_example : IsHead "run" (some waiting)
unfolding load_head lookup delete restarted_store one_store OptionNumber-discrete
    OptionText-discrete append_digest asked append_one Digest-discrete ℕ_discrete be_bytes64
    CallRef-discrete Key-discrete
reach-IsHead_example = reach-IsHead calls "run"

committed-LaterHead_example :
    LaterHead waiting (load_head (commit one_store last_commit 20).1 "run")
committed-LaterHead_example =
    committed-LaterHead "run" waiting one_store-head
      (Committed.after Committed.same_store last_commit 20)

commit_memory-Simulates_example :
    Agrees "run" (commit_memory one_memory last_commit 20) (commit one_store last_commit 20)
commit_memory-Simulates_example =
    commit_memory-Simulates one_memory one_store last_commit 20 one_memory-Simulates

delete_memory-Simulates_example :
    Simulates "run" (delete_memory one_memory "run") (delete one_store "run")
delete_memory-Simulates_example =
    delete_memory-Simulates "run" one_memory one_store one_memory-Simulates

abbrev pause_store : Store ℕ
pause_store = record { heads = ("run", paused) ∷ []; ids = [] }

pause_store-head : load_head pause_store "run" ≡ some paused
unfolding load_head String-discrete
pause_store-head = refl

paused-issued : from_checkpoint paused ≡ ok pause_ticket
unfolding from_checkpoint asked append_one validate_entry append_digest CallRef-discrete
paused-issued = refl

-- A commit that starts the run again is refused.
refused-kept : (commit pause_store first_commit 10).1 ≡ pause_store
unfolding commit OptionNumber-discrete
refused-kept = refl

paused-resumed :
    resume_run
      (some (λ run_id. ok (load_head pause_store run_id)))
      (ResumeTarget.ticket pause_ticket)
      none
    ≡ ok paused
unfolding resume_run load_head asked append_one validate_entry append_digest CallRef-discrete
    Ticket-discrete ℕ_discrete
paused-resumed = refl

later-resumed :
    resume_run
      (some (λ run_id. ok (load_head (commit pause_store first_commit 10).1 run_id)))
      (ResumeTarget.ticket pause_ticket)
      none
    ≡ ok paused
later-resumed = rw refused-kept paused-resumed

resume-issued_example :
    (ok (load_head pause_store "run") ≡ ok (some paused))
    × (from_checkpoint paused ≡ ok pause_ticket)
resume-issued_example =
    resume-issued (λ run_id. ok (load_head pause_store run_id)) pause_ticket none paused
      paused-resumed

resume-same_example : paused ≡ paused
resume-same_example =
    resume-same paused paused pause_ticket none pause_store-head paused-issued
      (Committed.after Committed.same_store first_commit 10) later-resumed

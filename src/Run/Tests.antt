-- ===== src/Run/Tests.antt =====
-- Checkpoints that pass validation.
use zhir.Prelude.{◌↔◌, ℕ, ◌≡◌, refl, some, true, [], ◌∷◌, map, String-discrete, lookup}
use zhir.Error.{ok, Every}
use zhir.Message.{RuntimeToolCall}
use zhir.Operation.{
  CallRef, runtime_tool, delegation, CallRef-discrete, OperationState-discrete, terminal, succeeded,
}
use zhir.Fixtures.{NumberJson, SizeHashing, call_ref, settled, asked}
use zhir.Fixtures.Runs.{paused, pause_ticket, waiting, finished, clock}
use zhir.History.Entry.{validate_entry, append_digest}
use zhir.History.Chain.{append_one}
use zhir.Run.Validation.{validate}
use zhir.Run.Ticket.{from_checkpoint, check, new_completion, outcome, RunOutcome}
use zhir.Run.Ticket.Issued.{check_iff, Settles, outcome-Settles}
use zhir.Run.Completed.{IsAwaited, validate-IsAwaited, IsSettled, completed-IsSettled}
use zhir.Run.References.{IsFiledUnder, validate-IsFiledUnder, HasToolResult, tool-result}

finished-valid : validate finished ≡ ok tt
unfolding validate settled append_one validate_entry append_digest CallRef-discrete
    OperationState-discrete
finished-valid = refl

waiting-valid : validate waiting ≡ ok tt
unfolding validate asked append_one validate_entry append_digest CallRef-discrete
    OperationState-discrete
waiting-valid = refl

clock-listed :
    lookup String-discrete "op" finished.active.operations ≡ some (clock succeeded (some 2))
unfolding lookup String-discrete
clock-listed = refl

terminal_clock : terminal succeeded ≡ true
unfolding terminal
terminal_clock = refl

-- The witnesses.
-- The run has a call that waits.
pending_test : map (λ p. p.0) waiting.history.order.calls ≡ call_ref ∷ []
unfolding asked append_one validate_entry append_digest CallRef-discrete
pending_test = refl

validate-IsAwaited_example :
    Every
      (λ (p : CallRef × RuntimeToolCall ℕ).
        IsAwaited waiting.active.operations p.0 (runtime_tool p.1.name))
      asked.order.calls
    × Every
        (λ origin. IsAwaited waiting.active.operations origin delegation)
        asked.order.delegations
validate-IsAwaited_example = validate-IsAwaited waiting waiting-valid

completed-IsSettled_example : IsSettled finished
completed-IsSettled_example = completed-IsSettled finished finished-valid refl

validate-IsFiledUnder_example : IsFiledUnder finished.history "op" (clock succeeded (some 2))
validate-IsFiledUnder_example =
    validate-IsFiledUnder finished "op" (clock succeeded (some 2)) finished-valid clock-listed

tool-result_example : HasToolResult settled (clock succeeded (some 2)) "clock"
tool-result_example =
    tool-result finished "op" "clock" (clock succeeded (some 2)) finished-valid clock-listed refl
      terminal_clock

paused-issued : from_checkpoint paused ≡ ok pause_ticket
unfolding from_checkpoint asked append_one validate_entry append_digest CallRef-discrete
paused-issued = refl

check_iff_example : (check pause_ticket paused ≡ ok tt) ↔ (from_checkpoint paused ≡ ok pause_ticket)
check_iff_example = check_iff pause_ticket paused

paused-settled : new_completion paused ≡ ok (record { checkpoint = paused })
unfolding new_completion asked append_one validate_entry append_digest CallRef-discrete
paused-settled = refl

outcome-Settles_example :
    (o : RunOutcome ℕ) × (outcome (record { checkpoint = paused }) ≡ some o) × Settles paused o
outcome-Settles_example = outcome-Settles paused (record { checkpoint = paused }) paused-settled

-- ===== src/Policies/Tests.antt =====
-- Runs of the policies.
use zhir.Prelude.{
  ℕ, ◌-◌, ◌*◌, ◌^◌, ◌≤◌, ◌≡◌, refl, min, arith, true, List, [], ◌∷◌, ◌++◌, String-discrete, none,
  some,
}
use zhir.Error.{ok}
use zhir.Message.{RuntimeToolCall, freeform}
use zhir.Policies.Retry.{
  Duration, Backoff, as_nanos, exponential, exponential_delay, delay_after, fixed, zero_duration,
}
use zhir.Policies.Retry.Exact.{IsDuration, exponential-exact, exponential_mono}
use zhir.Policies.Scheduling.{RuntimeToolSpec, InputSpec, Admits, select, select-Admits}
use zhir.Operation.{text, CallRef-discrete, OperationState-discrete}
use zhir.Message.{user}
use zhir.Model.{ResponseStatus}
use zhir.History.Entry.{HistoryEntry, append_digest, validate_entry}
use zhir.History.Chain.{History, from_entries, append_one, entries}
use zhir.Run.{Checkpoint, is_active}
use zhir.Run.Validation.{validate}
use zhir.Engine.Action.{Rewrite}
use zhir.Policies.Window.{
  HistoryWindow, reduce, starts_from, retained_from, rewrite_from, window_start,
}
use zhir.Policies.Window.Suffix.{KeepsTurns, reduce-KeepsTurns}
use zhir.Fixtures.{NumberJson, SizeHashing, history_or, question}
use zhir.Fixtures.Runs.{waiting}

abbrev half_second : Duration
half_second = record { secs = 0; nanos = 500000000 }

abbrev minute : Duration
minute = record { secs = 60; nanos = 0 }

minute-IsDuration : IsDuration minute
minute-IsDuration = (omega arith, omega arith)

abbrev backoff : Backoff
backoff = exponential_delay half_second minute

built : exponential half_second minute ≡ ok backoff
unfolding exponential
built = refl

third_test : backoff 3 ≡ record { secs = 2; nanos = 0 }
unfolding exponential_delay
third_test = refl

-- The shift of attempt 200 does not fit into a u128.
late_test : backoff 200 ≡ minute
unfolding exponential_delay
late_test = refl

budget_test : delay_after (record { max_attempts = 2; backoff = fixed zero_duration }) 2 ≡ none
unfolding delay_after
budget_test = refl

-- The witnesses.
exponential-exact_example :
    as_nanos (backoff 200) ≡ min (as_nanos half_second * 2 ^ (200 - 1)) (as_nanos minute)
exponential-exact_example = exponential-exact half_second minute backoff 200 minute-IsDuration built

exponential_mono_example :
    (as_nanos (backoff 3) ≤ as_nanos (backoff 9)) × (as_nanos (backoff 9) ≤ as_nanos minute)
exponential_mono_example =
    exponential_mono half_second minute backoff 3 9 minute-IsDuration built (omega arith)

abbrev call : RuntimeToolCall ℕ
call = record { id = "c1"; name = "clock"; input = freeform "now" }

abbrev clock_spec : RuntimeToolSpec ℕ
clock_spec = record {
  name = "clock";
  description = "the time";
  input = InputSpec.freeform none;
  output_schema = none;
  execution = record { parallel = true; read_only = true; idempotent = true };
}

select_test :
    select (call ∷ call ∷ []) (("clock", clock_spec) ∷ [])
    ≡ record { calls = call ∷ call ∷ []; parallel = true }
unfolding select String-discrete
select_test = refl

select-Admits_example :
    (rest : List (RuntimeToolCall ℕ)) × (call ∷ call ∷ []
      ≡ (select (call ∷ call ∷ []) (("clock", clock_spec) ∷ [])).calls ++ rest)
    × Admits
        (("clock", clock_spec) ∷ [])
        (select (call ∷ call ∷ []) (("clock", clock_spec) ∷ [])).calls
        (select (call ∷ call ∷ []) (("clock", clock_spec) ∷ [])).parallel
        rest
select-Admits_example = select-Admits (call ∷ call ∷ []) (("clock", clock_spec) ∷ [])

abbrev farewell : HistoryEntry ℕ
farewell = record { id = "m4"; origin = none; message = user (text "bye" ∷ []) }

unfoldable two_turns : History ℕ
unfolding from_entries
two_turns = history_or (from_entries (question ∷ farewell ∷ []))

abbrev between : Checkpoint ℕ
between = record waiting {
  history = two_turns;
  active = record {
    session = record waiting.active.session { response_status = some ResponseStatus.completed };
    operations = [];
    commands = [];
    media = [];
  };
}

abbrev last_turn : HistoryWindow ℕ
last_turn = record { turns = 1; dependencies = none }

abbrev last_rewrite : Rewrite ℕ
last_rewrite = record { entries = farewell ∷ []; reason = "retain last 1 complete user turns" }

last_reduced : reduce (λ n. "1") last_turn between ≡ ok (some last_rewrite)
unfolding is_active reduce starts_from retained_from rewrite_from window_start validate two_turns
    append_one validate_entry append_digest CallRef-discrete OperationState-discrete entries
last_reduced = refl

reduce-KeepsTurns_example : KeepsTurns 1 (entries two_turns) (farewell ∷ [])
reduce-KeepsTurns_example = reduce-KeepsTurns (λ n. "1") last_turn between last_rewrite last_reduced

-- ===== src/Fixtures/Runs.antt =====
-- A run that waits for its tool, the same run completed and suspended, and its commits.
use zhir.Prelude.{ℕ, true, false, Option, none, some, [], ◌∷◌}
use zhir.Operation.{CallRef, Content, text, success, OperationRecord}
use zhir.Operation
use zhir.Profile.{RequestProfile}
use zhir.Model
use zhir.Run.Options.{RunOptions, Limits, RuntimeToolSelection, RunMode}
use zhir.Run.{
  Suspension, Checkpoint, ControlAction, RunContext, State, Metrics, Fact, SessionSnapshot,
  SessionEstablishment, SessionClosure,
}
use zhir.Run.Ticket.{SuspensionTicket, ticket_of}
use zhir.Storage.Commit.{Commit, HistoryDelta}
use zhir.Fixtures.{NumberJson, SizeHashing, call_ref, answer, conversation, asked, settled}

abbrev limits : Limits
limits = record {
  max_generation_requests = 8;
  max_runtime_tool_calls = 8;
  max_inflight_operations = 4;
  max_control_commands = 4;
  max_session_events = 16;
  max_media_streams = 1;
  max_media_chunk_bytes = 1024;
  max_buffered_media_bytes = 4096;
  max_buffered_media_packets = 4;
  max_operation_concurrency = 2;
  max_observer_events = 16;
  max_total_tokens = none;
  elapsed_ms = none;
  commit_timeout_ms = 1000;
}

abbrev profile : RequestProfile ℕ
profile = record {
  generation = record {
    temperature = none;
    max_output_tokens = none;
    seed = none;
    parallel_runtime_tools = none;
  };
  serving = none;
  reasoning = none;
  language = none;
  interaction = none;
  alternatives = [];
  extensions = [];
}

abbrev options : RunOptions ℕ
options = record {
  runtime_tools = RuntimeToolSelection.all;
  limits = limits;
  profile = profile;
  mode = RunMode.task;
  provider_tools = [];
  tool_choice = Model.auto;
  response_format = none;
  stream = false;
}

abbrev session : Option (SessionClosure ℕ) → SessionSnapshot ℕ
session closure = record {
  binding = none;
  capabilities = none;
  id = "s";
  generation_id = some "g";
  establishment = SessionEstablishment.established;
  ready = true;
  generation_started = true;
  context_revision = 1;
  acknowledged_context_revision = 1;
  reduced_context_revision = none;
  input_position = 1;
  generated_input_position = 1;
  needs_generation = false;
  response_start = 1;
  run_start = 0;
  last_sequence = none;
  response_status = none;
  recovery = none;
  output_epoch = 0;
  media_archive = none;
  input_closed = false;
  input_audio_enabled = false;
  closing = false;
  closure = closure;
  profile_revision = 0;
  profile = profile;
  negotiated = record { selected = []; unmet_preferences = [] };
  effective = record { values = [] };
}

abbrev pub clock : Operation.OperationState → Option ℕ → OperationRecord ℕ
clock state result = record {
  id = "op";
  origin = call_ref;
  owner = Operation.runtime_tool "clock";
  state = state;
  call_entry = 1;
  result_entry = result;
  recovery = none;
  last_sequence = none;
  last_update = none;
  wait = none;
}

abbrev run : RunContext ℕ
run = record {
  run_id = "run";
  started_at_ms = 5;
  deadline_at_ms = none;
  parent_run_id = none;
  parent_runtime_tool_call_id = none;
  metadata = [];
}

abbrev metrics : Metrics
metrics = record {
  generation_requests = 1;
  observed_responses = none;
  runtime_tool_calls = 1;
  usage = record {
    input_tokens = none;
    output_tokens = none;
    total_tokens = none;
    reasoning_tokens = none;
    cache_read_tokens = none;
    cache_write_tokens = none;
  };
}

-- A run that waits for its tool, and the same run when it has completed.
abbrev pub waiting : Checkpoint ℕ
waiting = record {
  options = options;
  id = "k0";
  parent_id = none;
  revision = 0;
  context = run;
  history = asked;
  state = State.running;
  active = record {
    session = session none;
    operations = ("op", clock Operation.running none) ∷ [];
    commands = [];
    media = [];
  };
  metrics = metrics;
  fact = Fact.started;
}

abbrev pub finished : Checkpoint ℕ
finished = record {
  options = options;
  id = "k1";
  parent_id = some "k0";
  revision = 1;
  context = run;
  history = settled;
  state = State.completed (text "noon" ∷ []);
  active = record {
    session = session (some (record { reason = "done"; provider_data = 0 }));
    operations = ("op", clock Operation.succeeded (some 2)) ∷ [];
    commands = [];
    media = [];
  };
  metrics = metrics;
  fact = Fact.control ControlAction.finished;
}

abbrev pub pause : Suspension ℕ
pause = record { reason = "lunch"; source = "host"; wait_id = none; metadata = [] }

-- The waiting run, suspended.
abbrev pub paused : Checkpoint ℕ
paused = record waiting {
  id = "p1";
  parent_id = some "k0";
  revision = 1;
  state = State.suspended pause;
  fact = Fact.control ControlAction.suspended;
}

abbrev pub pause_ticket : SuspensionTicket ℕ
pause_ticket = ticket_of paused pause

abbrev pub first_commit : Commit ℕ
first_commit = record {
  checkpoint = waiting;
  history = HistoryDelta.initial conversation;
  deadline = none;
}

abbrev pub last_commit : Commit ℕ
last_commit = record {
  checkpoint = finished;
  history = HistoryDelta.append (answer ∷ []);
  deadline = some 50;
}

-- ===== src/Fixtures/Engines.antt =====
-- An engine that waits for a tool, over the in-memory store, with the values of other packages.
use zhir.Prelude.{
  ℕ, zero, suc, String, String-discrete, same, if◌then◌else◌, true, false, none, some, [], ◌∷◌,
}
use zhir.Error.{Result, ok, err, invalid}
use zhir.Resource.{ResourceRef, url}
use zhir.Operation.{OperationEvent, waiting}
use zhir.Model.{CapabilitySet, response_events, explicit_generation}
use zhir.Storage.Memory.{Store, empty_store, store_commit}
use zhir.Engine.State.{Engine, Volatile, Work}
use zhir.Engine.State
use zhir.Run.{generate}
use zhir.Engine.Action.{Environment, ArchivedMedia}
use zhir.Engine.Changes.{with_commands, with_session}
use zhir.Fixtures.{NumberJson}
use zhir.Fixtures.Runs
use zhir.Fixtures.Runs.{first_commit}

abbrev pub capabilities : CapabilitySet ℕ
capabilities = record {
  input_modalities = [];
  output_modalities = [];
  features = response_events ∷ explicit_generation ∷ [];
  tool_choices = [];
  constraints = [];
  extensions = [];
}

-- An identity for each number: as many letters and one more.
abbrev pub letters : ℕ → String
letters zero = "u"
letters (suc n) = String.◌∷◌ "u" (letters n)

instance abbrev pub TestEnvironment : Environment ℕ
TestEnvironment = record {
  uuid = letters;
  instant = λ n. n;
  is_cancelled = λ n. false;
  reason_json = λ reason. 1;
  array_text = λ parts. "array";
  with_completion = λ v model response reason. v;
  error_text = λ error. "error";
  decimal = λ n. "number";
  model_capabilities = capabilities;
  negotiate = λ request. ok (record { selected = []; unmet_preferences = [] });
  write_archive = none;
  read_archive = λ reference. err (invalid "no archive");
  archive_bound = 0;
  tool_specs = [];
  bind = λ call. ok tt;
  has_delegation = false;
  reduce = none;
}

abbrev pub quiet : Volatile ℕ
quiet = record {
  session_control = some capabilities;
  operation_controls = [];
  tokens = [];
  admitting = [];
  sent = [];
  sending = false;
  input_sending = false;
  held_input = false;
  media_queued = false;
  media_closed = false;
  media_pending = false;
  ended_streams = none;
  valid_epoch = 0;
  pending_replies = [];
  pending_starts = [];
  session_sequence = none;
  work = [];
  stashed = none;
  tasks = [];
  replies = [];
}

unfoldable pub started_store : Store ℕ
unfolding store_commit
started_store = store_commit empty_store first_commit "digest"

abbrev pub engine : Engine ℕ (Store ℕ)
engine = record {
  store = started_store;
  current = Runs.waiting;
  deadline = none;
  drawn = 0;
  readings = 0;
  events = [];
  volatile = quiet;
}

abbrev pub prompt : OperationEvent ℕ
prompt = record { sequence = 1; update = waiting 3 none }

abbrev pub prompted : Work ℕ
prompted = State.operation "op" (ok (some prompt))

-- The engine with a request to generate that was not sent.
abbrev pub generating : Engine ℕ (Store ℕ)
generating = record engine {
  current =
      with_commands (record { id = "n1"; intent = generate "g" 1 1 0; sent = false } ∷ [])
        Runs.waiting;
}

-- An archive of two streams, read by the identities of its nodes.
abbrev pub file_ref : String → ResourceRef ℕ
file_ref id = record {
  id = id;
  media_type = "application/json";
  name = none;
  source = url "file";
  metadata = [];
}

abbrev pub read_stored : ResourceRef ℕ → Result (ArchivedMedia ℕ)
read_stored reference =
    if same String-discrete reference.id "a2"
    then ok (record {
      stream_key = "output:b:0";
      sealed = file_ref "m2";
      complete = true;
      previous = some (file_ref "a1");
    })
    else ok (record {
      stream_key = "output:a:0";
      sealed = file_ref "m1";
      complete = false;
      previous = none;
    })

abbrev pub write_stored : String → ArchivedMedia ℕ → Result (ResourceRef ℕ)
write_stored id node = ok (file_ref id)

abbrev pub ArchiveEnvironment : Environment ℕ
ArchiveEnvironment = record TestEnvironment {
  write_archive = some write_stored;
  read_archive = read_stored;
  archive_bound = 2;
}

abbrev pub archiving : Engine ℕ (Store ℕ)
archiving = record engine {
  current =
      with_session (record Runs.waiting.active.session { media_archive = some (file_ref "a2") })
        Runs.waiting;
}

-- ===== src/Examples/Turns.antt =====
-- A turn of apps/poc/supervisor.mjs with concrete messages.
use agentmeld.Prelude.{
  ◌≤◌, ◌⊎◌, true, false, none, some, List, [], ◌∷◌, ◌≡◌, refl, length, map, arith, contains, any,
  nat_eq, string_eq,
}
use agentmeld.Prelude.Dict.{get, put}
use agentmeld.Prelude.Outcome.{left}
use agentmeld.Data.{Task, Conversation, Status, Continuation, Kind, Milestone, busy}
use agentmeld.Events.{record_event, public_events, PublicEvent}
use agentmeld.Events.Bounds.{IsOnce, count, record_all, public_events-record_all}
use agentmeld.Supervisor.{
  Turn, Supervisor, Env, Event, Message, Binding, BoundSession, pending, rejected, run_started,
  run_failed, run_terminated, answer_delta, run_completed, session_bound, events_append,
  events_stored, protocol_name, Stored, send_frame, Frame,
}
use agentmeld.Supervisor.Apply.{apply_event}
use agentmeld.Supervisor.Append.{store_events, on_events_append, ran, gave}
use agentmeld.Supervisor.Dispatch.{handle_message}
use agentmeld.Supervisor.Replay.{on_events_append_retry, RetryOf}
use agentmeld.Supervisor.Settling.{IsSafe}
use agentmeld.Supervisor.Jobs.{
  Station, Entry, hears, resumes, closes, enter, enter_all, on_turn, begin_message, next_event,
  begin_event, resume, take_job,
}
use agentmeld.Supervisor.Jobs.Closing.{later, enter_all-IsOver}
use agentmeld.Supervisor.Run.{Action, message, close, cancel, run, act}
use agentmeld.Supervisor.Run.Outcomes.{IsFresh, Hung, Final, run-IsSafe, run-Hung}

abbrev pub binding : Binding
binding = record { image_digest = "i"; store_instance = "s"; model = "m"; policy_digest = "p" }

abbrev pub task : Task
task = record {
  id = "t1";
  conversation_id = "c1";
  request_key = "k";
  request_digest = "d";
  prompt = b'h' ∷ b'i' ∷ [];
  inputs = [];
  artifacts = [];
  answer = [];
  status = Status.running;
  activity = "Connecting";
  error = "";
  failure_stage = none;
  events = [];
  created_at = 1;
}

abbrev pub chat : Conversation
chat = record {
  id = "c1";
  title = b'h' ∷ [];
  created_at = 1;
  session = none;
  workspace = [];
  captured_at = none;
  continuation = Continuation.ready;
  pinned = false;
  archived = false;
}

abbrev pub turn : Turn
turn = record {
  run_id = "t1";
  generation = 1;
  task = task;
  conversation = chat;
  blobs = ("d1", 7 ∷ 8 ∷ 9 ∷ []) ∷ [];
  expected_binding = binding;
  applied_event_ids = [];
  event_seq_by_id = [];
  event_seq = 0;
  saw_terminal = false;
  turn_done = false;
  turn_started = true;
  promise = pending;
  sent = [];
}

abbrev pub env : Env
env = record {
  now = 5;
  saved = true;
  listing = some [];
  staged = λ r. some (1 ∷ 2 ∷ []);
  sha256 = λ b. "sum";
  sha256_rows = λ r. "rows";
}

abbrev broken_store : Env
broken_store = record env { saved = false }

abbrev batch : List Event
batch =
    record { event_id = "e1"; payload = run_started }
    ∷ record { event_id = "e2"; payload = answer_delta (b'o' ∷ b'k' ∷ []) }
    ∷ []

abbrev after_batch : Turn
after_batch = left (on_events_append env (some "m1") batch turn)

answered : after_batch.task.answer ≡ b'o' ∷ b'k' ∷ []
unfolding on_events_append apply_event contains get put record_event any
answered = refl

on_events_append_retry_example : RetryOf env (some "m1") (some "m2") batch turn after_batch
unfolding on_events_append apply_event contains get put
on_events_append_retry_example =
    on_events_append_retry env env (some "m1") (some "m2") batch turn after_batch refl refl

turn-IsFresh : IsFresh turn
turn-IsFresh = record { unsettled = refl; open_turn = refl; unfinished = refl }

abbrev ending : List Event
ending =
    record { event_id = "e3"; payload = run_failed "no" "execution" }
    ∷ record { event_id = "e4"; payload = run_terminated true }
    ∷ []

abbrev append_of : List Event → Message
append_of events = record {
  protocol = protocol_name;
  msg_id = some "m";
  run_id = "t1";
  generation = 1;
  body = events_append events;
}

abbrev script : List Action
script =
    message env (append_of batch)
    ∷ cancel "user_requested"
    ∷ message env (append_of ending)
    ∷ close env
    ∷ []

abbrev at_end : List Action → Turn
at_end actions =
    elim (run actions (record { current = some turn; pending_cancel = false })).current [
      | none ↦ turn
      | some t ↦ t
    ]

run-IsSafe_example : IsSafe (at_end script)
unfolding run act agentmeld.Supervisor.Dispatch.on_worker_close
    agentmeld.Supervisor.Dispatch.handle_worker_message
    agentmeld.Supervisor.Dispatch.cancel_active_turn on_events_append contains apply_event
run-IsSafe_example = run-IsSafe script false turn (at_end script) turn-IsFresh refl

abbrev station : Station
station = record { supervisor = record { current = some turn; pending_cancel = false }; jobs = [] }

-- The worker closes between a batch's arrival and the end of its first wait: the task fails, and the rest of
-- the batch is still applied to it.
abbrev interleaved : Station
interleaved = enter_all (hears env (append_of batch) ∷ closes env ∷ resumes env 0 ∷ []) station

late_answer : elim interleaved.supervisor.current as (λ _. Type 0) [
  | none ↦ Unit
  | some t ↦ (t.turn_done ≡ true) × (t.task.answer ≡ b'o' ∷ b'k' ∷ [])
]
unfolding enter_all enter on_turn begin_message next_event begin_event resume take_job apply_event
    contains get put record_event any agentmeld.Supervisor.Dispatch.on_worker_close
late_answer = (refl, refl)

-- The same up to the close: the turn is done, and the batch awaits.
abbrev closed : Station
closed = enter_all (hears env (append_of batch) ∷ closes env ∷ []) station

abbrev closed_turn : Turn
closed_turn = elim closed.supervisor.current [ none ↦ turn | some t ↦ t ]

abbrev rest_of_batch : List Entry
rest_of_batch = resumes env 0 ∷ hears env (append_of ending) ∷ resumes env 0 ∷ resumes env 0 ∷ []

abbrev at_rest : Turn
at_rest = elim (later rest_of_batch closed.jobs false closed_turn).supervisor.current [
  | none ↦ turn
  | some t ↦ t
]

enter_all-IsOver_example :
    (at_rest.turn_done ≡ true)
    × (at_rest.promise ≡ closed_turn.promise)
    × (busy at_rest.task.status ≡ false)
    × (length (later rest_of_batch closed.jobs false closed_turn).jobs ≤ length closed.jobs)
    × ((1 ≤ length closed.jobs) ⊎ Final closed_turn at_rest)
unfolding enter_all enter on_turn begin_message next_event begin_event resume take_job apply_event
    contains get put record_event any agentmeld.Supervisor.Dispatch.on_worker_close busy
enter_all-IsOver_example =
    enter_all-IsOver rest_of_batch closed.jobs false closed_turn at_rest refl (λ e. absurd (cc))
      refl refl

run-Hung_example : Hung (at_end (message broken_store (append_of ending) ∷ close env ∷ []))
unfolding run store_events contains apply_event act agentmeld.Supervisor.Dispatch.on_worker_close
    agentmeld.Supervisor.Dispatch.handle_worker_message
run-Hung_example =
    run-Hung broken_store (append_of ending) ending turn
      (ran (store_events broken_store ending [] turn))
      (gave (store_events broken_store ending [] turn)) (close env ∷ []) false _ turn-IsFresh refl
      refl refl refl refl refl refl refl

public_events-record_all_example :
    IsOnce (record_all ((1, Kind.queued) ∷ (2, Kind.started) ∷ (3, Kind.queued) ∷ []) task)
    × (length
          (record_all ((1, Kind.queued) ∷ (2, Kind.started) ∷ (3, Kind.queued) ∷ []) task).events
        ≤ 10)
    × (map
          (λ (e : PublicEvent). e.kind)
          (public_events
            (record_all ((1, Kind.queued) ∷ (2, Kind.started) ∷ (3, Kind.queued) ∷ []) task))
        ≡ map
            (λ (e : Milestone). e.kind)
            (record_all ((1, Kind.queued) ∷ (2, Kind.started) ∷ (3, Kind.queued) ∷ []) task).events)
unfolding count
public_events-record_all_example =
    public_events-record_all ((1, Kind.queued) ∷ (2, Kind.started) ∷ (3, Kind.queued) ∷ []) task
      (λ k. omega arith)

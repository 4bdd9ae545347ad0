-- ===== src/Worker.antt =====
-- apps/worker/worker.mjs: the worker process, from its environment to its exit. What its client
-- hears, its calls and the ends of what it awaits are events.
pub mod Kept
pub mod Once
use agentmeld.Prelude.{
  ℕ, suc, String, Bool, true, false, ◌||◌, List, [], ◌∷◌, ◌++◌, Option, none, some, if◌then◌else◌,
  ◌==◌, string_eq,
}
use agentmeld.Seam.{
  Seam, SeamEvent, Failure, is_some, connected, set_turn, append_event, on_timer, fail_all,
}
use agentmeld.Seam.Calls.{
  ServiceMessage, Heard, answers, service_error_hook, service_message_hook, nobody, on_ack_timeout,
  handle_message,
}

-- `executed` holds the run and the generation of each call of executeTurn, `cancels` and `service_errors` count the
-- calls of the hooks that a running turn has set, and `aborting` says that the abort hook runs.
pub record Worker : Type 0 where
  pub seam : Seam
  pub turn_active : Bool
  pub executed : List (String × ℕ)
  pub cancels : ℕ
  pub service_errors : ℕ
  pub aborting : Bool
  pub exit : Option ℕ

-- What a worker hears from the service outside its requests.
pub data Order : Type 0 where
  turn_start : String → ℕ → Order
  turn_cancel lease_command unlisted : Order

-- The messages and calls that meet the seam's client, and the ends of what the process awaits.
pub data WorkerEvent : Type 0 where
  hears : ServiceMessage → Order → WorkerEvent
  appends : String → Option Failure → SeamEvent → WorkerEvent
  timer_ends : String → Option Failure → WorkerEvent
  ack_ends : String → WorkerEvent
  socket_ends : Failure → WorkerEvent
  abort_ends : WorkerEvent
  turn_ends : WorkerEvent
  hello_ends : Bool → WorkerEvent

-- handleTurnStart, up to its await; a second start is ignored.
unfoldable pub handle_turn_start : String → ℕ → Worker → Worker
unfolding set_turn
handle_turn_start run generation w = if w.turn_active then w else record w {
  turn_active = true;
  seam = set_turn run generation w.seam;
  executed = w.executed ++ (run, generation) ∷ [];
}

-- The hooks are those that executeTurn sets; without one, nothing hears.
unfoldable pub on_service_message : Order → Worker → Worker
unfolding handle_turn_start
on_service_message (turn_start run generation) w = handle_turn_start run generation w
on_service_message turn_cancel w = if w.turn_active then record w { cancels = suc w.cancels } else w
on_service_message lease_command w = w
on_service_message unlisted w = w

unfoldable pub on_service_error : Worker → Worker
on_service_error w = if w.turn_active then record w { service_errors = suc w.service_errors } else w

-- The client after one of its calls; onFatal runs when it has failed.
unfoldable pub with_seam : Seam → Worker → Worker
with_seam s w = record w { seam = s; aborting = w.aborting || is_some s.fatal }

-- A message goes to whom the client's handleMessage gives it.
unfoldable pub hear : Order → Seam × Heard → Worker → Worker
unfolding with_seam on_service_message on_service_error
hear o (s, answers r) w = with_seam s w
hear o (s, service_error_hook) w = on_service_error (with_seam s w)
hear o (s, service_message_hook) w = on_service_message o (with_seam s w)
hear o (s, nobody) w = with_seam s w

unfoldable pub live_event : WorkerEvent → Worker → Worker
unfolding hear with_seam append_event on_timer on_ack_timeout fail_all handle_message
live_event (hears msg o) w = hear o (handle_message msg w.seam) w
live_event (appends id write e) w = with_seam (append_event id write e w.seam) w
live_event (timer_ends id write) w = with_seam (on_timer id write w.seam) w
live_event (ack_ends id) w = with_seam (on_ack_timeout id w.seam) w
live_event (socket_ends err) w = with_seam (fail_all err w.seam) w
live_event abort_ends w = if w.aborting then record w { exit = some 1 } else w
live_event turn_ends w = if w.turn_active then record w { exit = some 0 } else w
live_event (hello_ends ok) w = if ok then w else record w { exit = some 1 }

-- A process that has exited does nothing more.
unfoldable pub worker_event : WorkerEvent → Worker → Worker
unfolding live_event
worker_event e w = elim w.exit [ none ↦ live_event e w | some code ↦ w ]

unfoldable pub worker_events : List WorkerEvent → Worker → Worker
unfolding worker_event
worker_events [] w = w
worker_events (e ∷ es) w = worker_events es (worker_event e w)

abbrev blank_value : Option String → Bool
blank_value none = true
blank_value (some v) = v == ""

-- The start, with the socket's path and the token of the environment.
unfoldable pub new_worker : Option String → Option String → Worker
new_worker socket_path token = record {
  seam = connected;
  turn_active = false;
  executed = [];
  cancels = 0;
  service_errors = 0;
  aborting = false;
  exit = if blank_value socket_path || blank_value token then some 2 else none;
}

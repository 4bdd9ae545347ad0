-- ===== src/Worker/Once.antt =====
-- A process of apps/worker/worker.mjs and its one turn.
use agentmeld.Prelude.{
  ℕ, String, Bool, true, false, List, [], ◌∷◌, Option, none, some, ◌≡◌, ◌≢◌, refl, subst, arith,
  if◌then◌else◌, string_eq, nat_eq, Option-cases, Bool-cases, inl, inr,
}
use agentmeld.Seam.{Seam, is_some, set_turn, append_event, on_timer, fail_all}
use agentmeld.Seam.Calls.{
  Heard, answers, service_error_hook, service_message_hook, nobody, on_ack_timeout, handle_message,
}
use agentmeld.Worker.{
  Worker, Order, turn_start, turn_cancel, lease_command, unlisted, WorkerEvent, hears, appends,
  timer_ends, ack_ends, socket_ends, abort_ends, turn_ends, hello_ends, handle_turn_start,
  on_service_message, on_service_error, with_seam, hear, live_event, worker_event, worker_events,
  new_worker,
}
use agentmeld.Worker.Kept.{
  turn_of, turn_of-fail_all, turn_of-on_timer, turn_of-append_event, turn_of-on_ack_timeout,
  turn_of-handle_message,
}

-- What executeTurn was called with, from the client's turn.
abbrev pub started_by : Option String → ℕ → List (String × ℕ)
started_by none generation = []
started_by (some run) generation = (run, generation) ∷ []

-- A worker's turn is its client's, and is executed once; until there is one, no hook hears anything, and the
-- process does not exit with 0.
pub record IsWorker (w : Worker) : Type 0 where
  pub once : w.executed ≡ started_by w.seam.run_id w.seam.generation
  pub active : w.turn_active ≡ is_some w.seam.run_id
  pub unheard : w.turn_active ≡ false → (w.cancels ≡ 0) × (w.service_errors ≡ 0)
  pub unfinished : w.turn_active ≡ false → w.exit ≢ some 0

with_seam-IsWorker :
    (s : Seam) (w : Worker) → turn_of s ≡ turn_of w.seam → IsWorker w → IsWorker (with_seam s w)
unfolding with_seam
with_seam-IsWorker s w e i = record {
  once = ground (arith, e, i.once);
  active = ground (arith, e, i.active);
  unheard = λ h. i.unheard h;
  unfinished = λ h. i.unfinished h;
}

on_service_message-IsWorker :
    (o : Order) (w : Worker) → IsWorker w → IsWorker (on_service_message o w)
unfolding on_service_message handle_turn_start set_turn
on_service_message-IsWorker (turn_start run generation) w i = elim (Bool-cases w.turn_active) [
  | inl busy ↦
      subst IsWorker (let e : w ≡ handle_turn_start run generation w = ground (arith, busy) in e) i
  | inr idle ↦ record {
    once = ground (arith, idle, i.once, i.active);
    active = ground (arith, idle);
    unheard = ground (arith, idle);
    unfinished = ground (arith, idle);
  }
]
on_service_message-IsWorker turn_cancel w i = elim (Bool-cases w.turn_active) [
  | inl busy ↦ record {
    once = ground (arith, busy, i.once);
    active = ground (arith, busy, i.active);
    unheard = ground (arith, busy);
    unfinished = ground (arith, busy);
  }
  | inr idle ↦
      subst IsWorker (let e : w ≡ on_service_message turn_cancel w = ground (arith, idle) in e) i
]
on_service_message-IsWorker lease_command w i = i
on_service_message-IsWorker unlisted w i = i

on_service_error-IsWorker : (w : Worker) → IsWorker w → IsWorker (on_service_error w)
unfolding on_service_error
on_service_error-IsWorker w i = elim (Bool-cases w.turn_active) [
  | inl busy ↦ record {
    once = ground (arith, busy, i.once);
    active = ground (arith, busy, i.active);
    unheard = ground (arith, busy);
    unfinished = ground (arith, busy);
  }
  | inr idle ↦ subst IsWorker (let e : w ≡ on_service_error w = ground (arith, idle) in e) i
]

hear-IsWorker :
    (o : Order) (r : Seam × Heard) (w : Worker)
    → turn_of r.0 ≡ turn_of w.seam
    → IsWorker w
    → IsWorker (hear o r w)
unfolding hear
hear-IsWorker o (s, answers r) w e i = with_seam-IsWorker s w e i
hear-IsWorker o (s, service_error_hook) w e i =
    on_service_error-IsWorker (with_seam s w) (with_seam-IsWorker s w e i)
hear-IsWorker o (s, service_message_hook) w e i =
    on_service_message-IsWorker o (with_seam s w) (with_seam-IsWorker s w e i)
hear-IsWorker o (s, nobody) w e i = with_seam-IsWorker s w e i

-- An exit, with 0 only for a worker whose turn was started.
exits-IsWorker :
    (test : Bool) (code : ℕ) (w : Worker)
    → (test ≡ true → w.turn_active ≡ false → code ≢ 0)
    → IsWorker w
    → IsWorker (if test then record w { exit = some code } else w)
exits-IsWorker true code w h i = record {
  once = i.once;
  active = i.active;
  unheard = i.unheard;
  unfinished = λ idle e. h refl idle (ground (arith, e));
}
exits-IsWorker false code w h i = i

live_event-IsWorker : (e : WorkerEvent) (w : Worker) → IsWorker w → IsWorker (live_event e w)
unfolding live_event
live_event-IsWorker (hears msg o) w i =
    hear-IsWorker o (handle_message msg w.seam) w (turn_of-handle_message msg w.seam) i
live_event-IsWorker (appends id write e) w i =
    with_seam-IsWorker (append_event id write e w.seam) w (turn_of-append_event id write e w.seam) i
live_event-IsWorker (timer_ends id write) w i =
    with_seam-IsWorker (on_timer id write w.seam) w (turn_of-on_timer id write w.seam) i
live_event-IsWorker (ack_ends id) w i =
    with_seam-IsWorker (on_ack_timeout id w.seam) w (turn_of-on_ack_timeout id w.seam) i
live_event-IsWorker (socket_ends err) w i =
    with_seam-IsWorker (fail_all err w.seam) w (turn_of-fail_all err w.seam) i
live_event-IsWorker abort_ends w i = exits-IsWorker w.aborting 1 w (λ a idle e. cc) i
live_event-IsWorker turn_ends w i = exits-IsWorker w.turn_active 0 w (λ a idle e. cc) i
live_event-IsWorker (hello_ends true) w i = i
live_event-IsWorker (hello_ends false) w i = exits-IsWorker true 1 w (λ a idle e. cc) i

worker_event-IsWorker : (e : WorkerEvent) (w : Worker) → IsWorker w → IsWorker (worker_event e w)
unfolding worker_event
worker_event-IsWorker e w i = elim (Option-cases w.exit) [
  | inl h ↦
      subst IsWorker (let q : live_event e w ≡ worker_event e w = ground (arith, h) in q)
        (live_event-IsWorker e w i)
  | inr (code, h) ↦ subst IsWorker (let q : w ≡ worker_event e w = ground (arith, h) in q) i
]

worker_events-from :
    (es : List WorkerEvent) (w : Worker) → IsWorker w → IsWorker (worker_events es w)
unfolding worker_events
worker_events-from [] w i = i
worker_events-from (e ∷ es) w i =
    worker_events-from es (worker_event e w) (worker_event-IsWorker e w i)

-- A worker process that meets any events in any order executes at most one turn, that with the run and the
-- generation that its client holds from then on; until it does, no cancel and no service error reaches a turn,
-- and the process does not exit with 0.
pub worker_events-IsWorker :
    (socket_path token : Option String) (es : List WorkerEvent)
    → IsWorker (worker_events es (new_worker socket_path token))
unfolding new_worker
worker_events-IsWorker socket_path token es =
    worker_events-from es (new_worker socket_path token) (record {
      once = refl;
      active = refl;
      unheard = λ h. (refl, refl);
      unfinished = λ h. ground arith;
    })

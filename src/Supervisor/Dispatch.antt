-- ===== src/Supervisor/Dispatch.antt =====
-- handleWorkerMessage, failTurn, onTurnTransportError, onWorkerClose and cancelActiveTurn of
-- apps/poc/supervisor.mjs, and the delivery of an armed cancel in runTurn.
use agentmeld.Prelude.{
  String, true, false, not, Option, none, some, ◌==◌, string_eq, nat_eq, if◌then◌else◌,
}
use agentmeld.Prelude.Outcome.{Outcome, done, threw}
use agentmeld.Data.{Kind}
use agentmeld.Supervisor.{
  Turn, Supervisor, Env, Message, Body, events_append, inputs_fetch, artifacts_deliver,
  request_decision, unlisted, service_error, turn_cancel, send_frame, settle, rejected,
  protocol_name,
}
use agentmeld.Supervisor.Apply.{unfinished, fail_task, milestone}
use agentmeld.Supervisor.Append.{on_events_append}
use agentmeld.Supervisor.Inputs.{on_inputs_fetch}
use agentmeld.Supervisor.Artifacts.{on_artifacts_deliver}

-- A task that the worker has ended keeps its outcome; the turn is rejected either way.
unfoldable pub fail_turn : Env → String → Turn → Turn
unfolding settle
fail_turn env message t =
    if t.turn_done
    then t
    else (let ended = record t { turn_done = true } in
        settle (rejected message) (
          if t.saw_terminal then ended else milestone env Kind.failed (fail_task unfinished ended)))

-- .catch(err => this.failTurn(err))
abbrev pub caught : Env → Outcome Turn → Turn
caught env (done t) = t
caught env (threw message t) = fail_turn env message t

unfoldable pub handle_body : Env → Option String → Body → Turn → Turn
unfolding fail_turn
handle_body env reply (events_append events) t = caught env (on_events_append env reply events t)
handle_body env reply (inputs_fetch digest offset len) t = on_inputs_fetch reply digest offset len t
handle_body env reply (artifacts_deliver m) t = on_artifacts_deliver env reply m t
handle_body env reply request_decision t =
    send_frame reply (service_error "internal" "approval path not implemented in Phase 1") t
handle_body env reply (unlisted msg_type) t =
    send_frame reply (service_error "malformed" "unknown message") t

unfoldable pub handle_message : Env → Message → Turn → Turn
unfolding handle_body
handle_message env msg t =
    if t.turn_done
    then t
    else if not (msg.protocol == protocol_name)
    then fail_turn env "protocol mismatch" t
    else if not (msg.run_id == t.run_id)
    then send_frame msg.msg_id (service_error "wrong_run" "message is not for the active turn") t
    else if not (msg.generation == t.generation)
    then send_frame msg.msg_id
        (service_error "stale_generation" "message is not for the active turn") t
    else handle_body env msg.msg_id msg.body t

-- Each method reads `this.current` first, and does nothing where no turn is active.
abbrev pub on_current : (Turn → Turn) → Supervisor → Supervisor
on_current f s = elim s.current [ none ↦ s | some t ↦ record s { current = some (f t) } ]

unfoldable pub handle_worker_message : Env → Message → Supervisor → Supervisor
unfolding handle_message
handle_worker_message env msg = on_current (handle_message env msg)

unfoldable pub on_turn_transport_error : Env → String → Supervisor → Supervisor
unfolding fail_turn
on_turn_transport_error env message = on_current (fail_turn env message)

unfoldable pub on_worker_close : Env → Supervisor → Supervisor
unfolding fail_turn
on_worker_close env = on_current (fail_turn env "worker exited mid-turn")

-- A cancel that comes before turn.start is armed.
unfoldable pub cancel_active_turn : String → Supervisor → Supervisor
cancel_active_turn reason s = elim s.current [
  | none ↦ record s { pending_cancel = true }
  | some t ↦
      if t.turn_started
      then record s { current = some (send_frame none (turn_cancel reason) t) }
      else record s { pending_cancel = true }
]

-- runTurn after the handshake: the turn starts, and an armed cancel is sent right behind.
unfoldable pub start_turn : Supervisor → Supervisor
unfolding cancel_active_turn
start_turn s =
    let started = on_current (λ t. record t { turn_started = true }) s in
    if s.pending_cancel
    then cancel_active_turn "user_requested" (record started { pending_cancel = false })
    else started

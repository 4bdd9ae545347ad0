-- ===== src/Supervisor/Settling.antt =====
-- How a turn ends: the flags, the promise and the task of apps/poc/supervisor.mjs after any sequence of
-- worker messages, transport errors, closes and cancels.
use agentmeld.Prelude.{
  String, Bool, true, false, Option, List, [], ◌∷◌, ◌≡◌, ap, ◌⊎◌, inl, inr, arith, string_eq,
  Bool-cases, contains,
}
use agentmeld.Prelude.Outcome.{Outcome, done, threw, left, Outcome-cases}
use agentmeld.Data.{busy, Continuation}
use agentmeld.Events.{record_event}
use agentmeld.Supervisor.{
  Turn, Env, Event, Payload, Message, Body, Stored, pending, resolved, BoundSession, Event, Payload,
  session_bound, run_completed, run_terminated, events_append, inputs_fetch, artifacts_deliver,
}
use agentmeld.Supervisor.Apply.{bind_session, complete, terminate, apply_event}
use agentmeld.Supervisor.Append.{mark, ran, store_events, finish_append, on_events_append}
use agentmeld.Supervisor.Inputs.{on_inputs_fetch}
use agentmeld.Supervisor.Artifacts.{on_artifacts_deliver}
use agentmeld.Supervisor.Dispatch.{fail_turn, caught, handle_body, handle_message}

pub record IsSafe (t : Turn) : Type 0 where
  -- Only a turn that is done has its promise settled,
  pub settled : (t.promise ≡ pending) ⊎ (t.turn_done ≡ true)
  -- and only one that saw its task end is resolved.
  pub resolved_ended : t.promise ≡ resolved → t.saw_terminal ≡ true
  -- A task that ended is not at work,
  pub ended_idle : t.saw_terminal ≡ true → busy t.task.status ≡ false
  -- and where the turn is done with no end seen, the chat cannot be resumed.
  pub fails_closed :
      t.turn_done ≡ true
      → (t.saw_terminal ≡ true)
        ⊎ (busy t.task.status ≡ false) × (t.conversation.continuation ≡ Continuation.unavailable)

bind_session-IsSafe : (p : BoundSession) (t : Turn) → IsSafe t → IsSafe (left (bind_session p t))
unfolding bind_session
bind_session-IsSafe p t s = ground arith

complete-IsSafe : (env : Env) (t : Turn) → IsSafe t → IsSafe (left (complete env t))
unfolding complete busy record_event
complete-IsSafe env t s = ground arith

terminate-IsSafe : (env : Env) (ok : Bool) (t : Turn) → IsSafe t → IsSafe (terminate env ok t)
unfolding terminate busy record_event
terminate-IsSafe env ok t s = ground arith

apply_event-IsSafe :
    (env : Env) (p : Payload) (t : Turn) → IsSafe t → IsSafe (left (apply_event env p t))
unfolding apply_event busy record_event
apply_event-IsSafe env (session_bound p) t s = bind_session-IsSafe p t s
apply_event-IsSafe env run_completed t s = complete-IsSafe env t s
apply_event-IsSafe env (run_terminated ok) t s = terminate-IsSafe env ok t s
apply_event-IsSafe env _ t s = ground arith

pub fail_turn-IsSafe : (env : Env) (m : String) (t : Turn) → IsSafe t → IsSafe (fail_turn env m t)
unfolding fail_turn busy record_event
fail_turn-IsSafe env m t s = ground arith

mark-IsSafe : (e : Event) (t : Turn) → IsSafe t → IsSafe (mark e t)
mark-IsSafe e t s = record {
  settled = s.settled;
  resolved_ended = s.resolved_ended;
  ended_idle = s.ended_idle;
  fails_closed = s.fails_closed;
}

store_events-IsSafe :
    (env : Env) (es : List Event) (rows : List Stored) (t : Turn)
    → IsSafe t
    → IsSafe (left (store_events env es rows t)).0
unfolding store_events
store_events-IsSafe env [] rows t s = s
store_events-IsSafe env (e ∷ es) rows t s =
    elim (Bool-cases (contains e.event_id t.applied_event_ids)) [
      | inl seen ↦ rw (seen, store_events) (store_events-IsSafe env es _ t s)
      | inr fresh ↦ elim (Outcome-cases (apply_event env e.payload t)) [
        | inl (v, a) ↦
            rw (fresh, store_events)
              (rw (a, store_events)
                (store_events-IsSafe env es _ (mark e v)
                  (mark-IsSafe e v (rw (ap left a) at (apply_event-IsSafe env e.payload t s)))))
        | inr (m, v, a) ↦
            rw (fresh, store_events)
              (rw (a, store_events) (rw (ap left a) at (apply_event-IsSafe env e.payload t s)))
      ]
    ]

finish_append-IsSafe :
    (env : Env) (reply : Option String) (r : Turn × List Stored)
    → IsSafe r.0
    → IsSafe (left (finish_append env reply r))
unfolding finish_append
finish_append-IsSafe env reply (t, rows) s = ground arith

caught-IsSafe : (env : Env) (o : Outcome Turn) → IsSafe (left o) → IsSafe (caught env o)
caught-IsSafe env (done t) s = s
caught-IsSafe env (threw m t) s = fail_turn-IsSafe env m t s

on_events_append-IsSafe :
    (env : Env) (reply : Option String) (es : List Event) (t : Turn)
    → IsSafe t
    → IsSafe (left (on_events_append env reply es t))
unfolding on_events_append
on_events_append-IsSafe env reply es t s = elim (Outcome-cases (store_events env es [] t)) [
  | inl (r, e) ↦
      rw (e, on_events_append)
        (finish_append-IsSafe env reply r (rw (ap ran e) at (store_events-IsSafe env es [] t s)))
  | inr (m, r, e) ↦ rw (e, on_events_append) (rw (ap ran e) at (store_events-IsSafe env es [] t s))
]

handle_body-IsSafe :
    (env : Env) (reply : Option String) (b : Body) (t : Turn)
    → IsSafe t
    → IsSafe (handle_body env reply b t)
unfolding handle_body on_inputs_fetch on_artifacts_deliver
handle_body-IsSafe env reply (events_append es) t s =
    caught-IsSafe env (on_events_append env reply es t) (on_events_append-IsSafe env reply es t s)
handle_body-IsSafe env reply (inputs_fetch d o l) t s = ground arith
handle_body-IsSafe env reply (artifacts_deliver m) t s = ground arith
handle_body-IsSafe env reply _ t s = ground arith

pub handle_message-IsSafe :
    (env : Env) (msg : Message) (t : Turn) → IsSafe t → IsSafe (handle_message env msg t)
unfolding handle_message
handle_message-IsSafe env msg t s = ground (
  arith,
  handle_body-IsSafe env msg.msg_id msg.body t,
  fail_turn-IsSafe env "protocol mismatch" t,
)

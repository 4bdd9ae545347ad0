-- ===== src/Supervisor/Jobs/Over.antt =====
-- A handler of apps/poc/supervisor.mjs that goes on after its turn is done: what it does to the turn.
use agentmeld.Prelude.{
  ◌≤◌, String, Bool, true, false, Option, List, [], ◌∷◌, ◌≡◌, ◌≢◌, arith, string_eq, nat_eq,
  if_elim, length, contains,
}
use agentmeld.Prelude.Outcome.{left}
use agentmeld.Data.{busy}
use agentmeld.Events.{record_event}
use agentmeld.Supervisor.{
  Turn, Env, Event, Payload, Message, Promise, pending, BoundSession, session_bound, run_completed,
  run_terminated, Stored, settle,
}
use agentmeld.Supervisor.Apply.{bind_session, complete, terminate, apply_event, promote_workspace}
use agentmeld.Supervisor.Append.{mark, finish_append}
use agentmeld.Supervisor.Artifacts.{check_manifest}
use agentmeld.Supervisor.Dispatch.{fail_turn, handle_message}
use agentmeld.Supervisor.Jobs.{
  Job, applied, promoting, saving, reading, delivering, failing, job_of, begin_event, next_event,
  resume, begin_message,
}

module _ (p : Promise) (given : p ≢ pending) where
  -- A turn that is done, with that outcome and a task that is no longer busy.
  pub record IsOver (t : Turn) : Type 0 where
    pub over : t.turn_done ≡ true
    pub outcome : t.promise ≡ p
    pub idle : busy t.task.status ≡ false

  settle-IsOver : (q : Promise) (t : Turn) → IsOver t → IsOver (settle q t)
  unfolding settle
  settle-IsOver q t i = ground (arith, given)

  bind_session-IsOver : (b : BoundSession) (t : Turn) → IsOver t → IsOver (left (bind_session b t))
  unfolding bind_session
  bind_session-IsOver b t i = ground arith

  complete-IsOver : (env : Env) (t : Turn) → IsOver t → IsOver (left (complete env t))
  unfolding complete busy record_event
  complete-IsOver env t i = ground arith

  terminate-IsOver : (env : Env) (ok : Bool) (t : Turn) → IsOver t → IsOver (terminate env ok t)
  unfolding terminate busy record_event
  terminate-IsOver env ok t i = ground arith

  apply_event-IsOver :
      (env : Env) (e : Payload) (t : Turn) → IsOver t → IsOver (left (apply_event env e t))
  unfolding apply_event busy record_event
  apply_event-IsOver env (session_bound b) t i = bind_session-IsOver b t i
  apply_event-IsOver env run_completed t i = complete-IsOver env t i
  apply_event-IsOver env (run_terminated ok) t i = terminate-IsOver env ok t i
  apply_event-IsOver env _ t i = ground arith

  promote_workspace-IsOver :
      (env : Env) (t : Turn) → IsOver t → IsOver (left (promote_workspace env t))
  unfolding promote_workspace
  promote_workspace-IsOver env t i = ground arith

  finish_append-IsOver :
      (env : Env) (reply : Option String) (r : Turn × List Stored)
      → IsOver r.0
      → IsOver (left (finish_append env reply r))
  unfolding finish_append settle
  finish_append-IsOver env reply (t, rows) i = ground (arith, given)

  pub fail_turn-IsOver : (env : Env) (m : String) (t : Turn) → IsOver t → IsOver (fail_turn env m t)
  unfolding fail_turn
  fail_turn-IsOver env m t i = ground arith

  begin_event-IsOver :
      (env : Env) (reply : Option String) (e : Event) (es : List Event) (rows : List Stored)
      (t : Turn) (b : Payload)
      → IsOver t
      → IsOver (begin_event env reply e es rows t b).0
  unfolding begin_event busy record_event
  begin_event-IsOver env reply e es rows t run_completed i = record {
    over = i.over;
    outcome = i.outcome;
    idle = ground arith;
  }
  begin_event-IsOver env reply e es rows t b i = ground (arith, apply_event-IsOver env b t i)

  next_event-IsOver :
      (env : Env) (reply : Option String) (es : List Event) (rows : List Stored) (t : Turn)
      → IsOver t
      → IsOver (next_event env reply es rows t).0
  unfolding next_event
  next_event-IsOver env reply [] rows t i = i
  next_event-IsOver env reply (e ∷ es) rows t i =
      if_elim (λ (r : Turn × Job). IsOver r.0) (contains e.event_id t.applied_event_ids) _ _
        (λ s. next_event-IsOver env reply es _ t i)
        (λ s. begin_event-IsOver env reply e es rows t e.payload i)

  mark-IsOver : (e : Event) (t : Turn) → IsOver t → IsOver (mark e t)
  mark-IsOver e t i = record { over = i.over; outcome = i.outcome; idle = i.idle }

  pub resume-IsOver :
      (env : Env) (j : Job) (t : Turn)
      → IsOver t
      → (IsOver (resume env j t).0) × (length (job_of (resume env j t).1) ≤ 1)
  unfolding resume check_manifest
  resume-IsOver env (applied reply e es rows) t i =
      (next_event-IsOver env reply es _ (mark e t) (mark-IsOver e t i), omega arith)
  resume-IsOver env (promoting reply e es rows) t i =
      ground (arith, promote_workspace-IsOver env t i)
  resume-IsOver env (saving reply rows) t i =
      ground (arith, finish_append-IsOver env reply (t, rows) i)
  resume-IsOver env (reading reply m) t i = ground arith
  resume-IsOver env (delivering reply m) t i = ground arith
  resume-IsOver env (failing m) t i = (fail_turn-IsOver env m t i, omega arith)

  pub begin_message-IsOver :
      (env : Env) (msg : Message) (t : Turn)
      → IsOver t
      → (IsOver (begin_message env msg t).0) × (length (job_of (begin_message env msg t).1) ≤ 0)
  unfolding begin_message handle_message
  begin_message-IsOver env msg t i = ground (arith, i.over)

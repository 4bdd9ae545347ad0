-- ===== src/Runtime/Told.antt =====
-- The answer that the supervisor of apps/poc/supervisor.mjs makes of the log of an execution.
use agentmeld.Prelude.{
  ℕ, Bool, List, [], ◌∷◌, ◌++◌, ◌≡◌, refl, sym, ap, ◌∙◌, subst, arith, append_assoc, append-nil,
}
use agentmeld.Prelude.Lines.{joined}
use agentmeld.Prelude.Outcome.{Outcome, done, threw, left, ◌then_do◌, WhenDone}
use agentmeld.Data.{Status, busy}
use agentmeld.Events.{record_event}
use agentmeld.Supervisor.{
  Turn, Env, run_started, run_restored, run_thinking, run_saving,
  artifacts_delivered as delivered_event, session_bound, run_completed, run_failed, run_cancelled,
  run_terminated,
}
use agentmeld.Supervisor.Apply.{apply_event, bind_session, complete, promote_workspace, terminate}
use agentmeld.Runtime.{
  Payload, answer_delta, started, restored, bound, thinking, saving, activity_changed,
  artifacts_delivered, completed, failed, cancelled, terminated, Emitted,
}
use agentmeld.Runtime.Streamed.{texts, delta_of}

-- What the service reads of an event.
unfoldable pub heard_as : Payload → agentmeld.Supervisor.Payload
heard_as (started digest) = run_started
heard_as (restored file_count bytes) = run_restored
heard_as (bound session) = session_bound session
heard_as thinking = run_thinking
heard_as saving = run_saving
heard_as (activity_changed activity) = agentmeld.Supervisor.activity_changed activity
heard_as (answer_delta text batch_seq) = agentmeld.Supervisor.answer_delta text
heard_as (artifacts_delivered digest file_count bytes) = delivered_event
heard_as (completed digest manifest) = run_completed
heard_as (failed stage error_user) = run_failed error_user stage
heard_as (cancelled stage) = run_cancelled stage
heard_as (terminated cleanup_ok evidence) = run_terminated cleanup_ok

-- The service applies one event after the other, until one throws.
unfoldable pub apply_log : Env → List Emitted → Turn → Outcome Turn
unfolding apply_event heard_as
apply_log env [] t = done t
apply_log env (e ∷ log) t = apply_event env (heard_as e.payload) t then_do apply_log env log

delta_text : Payload → List ℕ
unfolding delta_of
delta_text p = elim (delta_of p) [ [] ↦ [] | (text, n) ∷ ds ↦ text ]

bind_session-answer :
    (p : agentmeld.Supervisor.BoundSession) (t : Turn)
    → (left (bind_session p t)).task.answer ≡ t.task.answer
unfolding bind_session
bind_session-answer p t = ground arith

complete-answer : (env : Env) (t : Turn) → (left (complete env t)).task.answer ≡ t.task.answer
unfolding complete promote_workspace record_event
complete-answer env t = ground arith

terminate-answer :
    (env : Env) (ok : Bool) (t : Turn) → (terminate env ok t).task.answer ≡ t.task.answer
unfolding terminate record_event
terminate-answer env ok t = ground arith

record_event-answer :
    (now : ℕ) (kind : agentmeld.Data.Kind) (task : agentmeld.Data.Task)
    → (record_event now kind task).answer ≡ task.answer
unfolding record_event
record_event-answer now kind task = ground arith

-- An event adds its text to the service's copy of the answer, and no other event changes it.
apply_event-answer :
    (env : Env) (p : Payload) (t : Turn)
    → (left (apply_event env (heard_as p) t)).task.answer ≡ t.task.answer ++ delta_text p
unfolding apply_event heard_as delta_text delta_of record_event
apply_event-answer env (started digest) t = ground (arith, append-nil t.task.answer)
apply_event-answer env (restored file_count bytes) t = ground (arith, append-nil t.task.answer)
apply_event-answer env (bound session) t =
    bind_session-answer session t ∙ sym (append-nil t.task.answer)
apply_event-answer env thinking t = ground (arith, append-nil t.task.answer)
apply_event-answer env saving t = ground (arith, append-nil t.task.answer)
apply_event-answer env (activity_changed activity) t = sym (append-nil t.task.answer)
apply_event-answer env (answer_delta text n) t = refl
apply_event-answer env (artifacts_delivered digest n bytes) t = sym (append-nil t.task.answer)
apply_event-answer env (completed digest manifest) t =
    complete-answer env t ∙ sym (append-nil t.task.answer)
apply_event-answer env (failed stage error_user) t = ground (arith, append-nil t.task.answer)
apply_event-answer env (cancelled stage) t = ground (arith, append-nil t.task.answer)
apply_event-answer env (terminated ok evidence) t =
    terminate-answer env ok t ∙ sym (append-nil t.task.answer)

joined-texts :
    (e : Emitted) (log : List Emitted)
    → joined (texts (e ∷ log)) ≡ delta_text e.payload ++ joined (texts log)
unfolding joined texts delta_text
joined-texts e log =
    elim (delta_of e.payload)
      as (λ ds.
        joined (elim ds [ [] ↦ texts log | (text, n) ∷ rest ↦ text ∷ texts log ])
        ≡ elim ds [ [] ↦ [] | (text, n) ∷ rest ↦ text ] ++ joined (texts log)) [
          | [] ↦ refl
          | (text, n) ∷ rest ↦ refl
        ]

-- A sequence that goes on from what an outcome left.
pub WhenDone-left :
    (P : Turn → Type 0) (o : Outcome Turn) (f : Turn → Outcome Turn)
    → ((s : Turn) → left o ≡ s → WhenDone P (f s))
    → WhenDone P (o then_do f)
WhenDone-left P (done s) f h = h s refl
WhenDone-left P (threw e s) f h = tt

-- The task's answer at the service, after a log that it accepts to the end, is the answer from before with the
-- texts of the log's deltas in order.
pub apply_log-answer :
    (env : Env) (log : List Emitted) (t : Turn)
    → WhenDone
        (λ (u : Turn). u.task.answer ≡ t.task.answer ++ joined (texts log))
        (apply_log env log t)
unfolding apply_log texts joined
apply_log-answer env [] t = sym (append-nil t.task.answer)
apply_log-answer env (e ∷ log) t =
    WhenDone-left (λ (u : Turn). u.task.answer ≡ t.task.answer ++ joined (texts (e ∷ log)))
      (apply_event env (heard_as e.payload) t) (apply_log env log)
      (λ s w.
        subst (λ a. WhenDone (λ (u : Turn). u.task.answer ≡ a) (apply_log env log s))
          (ap (λ a. a ++ joined (texts log))
              (ap (λ (u : Turn). u.task.answer) (sym w) ∙ apply_event-answer env e.payload t)
            ∙ append_assoc t.task.answer (delta_text e.payload) (joined (texts log))
            ∙ ap (λ j. t.task.answer ++ j) (sym (joined-texts e log)))
          (apply_log-answer env log s))

-- ===== src/Runtime/Heard.antt =====
-- The event log of apps/worker/runtime.mjs as applyEvent of apps/poc/supervisor.mjs takes it.
use agentmeld.Prelude.{
  Bool, true, false, ◌||◌, List, [], ◌∷◌, ◌++◌, ◌≡◌, sym, ap, ◌∙◌, arith, append_assoc, not, any,
  any-append, Bool-cases, inl, inr,
}
use agentmeld.Prelude.Lines.{joined}
use agentmeld.Prelude.Outcome.{Outcome, done, threw, left, WhenDone}
use agentmeld.Data.{busy}
use agentmeld.Events.{record_event}
use agentmeld.Supervisor.{Turn, Env}
use agentmeld.Supervisor.Apply.{apply_event, bind_session, complete, promote_workspace, terminate}
use agentmeld.Runtime.{
  Payload, answer_delta, started, restored, bound, thinking, saving, activity_changed,
  artifacts_delivered, completed, failed, cancelled, terminated, Emitted, Start, World,
}
use agentmeld.Runtime.Streamed.{texts, execute_turn-IsStreamed}
use agentmeld.Runtime.Whole.{is_end, is_terminated}
use agentmeld.Runtime.Ended.{IsEnded, has, execute_turn_whole}
use agentmeld.Runtime.Finish.{execute_turn, new_worker}
use agentmeld.Runtime.Told.{heard_as, apply_log, WhenDone-left, apply_log-answer}

apply_event-turn_done :
    (env : Env) (p : Payload) (t : Turn)
    → (left (apply_event env (heard_as p) t)).turn_done ≡ (is_terminated p || t.turn_done)
unfolding apply_event heard_as is_terminated bind_session complete promote_workspace terminate
apply_event-turn_done env p t = ground arith

-- An event that ends the turn leaves a task that is not busy, and no event makes such a task busy again.
apply_event-busy :
    (env : Env) (p : Payload) (t : Turn)
    → (is_end p || not (busy t.task.status)) ≡ true
    → busy (left (apply_event env (heard_as p) t)).task.status ≡ false
unfolding apply_event heard_as is_end bind_session complete promote_workspace terminate busy
    record_event
apply_event-busy env (started digest) t h = ground (arith, h)
apply_event-busy env (restored file_count bytes) t h = ground (arith, h)
apply_event-busy env (bound session) t h = ground (arith, h)
apply_event-busy env thinking t h = ground (arith, h)
apply_event-busy env saving t h = ground (arith, h)
apply_event-busy env (activity_changed activity) t h = ground (arith, h)
apply_event-busy env (answer_delta text n) t h = ground (arith, h)
apply_event-busy env (artifacts_delivered digest n bytes) t h = ground (arith, h)
apply_event-busy env (completed digest manifest) t h = ground (arith, h)
apply_event-busy env (failed stage error_user) t h = ground (arith, h)
apply_event-busy env (cancelled stage) t h = ground (arith, h)
apply_event-busy env (terminated ok evidence) t h = ground (arith, h)

apply_log-turn_done :
    (env : Env) (log : List Emitted) (t : Turn)
    → (has is_terminated log || t.turn_done) ≡ true
    → WhenDone (λ (u : Turn). u.turn_done ≡ true) (apply_log env log t)
unfolding apply_log has any
apply_log-turn_done env [] t h = h
apply_log-turn_done env (e ∷ log) t h =
    WhenDone-left (λ (u : Turn). u.turn_done ≡ true) (apply_event env (heard_as e.payload) t)
      (apply_log env log)
      (λ s w.
        let d = ap (λ (u : Turn). u.turn_done) (sym w) ∙ apply_event-turn_done env e.payload t in
        apply_log-turn_done env log s (ground (arith, h, d)))

apply_log-busy :
    (env : Env) (log : List Emitted) (t : Turn)
    → (has is_end log || not (busy t.task.status)) ≡ true
    → WhenDone (λ (u : Turn). busy u.task.status ≡ false) (apply_log env log t)
unfolding apply_log has any
apply_log-busy env [] t h = ground (arith, h)
apply_log-busy env (e ∷ log) t h =
    WhenDone-left (λ (u : Turn). busy u.task.status ≡ false)
      (apply_event env (heard_as e.payload) t) (apply_log env log)
      (λ s w.
        apply_log-busy env log s (elim (Bool-cases (is_end e.payload || not (busy t.task.status))) [
          | inl y ↦
              let b =
                ap (λ (u : Turn). busy u.task.status) (sym w)
                ∙ apply_event-busy env e.payload t y in
              ground (arith, b)
          | inr n ↦ ground (arith, h, n)
        ]))

has_split :
    (test : Payload → Bool) (log before after : List Emitted)
    → log ≡ before ++ after
    → (has test before || has test after) ≡ true
    → has test log ≡ true
unfolding has any
has_split test log before after e h =
    ap (has test) e ∙ any-append (λ (m : Emitted). test m.payload) before after ∙ h

terminated_after :
    {log : List Emitted} (i : IsEnded log)
    → (has is_terminated i.before || has is_terminated (i.last ∷ i.after)) ≡ true
unfolding has any
terminated_after i = ground (arith, i.closes)

WhenDone-map :
    (P Q : Turn → Type 0) (o : Outcome Turn)
    → ((u : Turn) → P u → Q u)
    → WhenDone P o
    → WhenDone Q o
WhenDone-map P Q (done u) f p = f u p
WhenDone-map P Q (threw e u) f p = tt

WhenDone-three :
    (P Q R : Turn → Type 0) (o : Outcome Turn)
    → WhenDone P o
    → WhenDone Q o
    → WhenDone R o
    → WhenDone (λ u. P u × Q u × R u) o
WhenDone-three P Q R (done u) p q r = (p, q, r)
WhenDone-three P Q R (threw e u) p q r = tt

-- The service and an execution together. If the execution has not stopped at an await, whatever fails or comes
-- in on the worker's side: if the service accepts each event of the log, it ends with its turn done, with a
-- task that is no longer busy, and with a copy of the answer that, after the answer from before, is the one
-- that the worker kept less what its buffer still holds.
pub apply_log-execute_turn :
    (env : Env) (start : Start) (w : World) (t : Turn)
    → (execute_turn start w new_worker).halted ≡ false
    → WhenDone
        (λ (u : Turn).
          (u.turn_done ≡ true)
          × (busy u.task.status ≡ false)
          × (u.task.answer ++ (execute_turn start w new_worker).delta_buf
              ≡ t.task.answer ++ (execute_turn start w new_worker).answer))
        (apply_log env (execute_turn start w new_worker).log t)
apply_log-execute_turn env start w t runs =
    let x = execute_turn start w new_worker in
    let i = execute_turn_whole start w runs in
    let streamed = (execute_turn-IsStreamed start w).0 in
    WhenDone-three (λ (u : Turn). u.turn_done ≡ true) (λ (u : Turn). busy u.task.status ≡ false)
      (λ (u : Turn). u.task.answer ++ x.delta_buf ≡ t.task.answer ++ x.answer)
      (apply_log env x.log t)
      (apply_log-turn_done env x.log t (
        ground (
          arith,
          has_split is_terminated x.log i.before (i.last ∷ i.after) i.split (terminated_after i),
        )))
      (apply_log-busy env x.log t (
        ground (
          arith,
          has_split is_end x.log i.before (i.last ∷ i.after) i.split (ground (arith, i.ended)),
        )))
      (WhenDone-map (λ (u : Turn). u.task.answer ≡ t.task.answer ++ joined (texts x.log))
        (λ (u : Turn). u.task.answer ++ x.delta_buf ≡ t.task.answer ++ x.answer)
        (apply_log env x.log t)
        (λ u e.
          ap (λ a. a ++ x.delta_buf) e
          ∙ append_assoc t.task.answer (joined (texts x.log)) x.delta_buf
          ∙ ap (λ a. t.task.answer ++ a) streamed.whole)
        (apply_log-answer env x.log t))

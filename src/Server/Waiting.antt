-- ===== src/Server/Waiting.antt =====
-- Nothing waits at an idle server of apps/poc/server.mjs.
use agentmeld.Prelude.{
  ℕ, ◌-◌, String, Bool, true, false, List, [], ◌∷◌, none, ◌≡◌, refl, arith, find, string_eq, nat_eq,
  ◌==◌, if◌then◌else◌, Option-cases, Bool-cases, inl, inr, if_elim,
}
use agentmeld.Data.{State, Task, Conversation, Status}
use agentmeld.Server.{
  Server, send, is_queued, has_active, pump, saved, settle_turn, end_turn, task_saved, named,
  post_stop, stop_saved, Entered, task_posted, task_stored, conversation_posted, stop_posted,
  stop_stored, turn_settled, turn_stored, shut_down, enter_server, serve,
}
use agentmeld.Events.{record_event}
use agentmeld.Server.Posted.{
  waits, pump-waits, queued-edit_first, post_task-waits, post_conversation-waits,
}

unhealthy : (s : Server) → s.healthy ≡ false → waits s ≡ false
unfolding waits
unhealthy s e = ground (arith, e)

task_saved-waits :
    (now : ℕ) (ok : Bool) (s : Server) → waits s ≡ false → waits (task_saved now ok s) ≡ false
unfolding task_saved
task_saved-waits now ok s h =
    if_elim (λ (t : Server). waits t ≡ false) (s.pending == 0) _ _ (λ e. h)
      (λ e.
        if_elim (λ (t : Server). waits t ≡ false) ok _ _
          (λ k. pump-waits now (send 202 (record s { pending = s.pending - 1 })))
          (λ k.
            unhealthy (send 500 (saved false (record s { pending = s.pending - 1 })))
              (ground arith)))

stop_saved-waits : (ok : Bool) (s : Server) → waits s ≡ false → waits (stop_saved ok s) ≡ false
unfolding stop_saved waits has_active
stop_saved-waits ok s h = ground (arith, h)

cancelled_not_queued :
    (u : Task) (now : ℕ)
    → is_queued (record (record_event now agentmeld.Data.Kind.cancelled u) {
      status = Status.cancelled;
      activity = "Stopped before execution";
    })
      ≡ false
unfolding is_queued
cancelled_not_queued u now = refl

cancelling_not_queued :
    (u : Task) (now : ℕ)
    → is_queued (record (record_event now agentmeld.Data.Kind.cancelling u) {
      status = Status.cancelling;
      activity = "Stopping";
    })
      ≡ false
unfolding is_queued
cancelling_not_queued u now = refl

post_stop-waits :
    (now : ℕ) (id : String) (ok : Bool) (s : Server)
    → waits s ≡ false
    → waits (post_stop now id ok s) ≡ false
unfolding waits post_stop has_active
post_stop-waits now id ok s h = elim (Option-cases (find (named id) s.state.tasks)) [
  | inl e ↦ ground (arith, h, e)
  | inr (t, e) ↦ elim (Bool-cases (is_queued t)) [
    | inl q ↦ ground (
      arith,
      h,
      e,
      q,
      queued-edit_first (named id)
          (λ (u : Task). record (record_event now agentmeld.Data.Kind.cancelled u) {
            status = Status.cancelled;
            activity = "Stopped before execution";
          })
          s.state.tasks stopped,
    )
    | inr q ↦ ground (
      arith,
      h,
      e,
      q,
      queued-edit_first (named id)
          (λ (u : Task). record (record_event now agentmeld.Data.Kind.cancelling u) {
            status = Status.cancelling;
            activity = "Stopping";
          })
          s.state.tasks stopping,
    )
  ]
]
  where
    stopped :
        (u : Task)
        → is_queued (record (record_event now agentmeld.Data.Kind.cancelled u) {
          status = Status.cancelled;
          activity = "Stopped before execution";
        })
          ≡ false
    stopped u = cancelled_not_queued u now

    stopping :
        (u : Task)
        → is_queued (record (record_event now agentmeld.Data.Kind.cancelling u) {
          status = Status.cancelling;
          activity = "Stopping";
        })
          ≡ false
    stopping u = cancelling_not_queued u now

-- The end of a runner before its save keeps the server active.
settle_turn-active :
    (now : ℕ) (work : Task → Task) (rejected : Bool) (s : Server)
    → (settle_turn now work rejected s).active ≡ s.active
unfolding settle_turn
settle_turn-active now work rejected s = ground arith

active-waits : (s : Server) → has_active s ≡ true → waits s ≡ false
unfolding waits
active-waits s e = ground (arith, e)

turn_settled-waits :
    (now : ℕ) (work : Task → Task) (rejected : Bool) (s : Server)
    → waits s ≡ false
    → waits (if has_active s then settle_turn now work rejected s else s) ≡ false
unfolding has_active
turn_settled-waits now work rejected s h =
    if_elim (λ (t : Server). waits t ≡ false) (has_active s) _ _
      (λ e.
        active-waits (settle_turn now work rejected s)
          (ground (arith, e, settle_turn-active now work rejected s)))
      (λ e. h)

closed_waits : (s : Server) → waits (record s { closing = true }) ≡ false
unfolding waits
closed_waits s = ground arith

enter_server-waits : (e : Entered) (s : Server) → waits s ≡ false → waits (enter_server e s) ≡ false
unfolding enter_server end_turn
enter_server-waits (task_posted out request) s h = post_task-waits out request s h
enter_server-waits (task_stored now ok) s h = task_saved-waits now ok s h
enter_server-waits (conversation_posted d ok) s h = post_conversation-waits d ok s h
enter_server-waits (stop_posted now id ok) s h = post_stop-waits now id ok s h
enter_server-waits (stop_stored ok) s h = stop_saved-waits ok s h
enter_server-waits (turn_settled now work rejected) s h = turn_settled-waits now work rejected s h
enter_server-waits (turn_stored now ok) s h =
    if_elim (λ (t : Server). waits t ≡ false) (has_active s) _ _
      (λ e. pump-waits now (record (saved ok s) { active = none })) (λ e. h)
enter_server-waits shut_down s h = closed_waits s

serve_from : (calls : List Entered) (s : Server) → waits s ≡ false → waits (serve calls s) ≡ false
unfolding serve
serve_from [] s h = h
serve_from (e ∷ calls) s h = serve_from calls (enter_server e s) (enter_server-waits e s h)

-- After the start's pump and any calls in any order, no queued task is left waiting while no turn is active: the
-- server is then closing, its store is unhealthy, the save of an admission is under way, or no task
-- is queued.
pub serve-waits :
    (now : ℕ) (calls : List Entered) (s : Server) → waits (serve calls (pump now s)) ≡ false
serve-waits now calls s = serve_from calls (pump now s) (pump-waits now s)

-- ===== src/Browser/Fenced.antt =====
-- The fence of experiments/browser-control.mjs: a generation belongs to the agent or to a human.
use agentmeld.Prelude.{
  ℕ, suc, Bool, true, false, List, [], ◌∷◌, ◌≡◌, refl, arith, if◌then◌else◌, if_elim, nat_eq,
}
use agentmeld.Browser.{
  Mode, same_mode, Operation, agent_clicks, takes_over, human_clicks, resumes, disconnects, frames,
  cancels, BrowserControl, full_queue, enqueue, holds, move, takeover, resume, disconnect, cancel,
  leave, begin_operation, end_operation, advance, Action, calls_agent_click, calls_resume,
  calls_input, calls_takeover, calls_frame, calls_disconnect, calls_cancel, moves_on, control,
  controls,
}
use agentmeld.Browser.Clicked.{
  IsFenced, move-IsFenced, queue-IsFenced, settle-IsFenced, agent-IsFenced, human-IsFenced,
}

enqueue-IsFenced : (op : Operation) (c : BrowserControl) → IsFenced c → IsFenced (enqueue op c)
unfolding enqueue
enqueue-IsFenced op c i =
    if_elim IsFenced (full_queue c) _ _ (λ e. i) (λ e. queue-IsFenced _ c.started c i)

takeover-IsFenced : (c : BrowserControl) → IsFenced c → IsFenced (takeover c)
unfolding takeover move
takeover-IsFenced c i =
    if_elim IsFenced _ _ _
      (λ e.
        enqueue-IsFenced (takes_over (suc c.generation)) (move Mode.pausing c)
          (move-IsFenced Mode.pausing c.waiting c.started c i))
      (λ e. i)

resume-IsFenced : (g : ℕ) (c : BrowserControl) → IsFenced c → IsFenced (resume g c)
unfolding resume move
resume-IsFenced g c i =
    if_elim IsFenced (holds Mode.human g c) _ _
      (λ e.
        if_elim IsFenced (full_queue c) _ _ (λ f. move-IsFenced Mode.paused c.waiting c.started c i)
          (λ f.
            enqueue-IsFenced (resumes (suc c.generation)) (move Mode.resuming c)
              (move-IsFenced Mode.resuming c.waiting c.started c i)))
      (λ e. i)

disconnect-IsFenced : (c : BrowserControl) → IsFenced c → IsFenced (disconnect c)
unfolding disconnect move
disconnect-IsFenced c i =
    if_elim IsFenced _ _ _ (λ e. i)
      (λ e.
        enqueue-IsFenced (disconnects (suc c.generation)) (move Mode.paused c)
          (move-IsFenced Mode.paused c.waiting c.started c i))

cancel-IsFenced : (c : BrowserControl) → IsFenced c → IsFenced (cancel c)
unfolding cancel move
cancel-IsFenced c i =
    enqueue-IsFenced cancels (move Mode.cancelled c)
      (move-IsFenced Mode.cancelled c.waiting c.started c i)

holds-mode :
    (m : Mode) (g : ℕ) (c : BrowserControl) → holds m g c ≡ true → same_mode c.mode m ≡ true
unfolding holds
holds-mode m g c h = ground arith

begin_operation-IsFenced :
    (op : Operation) (rest : List Operation) (c : BrowserControl)
    → IsFenced c
    → IsFenced (begin_operation op rest c)
unfolding begin_operation leave
begin_operation-IsFenced (agent_clicks g) rest c i =
    if_elim IsFenced (holds Mode.agent g c) _ _
      (λ e. agent-IsFenced c (holds-mode Mode.agent g c e) i) (λ e. queue-IsFenced rest false c i)
begin_operation-IsFenced (takes_over g) rest c i =
    if_elim IsFenced (holds Mode.pausing g c) _ _
      (λ e.
        settle-IsFenced Mode.human Mode.pausing rest c (holds-mode Mode.pausing g c e) refl refl i)
      (λ e. queue-IsFenced rest false c i)
begin_operation-IsFenced (human_clicks g) rest c i =
    if_elim IsFenced (holds Mode.human g c) _ _
      (λ e. human-IsFenced c (holds-mode Mode.human g c e) i) (λ e. queue-IsFenced rest false c i)
begin_operation-IsFenced (resumes g) rest c i =
    if_elim IsFenced (holds Mode.resuming g c) _ _ (λ e. queue-IsFenced c.waiting true c i)
      (λ e. queue-IsFenced rest false c i)
begin_operation-IsFenced (disconnects g) rest c i = queue-IsFenced rest false c i
begin_operation-IsFenced frames rest c i =
    if_elim IsFenced _ _ _ (λ e. queue-IsFenced c.waiting true c i)
      (λ e. queue-IsFenced rest false c i)
begin_operation-IsFenced cancels rest c i = queue-IsFenced rest false c i

end_operation-IsFenced :
    (ok : Bool) (op : Operation) (rest : List Operation) (c : BrowserControl)
    → IsFenced c
    → IsFenced (end_operation ok op rest c)
unfolding end_operation leave
end_operation-IsFenced ok (resumes g) rest c i =
    if_elim IsFenced (holds Mode.resuming g c) _ _
      (λ e.
        settle-IsFenced (if ok then Mode.agent else Mode.paused) Mode.resuming rest c
          (holds-mode Mode.resuming g c e) refl refl i)
      (λ e. queue-IsFenced rest false c i)
end_operation-IsFenced ok _ rest c i = queue-IsFenced rest false c i

advance-IsFenced :
    (ok : Bool) (c : BrowserControl) (w : List Operation) → IsFenced c → IsFenced (advance ok c w)
unfolding advance
advance-IsFenced ok c [] i = i
advance-IsFenced ok c (op ∷ rest) i =
    if_elim IsFenced c.started _ _ (λ e. end_operation-IsFenced ok op rest c i)
      (λ e. begin_operation-IsFenced op rest c i)

control-IsFenced : (a : Action) (c : BrowserControl) → IsFenced c → IsFenced (control a c)
unfolding control
control-IsFenced (calls_agent_click g) c i = enqueue-IsFenced (agent_clicks g) c i
control-IsFenced (calls_resume g) c i = resume-IsFenced g c i
control-IsFenced (calls_input g) c i = enqueue-IsFenced (human_clicks g) c i
control-IsFenced calls_takeover c i = takeover-IsFenced c i
control-IsFenced calls_frame c i = enqueue-IsFenced frames c i
control-IsFenced calls_disconnect c i = disconnect-IsFenced c i
control-IsFenced calls_cancel c i = cancel-IsFenced c i
control-IsFenced (moves_on ok) c i = advance-IsFenced ok c c.waiting i

-- From a fenced control, such as a new one, any calls and moves of the queue, in any order, keep the
-- fence: under no generation are clicks of both the agent and a human dispatched, no click has a later
-- generation than the present one, and the clicks of the present generation are of the mode's actor.
pub controls-IsFenced :
    (actions : List Action) (c : BrowserControl) → IsFenced c → IsFenced (controls actions c)
unfolding controls
controls-IsFenced [] c i = i
controls-IsFenced (a ∷ more) c i = controls-IsFenced more (control a c) (control-IsFenced a c i)

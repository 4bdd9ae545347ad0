-- ===== src/Browser/Cancelled.antt =====
-- A cancelled control of experiments/browser-control.mjs stays cancelled.
use agentmeld.Prelude.{
  ℕ, Bool, true, false, ◌||◌, List, [], ◌∷◌, ◌≡◌, refl, arith, if_elim, if◌then◌else◌,
}
use agentmeld.Browser.{
  Mode, same_mode, Click, Operation, agent_clicks, takes_over, human_clicks, resumes, disconnects,
  frames, cancels, BrowserControl, full_queue, enqueue, holds, move, takeover, resume, disconnect,
  cancel, leave, begin_operation, end_operation, advance, Action, calls_agent_click, calls_resume,
  calls_input, calls_takeover, calls_frame, calls_disconnect, calls_cancel, moves_on, control,
  controls,
}

-- The control is cancelled, and the computer was told these clicks.
pub record IsStopped (ks : List Click) (c : BrowserControl) : Type 0 where
  pub stopped : same_mode c.mode Mode.cancelled ≡ true
  pub told : c.clicks ≡ ks

cancelled_not :
    (m : Mode) (g : ℕ) (ks : List Click) (c : BrowserControl)
    → same_mode m Mode.cancelled ≡ false
    → IsStopped ks c
    → holds m g c ≡ false
unfolding holds same_mode
cancelled_not m g ks c n i = ground (arith, i.stopped)

enqueue-IsStopped :
    (op : Operation) (ks : List Click) (c : BrowserControl)
    → IsStopped ks c
    → IsStopped ks (enqueue op c)
unfolding enqueue
enqueue-IsStopped op ks c i =
    if_elim (IsStopped ks) (full_queue c) _ _ (λ e. i)
      (λ e. record { stopped = i.stopped; told = i.told })

leave-IsStopped :
    (rest : List Operation) (ks : List Click) (c : BrowserControl)
    → IsStopped ks c
    → IsStopped ks (leave rest c)
unfolding leave
leave-IsStopped rest ks c i = record { stopped = i.stopped; told = i.told }

-- A branch that a cancelled control does not take.
not_taken :
    (ks : List Click) (b : Bool) (x y : BrowserControl)
    → b ≡ false
    → IsStopped ks y
    → IsStopped ks (if b then x else y)
not_taken ks true x y e i = cc
not_taken ks false x y e i = i

begin_operation-IsStopped :
    (op : Operation) (rest : List Operation) (ks : List Click) (c : BrowserControl)
    → IsStopped ks c
    → IsStopped ks (begin_operation op rest c)
unfolding begin_operation same_mode
begin_operation-IsStopped (agent_clicks g) rest ks c i =
    not_taken ks _ _ _ (cancelled_not Mode.agent g ks c refl i) (leave-IsStopped rest ks c i)
begin_operation-IsStopped (takes_over g) rest ks c i =
    not_taken ks _ _ _ (cancelled_not Mode.pausing g ks c refl i) (leave-IsStopped rest ks c i)
begin_operation-IsStopped (human_clicks g) rest ks c i =
    not_taken ks _ _ _ (cancelled_not Mode.human g ks c refl i) (leave-IsStopped rest ks c i)
begin_operation-IsStopped (resumes g) rest ks c i =
    not_taken ks _ _ _ (cancelled_not Mode.resuming g ks c refl i) (leave-IsStopped rest ks c i)
begin_operation-IsStopped (disconnects g) rest ks c i = leave-IsStopped rest ks c i
begin_operation-IsStopped frames rest ks c i =
    not_taken ks
      (same_mode c.mode Mode.agent || same_mode c.mode Mode.human || same_mode c.mode Mode.paused) _
      _ (ground (arith, i.stopped)) (leave-IsStopped rest ks c i)
begin_operation-IsStopped cancels rest ks c i = leave-IsStopped rest ks c i

end_operation-IsStopped :
    (ok : Bool) (op : Operation) (rest : List Operation) (ks : List Click) (c : BrowserControl)
    → IsStopped ks c
    → IsStopped ks (end_operation ok op rest c)
unfolding end_operation same_mode
end_operation-IsStopped ok (resumes g) rest ks c i =
    not_taken ks _ _ _ (cancelled_not Mode.resuming g ks c refl i) (leave-IsStopped rest ks c i)
end_operation-IsStopped ok _ rest ks c i = leave-IsStopped rest ks c i

advance-IsStopped :
    (ok : Bool) (ks : List Click) (c : BrowserControl) (w : List Operation)
    → IsStopped ks c
    → IsStopped ks (advance ok c w)
unfolding advance
advance-IsStopped ok ks c [] i = i
advance-IsStopped ok ks c (op ∷ rest) i =
    if_elim (IsStopped ks) c.started _ _ (λ e. end_operation-IsStopped ok op rest ks c i)
      (λ e. begin_operation-IsStopped op rest ks c i)

control-IsStopped :
    (a : Action) (ks : List Click) (c : BrowserControl)
    → IsStopped ks c
    → IsStopped ks (control a c)
unfolding control takeover resume disconnect cancel move same_mode
control-IsStopped (calls_agent_click g) ks c i = enqueue-IsStopped (agent_clicks g) ks c i
control-IsStopped (calls_resume g) ks c i =
    not_taken ks _ _ _ (cancelled_not Mode.human g ks c refl i) i
control-IsStopped (calls_input g) ks c i = enqueue-IsStopped (human_clicks g) ks c i
control-IsStopped calls_takeover ks c i =
    not_taken ks (same_mode c.mode Mode.agent || same_mode c.mode Mode.paused) _ _
      (ground (arith, i.stopped)) i
control-IsStopped calls_frame ks c i = enqueue-IsStopped frames ks c i
control-IsStopped calls_disconnect ks c i =
    if_elim (IsStopped ks) (same_mode c.mode Mode.cancelled) _ _ (λ e. i)
      (λ e. absurd (ground (arith, i.stopped)))
control-IsStopped calls_cancel ks c i =
    enqueue-IsStopped cancels ks (move Mode.cancelled c) (record { stopped = refl; told = i.told })
control-IsStopped (moves_on ok) ks c i = advance-IsStopped ok ks c c.waiting i

-- Once the control is cancelled, any calls and moves of the queue, in any order, leave it cancelled, and
-- the computer is told no further click, whatever waits in the queue.
pub controls-IsStopped :
    (actions : List Action) (ks : List Click) (c : BrowserControl)
    → IsStopped ks c
    → IsStopped ks (controls actions c)
unfolding controls
controls-IsStopped [] ks c i = i
controls-IsStopped (a ∷ more) ks c i =
    controls-IsStopped more ks (control a c) (control-IsStopped a ks c i)

-- ===== src/Examples/Browsers.antt =====
-- Control of the browser of experiments/browser-control.mjs with concrete calls.
use agentmeld.Prelude.{ℕ, true, List, [], ◌∷◌, ◌++◌, ◌≡◌, refl, any, arith}
use agentmeld.Browser.{
  Mode, same_mode, Action, calls_agent_click, calls_takeover, calls_input, calls_resume, moves_on,
  controls, new_control, BrowserControl, by_agent, by_human,
}
use agentmeld.Browser.Fenced.{controls-IsFenced}
use agentmeld.Browser.Clicked.{IsFenced, clicked}
use agentmeld.Browser.Cancelled.{IsStopped, controls-IsStopped}

-- A click that waits when a human takes over is not made; the human's is; then the agent's again.
abbrev handover : List Action
handover =
    calls_agent_click 0
    ∷ calls_takeover
    ∷ moves_on true
    ∷ moves_on true
    ∷ calls_input 1
    ∷ moves_on true
    ∷ moves_on true
    ∷ calls_resume 1
    ∷ moves_on true
    ∷ moves_on true
    ∷ calls_agent_click 2
    ∷ moves_on true
    ∷ []

handover_clicks :
    (controls handover new_control).clicks
    ≡ record { actor = by_human; generation = 1 } ∷ record { actor = by_agent; generation = 2 } ∷ []
unfolding controls
handover_clicks = refl

-- Clicks that fill the queue, then a takeover: it is not queued, but the mode stays `pausing`.
abbrev clicks : ℕ → List Action
clicks ℕ.zero = []
clicks (ℕ.suc n) = calls_agent_click 0 ∷ clicks n

takeover_when_full : (controls (clicks 32 ++ calls_takeover ∷ []) new_control).mode ≡ Mode.pausing
unfolding controls
takeover_when_full = refl

new_control-IsFenced : IsFenced new_control
unfolding clicked any same_mode
new_control-IsFenced = record {
  exclusive = λ g. refl;
  none_ahead_a = λ g h. refl;
  none_ahead_h = λ g h. refl;
  agent_now = λ h. refl;
  human_now = λ h. absurd (ground arith);
}

controls-IsFenced_example : IsFenced (controls handover new_control)
controls-IsFenced_example = controls-IsFenced handover new_control new_control-IsFenced

abbrev stopped_control : BrowserControl
stopped_control = record new_control { mode = Mode.cancelled; generation = 1 }

controls-IsStopped_example : IsStopped [] (controls handover stopped_control)
unfolding same_mode
controls-IsStopped_example =
    controls-IsStopped handover [] stopped_control (record { stopped = refl; told = refl })

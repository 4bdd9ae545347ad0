-- ===== src/Examples/Tracks.antt =====
-- The client track of apps/poc/public/client-track.js with concrete rows, frames and clicks.
use agentmeld.Prelude.{
  ℕ, ◌⊎◌, inl, ◌+◌, ◌-◌, ◌≤◌, ◌/◌, String, true, false, none, some, List, [], ◌∷◌, ◌++◌, ◌≡◌, refl,
  Option, arith, length, map, string_eq,
}
use agentmeld.Prelude.Dict.{Dict, get}
use agentmeld.Prelude.Fields.{missing, given}
use agentmeld.Prelude.Text.{codes}
use agentmeld.Sse.{Frame}
use agentmeld.Sse.Retry.{IsClamped}
use agentmeld.Track.{
  Track, new_track, Step, StepPayload, Approval, ControllerLease, lease_takeover, decision,
  accepted,
}
use agentmeld.Track.Steps.{add_rows}
use agentmeld.Track.Approvals.{ShowsApprovals, poll_approvals, poll_approvals-Shows}
use agentmeld.Track.Stream.{Message, dispatch_frames}
use agentmeld.Track.Stream.Window.{IsWindow, count_seq, dispatch_frames-IsWindow}
use agentmeld.Track.Loop.{connection}
use agentmeld.Track.Loop.Delay.{connection-delay}
use agentmeld.Track.Clicks.{
  TrackCall, clicks_decide, answers_decide, clicks_lease, polls_lease, track_calls,
}
use agentmeld.Track.Clicks.Balance.{deciding_lock, sent, answered}
use agentmeld.Track.Clicks.Single.{track_calls-sent}
use agentmeld.Track.Texts.{seconds_of, countdown, countdown-seconds}

abbrev row : String → String → StepPayload
row key state = record { call_key = key; tool_name = "shell"; title = ""; state = state }

abbrev shown : Dict String Step
shown = ("k1", record { key = "k1"; tool = "shell"; title = ""; state = "running" }) ∷ []

added_state :
    map
      (λ (e : String × Step). e.1.state)
      (add_rows (row "k1" "completed" ∷ row "k2" "odd" ∷ row "k3" "failed" ∷ []) shown)
    ≡ "running" ∷ "unknown" ∷ "failed" ∷ []
unfolding add_rows get agentmeld.Prelude.Dict.put
added_state = refl

abbrev asks_for : String → String → ℕ → Approval
asks_for id state due = record {
  id = id;
  run_id = "t1";
  state = state;
  tool = "shell";
  description_user = "";
  expires_at_ms = due;
  decided_at_ms = 0;
  created_at_ms = due;
}

abbrev approvals : List Approval
approvals =
    asks_for "a" "pending" 9000
    ∷ asks_for "b" "approved" 100
    ∷ asks_for "c" "pending" 4000
    ∷ asks_for "d" "denied" 200
    ∷ []

poll_order :
    map (λ (a : Approval). a.id) (poll_approvals (some approvals) (new_track none)).pending
    ≡ "c" ∷ "a" ∷ []
unfolding poll_approvals agentmeld.Prelude.Sorting.sort_by agentmeld.Prelude.select
poll_order = refl

poll_approvals-Shows_example :
    ShowsApprovals approvals (poll_approvals (some approvals) (new_track none))
poll_approvals-Shows_example = poll_approvals-Shows approvals (new_track none)

-- A message for each text: its length is its sequence number.
abbrev parse : List ℕ → Option Message
parse text = some (record {
  server_time_ms = missing;
  message_type = "run.started";
  current_seq = missing;
  seq = given (length text);
  run_id = given "t1";
  delta = [];
  payload = row "" "";
})

abbrev frame : List ℕ → Frame
frame text = record { event = []; data_lines = text ∷ []; id = [] }

abbrev frames : List Frame
frames = frame (codes "aa") ∷ frame (codes "aaa") ∷ frame (codes "bb") ∷ []

handled_once : (dispatch_frames parse true 5 frames (new_track none)).handled ≡ 2 ∷ 3 ∷ []
unfolding dispatch_frames agentmeld.Prelude.list_beq agentmeld.Prelude.contains
handled_once = refl

new_track-IsWindow : IsWindow (new_track none)
unfolding count_seq
new_track-IsWindow = record { remembers = refl; once = λ s. omega arith }

dispatch_frames-IsWindow_example : IsWindow (dispatch_frames parse true 5 frames (new_track none))
dispatch_frames-IsWindow_example =
    dispatch_frames-IsWindow parse true 5 frames (new_track none) new_track-IsWindow

abbrev listening : Track
listening = record (new_track none) { stream_on = true }

abbrev chunks : List (ℕ × List ℕ)
chunks = (1, codes "retry: 7" ++ 10 ∷ []) ∷ []

-- The stream's next turn after the server asked for 7 milliseconds, and after a click on `Retry now`.
connection-delay_example : ((500 ≤ 500) ⊎ (◌≡◌ {A = Option ℕ} none (some 500))) × (500 ≤ 30000)
unfolding IsClamped connection agentmeld.Prelude.list_beq agentmeld.Prelude.Text.blank
    agentmeld.Prelude.Text.trim
connection-delay_example =
    connection-delay (λ s. some 7) parse true chunks none listening 500
      (λ n e. absurd (ground arith)) refl

abbrev lease : ControllerLease
lease = record {
  state = "agent";
  generation = 4;
  holder_device_id = "";
  heartbeat_at_ms = 0;
  private_bracket = false;
}

abbrev clicks : List TrackCall
clicks =
    polls_lease (some lease)
    ∷ clicks_decide "a" "approve" none
    ∷ clicks_decide "c" "deny" none
    ∷ clicks_lease 100000 "takeover"
    ∷ clicks_lease 103000 "takeover"
    ∷ answers_decide "approve" (accepted false) none none
    ∷ clicks_decide "c" "deny" none
    ∷ []

clicks_requests :
    (track_calls clicks (new_track none)).requests
    ≡ decision "a" "approve" 4 ∷ lease_takeover ∷ decision "c" "deny" 4 ∷ []
unfolding track_calls
clicks_requests = refl

track_calls-sent_example :
    sent deciding_lock (track_calls clicks (new_track none)).requests
    ≤ sent deciding_lock [] + 1 + answered deciding_lock clicks
track_calls-sent_example = track_calls-sent deciding_lock clicks (new_track none)

countdown-seconds_example : seconds_of (countdown 1000 (asks_for "a" "pending" 92500)) ≡ 91
countdown-seconds_example = countdown-seconds 1000 (asks_for "a" "pending" 92500)

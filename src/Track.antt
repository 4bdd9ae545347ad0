-- ===== src/Track.antt =====
-- apps/poc/public/client-track.js: the state that the browser keeps beside the page, and the data of the
-- service's answers. An async function is cut where it awaits: what follows takes the answer. Times are
-- milliseconds, and a time that is missing is 0. Painting, which reads the state only, is left out, but
-- for the texts that it shows.
pub mod Steps
pub mod Approvals
pub mod Decisions
pub mod Lease
pub mod Stream
pub mod Loop
pub mod Clicks
pub mod Texts
use agentmeld.Prelude.{ℕ, String, Bool, true, false, List, [], Option, none}
use agentmeld.Prelude.Dict.{Dict}
use agentmeld.Prelude.Fields.{Field}

-- A tool step of a run. A state is one of the keys of STEP_STATE_LABEL.
pub record Step : Type 0 where
  pub key : String
  pub tool : String
  pub title : String
  pub state : String

-- The payload of a tool event, and a row of the persisted steps; an absent text is empty.
pub record StepPayload : Type 0 where
  pub call_key : String
  pub tool_name : String
  pub title : String
  pub state : String

abbrev pub Steps : Type 0
Steps = Dict String (Dict String Step)

-- A row of the approvals, with the name that its action gives the tool.
pub record Approval : Type 0 where
  pub id : String
  pub run_id : String
  pub state : String
  pub tool : String
  pub description_user : String
  pub expires_at_ms : ℕ
  pub decided_at_ms : ℕ
  pub created_at_ms : ℕ

pub record ControllerLease : Type 0 where
  pub state : String
  pub generation : ℕ
  pub holder_device_id : String
  pub heartbeat_at_ms : ℕ
  pub private_bracket : Bool

-- What the module asks of the service.
pub data Request : Type 0 where
  decision : String → String → ℕ → Request
  revocation : String → Request
  lease_takeover : Request
  lease_action : String → ℕ → Request
  heartbeat : ℕ → Request

-- The service's answer: done, refused with an error and a message, or no answer.
pub data Response : Type 0 where
  accepted : Bool → Response
  refused : String → String → Response
  unreachable : Response

-- The polls that an event starts.
pub data Poll : Type 0 where
  approvals_poll lease_poll : Poll

pub data StreamStatus : Type 0 where
  idle connecting live reconnecting : StreamStatus

-- The state of initClientTrack. `clock` is the server's time with this device's, of the last hello. What
-- the module did is in `requests`, `notices`, `refreshes`, `polls`, `handled` (the sequence numbers of the
-- events that it handled) and `deltas`.
pub record Track : Type 0 where
  pub pending : List Approval
  pub history : List Approval
  pub lease : Option ControllerLease
  pub session_device_id : Option String
  pub server_retry_ms : Option ℕ
  pub stream_on : Bool
  pub stream_status : StreamStatus
  pub stream_attempt : ℕ
  pub last_frame_at : ℕ
  pub last_event_at : ℕ
  pub last_poll_at : ℕ
  pub deciding : Option String
  pub revoking : Option String
  pub revoke_armed : Option String
  pub lease_busy : Option String
  pub armed_takeover : ℕ
  pub seen_seq : List ℕ
  pub cursor : Option ℕ
  pub steps : Steps
  pub hydrated_runs : List String
  pub refresh_timer : ℕ
  pub refreshes : ℕ
  pub requests : List Request
  pub notices : List String
  pub clock : Option (ℕ × ℕ)
  pub polls : List Poll
  pub handled : List ℕ
  pub deltas : List (String × List ℕ)

abbrev pub new_track : Option ℕ → Track
new_track cursor = record {
  pending = [];
  history = [];
  lease = none;
  session_device_id = none;
  server_retry_ms = none;
  stream_on = false;
  stream_status = idle;
  stream_attempt = 0;
  last_frame_at = 0;
  last_event_at = 0;
  last_poll_at = 0;
  deciding = none;
  revoking = none;
  revoke_armed = none;
  lease_busy = none;
  armed_takeover = 0;
  seen_seq = [];
  cursor = cursor;
  steps = [];
  hydrated_runs = [];
  refresh_timer = 0;
  refreshes = 0;
  requests = [];
  notices = [];
  clock = none;
  polls = [];
  handled = [];
  deltas = [];
}

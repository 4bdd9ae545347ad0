-- ===== src/Runtime.antt =====
-- apps/worker/runtime.mjs: the execution of one turn on the worker's side of worker-seam/1. Here are the
-- state that executeTurn closes over, what it meets at its awaits, and the events it emits.
pub mod Told
pub mod Emit
pub mod Await
pub mod Upload
pub mod Output
pub mod Execute
pub mod Finish
pub mod Keep
pub mod Course
pub mod Whole
pub mod Streamed
pub mod Ended
pub mod Heard
pub mod Rest
pub mod Cleanup
pub mod Changed
pub mod Directories
pub mod Delivered
use agentmeld.Prelude.{ℕ, String, Bool, Option, List}
use agentmeld.Supervisor.{Binding, BoundSession, Manifest}

-- An event with its payload. A text that the service appends is the list of its UTF-16 units.
pub data Payload : Type 0 where
  started : String → Payload
  restored : ℕ → ℕ → Payload
  bound : BoundSession → Payload
  thinking saving : Payload
  activity_changed : String → Payload
  answer_delta : List ℕ → ℕ → Payload
  artifacts_delivered : String → ℕ → ℕ → Payload
  completed : String → Option String → Payload
  failed : String → String → Payload
  cancelled : String → Payload
  terminated : Bool → List String → Payload

pub record Emitted : Type 0 where
  pub payload : Payload
  pub dedupe_key : Option String

-- What arrives while the worker waits: service.turn.cancel, service.error, the end of the time
-- budget, and the two frames of the provider that POCClient reads.
pub data Arrival : Type 0 where
  turn_cancel : ℕ → Arrival
  service_error : String → Arrival
  turn_timeout : Arrival
  message_delta : String → List ℕ → Arrival
  command_started : Arrival

-- The calls of docker, each named for its arguments.
pub data Command : Type 0 where
  create_network create_proxy connect_proxy start_proxy logs_proxy inspect_proxy : Command
  create_worker start_worker restore_files snapshot_files stop_worker : Command
  remove_worker remove_proxy remove_network : Command

-- An error, with what the process wrote to stderr.
pub record Failure : Type 0 where
  pub message : String
  pub stderr : String

-- A row of turn.inputs_manifest.
pub record Input : Type 0 where
  pub name : String
  pub digest : String
  pub size : ℕ
  pub attachment : Bool

pub record Item : Type 0 where
  pub agent_message : Bool
  pub text : List ℕ

-- What client.turn returns.
pub record Result : Type 0 where
  pub completed : Bool
  pub items : List Item
  pub answer : List ℕ

-- A row of the snapshot that the worker's container prints.
pub record Row : Type 0 where
  pub name : String
  pub directory : Bool
  pub content : List ℕ

pub record Start : Type 0 where
  pub run_id : String
  pub generation : ℕ
  pub inputs : List Input
  pub expected_binding : Binding

-- The outside of an execution. An await has a number, the count of those before it: `arrivals` and
-- `failure` say what comes in during it and whether it rejects, `stuck` that it never settles, as that of an event
-- whose batch is in flight when the connection fails, and `lasts` that it is not over before the timer of a
-- provider's client that was never made. `client_error` is what the constructor of the client throws, if it throws.
pub record World : Type 0 where
  pub arrivals : ℕ → List Arrival
  pub failure : ℕ → Option Failure
  pub stuck : ℕ → Bool
  pub lasts : ℕ → Bool
  pub binding : Binding
  pub turn_digest : String
  pub ready : ℕ → Bool
  pub fetched : Input → List ℕ
  pub client_error : Option Failure
  pub thread_id : String
  pub result : Result
  pub listing : List Row
  pub fresh_ref : ℕ → List ℕ
  pub sha256 : List ℕ → String
  pub sha256_rows : List (String × String × ℕ) → String

-- `timer_left` says that the constructor of the client threw after it had set its timer, whose callback ends the
-- process, and `halted` that the execution has stopped for good: at an await that never settles, or with its
-- process.
pub record Worker : Type 0 where
  pub awaits : ℕ
  pub log : List Emitted
  pub commands : List Command
  pub cancelled : Bool
  pub fatal : Option String
  pub stderr : String
  pub answer : List ℕ
  pub delta_buf : List ℕ
  pub batch_seq : ℕ
  pub last_activity : Option String
  pub message_id : Option String
  pub phase : String
  pub network_created : Bool
  pub proxy_created : Bool
  pub worker_created : Bool
  pub has_client : Bool
  pub timer_left : Bool
  pub halted : Bool
  pub uploaded : List (String × Option (List ℕ))
  pub staged : List (List ℕ × List ℕ)
  pub sidecar : Option (List Row)
  pub delivered : List Manifest

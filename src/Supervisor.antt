-- ===== src/Supervisor.antt =====
-- apps/poc/supervisor.mjs: the service's side of worker-seam/1. Here are the messages of the seam, the
-- state of a turn (`cur` of runTurn) and of the supervisor, and what the code takes from outside: the
-- clock, the store's save, the staging directory and the digest functions.
pub mod Kept
pub mod Apply
pub mod Append
pub mod Inputs
pub mod Artifacts
pub mod Dispatch
pub mod Ledger
pub mod Replay
pub mod Settling
pub mod Run
pub mod Jobs
pub mod Setup
pub mod Spawn
use agentmeld.Prelude.{ℕ, ◌+◌, String, Bool, true, false, Option, none, some, List, [], ◌∷◌, ◌++◌}
use agentmeld.Prelude.Dict.{Dict}
use agentmeld.Data.{Task, Conversation, Entry}

pub record Binding : Type 0 where
  pub image_digest : String
  pub store_instance : String
  pub model : String
  pub policy_digest : String

-- The binding that the worker reports, with the provider's thread.
pub record BoundSession : Type 0 where
  pub image_digest : String
  pub store_instance : String
  pub model : String
  pub policy_digest : String
  pub thread_id : String

-- An event's type with the fields of its payload that the service reads. `approval` and `unknown` hold
-- the rest of the type's text: every `approval.` type, and every type that no case names.
pub data Payload : Type 0 where
  run_started run_restored run_thinking run_saving artifacts_delivered run_interrupted : Payload
  answer_delta : List ℕ → Payload
  activity_changed : String → Payload
  session_bound : BoundSession → Payload
  run_completed : Payload
  run_failed : String → String → Payload
  run_cancelled : String → Payload
  run_terminated : Bool → Payload
  approval : String → Payload
  unknown : String → Payload

pub record Event : Type 0 where
  pub event_id : String
  pub payload : Payload

-- A number of a request: absent (or null), a natural number, or any other number, which is negative
-- or, for an offset, fractional.
pub data Number : Type 0 where
  absent : Number
  nat : ℕ → Number
  other : Number

pub record Artifact : Type 0 where
  pub name : String
  pub digest : String
  pub size : ℕ
  pub staging_ref : List ℕ

pub record Manifest : Type 0 where
  pub manifest_digest : String
  pub files : List Artifact
  pub total_bytes : ℕ

pub data Body : Type 0 where
  events_append : List Event → Body
  inputs_fetch : String → Number → Number → Body
  artifacts_deliver : Option Manifest → Body
  request_decision : Body
  unlisted : String → Body

pub record Message : Type 0 where
  pub protocol : String
  pub msg_id : Option String
  pub run_id : String
  pub generation : ℕ
  pub body : Body

-- One row of service.events.stored.
pub record Stored : Type 0 where
  pub event_id : String
  pub seq : Option ℕ
  pub duplicate : Bool

pub data Reply : Type 0 where
  events_stored : List Stored → Reply
  service_error : String → String → Reply
  inputs_data : String → ℕ → List ℕ → Bool → ℕ → Reply
  artifacts_rejected : String → String → Reply
  artifacts_stored : String → List (String × String) → Reply
  turn_cancel : String → Reply

pub record Frame : Type 0 where
  pub in_reply_to : Option String
  pub body : Reply

-- The turn's promise.
pub data Promise : Type 0 where
  pending resolved : Promise
  rejected : String → Promise

pub record Turn : Type 0 where
  pub run_id : String
  pub generation : ℕ
  pub task : Task
  pub conversation : Conversation
  pub blobs : Dict String (List ℕ)
  pub expected_binding : Binding
  pub applied_event_ids : List String
  pub event_seq_by_id : Dict String ℕ
  pub event_seq : ℕ
  pub saw_terminal : Bool
  pub turn_done : Bool
  pub turn_started : Bool
  pub promise : Promise
  pub sent : List Frame

pub record Supervisor : Type 0 where
  pub current : Option Turn
  pub pending_cancel : Bool

-- What one handler meets outside: the time, whether the store's save succeeds, the snapshot that
-- workspace-listing.json holds (`none` if it cannot be read or parsed), the staged files, the SHA-256
-- of a file's bytes, and the digest of the sorted rows
-- [name, digest, size] as JSON.
pub record Env : Type 0 where
  pub now : ℕ
  pub saved : Bool
  pub listing : Option (List Entry)
  pub staged : List ℕ → Option (List ℕ)
  pub sha256 : List ℕ → String
  pub sha256_rows : List (String × String × ℕ) → String

-- sendFrame
abbrev pub send_frame : Option String → Reply → Turn → Turn
send_frame reply body t = record t {
  sent = t.sent ++ record { in_reply_to = reply; body = body } ∷ [];
}

-- A promise settles once; a later call of either function has no effect.
unfoldable pub settle : Promise → Turn → Turn
settle p t = elim t.promise [ pending ↦ record t { promise = p } | _ ↦ t ]

abbrev pub protocol_name : String
protocol_name = "worker-seam/1"

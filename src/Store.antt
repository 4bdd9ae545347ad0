-- ===== src/Store.antt =====
-- apps/poc/conversations.mjs: the store of tasks and conversations. Here are the requests that its
-- operations take and the refusals that they throw. A field of a request that is typed by the code is
-- missing, of another type, or given; null is `missing` for a conversation's id and `other` elsewhere.
pub mod Names
pub mod Check
pub mod Admit
pub mod Update
pub mod Recover
pub mod Saving
pub mod Open
pub mod Views
pub mod Invariant
pub mod Retry
use agentmeld.Prelude.{ℕ, String, Bool, List, Option}
use agentmeld.Prelude.Fields.{Field}
use agentmeld.Data.{State, Task, File}

-- An element of `data.files`. The bytes are given if `data` is a text that is its own canonical base64.
pub record Attachment : Type 0 where
  pub name : Field String
  pub content : Field (List ℕ)
  pub extra_keys : Bool

pub record Request : Type 0 where
  pub prompt : Field (List ℕ)
  pub request_key : Field String
  pub conversation_id : Field String
  pub files : Field (List Attachment)

-- The body of updateConversation.
pub record Change : Type 0 where
  pub id : Field String
  pub extra_keys : Bool
  pub title : Field (List ℕ)
  pub pinned : Field Bool
  pub archived : Field Bool

-- RequestError, with its HTTP status.
pub record Refusal : Type 0 where
  pub message : String
  pub status : ℕ

-- A request that passed the checks: its prompt is trimmed, its files are bytes.
pub record Checked : Type 0 where
  pub prompt : List ℕ
  pub request_key : String
  pub conversation_id : Option String
  pub files : List File

-- What admit meets outside: the time, two random ids, and the digest of the request as JSON.
pub record Outside : Type 0 where
  pub now : ℕ
  pub task_id : String
  pub conversation_id : String
  pub digest : Option String → List ℕ → List File → String

pub data Answer : Type 0 where
  refused : Refusal → Answer
  accepted : Task → Bool → Answer

-- The state as an operation leaves it, with its answer.
pub record Answered : Type 0 where
  pub state : State
  pub answer : Answer

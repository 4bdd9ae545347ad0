-- ===== src/Data.antt =====
-- The objects of the local service: tasks, conversations and the state that apps/poc/conversations.mjs
-- stores, with the milestones of apps/poc/events.mjs. Ids, digests and messages are texts; a prompt or
-- a title is the list of its UTF-16 units; a file's base64 text is the list of the bytes it stands for.
use agentmeld.Prelude.{ℕ, String, Bool, Option, List}

-- The keys of `labels`.
pub data Kind : Type 0 where
  queued started restored thinking saving completed failed cancelled interrupted cancelling : Kind

pub record Milestone : Type 0 where
  pub id : String × Kind
  pub kind : Kind
  pub at : ℕ

pub data Status : Type 0 where
  queued running cancelling completed failed cancelled interrupted : Status

-- ['queued','running','cancelling'].includes(status)
unfoldable pub busy : Status → Bool
busy Status.queued = Bool.true
busy Status.running = Bool.true
busy Status.cancelling = Bool.true
busy _ = Bool.false

pub record File : Type 0 where
  pub name : String
  pub content : List ℕ

pub record Task : Type 0 where
  pub id : String
  pub conversation_id : String
  pub request_key : String
  pub request_digest : String
  pub prompt : List ℕ
  pub inputs : List File
  pub artifacts : List File
  pub answer : List ℕ
  pub status : Status
  pub activity : String
  pub error : String
  pub failure_stage : Option String
  pub events : List Milestone
  pub created_at : ℕ

-- An entry of a workspace snapshot; a directory has no content.
pub record Entry : Type 0 where
  pub name : String
  pub directory : Bool
  pub content : List ℕ

-- A stored provider session, with the keys of either age; an absent key is `none`.
pub record StoredSession : Type 0 where
  pub image_digest : Option String
  pub image : Option String
  pub store_instance : Option String
  pub store_instance_v1 : Option String
  pub model : Option String
  pub policy_digest : Option String
  pub policy_digest_v1 : Option String
  pub thread_id : Option String
  pub thread_id_v1 : Option String

pub data Continuation : Type 0 where
  ready legacy unavailable : Continuation

pub record Conversation : Type 0 where
  pub id : String
  pub title : List ℕ
  pub created_at : ℕ
  pub session : Option StoredSession
  pub workspace : List Entry
  pub captured_at : Option ℕ
  pub continuation : Continuation
  pub pinned : Bool
  pub archived : Bool

pub record State : Type 0 where
  pub tasks : List Task
  pub conversations : List Conversation

-- ===== src/Store/Views.antt =====
-- publicTask and publicConversation of apps/poc/conversations.mjs: what the service gives out.
use agentmeld.Prelude.{ℕ, String, Bool, List, map, length}
use agentmeld.Data.{Task, Conversation, File, Status, Continuation}
use agentmeld.Events.{PublicEvent, public_events}

pub record PublicFile : Type 0 where
  pub name : String
  pub size : ℕ

pub record PublicTask : Type 0 where
  pub id : String
  pub conversation_id : String
  pub prompt : List ℕ
  pub answer : List ℕ
  pub status : Status
  pub activity : String
  pub error : String
  pub created_at : ℕ
  pub events : List PublicEvent
  pub inputs : List PublicFile
  pub artifacts : List PublicFile

pub record PublicConversation : Type 0 where
  pub id : String
  pub title : List ℕ
  pub created_at : ℕ
  pub continuation : Continuation
  pub pinned : Bool
  pub archived : Bool

abbrev pub public_file : File → PublicFile
public_file f = record { name = f.name; size = length f.content }

unfoldable pub public_task : Task → PublicTask
unfolding public_events
public_task t = record {
  id = t.id;
  conversation_id = t.conversation_id;
  prompt = t.prompt;
  answer = t.answer;
  status = t.status;
  activity = t.activity;
  error = t.error;
  created_at = t.created_at;
  events = public_events t;
  inputs = map public_file t.inputs;
  artifacts = map public_file t.artifacts;
}

unfoldable pub public_conversation : Conversation → PublicConversation
public_conversation c = record {
  id = c.id;
  title = c.title;
  created_at = c.created_at;
  continuation = c.continuation;
  pinned = c.pinned;
  archived = c.archived;
}

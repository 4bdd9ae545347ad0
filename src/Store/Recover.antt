-- ===== src/Store/Recover.antt =====
-- The loop of openStore in apps/poc/conversations.mjs: what a restart does to the turns that had begun.
pub mod Interrupted
use agentmeld.Prelude.{ℕ, String, Bool, true, false, List, [], ◌∷◌, map, if◌then◌else◌}
use agentmeld.Data.{State, Task, Conversation, Status, Kind, unavailable}
use agentmeld.Events.{record_event}
use agentmeld.Store.Update.{edit}

-- ['running','cancelling'].includes(status)
unfoldable pub begun : Status → Bool
begun Status.running = true
begun Status.cancelling = true
begun _ = false

unfoldable pub interrupt : ℕ → Task → Task
unfolding record_event
interrupt now t = record (record_event now Kind.interrupted t) {
  status = Status.interrupted;
  activity = "Interrupted by service restart";
  error = "Execution was interrupted. Start a new chat; this conversation cannot safely resume.";
}

unfoldable pub make_unavailable : Conversation → Conversation
make_unavailable c = record c { continuation = unavailable }

unfoldable pub recover_tasks : ℕ → List Task → List Task
unfolding begun interrupt
recover_tasks now ts = map (λ (t : Task). if begun t.status then interrupt now t else t) ts

-- The conversations after the loop over the tasks.
unfoldable pub recover_conversations : List Task → List Conversation → List Conversation
unfolding begun edit make_unavailable
recover_conversations [] cs = cs
recover_conversations (t ∷ ts) cs =
    recover_conversations ts
      (if begun t.status then edit t.conversation_id make_unavailable cs else cs)

unfoldable pub recover : ℕ → State → State
unfolding recover_tasks recover_conversations
recover now s = record {
  tasks = recover_tasks now s.tasks;
  conversations = recover_conversations s.tasks s.conversations;
}

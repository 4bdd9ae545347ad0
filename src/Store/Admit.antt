-- ===== src/Store/Admit.antt =====
-- admit of apps/poc/conversations.mjs.
use agentmeld.Prelude.{
  String, Bool, true, false, not, ◌&&◌, ◌||◌, List, [], ◌∷◌, ◌++◌, ◌⊎◌, inl, inr, Option, none,
  some, leb, length, any, find, string_eq, nat_eq, if◌then◌else◌, ◌==◌,
}
use agentmeld.Data.{
  State, Task, Conversation, Continuation, ready, legacy, unavailable, File, Status, Kind, busy,
  Entry,
}
use agentmeld.Events.{record_event}
use agentmeld.Store.{Request, Refusal, Checked, Outside, refused, accepted, Answered}
use agentmeld.Store.Check.{check, refusal}

-- state.tasks.find(t=>t.requestKey===...)
unfoldable pub task_of_key : String → List Task → Option Task
task_of_key key ts = find (λ (t : Task). t.request_key == key) ts

unfoldable pub conversation_of : String → List Conversation → Option Conversation
conversation_of id cs = find (λ (c : Conversation). c.id == id) cs

-- A missing id finds nothing.
unfoldable pub addressed : Option String → List Conversation → Option Conversation
unfolding conversation_of
addressed none cs = none
addressed (some id) cs = conversation_of id cs

unfoldable pub is_ready : Continuation → Bool
is_ready ready = true
is_ready legacy = false
is_ready unavailable = false

unfoldable pub names_entry : String → List Entry → Bool
names_entry name ps = any (λ (p : Entry). p.name == name) ps

unfoldable pub names_file : String → List File → Bool
names_file name ps = any (λ (p : File). p.name == name) ps

-- A turn of the conversation that has not ended brings a file of the name.
unfoldable pub brought : String → String → List Task → Bool
unfolding names_file busy
brought id name ts =
    any (λ (t : Task). t.conversation_id == id && busy t.status && names_file name t.inputs) ts

unfoldable pub clashes : Conversation → List Task → List File → Bool
unfolding names_entry brought
clashes c ts fs = any (λ (f : File). names_entry f.name c.workspace || brought c.id f.name ts) fs

-- The refusals for the conversation that is addressed.
unfoldable pub blocked : Conversation → List Task → List File → Option Refusal
unfolding is_ready clashes
blocked c ts fs =
    if c.archived
    then some (refusal "Restore this conversation before sending a message." 409)
    else if not (is_ready c.continuation)
    then some (
        refusal
          "This conversation cannot safely resume. Start a new chat; its history and files are preserved."
          409)
    else if clashes c ts fs
    then some (
        refusal
          "A file with that name already exists in this chat. Rename the attachment to preserve earlier work."
          409)
    else none

unfoldable pub new_conversation : Outside → Checked → Conversation
new_conversation out q = record {
  id = out.conversation_id;
  title = q.prompt;
  created_at = out.now;
  session = none;
  workspace = [];
  captured_at = none;
  continuation = ready;
  pinned = false;
  archived = false;
}

abbrev pub digest_of : Outside → Checked → String
digest_of out q = out.digest q.conversation_id q.prompt q.files

unfoldable pub new_task : Outside → Checked → Conversation → Task
unfolding record_event
new_task out q c = record_event out.now Kind.queued (record {
  id = out.task_id;
  conversation_id = c.id;
  request_key = q.request_key;
  request_digest = digest_of out q;
  prompt = q.prompt;
  inputs = q.files;
  artifacts = [];
  answer = [];
  status = Status.queued;
  activity = "Queued";
  error = "";
  failure_stage = none;
  events = [];
  created_at = out.now;
})

-- The task joins the tasks, in a conversation that `cs` holds.
unfoldable pub enter : Outside → Checked → Conversation → List Conversation → State → Answered
unfolding new_task
enter out q c cs s =
    let t = new_task out q c in
    record {
      state = record { tasks = s.tasks ++ t ∷ []; conversations = cs };
      answer = accepted t false;
    }

abbrev pub refuse : Refusal → State → Answered
refuse r s = record { state = s; answer = refused r }

-- data.conversationId&&!conversation: the empty id is no id.
unfoldable pub names_none : Option String → Bool
names_none none = true
names_none (some id) = id == ""

unfoldable pub admit_first : Outside → Checked → State → Answered
unfolding names_none new_conversation enter
admit_first out q s =
    let c = new_conversation out q in
    if names_none q.conversation_id
    then enter out q c (s.conversations ++ c ∷ []) s
    else refuse (refusal "Conversation not found." 404) s

unfoldable pub admit_into : Outside → Checked → State → Conversation → Answered
unfolding blocked enter
admit_into out q s c = elim (blocked c s.tasks q.files) [
  | some r ↦ refuse r s
  | none ↦ enter out q c s.conversations s
]

unfoldable pub admit_addressed : Outside → Checked → State → Option Conversation → Answered
unfolding admit_first admit_into
admit_addressed out q s none = admit_first out q s
admit_addressed out q s (some c) = admit_into out q s c

abbrev pub full : Refusal
full = refusal "This local preview holds up to 30 turns. Existing results are preserved." 409

unfoldable pub admit_new : Outside → Checked → State → Answered
unfolding addressed admit_addressed
admit_new out q s =
    if leb 30 (length s.tasks)
    then refuse full s
    else admit_addressed out q s (addressed q.conversation_id s.conversations)

unfoldable pub admit_checked : Outside → Checked → State → Answered
unfolding task_of_key admit_new
admit_checked out q s = elim (task_of_key q.request_key s.tasks) [
  | some t ↦
      if t.request_digest == digest_of out q
      then record { state = s; answer = accepted t true }
      else refuse (refusal "This request key already belongs to another message." 409) s
  | none ↦ admit_new out q s
]

unfoldable pub admit_parsed : Outside → Refusal ⊎ Checked → State → Answered
unfolding admit_checked
admit_parsed out (inl r) s = refuse r s
admit_parsed out (inr q) s = admit_checked out q s

unfoldable pub admit : Outside → Option Request → State → Answered
unfolding check admit_parsed
admit out request s = admit_parsed out (check request) s

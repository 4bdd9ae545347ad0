-- ===== src/Server.antt =====
-- apps/poc/server.mjs: the pump over the queued tasks, the end of a turn, and the routes that change the
-- state, as the calls at which the server is entered. A call that waits for a save and then goes on is
-- two calls. The revision of the agent's profile, the test executor and the route of the profile are left out.
pub mod Posted
pub mod Waiting
use agentmeld.Prelude.{
  ℕ, suc, ◌-◌, String, Bool, true, false, not, ◌&&◌, ◌||◌, List, [], ◌∷◌, ◌++◌, Option, none, some,
  ◌⊎◌, inl, inr, any, find, string_eq, nat_eq, ◌==◌, if◌then◌else◌,
}
use agentmeld.Prelude.Fields.{Field, given, missing, other}
use agentmeld.Data.{State, Task, Conversation, Continuation, Status, Kind, busy}
use agentmeld.Events.{record_event}
use agentmeld.Store.{Request, Change, Refusal, Outside, Answer, Answered, refused, accepted}
use agentmeld.Store.Admit.{admit, conversation_of, is_ready}
use agentmeld.Store.Update.{update_conversation, edit, raises}

-- `active` is the id of the runner's task, `pending` the number of admitted tasks whose save is awaited,
-- `stopping` the tasks whose stop awaits a save, `cancels` the calls of cancelActiveTurn, and `sent` the status
-- codes of the responses.
pub record Server : Type 0 where
  pub state : State
  pub active : Option String
  pub closing : Bool
  pub healthy : Bool
  pub pending : ℕ
  pub stopping : List String
  pub cancels : ℕ
  pub sent : List ℕ

abbrev pub send : ℕ → Server → Server
send code s = record s { sent = s.sent ++ code ∷ [] }

unfoldable pub is_queued : Task → Bool
is_queued t = elim t.status [ Status.queued ↦ true | _ ↦ false ]

-- ['running','cancelling'].includes(task.status)
unfoldable pub in_progress : Task → Bool
in_progress t = elim t.status [ Status.running ↦ true | Status.cancelling ↦ true | _ ↦ false ]

-- A write to the task that `find` gives.
unfoldable pub edit_first : (Task → Bool) → (Task → Task) → List Task → List Task
edit_first test f [] = []
edit_first test f (t ∷ ts) =
    let rest = edit_first test f ts in if test t then f t ∷ ts else t ∷ rest

abbrev pub edit_task : (Task → Bool) → (Task → Task) → Server → Server
edit_task test f s = record s { state = record s.state { tasks = edit_first test f s.state.tasks } }

-- What a runner writes before its first await; without a conversation it throws, and writes nothing.
unfoldable pub begin : ℕ → Option Conversation → Task → Task
unfolding is_ready record_event
begin now none t = t
begin now (some c) t =
    if is_ready c.continuation
    then record (record_event now Kind.started t) {
      status = Status.running;
      activity = "Connecting";
    }
    else record t {
      status = Status.failed;
      activity = "Continuation unavailable";
      error = "Start a new chat; earlier work is preserved.";
    }

unfoldable pub start_turn : ℕ → Task → Server → Server
unfolding edit_first begin conversation_of is_queued
start_turn now t s =
    let c = conversation_of t.conversation_id s.state.conversations in
    edit_task is_queued (begin now c) (record s { active = some t.id })

unfoldable pub has_active : Server → Bool
has_active s = elim s.active [ none ↦ false | some id ↦ true ]

unfoldable pub pump : ℕ → Server → Server
unfolding has_active find is_queued start_turn
pump now s =
    if has_active s || s.closing || not s.healthy
    then s
    else elim (find is_queued s.state.tasks) [ none ↦ s | some t ↦ start_turn now t s ]

-- A save that rejects makes the store unhealthy.
abbrev pub saved : Bool → Server → Server
saved ok s = record s { healthy = s.healthy && ok }

abbrev pub is_active : Server → Task → Bool
is_active s t = elim s.active [ none ↦ false | some id ↦ t.id == id ]

-- The runner's catch: only where the supervisor has not ended the task.
unfoldable pub die : Task → Task
unfolding in_progress
die t =
    if in_progress t
    then record t {
      status = Status.failed;
      activity = "Needs attention";
      error = "The turn could not finish safely. Start a new chat.";
    }
    else t

-- The milestone of the status that a turn ends with.
unfoldable pub conclude : ℕ → Task → Task
unfolding record_event
conclude now t = elim t.status [
  | Status.completed ↦ record_event now Kind.completed t
  | Status.failed ↦ record_event now Kind.failed t
  | Status.cancelled ↦ record_event now Kind.cancelled t
  | _ ↦ t
]

-- The end of a runner up to its last save; `work` is what runTurn did to the task.
unfoldable pub settle_turn : ℕ → (Task → Task) → Bool → Server → Server
unfolding edit_first die conclude edit find in_progress
settle_turn now work rejected s =
    let worked = edit_task (is_active s) work s in
    let caught : Server = elim (find (is_active s) worked.state.tasks) [
      | none ↦ worked
      | some t ↦
          if rejected && in_progress t
          then record (edit_task (is_active s) die worked) {
            state = record (edit_task (is_active s) die worked).state {
              conversations =
                  edit t.conversation_id
                    (λ (c : Conversation). record c { continuation = Continuation.unavailable })
                    worked.state.conversations;
            };
          }
          else worked
    ] in
    edit_task (is_active s) (conclude now) caught

-- The finally after its save: the next turn starts even if the save failed, unless the store is unhealthy.
unfoldable pub end_turn : ℕ → Bool → Server → Server
unfolding pump
end_turn now ok s = pump now (record (saved ok s) { active = none })

-- POST /api/tasks up to the save.
unfoldable pub post_task : Outside → Option Request → Server → Server
unfolding admit
post_task out request s =
    let answered = admit out request s.state in
    if s.closing || not s.healthy then send 503 s else elim answered.answer [
      | refused r ↦ send r.status (record s { state = answered.state })
      | accepted t replay ↦ record s { state = answered.state; pending = suc s.pending }
    ]

-- After the save: the answer, and the pump.
unfoldable pub task_saved : ℕ → Bool → Server → Server
unfolding pump
task_saved now ok s =
    let next = record s { pending = s.pending - 1 } in
    if s.pending == 0
    then s
    else if ok
    then pump now (send 202 next)
    else send 500 (saved false next)

-- A conversation is not archived while the active task is one of its tasks.
unfoldable pub archives_active : Change → Server → Bool
unfolding raises any
archives_active d s = raises d.archived && elim d.id [
  | given id ↦ any (λ (t : Task). is_active s t && t.conversation_id == id) s.state.tasks
  | _ ↦ false
]

-- POST /api/conversations.
unfoldable pub post_conversation : Change → Bool → Server → Server
unfolding archives_active update_conversation
post_conversation d ok s =
    let updated : Server = elim (update_conversation (some d) s.state) [
      | inl r ↦ send r.status s
      | inr state ↦ send (if ok then 200 else 500) (saved ok (record s { state = state }))
    ] in
    if s.closing || not s.healthy
    then send 503 s
    else if archives_active d s
    then send 409 s
    else updated

abbrev pub named : String → Task → Bool
named id t = t.id == id

-- POST /api/stop: a queued task is stopped at once, a task in progress after a save.
unfoldable pub post_stop : ℕ → String → Bool → Server → Server
unfolding find is_queued in_progress edit_first record_event
post_stop now id ok s = elim (find (named id) s.state.tasks) [
  | none ↦ send 404 s
  | some t ↦
      if is_queued t
      then send (if ok then 200 else 500) (
          saved ok (
            edit_task (named id)
              (λ (u : Task). record (record_event now Kind.cancelled u) {
                status = Status.cancelled;
                activity = "Stopped before execution";
              })
              s))
      else if not (is_active s t) || not (in_progress t)
      then send 409 s
      else record (edit_task (named id)
          (λ (u : Task). record (record_event now Kind.cancelling u) {
            status = Status.cancelling;
            activity = "Stopping";
          })
          s) { stopping = s.stopping ++ id ∷ [] }
]

-- After the save of a stop: the turn may have ended meanwhile.
unfoldable pub stop_saved : Bool → Server → Server
stop_saved ok s = elim s.stopping [
  | [] ↦ s
  | id ∷ ids ↦
      let next = record s { stopping = ids } in
      if not ok
      then send 500 (saved false next)
      else if elim s.active [ none ↦ false | some running ↦ running == id ]
      then send 202 (record next { cancels = suc s.cancels })
      else send 200 next
]

-- The calls at which the server is entered.
pub data Entered : Type 0 where
  task_posted : Outside → Option Request → Entered
  task_stored : ℕ → Bool → Entered
  conversation_posted : Change → Bool → Entered
  stop_posted : ℕ → String → Bool → Entered
  stop_stored : Bool → Entered
  turn_settled : ℕ → (Task → Task) → Bool → Entered
  turn_stored : ℕ → Bool → Entered
  shut_down : Entered

unfoldable pub enter_server : Entered → Server → Server
unfolding post_task task_saved post_conversation post_stop stop_saved settle_turn end_turn
    has_active
enter_server (task_posted out request) s = post_task out request s
enter_server (task_stored now ok) s = task_saved now ok s
enter_server (conversation_posted d ok) s = post_conversation d ok s
enter_server (stop_posted now id ok) s = post_stop now id ok s
enter_server (stop_stored ok) s = stop_saved ok s
enter_server (turn_settled now work rejected) s =
    if has_active s then settle_turn now work rejected s else s
enter_server (turn_stored now ok) s = if has_active s then end_turn now ok s else s
enter_server shut_down s = record s { closing = true }

unfoldable pub serve : List Entered → Server → Server
unfolding enter_server
serve [] s = s
serve (e ∷ es) s = serve es (enter_server e s)

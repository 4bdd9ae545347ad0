-- ===== src/Supervisor/Spawn.antt =====
-- The life of a worker in runTurn of apps/poc/supervisor.mjs: the handshake, the turn, and the end. What the code
-- meets after each of its awaits is an event, and so is each callback.
pub mod Greeted
pub mod Admitted
pub mod Token
pub mod Late
use agentmeld.Prelude.{
  ℕ, suc, String, Bool, true, false, not, ◌&&◌, ◌||◌, List, [], ◌∷◌, ◌++◌, Option, none, some,
  if◌then◌else◌, ◌==◌, string_eq, nat_eq,
}
use agentmeld.Supervisor.{
  Supervisor, Turn, Env, Message, Promise, pending, resolved, rejected, protocol_name,
}
use agentmeld.Supervisor.Dispatch.{
  handle_worker_message, on_turn_transport_error, on_worker_close, cancel_active_turn, start_turn,
}

-- Where runTurn stands: before the socket listens, at the handshake, at the turn's promise, or past the
-- first statement of the finally.
pub data Phase : Type 0 where
  listening shaking running over : Phase

pub data Signal : Type 0 where
  terminate kill : Signal

-- service.session.welcome and service.turn.start
pub data Greeting : Type 0 where
  welcome : String → Greeting
  turn_start : Greeting

-- A frame as the reader hears it. A hello has the type and the protocol of one, and a text for its id.
pub data Heard : Type 0 where
  hello : String → ℕ → String → Heard
  message : Message → Heard

-- `supervisor` is `this`; `turn` is `cur` while it is not `this.current`, which holds it otherwise. The handshake
-- is settled once it is no longer pending.
pub record Spawn : Type 0 where
  pub supervisor : Supervisor
  pub turn : Turn
  pub token : String
  pub child : Option ℕ
  pub phase : Phase
  pub handshake : Promise
  pub has_socket : Bool
  pub destroyed : ℕ
  pub welcomed : Bool
  pub greetings : List Greeting
  pub signals : List Signal

unfoldable pub unsettled : Promise → Bool
unsettled pending = true
unsettled _ = false

-- settleHandshake
unfoldable pub settle_handshake : Promise → Spawn → Spawn
unfolding unsettled
settle_handshake p s = if unsettled s.handshake then record s { handshake = p } else s

abbrev pub on_this : (Supervisor → Supervisor) → Spawn → Spawn
on_this f s = record s { supervisor = f s.supervisor }

-- A callback that settles a handshake, and is about the turn after it.
abbrev pub before_or_after : String → (Supervisor → Supervisor) → Spawn → Spawn
before_or_after e f s =
    if unsettled s.handshake then settle_handshake (rejected e) s else on_this f s

abbrev pub has_pid : ℕ → Option ℕ → Bool
has_pid pid none = false
has_pid pid (some own) = pid == own

-- An error of the hello: the handshake fails, and the socket goes.
abbrev pub refuse_hello : String → Spawn → Spawn
refuse_hello e s = record (settle_handshake (rejected e) s) { destroyed = suc s.destroyed }

-- A hello with this child's pid and this spawn's token is welcomed, whatever became of the handshake.
unfoldable pub on_hello : String → ℕ → String → Spawn → Spawn
unfolding settle_handshake
on_hello msg_id pid token s =
    if has_pid pid s.child && token == s.token
    then settle_handshake resolved (record s {
      welcomed = true;
      supervisor = record s.supervisor { current = some s.turn };
      greetings = s.greetings ++ welcome msg_id ∷ [];
    })
    else refuse_hello "worker hello rejected" s

-- onFrame; after the welcome, a hello is a message of a type that is not listed.
unfoldable pub on_frame : Env → (String → ℕ → String → Message) → Heard → Spawn → Spawn
unfolding on_hello handle_worker_message settle_handshake
on_frame env as_message (hello msg_id pid token) s =
    if s.welcomed
    then on_this (handle_worker_message env (as_message msg_id pid token)) s
    else on_hello msg_id pid token s
on_frame env as_message (message m) s =
    if s.welcomed
    then on_this (handle_worker_message env m) s
    else refuse_hello "bad worker hello" s

-- A second connection is dropped.
unfoldable pub on_connection : Spawn → Spawn
on_connection s =
    if s.has_socket
    then record s { destroyed = suc s.destroyed }
    else record s { has_socket = true }

unfoldable pub on_timeout : Spawn → Spawn
unfolding settle_handshake
on_timeout s =
    if unsettled s.handshake
    then record (settle_handshake (rejected "worker hello timeout") s) {
      signals = elim s.child [ none ↦ s.signals | some pid ↦ s.signals ++ kill ∷ [] ];
    }
    else s

-- The socket's close counts only after the welcome.
unfoldable pub on_socket_close : Env → Spawn → Spawn
unfolding on_worker_close
on_socket_close env s = if s.welcomed then on_this (on_worker_close env) s else s

-- The finally, up to its first await: `cur` is `this.current` no longer.
unfoldable pub clear : Spawn → Spawn
clear s = record s {
  phase = over;
  turn = elim s.supervisor.current [ none ↦ s.turn | some t ↦ t ];
  supervisor = record { current = none; pending_cancel = false };
}

unfoldable pub settled_turn : Spawn → Bool
unfolding unsettled
settled_turn s = elim s.supervisor.current [
  | none ↦ not (unsettled s.turn.promise)
  | some t ↦ not (unsettled t.promise)
]

-- runTurn goes on after an await that is over: after the socket listens it spawns, after the handshake it
-- starts the turn, and after either promise fails or the turn's is settled it runs the finally.
unfoldable pub proceed : ℕ → Spawn → Spawn
unfolding clear settled_turn start_turn
proceed pid s =
    let started = record (on_this start_turn s) {
      phase = running;
      greetings = s.greetings ++ turn_start ∷ [];
    } in
    let cleared = clear s in
    elim s.phase [
      | listening ↦ record s { phase = shaking; child = some pid }
      | shaking ↦ elim s.handshake [ pending ↦ s | resolved ↦ started | rejected e ↦ cleared ]
      | running ↦ if settled_turn s then cleared else s
      | over ↦ s
    ]

-- reapChild: whether the child exits in the first and in the second period of grace.
unfoldable pub reap : Bool → Bool → List Signal
reap true second = []
reap false true = terminate ∷ []
reap false false = terminate ∷ kill ∷ []

pub data SpawnEvent : Type 0 where
  proceeds : ℕ → SpawnEvent
  listen_fails : String → SpawnEvent
  connects : SpawnEvent
  hears : Env → (String → ℕ → String → Message) → Heard → SpawnEvent
  reader_fails : Env → String → SpawnEvent
  socket_closes : Env → SpawnEvent
  child_fails : String → SpawnEvent
  child_exits : Env → SpawnEvent
  server_fails : Env → String → SpawnEvent
  times_out : SpawnEvent
  cancels : String → SpawnEvent
  reaps : Bool → Bool → SpawnEvent

-- The end of `listen` without a socket: two handlers hear of it, that of the handshake first.
unfoldable pub on_listen_error : String → Spawn → Spawn
unfolding clear settle_handshake
on_listen_error e s =
    let cleared = clear (settle_handshake (rejected e) s) in
    elim s.phase [ listening ↦ cleared | _ ↦ s ]

unfoldable pub on_reaped : Bool → Bool → Spawn → Spawn
unfolding reap
on_reaped first second s =
    let reaped = record s { signals = s.signals ++ reap first second } in
    elim s.phase [ over ↦ elim s.child [ none ↦ s | some pid ↦ reaped ] | _ ↦ s ]

unfoldable pub spawn_event : SpawnEvent → Spawn → Spawn
unfolding proceed on_listen_error on_connection on_frame on_socket_close settle_handshake on_timeout
    on_reaped on_turn_transport_error on_worker_close cancel_active_turn
spawn_event (proceeds pid) s = proceed pid s
spawn_event (listen_fails e) s = on_listen_error e s
spawn_event connects s = on_connection s
spawn_event (hears env as_message heard) s = on_frame env as_message heard s
spawn_event (reader_fails env e) s = before_or_after e (on_turn_transport_error env e) s
spawn_event (socket_closes env) s = on_socket_close env s
spawn_event (child_fails e) s = settle_handshake (rejected e) s
spawn_event (child_exits env) s =
    before_or_after "worker exited before hello" (on_worker_close env) s
spawn_event (server_fails env e) s = before_or_after e (on_turn_transport_error env e) s
spawn_event times_out s = on_timeout s
spawn_event (cancels reason) s = on_this (cancel_active_turn reason) s
spawn_event (reaps first second) s = on_reaped first second s

unfoldable pub spawn_events : List SpawnEvent → Spawn → Spawn
unfolding spawn_event
spawn_events [] s = s
spawn_events (e ∷ es) s = spawn_events es (spawn_event e s)

-- What runTurn makes for a turn, with the cancels that were armed before.
unfoldable pub new_spawn : Bool → String → Turn → Spawn
new_spawn armed token t = record {
  supervisor = record { current = none; pending_cancel = armed };
  turn = t;
  token = token;
  child = none;
  phase = listening;
  handshake = pending;
  has_socket = false;
  destroyed = 0;
  welcomed = false;
  greetings = [];
  signals = [];
}

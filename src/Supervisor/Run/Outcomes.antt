-- ===== src/Supervisor/Run/Outcomes.antt =====
-- What holds of a turn of apps/poc/supervisor.mjs after any sequence of actions: how it may end, that
-- its end is final, and when it never ends.
use agentmeld.Prelude.{
  String, Bool, true, false, Option, none, some, List, [], ◌∷◌, ◌≡◌, refl, ◌∙◌, arith, subst,
  if◌then◌else◌, eq_lem, string_eq, nat_eq,
}
use agentmeld.Prelude.Outcome.{done, threw}
use agentmeld.Supervisor.{
  Turn, Supervisor, Env, Event, Message, Stored, pending, events_append, protocol_name, send_frame,
  Reply, turn_cancel,
}
use agentmeld.Supervisor.Append.{store_events, finish_append, on_events_append}
use agentmeld.Supervisor.Dispatch.{
  fail_turn, handle_message, handle_body, on_current, handle_worker_message,
  on_turn_transport_error, on_worker_close, cancel_active_turn,
}
use agentmeld.Supervisor.Replay.{promise-store_events}
use agentmeld.Supervisor.Settling.{IsSafe, fail_turn-IsSafe, handle_message-IsSafe}
use agentmeld.Supervisor.Run.{Action, message, transport_error, close, cancel, act, run}

abbrev active : Supervisor → Option Turn
active s = s.current

abbrev Current {ℓ} : (Turn → Type ℓ) → Option Turn → Type ℓ
Current P none = Unit
Current P (some t) = P t

-- A property of the active turn that every handler keeps holds after any sequence of actions.
module _ {ℓ} (P : Turn → Type ℓ)
    (message_keeps : (env : Env) (msg : Message) (t : Turn) → P t → P (handle_message env msg t))
    (fail_keeps : (env : Env) (e : String) (t : Turn) → P t → P (fail_turn env e t))
    (sent_keeps : (b : Reply) (t : Turn) → P t → P (send_frame none b t)) where
  on_current_keeps :
      (f : Turn → Turn)
      → ((t : Turn) → P t → P (f t))
      → (c : Option Turn) (armed : Bool) → Current P c
      → Current P (on_current f (record { current = c; pending_cancel = armed })).current
  on_current_keeps f k none armed h = tt
  on_current_keeps f k (some t) armed h = k t h

  cancel_keeps :
      (reason : String) (c : Option Turn) (armed : Bool)
      → Current P c
      → Current P
          (cancel_active_turn reason (record { current = c; pending_cancel = armed })).current
  unfolding cancel_active_turn
  cancel_keeps reason none armed h = tt
  cancel_keeps reason (some t) armed h = branch t.turn_started
    where
      branch :
          (b : Bool)
          → Current P (
              active (
                if b
                then record {
                  current = some (send_frame none (turn_cancel reason) t);
                  pending_cancel = armed;
                }
                else record { current = some t; pending_cancel = true }))
      branch true = sent_keeps (turn_cancel reason) t h
      branch false = h

  act_keeps : (a : Action) (s : Supervisor) → Current P s.current → Current P (act a s).current
  unfolding act handle_worker_message on_turn_transport_error on_worker_close
  act_keeps (message env msg) s h =
      on_current_keeps (handle_message env msg) (message_keeps env msg) s.current s.pending_cancel h
  act_keeps (transport_error env e) s h =
      on_current_keeps (fail_turn env e) (fail_keeps env e) s.current s.pending_cancel h
  act_keeps (close env) s h =
      on_current_keeps (fail_turn env "worker exited mid-turn")
        (fail_keeps env "worker exited mid-turn") s.current s.pending_cancel h
  act_keeps (cancel reason) s h = cancel_keeps reason s.current s.pending_cancel h

  run_keeps :
      (actions : List Action) (s : Supervisor)
      → Current P s.current
      → Current P (run actions s).current
  unfolding run
  run_keeps [] s h = h
  run_keeps (a ∷ rest) s h = run_keeps rest (act a s) (act_keeps a s h)

-- A turn as runTurn makes it.
pub record IsFresh (t : Turn) : Type 0 where
  pub unsettled : t.promise ≡ pending
  pub open_turn : t.turn_done ≡ false
  pub unfinished : t.saw_terminal ≡ false

IsFresh-IsSafe : (t : Turn) → IsFresh t → IsSafe t
IsFresh-IsSafe t f = ground arith

send_frame-IsSafe : (b : Reply) (t : Turn) → IsSafe t → IsSafe (send_frame none b t)
send_frame-IsSafe b t s = ground arith

-- A turn that starts fresh, and meets any messages, transport errors, closes and cancels, in any order,
-- under any answers of the clock, the store, the staging directory and the digests: its promise is
-- settled only once it is done; it is resolved only if its task was seen to end; a task that was seen to
-- end is not at work; and a turn that is done with no end seen has left its task out of work and its
-- conversation closed to any continuation.
pub run-IsSafe :
    (actions : List Action) (armed : Bool) (t u : Turn)
    → IsFresh t
    → (run actions (record { current = some t; pending_cancel = armed })).current ≡ some u
    → IsSafe u
run-IsSafe actions armed t u f e = subst (Current IsSafe) e (
    run_keeps IsSafe handle_message-IsSafe fail_turn-IsSafe send_frame-IsSafe actions
      (record { current = some t; pending_cancel = armed }) (IsFresh-IsSafe t f))

-- What a turn that is done keeps.
pub record Final (t u : Turn) : Type 0 where
  pub stays_done : u.turn_done ≡ true
  pub task : u.task ≡ t.task
  pub conversation : u.conversation ≡ t.conversation
  pub promise : u.promise ≡ t.promise
  pub ledger : u.applied_event_ids ≡ t.applied_event_ids

pub handle_message-Final :
    (t : Turn) (env : Env) (msg : Message) (u : Turn)
    → Final t u
    → Final t (handle_message env msg u)
unfolding handle_message
handle_message-Final t env msg u f = ground arith

pub fail_turn-Final :
    (t : Turn) (env : Env) (e : String) (u : Turn) → Final t u → Final t (fail_turn env e u)
unfolding fail_turn
fail_turn-Final t env e u f = ground arith

pub send_frame-Final : (t : Turn) (b : Reply) (u : Turn) → Final t u → Final t (send_frame none b u)
send_frame-Final t b u f = ground arith

-- The same for handlers that run whole.
pub run-Final :
    (actions : List Action) (armed : Bool) (t u : Turn)
    → t.turn_done ≡ true
    → (run actions (record { current = some t; pending_cancel = armed })).current ≡ some u
    → Final t u
run-Final actions armed t u d e = subst (Current (Final t)) e (
    run_keeps (Final t) (handle_message-Final t) (fail_turn-Final t) (send_frame-Final t) actions
      (record { current = some t; pending_cancel = armed })
      (record { stays_done = d; task = refl; conversation = refl; promise = refl; ledger = refl }))

-- A turn whose promise nothing can settle any more.
abbrev pub Hung : Turn → Type 0
Hung t = (t.turn_done ≡ true) × (t.promise ≡ pending)

hung_append :
    (env : Env) (reply : Option String) (events : List Event) (t v : Turn) (rows : List Stored)
    → store_events env events [] t ≡ done (v, rows)
    → v.turn_done ≡ true
    → env.saved ≡ false
    → on_events_append env reply events t ≡ threw "save failed" v
unfolding on_events_append finish_append
hung_append env reply events t v rows e d lost = rw (e, on_events_append) (simp lost)

hung_message :
    (env : Env) (msg : Message) (events : List Event) (t v : Turn)
    → t.turn_done ≡ false
    → msg.protocol ≡ protocol_name
    → msg.run_id ≡ t.run_id
    → msg.generation ≡ t.generation
    → msg.body ≡ events_append events
    → on_events_append env msg.msg_id events t ≡ threw "save failed" v
    → v.turn_done ≡ true
    → handle_message env msg t ≡ v
unfolding handle_message handle_body fail_turn
hung_message env msg events t v live p r g b e d = ground (
  arith,
  eq_lem msg.protocol protocol_name,
  eq_lem msg.run_id t.run_id,
  eq_lem msg.generation t.generation,
)

-- A batch for the active turn whose events are all applied and leave the turn done (run.terminated is
-- among them), and whose save then fails: the turn is done while its promise is pending, and it stays so
-- whatever arrives afterwards. failTurn returns early for a turn that is done, so runTurn, which awaits
-- the promise, never ends.
pub run-Hung :
    (env : Env) (msg : Message) (events : List Event) (t v : Turn) (rows : List Stored)
    (actions : List Action) (armed : Bool) (u : Turn)
    → IsFresh t
    → msg.protocol ≡ protocol_name
    → msg.run_id ≡ t.run_id
    → msg.generation ≡ t.generation
    → msg.body ≡ events_append events
    → store_events env events [] t ≡ done (v, rows)
    → v.turn_done ≡ true
    → env.saved ≡ false
    → (run
        (message env msg ∷ actions)
        (record { current = some t; pending_cancel = armed })).current
      ≡ some u
    → Hung u
unfolding run act handle_worker_message
run-Hung env msg events t v rows actions armed u f p r g b e d lost h =
    let thrown = hung_append env msg.msg_id events t v rows e d lost in
    let at_v = hung_message env msg events t v f.open_turn p r g b thrown d in
    let final = run-Final actions armed v u d (
      subst
        (λ (w : Turn).
          (run actions (record { current = some w; pending_cancel = armed })).current ≡ some u)
        at_v h) in
    (final.stays_done, final.promise ∙ promise-store_events env events [] t v rows e ∙ f.unsettled)

-- ===== src/Supervisor/Spawn/Late.antt =====
-- The end of a spawn of apps/poc/supervisor.mjs: what may still reach the supervisor after the finally of
-- runTurn, and what the next turn finds.
use agentmeld.Prelude.{
  ℕ, String, Bool, true, false, List, [], ◌∷◌, none, some, ◌≡◌, refl, ◌∙◌, arith, inl, string_eq,
  nat_eq, eq_self,
}
use agentmeld.Supervisor.{Supervisor, Turn, Env, Message, rejected}
use agentmeld.Supervisor.Dispatch.{
  on_current, handle_worker_message, on_turn_transport_error, on_worker_close, cancel_active_turn,
  handle_message, fail_turn,
}
use agentmeld.Supervisor.Spawn.{
  over, hello, message, Spawn, settle_handshake, on_this, before_or_after, on_hello, on_frame,
  on_connection, on_timeout, on_socket_close, clear, proceed, SpawnEvent, proceeds, listen_fails,
  connects, hears, reader_fails, socket_closes, child_fails, child_exits, server_fails, times_out,
  cancels, reaps, on_listen_error, on_reaped, spawn_event, spawn_events,
}
use agentmeld.Data.{Task, Conversation}
use agentmeld.Supervisor.{Binding}
use agentmeld.Supervisor.Setup.{set_up_turn}

-- A spawn past its finally.
unfoldable has_turn : Supervisor → Bool
has_turn s = elim s.current [ none ↦ false | some t ↦ true ]

record IsOver (present : Bool) (s : Spawn) : Type 0 where
  ended : s.phase ≡ over
  joined : s.welcomed ≡ true
  current : has_turn s.supervisor ≡ present

has_turn-on_current : (f : Turn → Turn) (s : Supervisor) → has_turn (on_current f s) ≡ has_turn s
unfolding has_turn
has_turn-on_current f s = ground arith

has_turn-cancel :
    (reason : String) (s : Supervisor) → has_turn (cancel_active_turn reason s) ≡ has_turn s
unfolding has_turn cancel_active_turn
has_turn-cancel reason s = ground arith

-- A step that leaves the phase and the welcome, and a turn where there was one.
IsOver-after :
    {present : Bool} (s u : Spawn)
    → IsOver present s
    → u.phase ≡ s.phase
    → u.welcomed ≡ s.welcomed
    → has_turn u.supervisor ≡ has_turn s.supervisor
    → IsOver present u
IsOver-after s u i p w c = record {
  ended = p ∙ i.ended;
  joined = w ∙ i.joined;
  current = c ∙ i.current;
}

after_either :
    {present : Bool} (e : String) (f : Turn → Turn) (s : Spawn)
    → IsOver present s
    → IsOver present (before_or_after e (on_current f) s)
unfolding settle_handshake
after_either e f s i =
    IsOver-after s (before_or_after e (on_current f) s) i (ground arith) (ground arith)
      (ground (arith, has_turn-on_current f s.supervisor))

spawn_event-IsOver :
    (present : Bool) (e : SpawnEvent) (s : Spawn)
    → IsOver present s
    → IsOver present (spawn_event e s)
unfolding spawn_event proceed on_frame settle_handshake on_connection on_socket_close on_timeout
    on_reaped on_listen_error handle_worker_message on_turn_transport_error on_worker_close
spawn_event-IsOver present (proceeds pid) s i =
    IsOver-after s (proceed pid s) i (ground (arith, i.ended)) (ground (arith, i.ended))
      (ground (arith, i.ended))
spawn_event-IsOver present (listen_fails e) s i =
    IsOver-after s (on_listen_error e s) i (ground (arith, i.ended)) (ground (arith, i.ended))
      (ground (arith, i.ended))
spawn_event-IsOver present connects s i =
    IsOver-after s (on_connection s) i (ground arith) (ground arith) (ground arith)
spawn_event-IsOver present (hears env f (hello m pid given)) s i =
    IsOver-after s (on_frame env f (hello m pid given) s) i (ground (arith, i.joined))
      (ground (arith, i.joined))
      (ground
        (arith, i.joined, has_turn-on_current (handle_message env (f m pid given)) s.supervisor))
spawn_event-IsOver present (hears env f (message m)) s i =
    IsOver-after s (on_frame env f (message m) s) i (ground (arith, i.joined))
      (ground (arith, i.joined))
      (ground (arith, i.joined, has_turn-on_current (handle_message env m) s.supervisor))
spawn_event-IsOver present (reader_fails env e) s i = after_either e (fail_turn env e) s i
spawn_event-IsOver present (socket_closes env) s i =
    IsOver-after s (on_socket_close env s) i (ground arith) (ground arith)
      (ground (arith, has_turn-on_current (fail_turn env "worker exited mid-turn") s.supervisor))
spawn_event-IsOver present (child_fails e) s i =
    IsOver-after s (settle_handshake (rejected e) s) i (ground arith) (ground arith) (ground arith)
spawn_event-IsOver present (child_exits env) s i =
    after_either "worker exited before hello" (fail_turn env "worker exited mid-turn") s i
spawn_event-IsOver present (server_fails env e) s i = after_either e (fail_turn env e) s i
spawn_event-IsOver present times_out s i =
    IsOver-after s (on_timeout s) i (ground arith) (ground arith) (ground arith)
spawn_event-IsOver present (cancels reason) s i =
    IsOver-after s (on_this (cancel_active_turn reason) s) i refl refl
      (has_turn-cancel reason s.supervisor)
spawn_event-IsOver present (reaps first second) s i =
    IsOver-after s (on_reaped first second s) i (ground arith) (ground arith) (ground arith)

spawn_events-IsOver :
    (present : Bool) (es : List SpawnEvent) (s : Spawn)
    → IsOver present s
    → IsOver present (spawn_events es s)
unfolding spawn_events
spawn_events-IsOver present [] s i = i
spawn_events-IsOver present (e ∷ es) s i =
    spawn_events-IsOver present es (spawn_event e s) (spawn_event-IsOver present e s i)

-- After a turn whose worker had been welcomed, the supervisor is free for the next turn and stays so: past the
-- finally of runTurn, no callback of the spawn that still runs, in any order, gives it a current turn.
pub spawn_events-free :
    (es : List SpawnEvent) (s : Spawn)
    → s.welcomed ≡ true
    → (spawn_events es (clear s)).supervisor.current ≡ none
unfolding clear has_turn
spawn_events-free es s w =
    let i =
      spawn_events-IsOver false es (clear s)
        (record { ended = refl; joined = w; current = refl }) in
    ground (arith, i.current)

-- A hello that is heard only after the finally of a turn whose handshake failed, from the child that was spawned
-- and with its token: the supervisor takes the old turn as its current one, whatever happens later
-- leaves it there, and every later turn is refused before it starts.
pub spawn_events-late_hello :
    (env : Env) (as_message : String → ℕ → String → Message) (m : String) (pid : ℕ)
    (es : List SpawnEvent) (s : Spawn) (sha256 : List ℕ → String) (b : Binding) (c : Conversation)
    (t : Task)
    → s.phase ≡ over
    → s.welcomed ≡ false
    → s.child ≡ some pid
    → set_up_turn sha256 b c t
        (spawn_events (hears env as_message (hello m pid s.token) ∷ es) s).supervisor
      ≡ inl "supervisor already has an active turn"
unfolding spawn_events spawn_event on_frame on_hello settle_handshake has_turn set_up_turn
spawn_events-late_hello env as_message m pid es s sha256 b c t p w k =
    let heard = spawn_event (hears env as_message (hello m pid s.token)) s in
    let i = spawn_events-IsOver true es heard (record {
      ended = ground (arith, p, w, k, eq_self pid, eq_self s.token);
      joined = ground (arith, p, w, k, eq_self pid, eq_self s.token);
      current = ground (arith, p, w, k, eq_self pid, eq_self s.token);
    }) in
    ground (arith, i.current)

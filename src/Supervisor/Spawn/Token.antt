-- ===== src/Supervisor/Spawn/Token.antt =====
-- The token of a spawn of apps/poc/supervisor.mjs: without it, no process reaches a turn.
use agentmeld.Prelude.{
  ℕ, String, Bool, true, false, not, List, [], ◌∷◌, none, ◌≡◌, refl, subst, arith, All, ◌==◌,
  string_eq, nat_eq, eq_lem,
}
use agentmeld.Supervisor.{Turn}
use agentmeld.Supervisor.Spawn.{
  Phase, Greeting, hello, message, Spawn, settle_handshake, on_hello, on_frame, on_connection,
  on_timeout, on_socket_close, clear, proceed, SpawnEvent, proceeds, listen_fails, connects, hears,
  reader_fails, socket_closes, child_fails, child_exits, server_fails, times_out, cancels, reaps,
  on_listen_error, on_reaped, spawn_event, spawn_events, new_spawn,
}
use agentmeld.Supervisor.Spawn.Admitted.{spawn_events-IsSpawn}
use agentmeld.Supervisor.Spawn.Greeted.{greeted}

-- An event that does not bring a hello with the token.
unfoldable pub without_token : String → SpawnEvent → Bool
without_token token (hears env as_message (hello m pid given)) = not (given == token)
without_token token _ = true

-- A spawn that no worker has joined.
pub record IsShut (token : String) (s : Spawn) : Type 0 where
  pub unwelcome : s.welcomed ≡ false
  pub same_token : s.token ≡ token

proceeding : {token : String} (pid : ℕ) (s : Spawn) → IsShut token s → IsShut token (proceed pid s)
unfolding proceed clear
proceeding pid s i = record {
  unwelcome = ground (arith, i.unwelcome);
  same_token = ground (arith, i.same_token);
}

spawn_event-IsShut :
    (token : String) (e : SpawnEvent) (s : Spawn)
    → without_token token e ≡ true
    → IsShut token s
    → IsShut token (spawn_event e s)
unfolding spawn_event without_token on_frame on_hello settle_handshake on_connection on_socket_close
    on_timeout on_reaped on_listen_error clear
spawn_event-IsShut token (proceeds pid) s h i = proceeding pid s i
spawn_event-IsShut token (listen_fails e) s h i = record {
  unwelcome = ground (arith, i.unwelcome);
  same_token = ground (arith, i.same_token);
}
spawn_event-IsShut token connects s h i = record {
  unwelcome = ground (arith, i.unwelcome);
  same_token = ground (arith, i.same_token);
}
spawn_event-IsShut token (hears env f (hello m pid given)) s h i = record {
  unwelcome =
      ground (arith, h, i.unwelcome, i.same_token, eq_lem given s.token, eq_lem given token);
  same_token = ground (arith, i.unwelcome, i.same_token);
}
spawn_event-IsShut token (hears env f (message m)) s h i = record {
  unwelcome = ground (arith, i.unwelcome);
  same_token = ground (arith, i.unwelcome, i.same_token);
}
spawn_event-IsShut token (reader_fails env e) s h i = record {
  unwelcome = ground (arith, i.unwelcome);
  same_token = ground (arith, i.same_token);
}
spawn_event-IsShut token (socket_closes env) s h i = record {
  unwelcome = ground (arith, i.unwelcome);
  same_token = ground (arith, i.same_token);
}
spawn_event-IsShut token (child_fails e) s h i = record {
  unwelcome = ground (arith, i.unwelcome);
  same_token = ground (arith, i.same_token);
}
spawn_event-IsShut token (child_exits env) s h i = record {
  unwelcome = ground (arith, i.unwelcome);
  same_token = ground (arith, i.same_token);
}
spawn_event-IsShut token (server_fails env e) s h i = record {
  unwelcome = ground (arith, i.unwelcome);
  same_token = ground (arith, i.same_token);
}
spawn_event-IsShut token times_out s h i = record {
  unwelcome = ground (arith, i.unwelcome);
  same_token = ground (arith, i.same_token);
}
spawn_event-IsShut token (cancels reason) s h i = record {
  unwelcome = i.unwelcome;
  same_token = i.same_token;
}
spawn_event-IsShut token (reaps first second) s h i = record {
  unwelcome = ground (arith, i.unwelcome);
  same_token = ground (arith, i.same_token);
}

spawn_events-IsShut :
    (token : String) (es : List SpawnEvent) (s : Spawn)
    → All (λ e. without_token token e ≡ true) es
    → IsShut token s
    → IsShut token (spawn_events es s)
unfolding spawn_events
spawn_events-IsShut token [] s h i = i
spawn_events-IsShut token (e ∷ es) s h i =
    spawn_events-IsShut token es (spawn_event e s) h.1 (spawn_event-IsShut token e s h.0 i)

no_greetings : (p : Phase) (gs : List Greeting) → greeted false p gs ≡ true → gs ≡ []
unfolding greeted
no_greetings p gs h = ground (arith, h)

-- A process that does not know the token never reaches a turn: if no hello brings it, then whatever happens in any
-- order, no worker is greeted, the supervisor has no current turn, and the turn is as runTurn made it.
pub spawn_events-without_token :
    (es : List SpawnEvent) (armed : Bool) (token : String) (t : Turn)
    → All (λ e. without_token token e ≡ true) es
    → let s = spawn_events es (new_spawn armed token t) in
      (s.greetings ≡ []) × (s.supervisor.current ≡ none) × (s.turn ≡ t)
unfolding new_spawn
spawn_events-without_token es armed token t h =
    let s = spawn_events es (new_spawn armed token t) in
    let shut =
      spawn_events-IsShut token es (new_spawn armed token t) h
        (record { unwelcome = refl; same_token = refl }) in
    let i = spawn_events-IsSpawn es armed token t in
    (
      no_greetings s.phase s.greetings
          (subst (λ w. greeted w s.phase s.greetings ≡ true) shut.unwelcome i.in_order),
      i.hidden shut.unwelcome,
      i.untouched shut.unwelcome,
    )

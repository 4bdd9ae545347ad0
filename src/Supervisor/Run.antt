-- ===== src/Supervisor/Run.antt =====
-- Sequences of what reaches the supervisor of apps/poc/supervisor.mjs during a turn.
pub mod Outcomes
use agentmeld.Prelude.{String, List, [], ◌∷◌}
use agentmeld.Supervisor.{Supervisor, Env, Message}
use agentmeld.Supervisor.Dispatch.{
  handle_worker_message, on_turn_transport_error, on_worker_close, cancel_active_turn,
}

pub data Action : Type 0 where
  message : Env → Message → Action
  transport_error : Env → String → Action
  close : Env → Action
  cancel : String → Action

unfoldable pub act : Action → Supervisor → Supervisor
act (message env msg) s = handle_worker_message env msg s
act (transport_error env e) s = on_turn_transport_error env e s
act (close env) s = on_worker_close env s
act (cancel reason) s = cancel_active_turn reason s

unfoldable pub run : List Action → Supervisor → Supervisor
run [] s = s
run (a ∷ rest) s = run rest (act a s)

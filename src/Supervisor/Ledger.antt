-- ===== src/Supervisor/Ledger.antt =====
-- What applyEvent of apps/poc/supervisor.mjs leaves alone: the ledger of applied events, the outbox,
-- the promise and the turn's identity.
use agentmeld.Prelude.{Bool, ◌≡◌, arith, string_eq}
use agentmeld.Prelude.Outcome.{left}
use agentmeld.Supervisor.{
  Turn, Env, BoundSession, Payload, session_bound, run_completed, run_terminated,
}
use agentmeld.Supervisor.Apply.{bind_session, complete, terminate, apply_event}

pub record SameLedger (t u : Turn) : Type 0 where
  pub ids : u.applied_event_ids ≡ t.applied_event_ids
  pub seqs : u.event_seq_by_id ≡ t.event_seq_by_id
  pub next : u.event_seq ≡ t.event_seq
  pub outbox : u.sent ≡ t.sent
  pub settled : u.promise ≡ t.promise
  pub run : u.run_id ≡ t.run_id
  pub fence : u.generation ≡ t.generation
  pub inputs : u.blobs ≡ t.blobs

bind_session-SameLedger : (p : BoundSession) (t : Turn) → SameLedger t (left (bind_session p t))
unfolding bind_session
bind_session-SameLedger p t = ground arith

complete-SameLedger : (env : Env) (t : Turn) → SameLedger t (left (complete env t))
unfolding complete
complete-SameLedger env t = ground arith

terminate-SameLedger : (env : Env) (ok : Bool) (t : Turn) → SameLedger t (terminate env ok t)
unfolding terminate
terminate-SameLedger env ok t = ground arith

pub apply_event-SameLedger :
    (env : Env) (p : Payload) (t : Turn) → SameLedger t (left (apply_event env p t))
unfolding apply_event
apply_event-SameLedger env (session_bound p) t = bind_session-SameLedger p t
apply_event-SameLedger env run_completed t = complete-SameLedger env t
apply_event-SameLedger env (run_terminated ok) t = terminate-SameLedger env ok t
apply_event-SameLedger env _ t = ground arith

-- ===== src/Supervisor/Apply.antt =====
-- normalizeSession, applyEvent and promoteWorkspace of apps/poc/supervisor.mjs.
use Prim.Native.String.{◌++◌ as text_append}
use agentmeld.Prelude.{
  String, Bool, true, false, ◌&&◌, not, Option, none, some, ◌++◌, ◌==◌, string_eq, if◌then◌else◌,
}
use agentmeld.Prelude.Outcome.{Outcome, done, threw, ◌then_do◌}
use agentmeld.Data.{StoredSession, Continuation, Kind, Status}
use agentmeld.Events.{record_event}
use agentmeld.Supervisor.{
  Turn, Env, Binding, BoundSession, Payload, run_started, run_restored, run_thinking, run_saving,
  artifacts_delivered, run_interrupted, answer_delta, activity_changed, session_bound,
  run_completed, run_failed, run_cancelled, run_terminated, approval, unknown,
}

pub record Session : Type 0 where
  pub image_digest : Option String
  pub store_instance : Option String
  pub model : Option String
  pub policy_digest : Option String
  pub thread_id : Option String

-- a ?? b
infixr 20 ◌or_else◌
abbrev pub ◌or_else◌ {ℓ} : {A : Type ℓ} → Option A → Option A → Option A
none or_else b = b
some a or_else b = some a

unfoldable pub normalize_session : Option StoredSession → Option Session
normalize_session none = none
normalize_session (some s) = some (record {
  image_digest = s.image_digest or_else s.image;
  store_instance = s.store_instance or_else s.store_instance_v1;
  model = s.model;
  policy_digest = s.policy_digest or_else s.policy_digest_v1;
  thread_id = s.thread_id or_else s.thread_id_v1;
})

unfoldable pub same_binding : Binding → BoundSession → Bool
same_binding b p =
    p.image_digest == b.image_digest
    && p.store_instance == b.store_instance
    && p.model == b.model
    && p.policy_digest == b.policy_digest

-- prev?.thread_id && prev.thread_id !== thread
unfoldable pub other_thread : Option Session → String → Bool
other_thread none thread = false
other_thread (some s) thread = elim s.thread_id [
  | none ↦ false
  | some prev ↦ if prev == "" then false else not (prev == thread)
]

unfoldable pub stored_session : BoundSession → StoredSession
stored_session p = record {
  image_digest = some p.image_digest;
  image = none;
  store_instance = some p.store_instance;
  store_instance_v1 = none;
  model = some p.model;
  policy_digest = some p.policy_digest;
  policy_digest_v1 = none;
  thread_id = some p.thread_id;
  thread_id_v1 = none;
}

abbrev pub milestone : Env → Kind → Turn → Turn
milestone env kind t = record t { task = record_event env.now kind t.task }

-- The message for a task that the worker did not finish.
abbrev pub unfinished : String
unfinished =
    "The task could not finish. Check that the local VM is running and your Codex subscription is connected, start a new chat to continue. Earlier saved files remain available."

abbrev pub cleanup_failed : String
cleanup_failed =
    "Task ended, but cleanup needs attention. Restart the local service before continuing."

abbrev pub fail_task : String → Turn → Turn
fail_task message t = record t {
  task = record t.task { status = Status.failed; activity = "Needs attention"; error = message };
  conversation = record t.conversation { continuation = Continuation.unavailable };
}

unfoldable pub promote_workspace : Env → Turn → Outcome Turn
promote_workspace env t = elim env.listing [
  | none ↦ threw "worker completed without a workspace snapshot" t
  | some entries ↦ done (record t {
    conversation = record t.conversation { workspace = entries; captured_at = some env.now };
  })
]

unfoldable pub bind_session : BoundSession → Turn → Outcome Turn
unfolding normalize_session same_binding other_thread stored_session
bind_session p t =
    if same_binding t.expected_binding p
    then (if other_thread (normalize_session t.conversation.session) p.thread_id
        then threw "Continuation configuration changed" t
        else done (record t {
          conversation = record t.conversation { session = some (stored_session p) };
        }))
    else threw "Worker binding mismatch" t

-- run.completed: the task reads as completed before the snapshot is promoted.
unfoldable pub complete : Env → Turn → Outcome Turn
unfolding promote_workspace
complete env t =
    promote_workspace env (
      milestone env Kind.completed
        (record t { task = record t.task { status = Status.completed; activity = "Finished" } }))
    then_do λ t'. done (record t' { saw_terminal = true })

unfoldable pub terminate : Env → Bool → Turn → Turn
terminate env cleanup_ok t =
    let ended =
      if t.saw_terminal
      then (if cleanup_ok
          then t
          else milestone env Kind.failed (record t {
            task = record t.task { status = Status.failed; error = cleanup_failed };
            conversation = record t.conversation { continuation = Continuation.unavailable };
          }))
      else milestone env Kind.failed (fail_task unfinished t) in
    record ended { turn_done = true }

unfoldable pub apply_event : Env → Payload → Turn → Outcome Turn
unfolding bind_session complete terminate
apply_event env run_started t = done (milestone env Kind.started t)
apply_event env run_restored t = done (milestone env Kind.restored t)
apply_event env run_thinking t = done (milestone env Kind.thinking t)
apply_event env run_saving t = done (milestone env Kind.saving t)
apply_event env artifacts_delivered t = done t
apply_event env run_interrupted t = done (milestone env Kind.interrupted t)
apply_event env (answer_delta text) t =
    done (record t { task = record t.task { answer = t.task.answer ++ text } })
apply_event env (activity_changed activity) t =
    done (record t { task = record t.task { activity = activity } })
apply_event env (session_bound p) t = bind_session p t
apply_event env run_completed t = complete env t
apply_event env (run_failed error_user stage) t =
    done
      (record (milestone env Kind.failed (record t {
        task = record t.task {
          status = Status.failed;
          activity = "Needs attention";
          error = error_user;
          failure_stage = some stage;
        };
        conversation = record t.conversation { continuation = Continuation.unavailable };
      })) { saw_terminal = true })
apply_event env (run_cancelled stage) t =
    done
      (record (milestone env Kind.cancelled (record t {
        task = record t.task {
          status = Status.cancelled;
          activity = "Stopped";
          error = "";
          failure_stage = some stage;
        };
        conversation = record t.conversation { continuation = Continuation.unavailable };
      })) { saw_terminal = true })
apply_event env (run_terminated cleanup_ok) t = done (terminate env cleanup_ok t)
apply_event env (approval rest) t = done t
apply_event env (unknown event_type) t = threw (text_append "unknown event type: " event_type) t

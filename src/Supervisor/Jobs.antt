-- ===== src/Supervisor/Jobs.antt =====
-- onEventsAppend and onArtifactsDeliver of apps/poc/supervisor.mjs, cut where they await: a handler that awaits is a
-- job, and other messages, errors, closes, cancels and jobs come between its parts. Append and Artifacts have
-- the same handlers run whole, as they go when nothing comes between.
pub mod Quiet
pub mod Over
pub mod Closing
use agentmeld.Prelude.{
  ℕ, zero, suc, String, Bool, true, false, not, ◌||◌, Option, none, some, List, [], ◌∷◌, ◌++◌,
  if◌then◌else◌, contains, length, ltb, map, ◌==◌, string_eq, nat_eq,
}
use agentmeld.Prelude.Outcome.{Outcome, done, threw}
use agentmeld.Data.{Status, Kind}
use agentmeld.Supervisor.{
  Supervisor, Turn, Env, Event, Payload, run_completed, Stored, Message, Body, events_append,
  artifacts_deliver, Manifest, Artifact, artifacts_rejected, service_error, send_frame,
  protocol_name,
}
use agentmeld.Supervisor.Apply.{apply_event, promote_workspace, milestone}
use agentmeld.Supervisor.Append.{seen_row, fresh_row, mark, finish_append}
use agentmeld.Supervisor.Artifacts.{
  entries, refuse, check_manifest, receipt, row, sort_rows, total_size,
}
use agentmeld.Supervisor.Dispatch.{
  fail_turn, handle_message, on_turn_transport_error, on_worker_close, cancel_active_turn,
}

-- A handler at an await: that of applyEvent, which has applied the event; within it, that of the snapshot; that
-- of a batch's save; that of the staged files; that of a delivery's save; and an error on its way to failTurn.
pub data Job : Type 0 where
  applied : Option String → Event → List Event → List Stored → Job
  promoting : Option String → Event → List Event → List Stored → Job
  saving : Option String → List Stored → Job
  reading : Option String → Option Manifest → Job
  delivering : Option String → Option Manifest → Job
  failing : String → Job

-- applyEvent up to its first await, or its end: only run.completed awaits within it.
unfoldable pub begin_event :
    Env → Option String → Event → List Event → List Stored → Turn → Payload → Turn × Job
unfolding apply_event
begin_event env reply e es rows t run_completed = (
  milestone env Kind.completed
      (record t { task = record t.task { status = Status.completed; activity = "Finished" } }),
  promoting reply e es rows,
)
begin_event env reply e es rows t p = elim (apply_event env p t) [
  | done u ↦ (u, applied reply e es rows)
  | threw m u ↦ (u, failing m)
]

-- The loop over a batch up to its next await: events that were applied before need none.
unfoldable pub next_event : Env → Option String → List Event → List Stored → Turn → Turn × Job
unfolding begin_event
next_event env reply [] rows t = (t, saving reply rows)
next_event env reply (e ∷ es) rows t =
    let seen = next_event env reply es (rows ++ seen_row e t ∷ []) t in
    let fresh = begin_event env reply e es rows t e.payload in
    if contains e.event_id t.applied_event_ids then seen else fresh

abbrev pub and_job : Turn × Job → Turn × Option Job
and_job (t, j) = (t, some j)

-- What a handler does when its await is over, up to its next await or its end.
unfoldable pub resume : Env → Job → Turn → Turn × Option Job
unfolding next_event promote_workspace finish_append check_manifest fail_turn
resume env (applied reply e es rows) t =
    and_job (next_event env reply es (rows ++ fresh_row e t ∷ []) (mark e t))
resume env (promoting reply e es rows) t = elim (promote_workspace env t) [
  | done u ↦ (record u { saw_terminal = true }, some (applied reply e es rows))
  | threw m u ↦ (u, some (failing m))
]
resume env (saving reply rows) t = elim (finish_append env reply (t, rows)) [
  | done u ↦ (u, none)
  | threw m u ↦ (u, some (failing m))
]
resume env (reading reply m) t = elim (check_manifest env m) [
  | refuse code message ↦ (send_frame reply (artifacts_rejected code message) t, none)
  | entries files ↦ (
    record t { task = record t.task { artifacts = t.task.artifacts ++ files } },
    some (delivering reply m),
  )
]
resume env (delivering reply m) t =
    if env.saved
    then (send_frame reply (receipt m) t, none)
    else (send_frame reply (artifacts_rejected "internal" "artifact delivery failed") t, none)
resume env (failing m) t = (fail_turn env m t, none)

-- The tests of a manifest that come before the first file is read.
unfoldable pub refuses_manifest : Env → Option Manifest → Option (String × String)
unfolding sort_rows
refuses_manifest env none = some ("malformed", "bad artifact manifest")
refuses_manifest env (some m) =
    if length m.files == 0 || ltb 64 (length m.files)
    then some ("malformed", "bad artifact manifest")
    else if not (env.sha256_rows (sort_rows (map row m.files)) == m.manifest_digest)
    then some ("digest_mismatch", "manifest digest mismatch")
    else if not (m.total_bytes == total_size m.files)
    then some ("malformed", "total_bytes mismatch")
    else none

-- onArtifactsDeliver up to its first await.
unfoldable pub begin_delivery : Env → Option String → Option Manifest → Turn → Turn × Option Job
unfolding refuses_manifest
begin_delivery env reply m t = elim (refuses_manifest env m) [
  | none ↦ (t, some (reading reply m))
  | some (code, message) ↦ (send_frame reply (artifacts_rejected code message) t, none)
]

-- A message for this turn, up to its handler's first await.
unfoldable pub begin_body : Env → Message → Turn → Turn × Option Job
unfolding next_event begin_delivery handle_message
begin_body env msg t =
    let whole : Turn × Option Job = (handle_message env msg t, none) in
    elim msg.body [
      | events_append es ↦ and_job (next_event env msg.msg_id es [] t)
      | artifacts_deliver m ↦ begin_delivery env msg.msg_id m t
      | _ ↦ whole
    ]

-- handleWorkerMessage on the current turn; a message that is not for it, or comes too late, starts no job.
unfoldable pub begin_message : Env → Message → Turn → Turn × Option Job
unfolding begin_body handle_message
begin_message env msg t =
    if t.turn_done
      || not (msg.protocol == protocol_name)
      || not (msg.run_id == t.run_id)
      || not (msg.generation == t.generation)
    then (handle_message env msg t, none)
    else begin_body env msg t

-- The supervisor with the handlers that await.
pub record Station : Type 0 where
  pub supervisor : Supervisor
  pub jobs : List Job

pub data Entry : Type 0 where
  hears : Env → Message → Entry
  resumes : Env → ℕ → Entry
  errs : Env → String → Entry
  closes : Env → Entry
  cancels : String → Entry

abbrev pub job_of : Option Job → List Job
job_of none = []
job_of (some j) = j ∷ []

-- A part of a handler on the current turn: without one it does nothing.
unfoldable pub on_turn : (Turn → Turn × Option Job) → List Job → Supervisor → Station
on_turn f jobs s = elim s.current [
  | none ↦ record { supervisor = s; jobs = jobs }
  | some t ↦ record {
    supervisor = record s { current = some (f t).0 };
    jobs = jobs ++ job_of (f t).1;
  }
]

-- The job of that number, with the others.
unfoldable pub take_job : ℕ → List Job → Option (Job × List Job)
take_job n [] = none
take_job zero (j ∷ jobs) = some (j, jobs)
take_job (suc n) (j ∷ jobs) = elim (take_job n jobs) [
  | none ↦ none
  | some (k, rest) ↦ some (k, j ∷ rest)
]

unfoldable pub enter : Entry → Station → Station
unfolding on_turn begin_message resume take_job on_turn_transport_error on_worker_close
    cancel_active_turn
enter (hears env msg) s = on_turn (begin_message env msg) s.jobs s.supervisor
enter (resumes env n) s = elim (take_job n s.jobs) [
  | none ↦ s
  | some (j, rest) ↦ on_turn (resume env j) rest s.supervisor
]
enter (errs env e) s = record s { supervisor = on_turn_transport_error env e s.supervisor }
enter (closes env) s = record s { supervisor = on_worker_close env s.supervisor }
enter (cancels reason) s = record s { supervisor = cancel_active_turn reason s.supervisor }

unfoldable pub enter_all : List Entry → Station → Station
unfolding enter
enter_all [] s = s
enter_all (e ∷ es) s = enter_all es (enter e s)

-- ===== src/Runtime/Finish.antt =====
-- The catch and the finally of executeTurn in apps/worker/runtime.mjs, the whole function, and the hook for the death of
-- the process.
use Prim.Native.String.{◌++◌ as text_append}
use agentmeld.Prelude.{
  ℕ, String, Bool, true, false, not, ◌&&◌, ◌||◌, none, some, List, [], ◌∷◌, ◌++◌, if◌then◌else◌,
  length, find, ◌==◌, string_eq, nat_eq,
}
use agentmeld.Prelude.Text.{blank, codes}
use agentmeld.Prelude.Outcome.{Outcome, done, threw, left}
use agentmeld.Supervisor.Apply.{unfinished}
use agentmeld.Runtime.{
  Payload, failed, cancelled, terminated, Command, remove_worker, remove_proxy, remove_network,
  Start, World, Worker,
}
use agentmeld.Runtime.Emit.{emit, flush_delta}
use agentmeld.Runtime.Await.{await, docker, milestone, unless_halted}
use agentmeld.Runtime.Execute.{attempt}

-- text.startsWith(part), on code points.
unfoldable pub starts : List ℕ → List ℕ → Bool
starts [] text = true
starts (c ∷ part) [] = false
starts (c ∷ part) (d ∷ text) = c == d && starts part text

unfoldable pub includes : List ℕ → List ℕ → Bool
unfolding starts
includes part [] = starts part []
includes part (d ∷ text) = starts part (d ∷ text) || includes part text

-- The errors of the snapshot that the user may read.
abbrev pub snapshot_codes : List String
snapshot_codes =
    "Unsupported workspace name" ∷ "Workspace size limit exceeded"
    ∷ "Workspace entry limit exceeded" ∷ "Workspace directory depth exceeded"
    ∷ "Workspace changed during capture" ∷ "Unsupported workspace entry" ∷ []

abbrev pub reported : String → String → Bool
reported stderr message = includes (codes (text_append "Error: " message)) (codes stderr)

unfoldable pub snapshot_issue : String → String
unfolding find includes
snapshot_issue stderr = elim (find (reported stderr) snapshot_codes) [
  | none ↦ "Snapshot unavailable"
  | some message ↦ message
]

unfoldable pub error_user : Worker → String
unfolding snapshot_issue
error_user s =
    if s.phase == "snapshot"
    then text_append "Working files could not be safely retained (" (
        text_append (snapshot_issue s.stderr)
          "). Earlier saved files remain available. Start a new chat.")
    else unfinished

-- Whether the catch takes the error as a cancel.
unfoldable pub by_cancel : Worker → Bool
by_cancel s = elim s.fatal [ none ↦ s.cancelled | some message ↦ false ]

unfoldable pub last_event : Worker → Payload
unfolding by_cancel error_user
last_event s = if by_cancel s then cancelled s.phase else failed s.phase (error_user s)

-- The catch: an error of its own await is dropped.
unfoldable pub catch_error : Start → World → Worker → Worker
unfolding flush_delta last_event milestone
catch_error start w s = left (milestone start w (last_event (flush_delta s)) (flush_delta s))

-- A call of docker that may fail: then its label is kept.
abbrev pub noted : String → List String → Outcome Worker → Worker × List String
noted label failures (done s) = (s, failures)
noted label failures (threw message s) = (s, failures ++ label ∷ [])

-- One target of the cleanup, with the labels of those that failed.
unfoldable pub remove_one :
    Start → World → Bool → String → Command → Worker × List String → Worker × List String
unfolding docker
remove_one start w created label command (s, failures) =
    if created && not s.halted
    then noted label failures (docker start w command s)
    else (s, failures)

-- The three targets, as they stood when the list of them was made.
unfoldable pub clean_up : Start → World → Worker → Worker × List String
unfolding remove_one
clean_up start w s = remove_one start w s.network_created "network" remove_network (
    remove_one start w s.proxy_created "proxy container" remove_proxy
      (remove_one start w s.worker_created "worker container" remove_worker (s, [])))

-- The finally: the client's close, the cleanup and run.terminated, whose evidence is the labels.
unfoldable pub finish : Start → World → Worker → Worker
unfolding clean_up await blank
finish start w s =
    let closed = if s.has_client then left (await start w s) else s in
    let (t, failures) = clean_up start w closed in
    unless_halted
      (λ u. left (await start w (emit none (terminated (length failures == 0) failures) u))) t

-- executeTurn, as far as it gets.
unfoldable pub execute_turn : Start → World → Worker → Worker
unfolding attempt catch_error finish
execute_turn start w s = elim (attempt start w s) [
  | done t ↦ finish start w t
  | threw message t ↦ unless_halted (λ u. unless_halted (finish start w) (catch_error start w u)) t
]

-- seam.abortHook: the removal of what exists when the process ends.
unfoldable pub abort_hook : Worker → List Command
abort_hook s =
    (if s.worker_created then remove_worker ∷ [] else [])
    ++ (if s.proxy_created then remove_proxy ∷ [] else [])
    ++ (if s.network_created then remove_network ∷ [] else [])

-- The state when executeTurn starts.
abbrev pub new_worker : Worker
new_worker = record {
  awaits = 0;
  log = [];
  commands = [];
  cancelled = false;
  fatal = none;
  stderr = "";
  answer = [];
  delta_buf = [];
  batch_seq = 0;
  last_activity = none;
  message_id = none;
  phase = "setup";
  network_created = false;
  proxy_created = false;
  worker_created = false;
  has_client = false;
  timer_left = false;
  halted = false;
  uploaded = [];
  staged = [];
  sidecar = none;
  delivered = [];
}

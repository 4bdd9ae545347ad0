-- ===== src/Runtime/Execute.antt =====
-- executeTurn of apps/worker/runtime.mjs: the body of its try, in four parts.
use agentmeld.Prelude.{
  ℕ, zero, suc, String, true, Option, none, some, List, [], ◌∷◌, if◌then◌else◌, length, string_eq,
  nat_eq,
}
use agentmeld.Prelude.Text.{blank}
use agentmeld.Prelude.Outcome.{Outcome, done, threw, ◌then_do◌, in_order}
use agentmeld.Supervisor.{BoundSession, Manifest}
use agentmeld.Supervisor.Apply.{same_binding}
use agentmeld.Runtime.{
  Payload, started, restored, bound, thinking, saving, completed, create_network, create_proxy,
  connect_proxy, start_proxy, logs_proxy, inspect_proxy, create_worker, start_worker, restore_files,
  snapshot_files, Item, Start, World, Worker,
}
use agentmeld.Runtime.Emit.{emit, once_key, flush_delta, queue_activity}
use agentmeld.Runtime.Await.{await, checkpoint, docker, milestone}
use agentmeld.Runtime.Upload.{Upload, gather, fetch_all}
use agentmeld.Runtime.Output.{changed, refused, select_changed, batches, deliver_all}

-- The binding and the thread that provider_session.bound reports.
abbrev pub session_of : World → BoundSession
session_of w = record {
  image_digest = w.binding.image_digest;
  store_instance = w.binding.store_instance;
  model = w.binding.model;
  policy_digest = w.binding.policy_digest;
  thread_id = w.thread_id;
}

-- assert.equal for each key of turn.expected_binding
unfoldable pub check_binding : Start → World → Worker → Outcome Worker
unfolding same_binding
check_binding start w s =
    if same_binding start.expected_binding (session_of w)
    then done s
    else threw "Execution binding changed" s

-- The loop that waits for the proxy: 30 times at most, the logs and then 100 ms.
unfoldable pub wait_ready : Start → World → ℕ → Worker → Outcome Worker
unfolding checkpoint docker await
wait_ready start w zero s = threw "The model connection could not start." s
wait_ready start w (suc n) s = checkpoint s then_do docker start w logs_proxy then_do λ t.
    if w.ready t.awaits then done t else (await start w t then_do wait_ready start w n)

-- new POCClient(...). The constructor sets its timer before it throws.
unfoldable pub open_client : World → Worker → Outcome Worker
open_client w s = elim w.client_error [
  | none ↦ done (record s { has_client = true })
  | some f ↦ threw f.message (record s { stderr = f.stderr; timer_left = true })
]

-- The phase `setup`: readBinding, the event run.started, and the containers.
unfoldable pub set_up_steps : Start → World → List (Worker → Outcome Worker)
unfolding check_binding wait_ready milestone open_client
set_up_steps start w =
    (λ t. await start w (record t { phase = "setup" }))
    ∷ (check_binding start w)
    ∷ checkpoint
    ∷ (milestone start w (started w.turn_digest))
    ∷ (docker start w create_network)
    ∷ (λ t. docker start w create_proxy (record t { network_created = true }))
    ∷ (λ t. docker start w connect_proxy (record t { proxy_created = true }))
    ∷ (docker start w start_proxy)
    ∷ (wait_ready start w 30)
    ∷ (docker start w inspect_proxy)
    ∷ checkpoint
    ∷ (docker start w create_worker)
    ∷ (λ t. docker start w start_worker (record t { worker_created = true }))
    ∷ open_client w
    ∷ []

unfoldable pub set_up : Start → World → Worker → Outcome Worker
unfolding in_order set_up_steps
set_up start w s = in_order (set_up_steps start w) s

abbrev pub no_upload : Upload
no_upload = record { seen_dirs = []; entries = [] }

-- The phase `restore`: the inputs, with their directories, into the container.
unfoldable pub restore_steps : Start → World → List (Worker → Outcome Worker)
unfolding fetch_all gather
restore_steps start w =
    let (upload, bytes) = gather w start.inputs no_upload 0 in
    (λ t. fetch_all start w start.inputs (record t { phase = "restore" }))
    ∷ (λ t. docker start w restore_files (record t { uploaded = upload.entries }))
    ∷ checkpoint
    ∷ (milestone start w (restored (length start.inputs) bytes))
    ∷ []

unfoldable pub restore : Start → World → Worker → Outcome Worker
unfolding in_order restore_steps
restore start w s = in_order (restore_steps start w) s

abbrev pub emit_once : Start → Payload → Worker → Worker
emit_once start payload s = emit (once_key start.run_id payload) payload s

-- The phases `continuation` and `execution`: the thread, its event, and the turn of the provider.
unfoldable pub converse_steps : Start → World → List (Worker → Outcome Worker)
unfolding once_key queue_activity flush_delta
converse_steps start w =
    (λ t. await start w (record t { phase = "continuation" }))
    ∷ checkpoint
    ∷ (milestone start w (bound (session_of w)))
    ∷ (λ t. done (queue_activity "Thinking" (emit_once start thinking t)))
    ∷ (λ t. await start w (record t { phase = "execution" }))
    ∷ checkpoint
    ∷ (λ t. done (flush_delta t))
    ∷ (λ t. if w.result.completed then done t else threw "The model did not finish the task." t)
    ∷ []

unfoldable pub converse : Start → World → Worker → Outcome Worker
unfolding in_order converse_steps
converse start w s = in_order (converse_steps start w) s

-- The last text of an agent's message, if any.
unfoldable pub last_text : List Item → List ℕ
unfolding blank
last_text [] = []
last_text (i ∷ items) =
    let later = last_text items in
    if blank later then (if i.agent_message then i.text else []) else later

-- a || b
abbrev pub or_text : List ℕ → List ℕ → List ℕ
or_text [] b = b
or_text (c ∷ cs) b = c ∷ cs

unfoldable pub final_answer : World → Worker → List ℕ
unfolding last_text
final_answer w s = or_text (last_text w.result.items) (or_text w.result.answer s.answer)

-- manifestDigest after the loop: the last that was delivered.
unfoldable pub last_digest : List Manifest → Option String
last_digest [] = none
last_digest (m ∷ ms) = elim (last_digest ms) [ none ↦ some m.manifest_digest | some d ↦ some d ]

-- The phase `snapshot`: the listing, the changed files, their delivery and run.completed.
unfoldable pub save_steps : Start → World → List ℕ → List (Worker → Outcome Worker)
unfolding select_changed deliver_all last_digest batches
save_steps start w answer =
    (λ t.
      docker start w snapshot_files
        (record (queue_activity "Saving results" (emit_once start saving t)) {
          phase = "snapshot";
        }))
    ∷ (λ t. await start w (record t { sidecar = some w.listing }))
    ∷ (λ t. elim (select_changed w start.inputs 0 w.listing) [
      | refused message ↦ threw message t
      | changed fs ↦ deliver_all start w (batches (length fs) fs) t
    ])
    ∷ (λ t. milestone start w (completed (w.sha256 answer) (last_digest t.delivered)) t)
    ∷ []

unfoldable pub save : Start → World → Worker → Outcome Worker
unfolding in_order save_steps final_answer
save start w s = in_order (save_steps start w (final_answer w s)) s

unfoldable pub attempt_steps : Start → World → List (Worker → Outcome Worker)
unfolding set_up restore converse save
attempt_steps start w = set_up start w ∷ restore start w ∷ converse start w ∷ save start w ∷ []

-- The body of the try.
unfoldable pub attempt : Start → World → Worker → Outcome Worker
unfolding in_order attempt_steps
attempt start w s = in_order (attempt_steps start w) s

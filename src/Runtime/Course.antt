-- ===== src/Runtime/Course.antt =====
-- The whole of executeTurn of apps/worker/runtime.mjs keeps what each of its emissions keeps, up to the
-- event run.terminated.
use agentmeld.Prelude.{
  none, some, ◌≡◌, not, ◌&&◌, ℕ, zero, suc, Bool, String, List, [], ◌∷◌, ◌++◌, some, refl, length,
  if_elim, true, All, arith, ◌also◌,
}
use agentmeld.Prelude.Outcome.{Outcome, done, threw, left, ◌then_do◌, in_order-All, in_turn}
use agentmeld.Supervisor.Apply.{same_binding}
use agentmeld.Runtime.{
  started, restored, bound, thinking, saving, completed, artifacts_delivered, Emitted, Command,
  create_network, create_proxy, connect_proxy, start_proxy, logs_proxy, inspect_proxy,
  create_worker, start_worker, restore_files, snapshot_files, remove_worker, remove_proxy,
  remove_network, Input, Start, World, Worker,
}
use agentmeld.Runtime.Emit.{emit, once_key, flush_delta, queue_activity}
use agentmeld.Runtime.Await.{await, checkpoint, docker}
use agentmeld.Runtime.Upload.{gather, fetch_all}
use agentmeld.Runtime.Output.{
  changed, refused, select_changed, stage_all, put_staged, manifest_of, delivery_key, deliver_steps,
  deliver, deliver_all, batches,
}
use agentmeld.Runtime.Execute.{
  set_up_steps, restore_steps, converse_steps, save_steps, attempt_steps, check_binding,
  open_client, wait_ready, set_up, restore, converse, save, attempt, session_of, no_upload,
  emit_once, final_answer, last_digest,
}
use agentmeld.Runtime.Finish.{last_event, catch_error, noted, remove_one, clean_up}
use agentmeld.Runtime.Keep.{
  IsClosed, Live, plain, await_keep, milestone_keep, checkpoint_keep, emit_keep, flush_delta_keep,
  queue_activity_keep,
}

module _ {Q : List Emitted → List ℕ → List ℕ → ℕ → Type 0} (closed : IsClosed Q) (start : Start)
    (w : World) where
  abbrev Kept : Outcome Worker → Type 0
  Kept o = Live closed w (left o)

  docker_keep : (command : Command) (s : Worker) → Live closed w s → Kept (docker start w command s)
  unfolding docker
  docker_keep command s h =
      await_keep closed w start (record s { commands = s.commands ++ command ∷ [] }) h

  check_binding_keep : (s : Worker) → Live closed w s → Kept (check_binding start w s)
  unfolding check_binding
  check_binding_keep s h =
      if_elim Kept (same_binding start.expected_binding (session_of w)) _ _ (λ e. h) (λ e. h)

  wait_ready_keep : (n : ℕ) (s : Worker) → Live closed w s → Kept (wait_ready start w n s)
  unfolding wait_ready
  wait_ready_keep zero s h = h
  wait_ready_keep (suc n) s h =
      in_turn (Live closed w) (checkpoint s then_do docker start w logs_proxy) _
        (in_turn (Live closed w) (checkpoint s) _ (checkpoint_keep closed w s h)
          (λ t. docker_keep logs_proxy t))
        (λ t k.
          if_elim Kept (w.ready t.awaits) _ _ (λ e. k)
            (λ e.
              in_turn (Live closed w) (await start w t) _ (await_keep closed w start t k)
                (wait_ready_keep n)))

  open_client_keep : (s : Worker) → Live closed w s → Kept (open_client w s)
  unfolding open_client
  open_client_keep s h =
      elim w.client_error
          as (λ o.
            w.client_error ≡ o
            → Kept (elim o [
              | none ↦ done (record s { has_client = true })
              | some f ↦ threw f.message (record s { stderr = f.stderr; timer_left = true })
            ])) [
              | none ↦ λ e. h
              | some f ↦ λ e. (h.0, h.1, λ q. absurd (ground (arith, e, q.made)))
            ]
        refl

  set_up_keep : (s : Worker) → Live closed w s → Kept (set_up start w s)
  unfolding set_up plain
  set_up_keep s h =
      in_order-All (Live closed w) (set_up_steps start w) s
        ((λ t k. await_keep closed w start (record t { phase = "setup" }) k)
          also check_binding_keep
          also checkpoint_keep closed w
          also (λ t k. milestone_keep closed w start (started w.turn_digest) t refl k)
          also docker_keep create_network
          also (λ t k. docker_keep create_proxy (record t { network_created = true }) k)
          also (λ t k. docker_keep connect_proxy (record t { proxy_created = true }) k)
          also docker_keep start_proxy
          also wait_ready_keep 30
          also docker_keep inspect_proxy
          also checkpoint_keep closed w
          also docker_keep create_worker
          also (λ t k. docker_keep start_worker (record t { worker_created = true }) k)
          also open_client_keep
          also tt)
        h

  fetch_all_keep :
      (inputs : List Input) (s : Worker) → Live closed w s → Kept (fetch_all start w inputs s)
  unfolding fetch_all
  fetch_all_keep [] s h = h
  fetch_all_keep (i ∷ rest) s h =
      in_turn (Live closed w) (await start w s) (fetch_all start w rest)
        (await_keep closed w start s h) (fetch_all_keep rest)

  restore_keep : (s : Worker) → Live closed w s → Kept (restore start w s)
  unfolding restore plain
  restore_keep s h =
      in_order-All (Live closed w) (restore_steps start w) s
        ((λ t k. fetch_all_keep start.inputs (record t { phase = "restore" }) k)
          also (λ t k.
              docker_keep restore_files
                (record t { uploaded = (gather w start.inputs no_upload 0).0.entries }) k)
          also checkpoint_keep closed w
          also (λ t k.
              milestone_keep closed w start
                (restored (length start.inputs) (gather w start.inputs no_upload 0).1) t refl k)
          also tt)
        h

  converse_keep : (s : Worker) → Live closed w s → Kept (converse start w s)
  unfolding converse plain
  converse_keep s h =
      in_order-All (Live closed w) (converse_steps start w) s
        ((λ t k. await_keep closed w start (record t { phase = "continuation" }) k)
          also checkpoint_keep closed w
          also (λ t k. milestone_keep closed w start (bound (session_of w)) t refl k)
          also (λ t k.
              queue_activity_keep closed w "Thinking" (emit_once start thinking t)
                (emit_keep closed w (once_key start.run_id thinking) thinking t refl k))
          also (λ t k. await_keep closed w start (record t { phase = "execution" }) k)
          also checkpoint_keep closed w
          also (λ t k. flush_delta_keep closed w t k)
          also (λ t k. if_elim Kept w.result.completed _ _ (λ e. k) (λ e. k))
          also tt)
        h

  stage_all_keep :
      (fs : List (String × List ℕ)) (s : Worker) → Live closed w s → Kept (stage_all start w fs s)
  unfolding stage_all
  stage_all_keep [] s h = h
  stage_all_keep (f ∷ fs) s h =
      in_turn (Live closed w) (await start w (put_staged w f s)) (stage_all start w fs)
        (await_keep closed w start (put_staged w f s) h) (stage_all_keep fs)

  deliver_keep :
      (fs : List (String × List ℕ)) (s : Worker) → Live closed w s → Kept (deliver start w fs s)
  unfolding deliver plain
  deliver_keep fs s h =
      let m = manifest_of w (length s.staged) fs in
      let key = some (delivery_key start.run_id m.manifest_digest) in
      let event = artifacts_delivered m.manifest_digest (length m.files) m.total_bytes in
      in_order-All (Live closed w) (deliver_steps start w fs m) s
        (stage_all_keep fs
          also (λ t k. await_keep closed w start (record t { delivered = t.delivered ++ m ∷ [] }) k)
          also (λ t k.
              await_keep closed w start (emit key event t) (emit_keep closed w key event t refl k))
          also tt)
        h

  deliver_all_keep :
      (bs : List (List (String × List ℕ))) (s : Worker)
      → Live closed w s
      → Kept (deliver_all start w bs s)
  unfolding deliver_all
  deliver_all_keep [] s h = h
  deliver_all_keep (b ∷ bs) s h =
      in_turn (Live closed w) (deliver start w b s) (deliver_all start w bs) (deliver_keep b s h)
        (deliver_all_keep bs)

  pub save_steps_keep :
      (answer : List ℕ)
      → All (λ f. (t : Worker) → Live closed w t → Kept (f t)) (save_steps start w answer)
  unfolding plain save_steps
  save_steps_keep answer =
      (λ t k.
        docker_keep snapshot_files
          (record (queue_activity "Saving results" (emit_once start saving t)) {
            phase = "snapshot";
          })
          (queue_activity_keep closed w "Saving results" (emit_once start saving t)
            (emit_keep closed w (once_key start.run_id saving) saving t refl k)))
      also (λ t k. await_keep closed w start (record t { sidecar = some w.listing }) k)
      also (λ t k.
          elim (select_changed w start.inputs 0 w.listing)
            as (λ o. Kept (elim o [
              | refused message ↦ threw message t
              | changed fs ↦ deliver_all start w (batches (length fs) fs) t
            ])) [
              | refused message ↦ k
              | changed fs ↦ deliver_all_keep (batches (length fs) fs) t k
            ])
      also (λ t k.
          milestone_keep closed w start (completed (w.sha256 answer) (last_digest t.delivered)) t
            refl k)
      also tt

  save_keep : (s : Worker) → Live closed w s → Kept (save start w s)
  unfolding save
  save_keep s h =
      in_order-All (Live closed w) (save_steps start w (final_answer w s)) s
        (save_steps_keep (final_answer w s)) h

  pub attempt_steps_keep :
      All (λ f. (t : Worker) → Live closed w t → Kept (f t)) (attempt_steps start w)
  unfolding attempt_steps
  attempt_steps_keep = set_up_keep also restore_keep also converse_keep also save_keep also tt

  pub attempt_keep : (s : Worker) → Live closed w s → Kept (attempt start w s)
  unfolding attempt
  attempt_keep s h = in_order-All (Live closed w) (attempt_steps start w) s attempt_steps_keep h

  catch_error_keep : (s : Worker) → Live closed w s → Live closed w (catch_error start w s)
  unfolding catch_error last_event plain
  catch_error_keep s h =
      milestone_keep closed w start (last_event (flush_delta s)) (flush_delta s) (ground arith)
        (flush_delta_keep closed w s h)

  noted_keep :
      (label : String) (failures : List String) (o : Outcome Worker)
      → Kept o
      → Live closed w (noted label failures o).0
  noted_keep label failures (done t) k = k
  noted_keep label failures (threw message t) k = k

  remove_one_keep :
      (created : Bool) (label : String) (command : Command) (s : Worker) (failures : List String)
      → Live closed w s
      → Live closed w (remove_one start w created label command (s, failures)).0
  unfolding remove_one
  remove_one_keep created label command s failures h =
      if_elim (λ (r : Worker × List String). Live closed w r.0) (created && not s.halted) _ _
        (λ e. noted_keep label failures (docker start w command s) (docker_keep command s h))
        (λ e. h)

  pub clean_up_keep : (s : Worker) → Live closed w s → Live closed w (clean_up start w s).0
  unfolding clean_up
  clean_up_keep s h =
      let r = remove_one start w s.worker_created "worker container" remove_worker (s, []) in
      let p = remove_one start w s.proxy_created "proxy container" remove_proxy r in
      remove_one_keep s.network_created "network" remove_network p.0 p.1 (
        remove_one_keep s.proxy_created "proxy container" remove_proxy r.0 r.1
          (remove_one_keep s.worker_created "worker container" remove_worker s [] h))

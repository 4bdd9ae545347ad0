-- ===== src/Examples/Runtimes.antt =====
-- An execution of apps/worker/runtime.mjs with concrete inputs and awaits.
use agentmeld.Prelude.{
  ℕ, String, true, false, none, some, List, [], ◌∷◌, ◌≡◌, refl, if◌then◌else◌, if_elim, nat_beq,
  length, map, ◌⊎◌, Option, arith, ◌≤◌, take, drop, ◌++◌, if◌then◌else◌,
}
use agentmeld.Prelude.Outcome.{left, WhenDone}
use agentmeld.Data.{busy}
use agentmeld.Supervisor.{Binding, Env, Turn}
use agentmeld.Supervisor.Artifacts.{entries, valid_ref}
use agentmeld.Runtime.{
  Start, World, Worker, Input, Row, Item, Result, Arrival, message_delta, turn_cancel, Failure,
  Emitted, saving, activity_changed,
}
use agentmeld.Runtime.Output.{deliver_all, batches, select_changed, changed}
use agentmeld.Runtime.Execute.{no_upload}
use agentmeld.Runtime.Upload.{gather}
use agentmeld.Runtime.Finish.{execute_turn, new_worker, clean_up, abort_hook}
use agentmeld.Runtime.Streamed.{IsStreamed, texts, execute_turn-IsStreamed}
use agentmeld.Runtime.Keep.{Settles}
use agentmeld.Runtime.Ended.{IsEnded, has, execute_turn-IsEnded}
use agentmeld.Runtime.Whole.{is_terminated}
use agentmeld.Runtime.Heard.{apply_log-execute_turn}
use agentmeld.Runtime.Told.{apply_log}
use agentmeld.Runtime.Rest.{removals}
use agentmeld.Runtime.Cleanup.{clean_up-abort_hook, rejected_awaits}
use agentmeld.Runtime.Changed.{select_changed-outputs, outputs}
use agentmeld.Runtime.Directories.{entries_for-gather, entries_for, sent_as, in_place, files_of}
use agentmeld.Runtime.Delivered.{Serves, file_of, fresh_names}
use agentmeld.Runtime.Delivered.Batches.{check_manifests, deliver_all-check_manifests}
use agentmeld.Examples.Turns.{binding, turn, env}

abbrev start : Start
start = record {
  run_id = "t1";
  generation = 1;
  inputs =
      record { name = "src/lib/a.txt"; digest = "old"; size = 2; attachment = true }
      ∷ record { name = "src/b.txt"; digest = "old"; size = 1; attachment = false }
      ∷ [];
  expected_binding = binding;
}

-- The answer comes during the await of the turn; a snapshot with two new files.
abbrev world : World
world = record {
  arrivals = λ n.
      if nat_beq n 16
      then message_delta "m1" (b'h' ∷ []) ∷ message_delta "m2" (b'i' ∷ []) ∷ []
      else [];
  failure = λ n. none;
  stuck = λ n. false;
  lasts = λ n. true;
  binding = binding;
  turn_digest = "t";
  ready = λ n. true;
  fetched = λ i. b'x' ∷ [];
  client_error = none;
  thread_id = "thread";
  result = record { completed = true; items = []; answer = [] };
  listing =
      record { name = "out.txt"; directory = false; content = b'o' ∷ [] }
      ∷ record { name = "more.txt"; directory = false; content = b'p' ∷ [] }
      ∷ [];
  fresh_ref = λ n. if nat_beq n 0 then b'a' ∷ [] else b'b' ∷ [];
  sha256 = λ bytes. "s";
  sha256_rows = λ rows. "r";
}

execute_turn-IsStreamed_example :
    IsStreamed
      (execute_turn start world new_worker).log
      (execute_turn start world new_worker).answer
      (execute_turn start world new_worker).delta_buf
      (execute_turn start world new_worker).batch_seq
    × (length (execute_turn start world new_worker).delta_buf ≤ 4095)
execute_turn-IsStreamed_example = execute_turn-IsStreamed start world

-- The start of the proxy fails.
abbrev broken : World
broken = record world {
  failure = λ n. if nat_beq n 5 then some (record { message = "no"; stderr = "" }) else none;
}

execute_turn-IsEnded_example :
    IsEnded (execute_turn start broken new_worker).log
    ⊎ (((execute_turn start broken new_worker).halted ≡ true)
        × (has is_terminated (execute_turn start broken new_worker).log ≡ false)
        × (¬ Settles broken))
execute_turn-IsEnded_example = execute_turn-IsEnded start broken

-- The constructor of the client throws, and the timer that it has set ends the process.
abbrev crashing : World
crashing = record world { client_error = some (record { message = "proc.on"; stderr = "" }) }

crashed : (execute_turn start crashing new_worker).halted ≡ true
unfolding execute_turn
crashed = refl

-- The fourth await is never over.
abbrev endless : World
endless = record world { stuck = λ n. nat_beq n 3 }

never_ends :
    ((execute_turn start endless new_worker).halted ≡ true)
    × (has is_terminated (execute_turn start endless new_worker).log ≡ false)
unfolding execute_turn has agentmeld.Prelude.any is_terminated
never_ends = (refl, refl)

apply_log-execute_turn_example :
    WhenDone
      (λ (u : Turn).
        (u.turn_done ≡ true)
        × (busy u.task.status ≡ false)
        × (u.task.answer ++ (execute_turn start world new_worker).delta_buf
            ≡ turn.task.answer ++ (execute_turn start world new_worker).answer))
      (apply_log env (execute_turn start world new_worker).log turn)
unfolding execute_turn agentmeld.Prelude.every
apply_log-execute_turn_example = apply_log-execute_turn env start world turn refl

-- All resources exist; the second removal fails.
abbrev cluttered : Worker
cluttered = record new_worker {
  network_created = true;
  proxy_created = true;
  worker_created = true;
  awaits = 4;
}

clean_up-abort_hook_example :
    (removals (clean_up start broken cluttered).0.commands
      ≡ removals cluttered.commands ++ abort_hook cluttered)
    × (length (clean_up start broken cluttered).1
        ≡ rejected_awaits broken cluttered.awaits (length (abort_hook cluttered)))
clean_up-abort_hook_example = clean_up-abort_hook start broken cluttered (λ n. refl) (refl, refl)

select_changed-outputs_example :
    select_changed world start.inputs 0 world.listing
    ≡ changed (outputs world start.inputs world.listing)
unfolding agentmeld.Runtime.Changed.accepted agentmeld.Runtime.Output.supported
    agentmeld.Runtime.Output.skipped
select_changed-outputs_example = (select_changed-outputs world start.inputs world.listing).0 refl

entries_for-gather_example :
    ((gather world start.inputs no_upload 0).0.entries
      ≡ entries_for [] (map (sent_as world) start.inputs))
    × (in_place [] (gather world start.inputs no_upload 0).0.entries ≡ true)
    × (files_of (gather world start.inputs no_upload 0).0.entries
        ≡ map (sent_as world) start.inputs)
entries_for-gather_example = entries_for-gather world start.inputs

abbrev outs : List (String × List ℕ)
outs = ("out.txt", b'o' ∷ []) ∷ ("more.txt", b'p' ∷ []) ∷ []

abbrev delivered : Worker
delivered = left (deliver_all start world (batches 2 outs) new_worker)

-- The staging directory after the delivery.
abbrev service : Env
service = record env {
  staged =
      λ ref. elim ref [ [] ↦ none | c ∷ cs ↦ some ((if nat_beq c b'a' then b'o' else b'p') ∷ []) ];
  sha256 = λ bytes. "s";
  sha256_rows = λ rows. "r";
}

fresh_valid : (n : ℕ) → valid_ref (world.fresh_ref n) ≡ true
unfolding valid_ref agentmeld.Supervisor.Artifacts.alphanumeric agentmeld.Prelude.every
fresh_valid n =
    if_elim (λ (ref : List ℕ). valid_ref ref ≡ true) (nat_beq n 0) _ _ (λ e. refl) (λ e. refl)

Serves-delivered : Serves service world delivered.staged
unfolding deliver_all batches
Serves-delivered = record {
  same_digest = λ bytes. refl;
  same_rows = λ rows. refl;
  valid = fresh_valid;
  kept = (refl, (refl, tt));
}

deliver_all-check_manifests_example :
    check_manifests service delivered.delivered ≡ entries (map file_of outs)
unfolding deliver_all fresh_names batches
deliver_all-check_manifests_example =
    deliver_all-check_manifests service start world outs new_worker delivered refl refl refl
      Serves-delivered refl

-- The whole execution streams the two messages with a blank line between them as one delta.
streamed_texts :
    texts (execute_turn start world new_worker).log ≡ (b'h' ∷ b'\n' ∷ b'\n' ∷ b'i' ∷ []) ∷ []
unfolding execute_turn texts agentmeld.Prelude.every agentmeld.Runtime.Streamed.delta_of
streamed_texts = refl

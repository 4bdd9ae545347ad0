-- ===== src/Examples/Workers.antt =====
-- The worker process, a delivery of its client and the composer on concrete inputs.
use agentmeld.Prelude.{
  String, true, none, some, List, [], ◌∷◌, ◌≡◌, ◌↔◌, refl, inr, string_eq, map, every, contains,
  ◌also◌,
}
use agentmeld.Prelude.Fields.{given}
use agentmeld.Data.{File}
use agentmeld.Store.Check.{check_attachments}
use agentmeld.Composer.{Draft, validate_attachments, bad_name, named_twice}
use agentmeld.Composer.Taken.{sent_file, stored_file, validate_attachments-check_attachments}
use agentmeld.Seam.{connected, Seam}
use agentmeld.Seam.Calls.{ServiceMessage}
use agentmeld.Seam.Session.{deliver_artifacts}
use agentmeld.Seam.Session.Stored.{Agrees, last_reply, deliver_artifacts-Agrees}
use agentmeld.Supervisor.{Manifest}
use agentmeld.Supervisor.Artifacts.{check_manifest, on_artifacts_deliver}
use agentmeld.Worker.{
  Worker, WorkerEvent, hears, turn_start, turn_cancel, turn_ends, hello_ends, worker_events,
  new_worker,
}
use agentmeld.Worker.Once.{IsWorker, worker_events-IsWorker}
use agentmeld.Examples.Turns.{turn, env}

abbrev draft : String → Draft
draft name = record { name = name; size = none; content = b'a' ∷ b'b' ∷ [] }

validate_attachments-check_attachments_example :
    validate_attachments (draft "a.txt" ∷ []) (draft "b 2.csv" ∷ []) ≡ none
    ↔ check_attachments (given (map sent_file (draft "a.txt" ∷ draft "b 2.csv" ∷ [])))
      ≡ inr (map stored_file (draft "a.txt" ∷ draft "b 2.csv" ∷ []))
validate_attachments-check_attachments_example =
    validate_attachments-check_attachments (draft "a.txt" ∷ []) (draft "b 2.csv" ∷ [])
      (refl also refl also tt)

-- The objections that the composer raises.
objections :
    map
      (validate_attachments (draft "a.txt" ∷ []))
      ((draft "b.txt" ∷ []) ∷ (draft "-b" ∷ []) ∷ (draft "a.txt" ∷ []) ∷ [])
    ≡ none ∷ some bad_name ∷ some (named_twice "a.txt") ∷ []
unfolding validate_attachments contains every agentmeld.Store.Names.safe_name
objections = refl

abbrev service_message : ServiceMessage
service_message = record {
  protocol = "worker-seam/1";
  in_reply_to = none;
  msg_type = "service.turn.start";
  rows = [];
  code = none;
}

-- The turn starts, a second start is ignored, a cancel is heard, and the process exits with its turn.
abbrev life : List WorkerEvent
life =
    hello_ends true
    ∷ hears service_message (turn_start "t1" 1)
    ∷ hears service_message (turn_start "t2" 1)
    ∷ hears service_message turn_cancel
    ∷ turn_ends
    ∷ hears service_message turn_cancel
    ∷ []

abbrev lived : Worker
lived = worker_events life (new_worker (some "/s.sock") (some "token"))

one_turn : (lived.executed ≡ ("t1", 1) ∷ []) × (lived.cancels ≡ 1) × (lived.exit ≡ some 0)
unfolding worker_events new_worker
one_turn = (refl, refl, refl)

worker_events-IsWorker_example : IsWorker lived
worker_events-IsWorker_example = worker_events-IsWorker (some "/s.sock") (some "token") life

abbrev in_turn : Seam
in_turn = record connected { run_id = some "t1"; generation = 1 }

abbrev delivery : Manifest
delivery = record {
  manifest_digest = "rows";
  files = record { name = "a.txt"; digest = "sum"; size = 2; staging_ref = b'a' ∷ [] } ∷ [];
  total_bytes = 2;
}

-- The delivery is taken.
delivered_names :
    map
      (λ (f : File). f.name)
      (on_artifacts_deliver env (some "m1") (some delivery) turn).task.artifacts
    ≡ "a.txt" ∷ []
unfolding on_artifacts_deliver check_manifest contains every
delivered_names = refl

deliver_artifacts-Agrees_example :
    Agrees env.saved
      (deliver_artifacts in_turn
        (last_reply (on_artifacts_deliver env (some "m1") (some delivery) turn).sent))
      turn.task
      (on_artifacts_deliver env (some "m1") (some delivery) turn).task
      (check_manifest env (some delivery))
deliver_artifacts-Agrees_example =
    deliver_artifacts-Agrees env (some "m1") delivery turn in_turn refl

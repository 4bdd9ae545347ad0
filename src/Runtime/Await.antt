-- ===== src/Runtime/Await.antt =====
-- The awaits of apps/worker/runtime.mjs: what comes in during one of them, docker's calls, awaited
-- events, and the test for a cancel or a fatal error.
use agentmeld.Prelude.{
  Bool, Option, false, ◌&&◌, ◌||◌, suc, true, none, some, List, [], ◌∷◌, ◌++◌, if◌then◌else◌, ◌==◌,
  nat_eq,
}
use agentmeld.Prelude.Outcome.{Outcome, done, threw}
use agentmeld.Runtime.{
  Payload, Arrival, turn_cancel, service_error, turn_timeout, message_delta, command_started,
  Command, stop_worker, Failure, Start, World, Worker,
}
use agentmeld.Runtime.Emit.{emit, once_key, hear_delta, queue_activity}

-- A cancel or the end of the time: the flag, and the stop of a container that exists.
unfoldable pub stop : Worker → Worker
stop s = record s {
  cancelled = true;
  commands = if s.worker_created then s.commands ++ stop_worker ∷ [] else s.commands;
}

unfoldable pub arrive : Start → Arrival → Worker → Worker
unfolding stop hear_delta queue_activity
arrive start (turn_cancel generation) s = if generation == start.generation then stop s else s
arrive start (service_error message) s = record s { fatal = some message }
arrive start turn_timeout s = stop s
arrive start (message_delta item delta) s = hear_delta item delta s
arrive start command_started s = queue_activity "Working on your files" s

unfoldable pub arrive_all : Start → List Arrival → Worker → Worker
unfolding arrive
arrive_all start [] s = s
arrive_all start (a ∷ as_rest) s = arrive_all start as_rest (arrive start a s)

-- Whether an execution gets past an await no more.
unfoldable pub stops : World → Worker → Bool
stops w s = w.stuck s.awaits || (s.timer_left && w.lasts s.awaits)

-- The end of an await. One that is never over leaves the state `halted`, which what follows a throw tests.
abbrev pub settle_await : Bool → Option Failure → Worker → Outcome Worker
settle_await true f next = threw "halted" (record next { halted = true })
settle_await false none next = done next
settle_await false (some f) next = threw f.message (record next { stderr = f.stderr })

-- One await: what comes in, then the promise's outcome.
unfoldable pub await : Start → World → Worker → Outcome Worker
unfolding arrive_all stops
await start w s =
    settle_await (stops w s) (w.failure s.awaits)
      (record (arrive_all start (w.arrivals s.awaits) s) { awaits = suc s.awaits })

-- A step of an execution that has not stopped.
abbrev pub unless_halted : (Worker → Worker) → Worker → Worker
unless_halted f s = if s.halted then s else f s

unfoldable pub checkpoint : Worker → Outcome Worker
checkpoint s = elim s.fatal [
  | some message ↦ threw message s
  | none ↦ if s.cancelled then threw "Task stopped." s else done s
]

unfoldable pub docker : Start → World → Command → Worker → Outcome Worker
unfolding await
docker start w command s = await start w (record s { commands = s.commands ++ command ∷ [] })

-- An awaited event with the option `dedupe`.
unfoldable pub milestone : Start → World → Payload → Worker → Outcome Worker
unfolding await once_key
milestone start w payload s = await start w (emit (once_key start.run_id payload) payload s)

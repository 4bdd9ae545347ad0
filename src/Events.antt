-- ===== src/Events.antt =====
-- apps/poc/events.mjs: the milestones of a task. A kind is one of the keys of `labels`, which every
-- call in the program passes, so the throw for any other text has no case here.
pub mod Bounds
use agentmeld.Prelude.{
  ℕ, String, Bool, Option, none, some, List, [], ◌∷◌, ◌++◌, ◌≡◌, arith, ◌↔◌, if◌then◌else◌, nat_beq,
  any, map, take,
}
use agentmeld.Data.{Kind, Milestone, Task}

-- The place of a kind in `labels`.
unfoldable pub rank : Kind → ℕ
rank Kind.queued = 0
rank Kind.started = 1
rank Kind.restored = 2
rank Kind.thinking = 3
rank Kind.saving = 4
rank Kind.completed = 5
rank Kind.failed = 6
rank Kind.cancelled = 7
rank Kind.interrupted = 8
rank Kind.cancelling = 9

unfoldable pub label : Kind → String
label Kind.queued = "Queued"
label Kind.started = "Started"
label Kind.restored = "Working files ready"
label Kind.thinking = "Agent ready"
label Kind.saving = "Saving results"
label Kind.completed = "Completed"
label Kind.failed = "Failed"
label Kind.cancelled = "Stopped"
label Kind.interrupted = "Interrupted by service restart"
label Kind.cancelling = "Stop requested"

-- e.kind === kind
unfoldable pub same_kind : Kind → Kind → Bool
unfolding rank
same_kind a b = nat_beq (rank a) (rank b)

-- A kind that is recorded already is not recorded again.
unfoldable pub record_event : ℕ → Kind → Task → Task
unfolding same_kind
record_event now kind task =
    if any (λ e. same_kind e.kind kind) task.events then task else record task {
      events = task.events ++ record { id = (task.id, kind); kind = kind; at = now } ∷ [];
    }

pub record PublicEvent : Type 0 where
  pub id : String × Kind
  pub kind : Kind
  pub at : ℕ
  pub label : String

unfoldable pub public_events : Task → List PublicEvent
unfolding label
public_events task =
    map (λ (e : Milestone). record { id = e.id; kind = e.kind; at = e.at; label = label e.kind })
      (take 16 task.events)

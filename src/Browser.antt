-- ===== src/Browser.antt =====
-- experiments/browser-control.mjs: who controls the shared browser. The calls of BrowserControl and the
-- moments at which its queue of promises moves on are actions in any order: an operation starts when
-- those before it have settled, and while it awaits the computer other calls come in.
pub mod Clicked
pub mod Fenced
pub mod Cancelled
use agentmeld.Prelude.{
  ℕ, suc, ◌+◌, Bool, true, false, ◌&&◌, ◌||◌, List, [], ◌∷◌, ◌++◌, leb, length, nat_beq,
  if◌then◌else◌,
}

pub data Mode : Type 0 where
  agent pausing human resuming paused cancelled : Mode

unfoldable pub mode_rank : Mode → ℕ
mode_rank Mode.agent = 0
mode_rank Mode.pausing = 1
mode_rank Mode.human = 2
mode_rank Mode.resuming = 3
mode_rank Mode.paused = 4
mode_rank Mode.cancelled = 5

unfoldable pub same_mode : Mode → Mode → Bool
unfolding mode_rank
same_mode a b = nat_beq (mode_rank a) (mode_rank b)

pub data Actor : Type 0 where
  by_agent by_human : Actor

-- A click that the computer was told to make, with the generation that it was sent under.
pub record Click : Type 0 where
  pub actor : Actor
  pub generation : ℕ

-- The closures that the methods queue, with the generations that they hold.
pub data Operation : Type 0 where
  agent_clicks takes_over human_clicks resumes disconnects : ℕ → Operation
  frames cancels : Operation

-- `waiting` holds the operations that have not settled, `started` says that the first of them awaits
-- the computer, and `clicks` is what the computer was told.
pub record BrowserControl : Type 0 where
  pub mode : Mode
  pub generation : ℕ
  pub waiting : List Operation
  pub started : Bool
  pub clicks : List Click

abbrev pub new_control : BrowserControl
new_control = record {
  mode = Mode.agent;
  generation = 0;
  waiting = [];
  started = false;
  clicks = [];
}

unfoldable pub full_queue : BrowserControl → Bool
full_queue c = leb 32 (length c.waiting)

unfoldable pub enqueue : Operation → BrowserControl → BrowserControl
unfolding full_queue
enqueue op c = if full_queue c then c else record c { waiting = c.waiting ++ op ∷ [] }

-- The test of `require`.
unfoldable pub holds : Mode → ℕ → BrowserControl → Bool
unfolding same_mode
holds m g c = same_mode c.mode m && nat_beq c.generation g

unfoldable pub move : Mode → BrowserControl → BrowserControl
move m c = record c { mode = m; generation = suc c.generation }

unfoldable pub takeover : BrowserControl → BrowserControl
unfolding same_mode move enqueue
takeover c =
    if same_mode c.mode Mode.agent || same_mode c.mode Mode.paused
    then enqueue (takes_over (suc c.generation)) (move Mode.pausing c)
    else c

-- resume: a rejection by the full queue is caught as well, here before any other call comes in.
unfoldable pub resume : ℕ → BrowserControl → BrowserControl
unfolding holds move enqueue full_queue
resume g c =
    if holds Mode.human g c
    then (if full_queue c
        then record (move Mode.resuming c) { mode = Mode.paused }
        else enqueue (resumes (suc c.generation)) (move Mode.resuming c))
    else c

unfoldable pub disconnect : BrowserControl → BrowserControl
unfolding same_mode move enqueue
disconnect c =
    if same_mode c.mode Mode.cancelled
    then c
    else enqueue (disconnects (suc c.generation)) (move Mode.paused c)

unfoldable pub cancel : BrowserControl → BrowserControl
unfolding move enqueue
cancel c = enqueue cancels (move Mode.cancelled c)

unfoldable pub dispatch : Actor → BrowserControl → BrowserControl
dispatch a c = record c {
  started = true;
  clicks = c.clicks ++ record { actor = a; generation = c.generation } ∷ [];
}

unfoldable pub leave : List Operation → BrowserControl → BrowserControl
leave rest c = record c { waiting = rest; started = false }

-- The first part of an operation, up to its wait for the computer, or all of it.
unfoldable pub begin_operation : Operation → List Operation → BrowserControl → BrowserControl
unfolding holds same_mode dispatch leave
begin_operation (agent_clicks g) rest c =
    if holds Mode.agent g c then dispatch by_agent c else leave rest c
begin_operation (takes_over g) rest c =
    if holds Mode.pausing g c then record (leave rest c) { mode = Mode.human } else leave rest c
begin_operation (human_clicks g) rest c =
    if holds Mode.human g c then dispatch by_human c else leave rest c
begin_operation (resumes g) rest c =
    if holds Mode.resuming g c then record c { started = true } else leave rest c
begin_operation (disconnects g) rest c = leave rest c
begin_operation frames rest c =
    if same_mode c.mode Mode.agent || same_mode c.mode Mode.human || same_mode c.mode Mode.paused
    then record c { started = true }
    else leave rest c
begin_operation cancels rest c = leave rest c

-- The rest of an operation, when the computer has answered or failed.
unfoldable pub end_operation : Bool → Operation → List Operation → BrowserControl → BrowserControl
unfolding holds leave
end_operation ok (resumes g) rest c =
    if holds Mode.resuming g c
    then record (leave rest c) { mode = if ok then Mode.agent else Mode.paused }
    else leave rest c
end_operation ok _ rest c = leave rest c

unfoldable pub advance : Bool → BrowserControl → List Operation → BrowserControl
unfolding begin_operation end_operation
advance ok c [] = c
advance ok c (op ∷ rest) =
    if c.started then end_operation ok op rest c else begin_operation op rest c

-- The calls, and a move of the queue with the computer's answer, if one was awaited.
pub data Action : Type 0 where
  calls_agent_click calls_resume : ℕ → Action
  calls_input : ℕ → Action
  calls_takeover calls_frame calls_disconnect calls_cancel : Action
  moves_on : Bool → Action

unfoldable pub control : Action → BrowserControl → BrowserControl
unfolding enqueue takeover resume disconnect cancel advance
control (calls_agent_click g) c = enqueue (agent_clicks g) c
control (calls_resume g) c = resume g c
control (calls_input g) c = enqueue (human_clicks g) c
control calls_takeover c = takeover c
control calls_frame c = enqueue frames c
control calls_disconnect c = disconnect c
control calls_cancel c = cancel c
control (moves_on ok) c = advance ok c c.waiting

unfoldable pub controls : List Action → BrowserControl → BrowserControl
unfolding control
controls [] c = c
controls (a ∷ more) c = controls more (control a c)

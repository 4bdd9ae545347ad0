-- ===== src/Lib.antt =====
-- AgentMeld: a local service that runs an agent's turns in a worker process and shows them in a browser.
--
-- A person's message enters the store (apps/poc/conversations.mjs), which admits it as a task of a
-- conversation. The server (apps/poc/server.mjs) takes queued tasks one at a time and gives each to the
-- supervisor (apps/poc/supervisor.mjs), which spawns a worker and speaks worker-seam/1 with it: JSON
-- lines (apps/worker/framing.mjs) between the supervisor and the worker's client
-- (apps/worker/seam.mjs). The worker fetches the inputs, appends events in acknowledged batches and
-- delivers artifacts; the supervisor applies the events to the task and settles the turn. Milestones of
-- a task are kept by apps/poc/events.mjs. The browser hears of changes by server-sent events
-- (apps/poc/public/sse-parse.js), which apps/poc/public/client-track.js dispatches beside the approvals
-- and the controller's lease. experiments/browser-control.mjs hands a shared browser from the agent
-- to a human and back.
--
-- The files, by the code that they model:
--   Data, Events: the task, the conversation and the state; recordEvent, publicEvents.
--   Store: conversations.mjs. Store/Open openStore up to its first save, Store/Saving its save with the chain of
--     writes, Store/Check the checks of a request, Store/Names the tests on names and
--     keys (safeName of apps/worker/binding.mjs), Store/Admit admit, Store/Update updateConversation,
--     Store/Recover the loop of openStore over interrupted tasks, Store/Views the public views. Store/Invariant, Store/Retry,
--     Store/Recover/Interrupted, Store/Open/Legacy, Store/Saving/Settled and Store/Saving/Durable are about these.
--   Supervisor: the messages and the state of a turn. Supervisor/Apply applyEvent, Supervisor/Append
--     onEventsAppend, Supervisor/Inputs onInputsFetch, Supervisor/Artifacts onArtifactsDeliver,
--     Supervisor/Dispatch handleWorkerMessage, failTurn, onWorkerClose, cancelActiveTurn,
--     Supervisor/Run sequences of these run whole, Supervisor/Jobs the same handlers cut at each of their awaits,
--     with whatever comes between (Jobs/Quiet, Jobs/Over and
--     Jobs/Closing are about it), Supervisor/Setup the inputs and the turn that runTurn makes,
--     Supervisor/Spawn what it does from then on, with every callback in any order. Spawn/Greeted,
--     Spawn/Admitted, Spawn/Token, Spawn/Late, Setup/Served, Ledger, Kept, Replay, Settling and Run/Outcomes are about them.
--   Runtime: executeTurn of runtime.mjs. Runtime/Emit the events and the streamed answer, Runtime/Await what
--     comes in during an await, Runtime/Upload the restored files, Runtime/Output the changed files and their
--     delivery, Runtime/Execute the body of the try, Runtime/Finish the catch, the finally and the whole
--     function. Keep, Course, Whole and Rest carry properties through an execution; Streamed, Ended,
--     Told, Heard, Delivered, Cleanup, Changed and Directories are about it, Told, Heard and Delivered
--     together with the supervisor.
--   Seam: the class WorkerSeam up to the append and the flush, Seam/Calls what it hears and its calls in any
--     order, Seam/Fetch its fetchInputs, Seam/Session its hello and deliverArtifacts.
--     Seam/Ordered, Seam/Order, Seam/Lost, Seam/Transfer and Seam/Session/Stored are about them; the last two join them to
--     the supervisor.
--   Worker: worker.mjs, the process around the client and the turn; Worker/Kept and Worker/Once are about it.
--   Composer: validateAttachments of composer.js; Composer/Taken joins it to the tests of the store.
--   Framing: createFrameReader and sendFrame; Framing/Sent and Framing/Errors are about it.
--   Sse: SseParser; Sse/Chunks and Sse/Retry are about it.
--   Track: client-track.js. Track/Steps the tool steps, Track/Approvals pollApprovals, Track/Decisions decide
--     and revokeApproval, Track/Lease the controller's lease, Track/Stream dispatchFrame, Track/Loop
--     streamLoop and pumpFrames, Track/Texts the texts with numbers, Track/Clicks the calls in any order.
--     Track/Stream/Window, Track/Loop/Delay, Track/Clicks/Balance, Track/Clicks/Locks and Track/Clicks/Single are about these.
--   Client: LiveClient of codex-live-client.mjs, its calls in any order; Client/Once and Client/Settled are
--     about them.
--   Server: the pump and the routes of server.mjs as calls in any order; Server/Posted and Server/Waiting
--     are about them.
--   Files: filesystem.mjs, the view of a workspace and the lookup of a file.
--   Profile: profile.mjs, the owner's updates of the agent's profile; Profile/Revisions is about it.
--   Browser: BrowserControl; Browser/Clicked, Browser/Fenced and Browser/Cancelled are about it.
--   Prelude: Boolean tests, lists over native numbers, equality, association lists, outcomes that keep
--     the state of a throw, texts and lines. Examples: tests and instances on concrete inputs.
--
-- State is passed explicitly. A handler that may throw after it wrote gives an Outcome, which holds the
-- state as it was left. Concurrency is a list of the moments at which the program is entered: messages,
-- timers, closes, and the steps of a queue of promises. Ids, digests and messages are texts; prompts are
-- lists of UTF-16 units; a file's base64 text is the list of the bytes that it stands for; times and
-- counters are natural numbers, which stay far below 2 ^ 53 in the program.
--
-- Given from outside, as parameters: the clock, random ids, SHA-256 and the digests of JSON texts,
-- whether a save succeeds, the staged files and the workspace listing, JSON.parse and JSON.stringify on
-- frames, what a message handler throws, and the value of Number on a text.
--
-- An execution of the worker meets its outside at numbered awaits: what comes in during each, whether it
-- rejects and whether it is never over (as the ack of a batch in flight when the connection fails) are functions of
-- its number, so the theorems hold for every outside. An execution that meets an await that is never over stops
-- there: neither its catch nor its finally runs. So does one whose provider client throws in its
-- constructor, at the first await that outlasts the timer that the constructor has set.
--
-- A handler of the supervisor that awaits is modelled twice: run whole, as it goes when nothing comes between,
-- and cut at its awaits. In Supervisor/Jobs a part of a handler has finished before another one
-- starts, and other messages, errors, closes and cancels come between the parts. The reads of the staged
-- files of one delivery are one await there.
--
-- Fuel: the loop of fetchInputs has the input's size and one more, since each chunk that it accepts is
-- not empty; the loops over lines have the buffer's length and one more, since each turn takes a newline
-- off the buffer. In both cases the fuel is shown to be enough where the result is.
--
-- Not modelled: the directories and sockets of a spawn, the prompt that it sends, the containers, the
-- bytes and turns of the provider's client, the server's authorization, assets and profile route and what
-- its shutdown waits for, which are input and output; the scripts of the browser but the parser, the
-- composer's test and the client track without its painting; the other experiments, and the Rust crates.
mod Prelude
pub mod Client
pub mod Composer
pub mod Data
pub mod Events
pub mod Browser
pub mod Files
pub mod Framing
pub mod Profile
pub mod Seam
pub mod Server
pub mod Sse
pub mod Store
pub mod Supervisor
pub mod Runtime
pub mod Track
pub mod Worker
mod Examples

-- ===== src/Seam.antt =====
-- apps/worker/seam.mjs: the worker's side of worker-seam/1 (class WorkerSeam). A promise that
-- appendEvent returns is a ticket, and its settlement a row of `settled`. `flush` stops where it awaits the
-- reply to its request; `settle_flush` is what follows the await. Timers are the delay that they were
-- set with.
pub mod Calls
pub mod Ordered
pub mod Fetch
pub mod Lost
pub mod Order
pub mod Session
pub mod Transfer
use agentmeld.Prelude.{
  ℕ, zero, suc, ◌+◌, ◌-◌, ◌*◌, ◌^◌, String, Bool, true, false, ◌&&◌, ◌||◌, not, Option, none, some,
  List, [], ◌∷◌, ◌++◌, map, min, max, ltb, leb, length, take, drop, ◌==◌, string_eq, nat_eq,
  if◌then◌else◌,
}
use agentmeld.Prelude.Dict.{Dict, get, put, remove}

pub record SeamEvent : Type 0 where
  pub event_id : String
  pub event_type : String
  pub payload : String
  pub dedupe_key : Option String

-- An error, with the code that marks an explicit service.error.
pub record Failure : Type 0 where
  pub code : Option String
  pub message : String

-- What a promise of appendEvent settles with: the stored row of the event if the reply has one.
pub data Settlement : Type 0 where
  acked : Option ℕ → Settlement
  refused : Failure → Settlement

pub record Item : Type 0 where
  pub ticket : ℕ
  pub event : SeamEvent

-- A request that awaits its reply: the batch of flush, or one of the other callers of sendRequest.
pub data Waiter : Type 0 where
  flush_reply : Waiter
  caller : ℕ → Waiter

pub record Seam : Type 0 where
  pub pending : Dict String Waiter
  pub queue : List Item
  pub in_flight : List Item
  pub flush_timer : Option ℕ
  pub flushing : Bool
  pub fatal : Option Failure
  pub transient_failures : ℕ
  pub run_id : Option String
  pub generation : ℕ
  pub next_ticket : ℕ
  pub settled : List (ℕ × Settlement)
  pub requests : List (String × List SeamEvent)

abbrev pub batch_interval_ms : ℕ
batch_interval_ms = 1000

abbrev pub max_batch : ℕ
max_batch = 64

abbrev pub max_transient_failures : ℕ
max_transient_failures = 15

abbrev pub settle_all : (Item → Settlement) → List Item → List (ℕ × Settlement)
settle_all f = map (λ (b : Item). (b.ticket, f b))

abbrev pub is_some {ℓ} : {A : Type ℓ} → Option A → Bool
is_some none = false
is_some (some a) = true

-- The first failure rejects what is pending and queued. A batch in flight is neither.
unfoldable pub fail : Failure → Seam → Seam
fail err s = elim s.fatal [
  | some first ↦ s
  | none ↦ record s {
    fatal = some err;
    flush_timer = none;
    pending = [];
    queue = [];
    settled = s.settled ++ settle_all (λ b. refused err) s.queue;
  }
]

-- The delay after `n` transient failures.
unfoldable pub backoff : ℕ → ℕ
backoff n = min 8000 (batch_interval_ms * 2 ^ max 0 (n - 1))

-- The `finally` of flush.
unfoldable pub finish_flush : Seam → Seam
unfolding backoff
finish_flush s =
    let rested = record s { flushing = false; in_flight = [] } in
    if not (is_some s.fatal) && ltb 0 (length s.queue) && not (is_some s.flush_timer)
    then record rested { flush_timer = some (backoff s.transient_failures) }
    else rested

-- What the await of flush gives: the rows of service.events.stored, or an error (a reply of another
-- type is an error with code internal).
pub data FlushResult : Type 0 where
  stored : List (String × ℕ) → FlushResult
  failed : Failure → FlushResult

-- new Map(rows): a later row of the same id replaces an earlier one.
unfoldable pub stored_by_id : List (String × ℕ) → Dict String ℕ → Dict String ℕ
stored_by_id [] m = m
stored_by_id ((id, seq) ∷ rows) m = stored_by_id rows (put id seq m)

abbrev pub give_up : Failure
give_up = record { code = none; message = "service unresponsive: event appends unacked" }

abbrev pub reject_batch : Failure → Seam → Seam
reject_batch err s = record s {
  settled = s.settled ++ settle_all (λ b. refused err) s.in_flight;
  in_flight = [];
}

-- The batch in flight is acknowledged by the rows, or goes back to the front of the queue.
abbrev pub ack_batch : List (String × ℕ) → Seam → Seam
ack_batch rows s = record s {
  transient_failures = 0;
  settled =
      s.settled
      ++ settle_all (λ b. acked (get b.event.event_id (stored_by_id rows []))) s.in_flight;
  in_flight = [];
}

abbrev pub requeue : Seam → Seam
requeue s = record s { queue = s.in_flight ++ s.queue; in_flight = [] }

abbrev pub count_failure : Seam → Seam
count_failure s = record s { transient_failures = suc s.transient_failures }

unfoldable pub settle_flush : FlushResult → Seam → Seam
unfolding fail finish_flush stored_by_id
settle_flush (stored rows) s = finish_flush (ack_batch rows s)
settle_flush (failed err) s =
    if is_some s.fatal
    then finish_flush s
    else if is_some err.code
    then finish_flush (fail err (reject_batch err s))
    else if ltb max_transient_failures (suc s.transient_failures)
    then finish_flush (fail give_up (reject_batch give_up (count_failure s)))
    else finish_flush (requeue (count_failure s))

-- `fail` while a batch is in flight: the rejected request wakes flush, which stops there.
unfoldable pub fail_all : Failure → Seam → Seam
unfolding fail settle_flush
fail_all err s =
    if s.flushing && not (is_some s.fatal)
    then settle_flush (failed err) (fail err s)
    else fail err s

-- The batch leaves the queue, with the request `id`.
abbrev pub launch : String → Seam → Seam
launch id s = record s {
  flushing = true;
  in_flight = take max_batch s.queue;
  queue = drop max_batch s.queue;
  requests = s.requests ++ (id, map (λ (b : Item). b.event) (take max_batch s.queue)) ∷ [];
}

-- sendRequest, up to its reply: a request whose write throws is never pending.
abbrev pub send_batch : String → Option Failure → Seam → Seam
send_batch id write s = elim write [
  | none ↦ record s { pending = put id flush_reply s.pending }
  | some err ↦ settle_flush (failed err) s
]

-- flush, up to its await. `id` is the new message id, and `write` the error of the socket's write.
unfoldable pub flush : String → Option Failure → Seam → Seam
unfolding settle_flush
flush id write s =
    let s' = record s { flush_timer = none } in
    if s.flushing || is_some s.fatal
    then s'
    else if length s.queue == 0
    then s'
    else send_batch id write (launch id s')

abbrev pub no_turn : Failure
no_turn = record { code = none; message = "no active turn" }

-- The promise's ticket is taken in every case.
abbrev pub take_ticket : Seam → Seam
take_ticket s = record s { next_ticket = suc s.next_ticket }

abbrev pub reject_now : Failure → Seam → Seam
reject_now err s = record (take_ticket s) {
  settled = s.settled ++ (s.next_ticket, refused err) ∷ [];
}

-- A run id that is absent or empty is no active turn.
abbrev pub has_turn : Seam → Bool
has_turn s = elim s.run_id [ none ↦ false | some r ↦ not (r == "") ]

abbrev pub enqueue : SeamEvent → Seam → Seam
enqueue e s = record (take_ticket s) {
  queue = s.queue ++ record { ticket = s.next_ticket; event = e } ∷ [];
}

-- appendEvent on a connection that lives.
abbrev pub append_live : String → Option Failure → SeamEvent → Seam → Seam
append_live id write e s =
    if not (has_turn s)
    then reject_now no_turn s
    else if leb max_batch (length (enqueue e s).queue)
    then flush id write (enqueue e s)
    else if is_some s.flush_timer
    then enqueue e s
    else record (enqueue e s) { flush_timer = some batch_interval_ms }

unfoldable pub append_event : String → Option Failure → SeamEvent → Seam → Seam
unfolding flush
append_event id write e s = elim s.fatal [
  | some err ↦ reject_now err s
  | none ↦ append_live id write e s
]

-- The callback of a flush timer.
unfoldable pub on_timer : String → Option Failure → Seam → Seam
unfolding flush
on_timer id write s = flush id write (record s { flush_timer = none })

unfoldable pub set_turn : String → ℕ → Seam → Seam
set_turn run generation s = record s { run_id = some run; generation = generation }

-- The constructor.
abbrev pub connected : Seam
connected = record {
  pending = [];
  queue = [];
  in_flight = [];
  flush_timer = none;
  flushing = false;
  fatal = none;
  transient_failures = 0;
  run_id = none;
  generation = 0;
  next_ticket = 0;
  settled = [];
  requests = [];
}

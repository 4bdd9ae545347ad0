-- ===== src/Worker/Kept.antt =====
-- What the calls of the worker's client (apps/worker/seam.mjs) leave alone: its turn.
use agentmeld.Prelude.{
  ℕ, String, Option, none, some, ◌≡◌, refl, arith, string_eq, nat_eq, Option-cases, inl, inr,
}
use agentmeld.Seam.{
  Seam, SeamEvent, Failure, append_event, on_timer, fail_all, fail, settle_flush, finish_flush,
  flush, Waiter, FlushResult, stored, failed, ack_batch, reject_batch, give_up, count_failure,
  requeue, launch, enqueue,
}
use agentmeld.Seam.Calls.{
  ServiceMessage, on_ack_timeout, handle_message, answer, receive_reply, reply_to, waiter_of,
  mismatch, flush_result,
}
use agentmeld.Prelude.Dict.{get, remove}

-- The turn of a seam.
abbrev pub turn_of : Seam → Option String × ℕ
turn_of s = (s.run_id, s.generation)

turn_of-fail : (err : Failure) (s : Seam) → turn_of (fail err s) ≡ turn_of s
unfolding fail
turn_of-fail err s = ground arith

turn_of-finish_flush : (s : Seam) → turn_of (finish_flush s) ≡ turn_of s
unfolding finish_flush
turn_of-finish_flush s = ground arith

turn_of-settle_flush : (r : FlushResult) (s : Seam) → turn_of (settle_flush r s) ≡ turn_of s
unfolding settle_flush
turn_of-settle_flush (stored rows) s = turn_of-finish_flush (ack_batch rows s)
turn_of-settle_flush (failed err) s = ground (
  arith,
  turn_of-finish_flush s,
  turn_of-finish_flush (fail err (reject_batch err s)),
  turn_of-fail err (reject_batch err s),
  turn_of-finish_flush (fail give_up (reject_batch give_up (count_failure s))),
  turn_of-fail give_up (reject_batch give_up (count_failure s)),
  turn_of-finish_flush (requeue (count_failure s)),
)

pub turn_of-fail_all : (err : Failure) (s : Seam) → turn_of (fail_all err s) ≡ turn_of s
unfolding fail_all
turn_of-fail_all err s =
    ground (arith, turn_of-fail err s, turn_of-settle_flush (failed err) (fail err s))

turn_of-answer : (w : Waiter) (r : FlushResult) (s : Seam) → turn_of (answer w r s) ≡ turn_of s
unfolding answer
turn_of-answer w r s = ground (arith, turn_of-settle_flush r s)

turn_of-flush :
    (id : String) (write : Option Failure) (s : Seam) → turn_of (flush id write s) ≡ turn_of s
unfolding flush
turn_of-flush id none s = ground arith
turn_of-flush id (some err) s =
    ground (arith, turn_of-settle_flush (failed err) (launch id (record s { flush_timer = none })))

pub turn_of-on_timer :
    (id : String) (write : Option Failure) (s : Seam) → turn_of (on_timer id write s) ≡ turn_of s
unfolding on_timer
turn_of-on_timer id write s = turn_of-flush id write (record s { flush_timer = none })

pub turn_of-append_event :
    (id : String) (write : Option Failure) (e : SeamEvent) (s : Seam)
    → turn_of (append_event id write e s) ≡ turn_of s
unfolding append_event
turn_of-append_event id write e s = ground (arith, turn_of-flush id write (enqueue e s))

pub turn_of-on_ack_timeout : (id : String) (s : Seam) → turn_of (on_ack_timeout id s) ≡ turn_of s
unfolding on_ack_timeout
turn_of-on_ack_timeout id s = elim (Option-cases (get id s.pending)) [
  | inr (w, e) ↦ ground (
    arith,
    e,
    turn_of-answer w (failed (record { code = none; message = "ack timeout" }))
        (record s { pending = remove id s.pending }),
  )
  | inl e ↦ ground (arith, e)
]

turn_of-receive_reply :
    (msg : ServiceMessage) (reply : Option String) (w : Option Waiter) (s : Seam)
    → turn_of (receive_reply msg reply w s).0 ≡ turn_of s
turn_of-receive_reply msg none w s = refl
turn_of-receive_reply msg (some id) none s = refl
turn_of-receive_reply msg (some id) (some w) s =
    turn_of-answer w (flush_result msg) (record s { pending = remove id s.pending })

pub turn_of-handle_message :
    (msg : ServiceMessage) (s : Seam) → turn_of (handle_message msg s).0 ≡ turn_of s
unfolding handle_message
turn_of-handle_message msg s = ground (
  arith,
  turn_of-fail_all mismatch s,
  turn_of-receive_reply msg (reply_to msg) (waiter_of (reply_to msg) s) s,
)

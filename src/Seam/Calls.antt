-- ===== src/Seam/Calls.antt =====
-- What the class WorkerSeam of apps/worker/seam.mjs hears: handleMessage, the timers of its requests, and all of its
-- calls in any order.
use agentmeld.Prelude.{
  ℕ, String, not, Option, none, some, List, [], ◌∷◌, ◌==◌, string_eq, nat_eq, if◌then◌else◌,
}
use agentmeld.Prelude.Dict.{get, remove}
use agentmeld.Seam.{
  SeamEvent, Failure, Waiter, flush_reply, caller, Seam, FlushResult, stored, failed, settle_flush,
  fail_all, append_event, on_timer, set_turn,
}

-- A message of the service, with the fields that handleMessage reads.
pub record ServiceMessage : Type 0 where
  pub protocol : String
  pub in_reply_to : Option String
  pub msg_type : String
  pub rows : List (String × ℕ)
  pub code : Option String

-- Who hears of a message: the request that it answers, one of the hooks, or nobody.
pub data Heard : Type 0 where
  answers : Waiter → Heard
  service_error_hook service_message_hook nobody : Heard

abbrev pub mismatch : Failure
mismatch = record { code = none; message = "protocol mismatch" }

-- msg.code || 'internal'
abbrev pub error_code : Option String → String
error_code none = "internal"
error_code (some c) = if c == "" then "internal" else c

-- The result that flush's await sees in a reply.
unfoldable pub flush_result : ServiceMessage → FlushResult
flush_result msg =
    if msg.msg_type == "service.error"
    then failed (record { code = some (error_code msg.code); message = "service error" })
    else if msg.msg_type == "service.events.stored"
    then stored msg.rows
    else failed (record { code = some "internal"; message = "unexpected reply to events.append" })

unfoldable pub unanswered : Option String → ServiceMessage → Heard
unanswered none msg =
    if msg.msg_type == "service.error" then service_error_hook else service_message_hook
unanswered (some id) msg = nobody

-- msg.in_reply_to, where the empty text is as none.
abbrev pub reply_to : ServiceMessage → Option String
reply_to msg = elim msg.in_reply_to [ none ↦ none | some id ↦ if id == "" then none else some id ]

-- The continuation of the request that a reply or a timeout settles.
unfoldable pub answer : Waiter → FlushResult → Seam → Seam
unfolding settle_flush
answer flush_reply r s = settle_flush r s
answer (caller n) r s = s

-- A message that may answer the request with waiter `w`.
abbrev pub receive_reply : ServiceMessage → Option String → Option Waiter → Seam → Seam × Heard
receive_reply msg none w s = (s, unanswered none msg)
receive_reply msg (some id) none s = (s, unanswered (some id) msg)
receive_reply msg (some id) (some w) s =
    (answer w (flush_result msg) (record s { pending = remove id s.pending }), answers w)

abbrev pub waiter_of : Option String → Seam → Option Waiter
waiter_of none s = none
waiter_of (some id) s = get id s.pending

-- handleMessage, and the continuation of flush where it was waiting for this reply.
unfoldable pub handle_message : ServiceMessage → Seam → Seam × Heard
unfolding fail_all answer flush_result unanswered
handle_message msg s =
    if not (msg.protocol == "worker-seam/1")
    then (fail_all mismatch s, nobody)
    else receive_reply msg (reply_to msg) (waiter_of (reply_to msg) s) s

-- The ack timer of a request: only a request that is still pending is rejected.
unfoldable pub on_ack_timeout : String → Seam → Seam
unfolding answer
on_ack_timeout id s = elim (get id s.pending) [
  | none ↦ s
  | some w ↦
      answer w (failed (record { code = none; message = "ack timeout" }))
        (record s { pending = remove id s.pending })
]

-- What happens to the seam: the worker's calls, the timers, the socket and the service's messages.
pub data Call : Type 0 where
  begin : String → ℕ → Call
  append : String → Option Failure → SeamEvent → Call
  timer_fires : String → Option Failure → Call
  ack_timeout : String → Call
  socket_fails : Failure → Call
  receive : ServiceMessage → Call

unfoldable pub call : Call → Seam → Seam
unfolding append_event on_timer handle_message on_ack_timeout set_turn fail_all
call (begin run generation) s = set_turn run generation s
call (append id write e) s = append_event id write e s
call (timer_fires id write) s = on_timer id write s
call (ack_timeout id) s = on_ack_timeout id s
call (socket_fails err) s = fail_all err s
call (receive msg) s = (handle_message msg s).0

unfoldable pub calls : List Call → Seam → Seam
unfolding call
calls [] s = s
calls (c ∷ cs) s = calls cs (call c s)

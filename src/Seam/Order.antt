-- ===== src/Seam/Order.antt =====
-- The order of the events of apps/worker/seam.mjs: batches, retries and settlements keep it.
use agentmeld.Prelude.{
  ℕ, String, true, false, ◌||◌, not, Option, none, some, List, [], ◌∷◌, ◌++◌, leb, length, ◌==◌,
  string_eq, nat_eq, ◌≡◌, refl, sym, ap, ap₂, ◌∙◌, arith, append_assoc, append-nil, inl, inr, ◌⊎◌,
  if_elim, All,
}
use mathlib.Core.List.{map-append}
use agentmeld.Prelude.Dict.{Dict, get, remove}
use agentmeld.Seam.{
  Seam, SeamEvent, Failure, Settlement, refused, Waiter, flush_reply, caller, is_some, FlushResult,
  failed, launch, enqueue, flush, append_event, append_live, connected, reject_now, no_turn,
  on_timer, set_turn, has_turn, max_batch, batch_interval_ms,
}
use agentmeld.Seam.Calls.{
  answer, receive_reply, waiter_of, reply_to, Heard, Call, begin, append, timer_fires, ack_timeout,
  socket_fails, receive, call, calls, ServiceMessage, handle_message, flush_result, mismatch,
  on_ack_timeout,
}
use agentmeld.Seam.Ordered.{
  range, tickets, settled_tickets, line_up, InOrder, tickets-append, settle_flush-InOrder,
  fail_all-InOrder, launch-InOrder, send_batch-InOrder, timerless,
}

flush-InOrder :
    (id : String) (write : Option Failure) (s : Seam) → InOrder s → InOrder (flush id write s)
unfolding flush
flush-InOrder id write s h =
    let s' = record s { flush_timer = none } in
    let h' = timerless s none h in
    if_elim InOrder (s.flushing || is_some s.fatal) _ _ (λ _. h')
      λ free.
        if_elim InOrder (nat_eq.same (length s.queue) 0) _ _ (λ _. h')
          λ _.
            send_batch-InOrder id write (launch id s')
              (launch-InOrder id s' h' (h.idle (ground arith)))

enqueue-InOrder : (e : SeamEvent) (s : Seam) → InOrder s → has_turn s ≡ true → InOrder (enqueue e s)
enqueue-InOrder e s h turn = record {
  line = λ alive.
      ap (λ r. settled_tickets s.settled ++ (tickets s.in_flight ++ r))
        (tickets-append s.queue (record { ticket = s.next_ticket; event = e } ∷ []))
      ∙ ap (λ r. settled_tickets s.settled ++ r) (sym (append_assoc (tickets s.in_flight) _ _))
      ∙ sym (append_assoc (settled_tickets s.settled) _ _)
      ∙ ap (λ r. r ++ s.next_ticket ∷ []) (h.line alive);
  idle = h.idle;
  turnless = λ none_set. absurd (ground arith);
}

-- A rejection at once is the last ticket in line where nothing else is waiting.
reject_now-InOrder :
    (err : Failure) (s : Seam)
    → InOrder s
    → (is_some s.fatal ≡ true) ⊎ (has_turn s ≡ false)
    → InOrder (reject_now err s)
reject_now-InOrder err s h (inl dead) = record {
  line = λ alive. absurd (ground arith);
  idle = h.idle;
  turnless = h.turnless;
}
reject_now-InOrder err s h (inr none_set) = record {
  line = λ alive.
      let (q, f) = h.turnless none_set in
      ap₂ ◌++◌
        (map-append (λ (r : ℕ × Settlement). r.0) s.settled ((s.next_ticket, refused err) ∷ []))
        (ap₂ (λ a b. tickets a ++ tickets b) f q)
      ∙ append-nil _
      ∙ ap (λ r. r ++ s.next_ticket ∷ [])
          (sym (append-nil _)
            ∙ ap (λ r. settled_tickets s.settled ++ r)
                (sym (ap₂ (λ a b. tickets a ++ tickets b) f q))
            ∙ h.line alive);
  idle = h.idle;
  turnless = h.turnless;
}

append_live-InOrder :
    (id : String) (write : Option Failure) (e : SeamEvent) (s : Seam)
    → InOrder s
    → InOrder (append_live id write e s)
append_live-InOrder id write e s h =
    if_elim InOrder (not (has_turn s)) _ _
      (λ none_set. reject_now-InOrder no_turn s h (inr (ground arith)))
      λ turn.
        let queued = enqueue-InOrder e s h (ground arith) in
        if_elim InOrder (leb max_batch (length (enqueue e s).queue)) _ _
          (λ _. flush-InOrder id write (enqueue e s) queued)
          λ _.
            if_elim InOrder (is_some s.flush_timer) _ _ (λ _. queued)
              λ _. timerless (enqueue e s) (some batch_interval_ms) queued

append_event-InOrder :
    (id : String) (write : Option Failure) (e : SeamEvent) (s : Seam)
    → InOrder s
    → InOrder (append_event id write e s)
unfolding append_event
append_event-InOrder id write e s h = branch s.fatal refl
  where
    branch :
        (f : Option Failure)
        → s.fatal ≡ f
        → InOrder (elim f as (λ x. Seam) [
          | some err ↦ reject_now err s
          | none ↦ append_live id write e s
        ])
    branch (some err) dead = reject_now-InOrder err s h (inl (ap is_some dead))
    branch none alive = append_live-InOrder id write e s h

answer-InOrder : (w : Waiter) (r : FlushResult) (s : Seam) → InOrder s → InOrder (answer w r s)
unfolding answer
answer-InOrder flush_reply r s h = settle_flush-InOrder r s h
answer-InOrder (caller n) r s h = h

unpend : (s : Seam) (p : Dict String Waiter) → InOrder s → InOrder (record s { pending = p })
unpend s p h = record { line = h.line; idle = h.idle; turnless = h.turnless }

receive_reply-InOrder :
    (msg : ServiceMessage) (id : Option String) (w : Option Waiter) (s : Seam)
    → InOrder s
    → InOrder (receive_reply msg id w s).0
receive_reply-InOrder msg none w s h = h
receive_reply-InOrder msg (some id) none s h = h
receive_reply-InOrder msg (some id) (some w) s h =
    answer-InOrder w (flush_result msg) _ (unpend s (remove id s.pending) h)

handle_message-InOrder :
    (msg : ServiceMessage) (s : Seam) → InOrder s → InOrder (handle_message msg s).0
unfolding handle_message
handle_message-InOrder msg s h =
    if_elim (λ (r : Seam × Heard). InOrder r.0) (not (msg.protocol == "worker-seam/1")) _ _
      (λ _. fail_all-InOrder mismatch s h)
      λ _. receive_reply-InOrder msg (reply_to msg) (waiter_of (reply_to msg) s) s h

on_ack_timeout-InOrder : (id : String) (s : Seam) → InOrder s → InOrder (on_ack_timeout id s)
unfolding on_ack_timeout
on_ack_timeout-InOrder id s h = branch (get id s.pending)
  where
    branch :
        (w : Option Waiter)
        → InOrder (elim w as (λ x. Seam) [
          | none ↦ s
          | some w ↦
              answer w
                (failed (record { code = none; message = "ack timeout" }))
                (record s { pending = remove id s.pending })
        ])
    branch none = h
    branch (some w) = answer-InOrder w _ _ (unpend s (remove id s.pending) h)

-- worker.mjs sets a turn with the run's id, which is not empty.
abbrev pub Proper : Call → Type 0
Proper (begin run generation) = (run == "") ≡ false
Proper (append id write e) = Unit
Proper (timer_fires id write) = Unit
Proper (ack_timeout id) = Unit
Proper (socket_fails err) = Unit
Proper (receive msg) = Unit

call-InOrder : (c : Call) (s : Seam) → Proper c → InOrder s → InOrder (call c s)
unfolding call set_turn on_timer
call-InOrder (begin run generation) s p h = record {
  line = h.line;
  idle = h.idle;
  turnless = λ e. absurd (ground arith);
}
call-InOrder (append id write e) s p h = append_event-InOrder id write e s h
call-InOrder (timer_fires id write) s p h = flush-InOrder id write _ (timerless s none h)
call-InOrder (ack_timeout id) s p h = on_ack_timeout-InOrder id s h
call-InOrder (socket_fails err) s p h = fail_all-InOrder err s h
call-InOrder (receive msg) s p h = handle_message-InOrder msg s h

pub calls-InOrder : (cs : List Call) (s : Seam) → All Proper cs → InOrder s → InOrder (calls cs s)
unfolding calls
calls-InOrder [] s p h = h
calls-InOrder (c ∷ cs) s p h = calls-InOrder cs (call c s) p.1 (call-InOrder c s p.0 h)

pub connected-InOrder : InOrder connected
connected-InOrder = record { line = λ e. refl; idle = λ e. refl; turnless = λ e. (refl, refl) }

-- Whatever appends, timers, lost acks, write errors and service messages a new connection meets, with
-- turns set to runs whose id is not empty, as long as it has had no fatal error: the tickets of the
-- settled promises, then those of the batch in flight, then those of the queue are all the tickets given
-- out, each once, in the order of the calls of appendEvent. So no event is lost, sent out of turn or
-- settled twice by a retry.
pub calls-connected :
    (cs : List Call)
    → All Proper cs
    → (calls cs connected).fatal ≡ none
    → line_up (calls cs connected) ≡ range (calls cs connected).next_ticket
calls-connected cs p alive = (calls-InOrder cs connected p connected-InOrder).line alive

-- ===== src/Seam/Lost.antt =====
-- The batch in flight when the connection of apps/worker/seam.mjs fails.
use mathlib.Core.List.{map-append}
use agentmeld.Prelude.{
  ℕ, zero, suc, ◌+◌, String, not, Option, none, some, List, [], ◌∷◌, ◌++◌, ◌==◌, string_eq, nat_eq,
  ◌≡◌, ◌≢◌, refl, sym, ap, ap₂, ◌∙◌, arith, append_assoc, append-nil, if_elim,
}
use agentmeld.Prelude.Dict.{get}
use agentmeld.Seam.{
  Seam, SeamEvent, Failure, Settlement, refused, settle_all, fail, fail_all, finish_flush,
  settle_flush, flush, append_event, append_live, reject_now, on_timer, set_turn,
}
use agentmeld.Seam.Calls.{
  ServiceMessage, handle_message, mismatch, on_ack_timeout, Call, begin, append, timer_fires,
  ack_timeout, socket_fails, receive, call, calls, reply_to, waiter_of, receive_reply, Heard,
}
use agentmeld.Seam.Ordered.{tickets, settled_tickets, settled-append, range, InOrder}

-- n, n + 1, … up to the last number below n + k
abbrev pub span : ℕ → ℕ → List ℕ
span n zero = []
span n (suc k) = span n k ++ (n + k) ∷ []

-- A connection that failed when `base` was settled and `n` the next ticket.
record IsDead (base : List ℕ) (n : ℕ) (s : Seam) : Type 0 where
  dead : s.fatal ≢ none
  nothing_pending : s.pending ≡ []
  later : ℕ
  given : s.next_ticket ≡ n + later
  line : settled_tickets s.settled ≡ base ++ span n later

flush_dead :
    (id : String) (write : Option Failure) (s : Seam)
    → s.fatal ≢ none
    → flush id write s ≡ record s { flush_timer = none }
unfolding flush
flush_dead id write s h = ground arith

fail_all_dead : (err : Failure) (s : Seam) → s.fatal ≢ none → fail_all err s ≡ s
unfolding fail_all fail
fail_all_dead err s h = ground arith

receive_reply_dead :
    (msg : ServiceMessage) (id : Option String) (s : Seam)
    → s.pending ≡ []
    → (receive_reply msg id (waiter_of id s) s).0 ≡ s
unfolding get
receive_reply_dead msg none s e = refl
receive_reply_dead msg (some id) s e = ground (arith, e)

handle_message_dead :
    (msg : ServiceMessage) (s : Seam)
    → s.fatal ≢ none
    → s.pending ≡ []
    → (handle_message msg s).0 ≡ s
unfolding handle_message
handle_message_dead msg s h e =
    if_elim (λ (r : Seam × Heard). r.0 ≡ s) (not (msg.protocol == "worker-seam/1")) _ _
      (λ _. fail_all_dead mismatch s h) λ _. receive_reply_dead msg (reply_to msg) s e

on_ack_timeout_dead : (id : String) (s : Seam) → s.pending ≡ [] → on_ack_timeout id s ≡ s
unfolding on_ack_timeout get
on_ack_timeout_dead id s e = ground (arith, e)

module _ (base : List ℕ) (n : ℕ) where
  reject_now-IsDead :
      (err : Failure) (s : Seam) → IsDead base n s → IsDead base n (reject_now err s)
  reject_now-IsDead err s h = record {
    dead = h.dead;
    nothing_pending = h.nothing_pending;
    later = suc h.later;
    given = omega (arith, h.given);
    line =
        map-append (λ (r : ℕ × Settlement). r.0) s.settled ((s.next_ticket, refused err) ∷ [])
        ∙ ap₂ (λ l k. l ++ k ∷ []) h.line h.given
        ∙ append_assoc base (span n h.later) _;
  }

  append_event-IsDead :
      (id : String) (write : Option Failure) (e : SeamEvent) (s : Seam)
      → IsDead base n s
      → IsDead base n (append_event id write e s)
  unfolding append_event
  append_event-IsDead id write e s h = branch s.fatal refl
    where
      branch :
          (f : Option Failure)
          → s.fatal ≡ f
          → IsDead base n (elim f as (λ x. Seam) [
            | some err ↦ reject_now err s
            | none ↦ append_live id write e s
          ])
      branch (some err) e' = reject_now-IsDead err s h
      branch none alive = absurd (h.dead alive)

  timed : (s : Seam) (t : Option ℕ) → IsDead base n s → IsDead base n (record s { flush_timer = t })
  timed s t h = record {
    dead = h.dead;
    nothing_pending = h.nothing_pending;
    later = h.later;
    given = h.given;
    line = h.line;
  }

  call-IsDead : (c : Call) (s : Seam) → IsDead base n s → IsDead base n (call c s)
  unfolding call set_turn on_timer
  call-IsDead (begin run generation) s h = record {
    dead = h.dead;
    nothing_pending = h.nothing_pending;
    later = h.later;
    given = h.given;
    line = h.line;
  }
  call-IsDead (append id write e) s h = append_event-IsDead id write e s h
  call-IsDead (timer_fires id write) s h =
      rw (flush_dead id write (record s { flush_timer = none }) h.dead) (timed s none h)
  call-IsDead (ack_timeout id) s h = rw (on_ack_timeout_dead id s h.nothing_pending) h
  call-IsDead (socket_fails err) s h = rw (fail_all_dead err s h.dead) h
  call-IsDead (receive msg) s h = rw (handle_message_dead msg s h.dead h.nothing_pending) h

  calls-IsDead : (cs : List Call) (s : Seam) → IsDead base n s → IsDead base n (calls cs s)
  unfolding calls
  calls-IsDead [] s h = h
  calls-IsDead (c ∷ cs) s h = calls-IsDead cs (call c s) (call-IsDead c s h)

fail_all-IsDead :
    (err : Failure) (s : Seam)
    → s.fatal ≡ none
    → IsDead (settled_tickets s.settled ++ tickets s.queue) s.next_ticket (fail_all err s)
fail_all-IsDead err s alive = record {
  dead = unfold fail_all fail settle_flush finish_flush in ground arith;
  nothing_pending = unfold fail_all fail settle_flush finish_flush in ground arith;
  later = 0;
  given = unfold fail_all fail settle_flush finish_flush in ground arith;
  line =
      ap settled_tickets rejected_queue
      ∙ settled-append s.settled (λ b. refused err) s.queue
      ∙ sym (append-nil _);
}
  where
    rejected_queue : (fail_all err s).settled ≡ s.settled ++ settle_all (λ b. refused err) s.queue
    rejected_queue = unfold fail_all fail settle_flush finish_flush in ground arith

range-span : (n k : ℕ) → range (n + k) ≡ range n ++ span n k
range-span n zero = ap range (let e : n + zero ≡ n = omega arith in e) ∙ sym (append-nil (range n))
range-span n (suc k) =
    ap range (let e : n + suc k ≡ suc (n + k) = omega arith in e)
    ∙ ap (λ l. l ++ (n + k) ∷ []) (range-span n k)
    ∙ append_assoc (range n) (span n k) _

-- The settlements after a failure of `s` and the calls `cs`: all tickets but those in flight.
abbrev pub MissesBatch : Failure → List Call → Seam → Type 0
MissesBatch err cs s =
    (k : ℕ) × ((calls cs (fail_all err s)).next_ticket ≡ s.next_ticket + k)
    × (settled_tickets (calls cs (fail_all err s)).settled
        ≡ (settled_tickets s.settled ++ tickets s.queue) ++ span s.next_ticket k)
    × (range (calls cs (fail_all err s)).next_ticket
        ≡ (settled_tickets s.settled ++ (tickets s.in_flight ++ tickets s.queue))
          ++ span s.next_ticket k)

-- If the connection fails while a batch is in flight, then whatever happens afterwards, the promises
-- that settle are those settled before, those that were queued, and those of later calls of
-- appendEvent; all tickets given out are these and, between the first two, those of the batch: its
-- promises are the ones that never settle.
pub settled-fail_all :
    (err : Failure) (cs : List Call) (s : Seam) → InOrder s → s.fatal ≡ none → MissesBatch err cs s
settled-fail_all err cs s h alive =
    let d =
      calls-IsDead (settled_tickets s.settled ++ tickets s.queue) s.next_ticket cs (fail_all err s)
        (fail_all-IsDead err s alive) in
    (
      d.later,
      d.given,
      d.line,
      ap range d.given
          ∙ range-span s.next_ticket d.later
          ∙ ap (λ l. l ++ span s.next_ticket d.later) (sym (h.line alive)),
    )

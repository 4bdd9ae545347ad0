-- ===== src/Seam/Ordered.antt =====
-- The steps of the class WorkerSeam of apps/worker/seam.mjs that send a batch and settle it, and the order of what
-- waits in them.
use agentmeld.Prelude.{
  ℕ, zero, suc, String, true, false, ◌&&◌, not, Option, none, some, List, [], ◌∷◌, ◌++◌, map, ltb,
  take, drop, string_eq, nat_eq, ◌≡◌, ◌≢◌, refl, sym, ap, ap₂, ◌∙◌, arith, take-append-drop,
  append_assoc, if_elim,
}
use agentmeld.Prelude.Dict.{get}
use agentmeld.Seam.{
  Seam, Item, Failure, Settlement, acked, refused, settle_all, is_some, fail, fail_all,
  finish_flush, FlushResult, stored, failed, stored_by_id, give_up, reject_batch, settle_flush,
  launch, send_batch, ack_batch, requeue, count_failure, has_turn, max_transient_failures,
  max_batch,
}

-- The numbers below n, in order.
abbrev pub range : ℕ → List ℕ
range zero = []
range (suc n) = range n ++ n ∷ []

abbrev pub tickets : List Item → List ℕ
tickets = map (λ (b : Item). b.ticket)

abbrev pub settled_tickets : List (ℕ × Settlement) → List ℕ
settled_tickets = map (λ (r : ℕ × Settlement). r.0)

-- All tickets given out, in the order of the calls: the settled ones, the batch in flight, the queue.
abbrev pub line_up : Seam → List ℕ
line_up s = settled_tickets s.settled ++ (tickets s.in_flight ++ tickets s.queue)

-- As long as the connection lives, nothing is lost, doubled or reordered; and no batch is in flight
-- unless the flag says so.
pub record InOrder (s : Seam) : Type 0 where
  pub line : s.fatal ≡ none → line_up s ≡ range s.next_ticket
  pub idle : s.flushing ≡ false → s.in_flight ≡ []
  -- Before a turn is set nothing is queued.
  pub turnless : has_turn s ≡ false → (s.queue ≡ []) × (s.in_flight ≡ [])

pub tickets-append : (xs ys : List Item) → tickets (xs ++ ys) ≡ tickets xs ++ tickets ys
tickets-append [] ys = refl
tickets-append (x ∷ xs) ys = ap (λ r. x.ticket ∷ r) (tickets-append xs ys)

pub settled-append :
    (rows : List (ℕ × Settlement)) (f : Item → Settlement) (xs : List Item)
    → settled_tickets (rows ++ settle_all f xs) ≡ settled_tickets rows ++ tickets xs
settled-append [] f [] = refl
settled-append [] f (x ∷ xs) = ap (λ r. x.ticket ∷ r) (settled-append [] f xs)
settled-append (r ∷ rows) f xs = ap (λ l. r.0 ∷ l) (settled-append rows f xs)

fail_fatal : (err : Failure) (s : Seam) → (fail err s).fatal ≢ none
unfolding fail
fail_fatal err s = ground arith

-- A state that `finish_flush` may close.
record Closable (s : Seam) : Type 0 where
  landed : s.fatal ≡ none → (s.in_flight ≡ []) × (line_up s ≡ range s.next_ticket)
  pub turnless : has_turn s ≡ false → s.queue ≡ []

finish_flush-InOrder : (s : Seam) → Closable s → InOrder (finish_flush s)
unfolding finish_flush
finish_flush-InOrder s h = ground arith

fail-InOrder : (err : Failure) (s : Seam) → InOrder s → InOrder (fail err s)
fail-InOrder err s h = record {
  line = λ alive. absurd (fail_fatal err s alive);
  idle = unfold fail in ground arith;
  turnless = unfold fail in ground arith;
}

fail-Closable : (err : Failure) (s : Seam) → InOrder s → Closable (fail err s)
fail-Closable err s h = record {
  landed = λ alive. absurd (fail_fatal err s alive);
  turnless = unfold fail in ground arith;
}

reject_batch-turnless : (err : Failure) (s : Seam) → InOrder s → InOrder (reject_batch err s)
reject_batch-turnless err s h = record {
  line = λ alive.
      rw (settled-append s.settled (λ b. refused err) s.in_flight)
        (append_assoc (settled_tickets s.settled) _ _ ∙ h.line alive);
  idle = λ e. refl;
  turnless = λ e. ((h.turnless e).0, refl);
}

-- A batch that is settled leaves the flight for the settled, and one that is put back the queue.
ack_batch-Closable : (rows : List (String × ℕ)) (s : Seam) → InOrder s → Closable (ack_batch rows s)
ack_batch-Closable rows s h = record {
  landed = λ alive. (
    refl,
    rw
        (settled-append s.settled (λ b. acked (get b.event.event_id (stored_by_id rows [])))
          s.in_flight)
        (append_assoc (settled_tickets s.settled) _ _ ∙ h.line alive),
  );
  turnless = λ e. (h.turnless e).0;
}

requeue-Closable : (s : Seam) → InOrder s → Closable (requeue (count_failure s))
requeue-Closable s h = record {
  landed = λ alive. (refl, rw (tickets-append s.in_flight s.queue) (h.line alive));
  turnless = λ e. ap₂ ◌++◌ (h.turnless e).1 (h.turnless e).0;
}

dead-Closable : (s : Seam) → InOrder s → is_some s.fatal ≡ true → Closable s
dead-Closable s h dead = record {
  landed = λ alive. absurd (ground arith);
  turnless = λ e. (h.turnless e).0;
}

pub settle_flush-InOrder : (r : FlushResult) (s : Seam) → InOrder s → InOrder (settle_flush r s)
unfolding settle_flush
settle_flush-InOrder (stored rows) s h =
    finish_flush-InOrder (ack_batch rows s) (ack_batch-Closable rows s h)
settle_flush-InOrder (failed err) s h =
    if_elim InOrder (is_some s.fatal) _ _ (λ dead. finish_flush-InOrder s (dead-Closable s h dead))
      λ _.
        if_elim InOrder (is_some err.code) _ _
          (λ _.
            finish_flush-InOrder (fail err (reject_batch err s))
              (fail-Closable err (reject_batch err s) (reject_batch-turnless err s h)))
          λ _.
            if_elim InOrder (ltb max_transient_failures (suc s.transient_failures)) _ _
              (λ _. finish_flush-InOrder (fail give_up (reject_batch give_up (count_failure s))) (
                fail-Closable give_up (reject_batch give_up (count_failure s))
                  (reject_batch-turnless give_up (count_failure s) (same-InOrder s h))))
              λ _. finish_flush-InOrder (requeue (count_failure s)) (requeue-Closable s h)
  where
    same-InOrder : (s : Seam) → InOrder s → InOrder (count_failure s)
    same-InOrder s h = record { line = h.line; idle = h.idle; turnless = h.turnless }

pub fail_all-InOrder : (err : Failure) (s : Seam) → InOrder s → InOrder (fail_all err s)
unfolding fail_all
fail_all-InOrder err s h =
    if_elim InOrder (s.flushing && not (is_some s.fatal)) _ _
      (λ _. settle_flush-InOrder (failed err) (fail err s) (fail-InOrder err s h))
      λ _. fail-InOrder err s h

pub launch-InOrder : (id : String) (s : Seam) → InOrder s → s.in_flight ≡ [] → InOrder (launch id s)
launch-InOrder id s h empty = record {
  line = λ alive. launched alive;
  idle = λ e. absurd (ground arith);
  turnless = λ e. let q = (h.turnless e).0 in (ap (drop max_batch) q, ap (take max_batch) q);
}
  where
    launched : s.fatal ≡ none → line_up (launch id s) ≡ range s.next_ticket
    launched alive =
        ap (λ r. settled_tickets s.settled ++ r)
          (sym (tickets-append (take max_batch s.queue) (drop max_batch s.queue))
            ∙ ap tickets (take-append-drop max_batch s.queue)
            ∙ ap (λ f. tickets f ++ tickets s.queue) (sym empty))
        ∙ h.line alive

pub send_batch-InOrder :
    (id : String) (write : Option Failure) (s : Seam) → InOrder s → InOrder (send_batch id write s)
send_batch-InOrder id none s h = record { line = h.line; idle = h.idle; turnless = h.turnless }
send_batch-InOrder id (some err) s h = settle_flush-InOrder (failed err) s h

pub timerless :
    (s : Seam) (timer : Option ℕ) → InOrder s → InOrder (record s { flush_timer = timer })
timerless s timer h = record { line = h.line; idle = h.idle; turnless = h.turnless }

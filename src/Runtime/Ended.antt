-- ===== src/Runtime/Ended.antt =====
-- The end of an execution of apps/worker/runtime.mjs: how many events run.terminated its log has, and what
-- stands before it.
use agentmeld.Prelude.{
  ℕ, Bool, true, false, ◌||◌, List, [], ◌∷◌, ◌++◌, none, ◌≡◌, refl, ap, ◌∙◌, arith, any, any-append,
  append_assoc, ◌⊎◌, inl, inr,
}
use agentmeld.Runtime.{Payload, answer_delta, Emitted, Start, World}
use agentmeld.Runtime.Keep.{IsClosed, Settles, plain, entry}
use agentmeld.Runtime.Whole.{execute_turn_ends, is_end, is_terminated}
use agentmeld.Runtime.Finish.{execute_turn, new_worker}

-- Whether a log has an event with the test.
unfoldable pub has : (Payload → Bool) → List Emitted → Bool
unfolding any
has test log = any (λ (e : Emitted). test e.payload) log

-- A log with one event run.terminated, after an event that ends the turn.
pub record IsEnded (log : List Emitted) : Type 0 where
  pub before : List Emitted
  pub after : List Emitted
  pub last : Emitted
  pub split : log ≡ before ++ last ∷ after
  pub closes : is_terminated last.payload ≡ true
  pub ended : has is_end before ≡ true
  pub only : has is_terminated before ≡ false
  pub quiet : has is_terminated after ≡ false

has-append :
    (test : Payload → Bool) (log more : List Emitted)
    → has test (log ++ more) ≡ (has test log || has test more)
unfolding has
has-append test log more = any-append (λ (e : Emitted). test e.payload) log more

-- No event run.terminated so far.
abbrev IsOpen : List Emitted → List ℕ → List ℕ → ℕ → Type 0
IsOpen log answer buf n = has is_terminated log ≡ false

-- Nor that, but an event that ends the turn.
abbrev IsClosing : List Emitted → List ℕ → List ℕ → ℕ → Type 0
IsClosing log answer buf n = (has is_terminated log ≡ false) × (has is_end log ≡ true)

abbrev Ended : List Emitted → List ℕ → List ℕ → ℕ → Type 0
Ended log answer buf n = IsEnded log

plain_not_terminated : (payload : Payload) → plain payload ≡ true → is_terminated payload ≡ false
unfolding plain is_terminated
plain_not_terminated payload e = ground arith

end_not_terminated : (payload : Payload) → is_end payload ≡ true → is_terminated payload ≡ false
unfolding is_end is_terminated
end_not_terminated payload e = ground arith

has_one : (test : Payload → Bool) (e : Emitted) → has test (e ∷ []) ≡ test e.payload
unfolding has any
has_one test e = ground arith

-- One more event that is not run.terminated.
open_event :
    (log : List Emitted) (e : Emitted)
    → is_terminated e.payload ≡ false
    → has is_terminated log ≡ false
    → has is_terminated (log ++ e ∷ []) ≡ false
open_event log e q h =
    ground (arith, has-append is_terminated log (e ∷ []), has_one is_terminated e, q, h)

end_event :
    (log : List Emitted) (e : Emitted) → has is_end log ≡ true → has is_end (log ++ e ∷ []) ≡ true
end_event log e h = ground (arith, has-append is_end log (e ∷ []), h)

IsEnded-event :
    (log : List Emitted) (e : Emitted)
    → is_terminated e.payload ≡ false
    → IsEnded log
    → IsEnded (log ++ e ∷ [])
IsEnded-event log e q i = record {
  before = i.before;
  after = i.after ++ e ∷ [];
  last = i.last;
  split = ap (λ l. l ++ e ∷ []) i.split ∙ append_assoc i.before (i.last ∷ i.after) (e ∷ []);
  closes = i.closes;
  ended = i.ended;
  only = i.only;
  quiet = open_event i.after e q i.quiet;
}

delta_open : (text : List ℕ) (n : ℕ) → is_terminated (answer_delta text n) ≡ false
unfolding is_terminated
delta_open text n = refl

IsOpen-closed : IsClosed IsOpen
IsOpen-closed = record {
  event = λ key payload log answer buf n e h.
      open_event log (entry key payload) (plain_not_terminated payload e) h;
  delta = λ text rest log answer n ok h.
      open_event log (entry none (answer_delta text n)) (delta_open text n) h;
  chunk = λ c log answer buf n h. h;
}

IsClosing-closed : IsClosed IsClosing
IsClosing-closed = record {
  event = λ key payload log answer buf n e h. (
    open_event log (entry key payload) (plain_not_terminated payload e) h.0,
    end_event log (entry key payload) h.1,
  );
  delta = λ text rest log answer n ok h. (
    open_event log (entry none (answer_delta text n)) (delta_open text n) h.0,
    end_event log (entry none (answer_delta text n)) h.1,
  );
  chunk = λ c log answer buf n h. h;
}

Ended-closed : IsClosed Ended
Ended-closed = record {
  event = λ key payload log answer buf n e i.
      IsEnded-event log (entry key payload) (plain_not_terminated payload e) i;
  delta = λ text rest log answer n ok i.
      IsEnded-event log (entry none (answer_delta text n)) (delta_open text n) i;
  chunk = λ c log answer buf n i. i;
}

-- Whatever an outside brings: the log of an execution has exactly one event run.terminated, with run.completed,
-- run.failed or run.cancelled before it, or the execution has stopped on the way and the log has no event
-- run.terminated. It stops only in an outside where some await is never over, or where the constructor of the
-- provider's client throws, whose timer may then end the process.
pub execute_turn-IsEnded :
    (start : Start) (w : World)
    → IsEnded (execute_turn start w new_worker).log
      ⊎ (((execute_turn start w new_worker).halted ≡ true)
          × (has is_terminated (execute_turn start w new_worker).log ≡ false)
          × (¬ Settles w))
unfolding has any
execute_turn-IsEnded start w =
    elim (execute_turn_ends IsOpen-closed IsClosing-closed Ended-closed
      (λ key payload log answer buf n e h. (
        open_event log (entry key payload) (end_not_terminated payload e) h,
        ground (
          arith,
          has-append is_end log (entry key payload ∷ []),
          has_one is_end (entry key payload),
          e,
        ),
      ))
      (λ key payload log answer buf n e h. record {
        before = log;
        after = [];
        last = entry key payload;
        split = refl;
        closes = e;
        ended = h.1;
        only = h.0;
        quiet = refl;
      })
      start w new_worker (refl, omega arith, λ q. (refl, refl))) [
        | inl (i, short, steady) ↦ inl i
        | inr (e, inl (open_log, short, steady)) ↦
            inr (e, open_log, λ q. absurd (ground (arith, e, (steady q).0)))
        | inr (e, inr (closing, short, steady)) ↦
            inr (e, closing.0, λ q. absurd (ground (arith, e, (steady q).0)))
      ]

pub execute_turn_whole :
    (start : Start) (w : World)
    → (execute_turn start w new_worker).halted ≡ false
    → IsEnded (execute_turn start w new_worker).log
execute_turn_whole start w runs = elim (execute_turn-IsEnded start w) [
  | inl i ↦ i
  | inr (e, quiet, why) ↦ absurd (ground (arith, e, runs))
]

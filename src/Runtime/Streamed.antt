-- ===== src/Runtime/Streamed.antt =====
-- The answer that apps/worker/runtime.mjs streams, against the answer that it keeps and the one that the
-- service builds.
use agentmeld.Prelude.{
  ◌≤◌, ℕ, zero, suc, String, true, List, [], ◌∷◌, ◌++◌, Option, none, ◌≡◌, refl, sym, ap, ◌∙◌,
  subst, length, arith, All, All-append, append_assoc, append-nil, inl, inr,
}
use agentmeld.Prelude.Lines.{joined}
use agentmeld.Runtime.{Payload, answer_delta, Emitted, Start, World}
use agentmeld.Runtime.Keep.{IsClosed, Live, plain, entry, IsPiece}
use agentmeld.Runtime.Whole.{execute_turn_ends, Reached, is_end, is_terminated}
use agentmeld.Runtime.Finish.{execute_turn, new_worker}

-- The deltas of a log: their texts and their numbers.
unfoldable pub delta_of : Payload → List (List ℕ × ℕ)
delta_of (answer_delta text batch_seq) = (text, batch_seq) ∷ []
delta_of _ = []

unfoldable pub texts : List Emitted → List (List ℕ)
texts [] = []
texts (e ∷ log) = elim (delta_of e.payload) [ [] ↦ texts log | (text, n) ∷ ds ↦ text ∷ texts log ]

unfoldable pub numbers : List Emitted → List ℕ
numbers [] = []
numbers (e ∷ log) = elim (delta_of e.payload) [
  | [] ↦ numbers log
  | (text, n) ∷ ds ↦ n ∷ numbers log
]

-- 0, 1, …, n - 1
unfoldable pub upto : ℕ → List ℕ
upto zero = []
upto (suc n) = upto n ++ n ∷ []

-- The deltas are the answer less what waits in the buffer, in pieces of 1 to 4096 units, with the
-- numbers from 0 in order.
pub record IsStreamed (log : List Emitted) (answer buf : List ℕ) (n : ℕ) : Type 0 where
  pub whole : joined (texts log) ++ buf ≡ answer
  pub in_order : numbers log ≡ upto n
  pub pieces : All IsPiece (texts log)

texts-append : (log more : List Emitted) → texts (log ++ more) ≡ texts log ++ texts more
unfolding texts
texts-append [] more = refl
texts-append (e ∷ log) more =
    elim (delta_of e.payload)
      as (λ ds.
        elim ds [ [] ↦ texts (log ++ more) | (text, n) ∷ rest ↦ text ∷ texts (log ++ more) ]
        ≡ elim ds [ [] ↦ texts log | (text, n) ∷ rest ↦ text ∷ texts log ] ++ texts more) [
          | [] ↦ texts-append log more
          | (text, n) ∷ rest ↦ ap (λ ts. text ∷ ts) (texts-append log more)
        ]

numbers-append : (log more : List Emitted) → numbers (log ++ more) ≡ numbers log ++ numbers more
unfolding numbers
numbers-append [] more = refl
numbers-append (e ∷ log) more =
    elim (delta_of e.payload)
      as (λ ds.
        elim ds [ [] ↦ numbers (log ++ more) | (text, n) ∷ rest ↦ n ∷ numbers (log ++ more) ]
        ≡ elim ds [ [] ↦ numbers log | (text, n) ∷ rest ↦ n ∷ numbers log ] ++ numbers more) [
          | [] ↦ numbers-append log more
          | (text, n) ∷ rest ↦ ap (λ ns. n ∷ ns) (numbers-append log more)
        ]

joined-append : (xs ys : List (List ℕ)) → joined (xs ++ ys) ≡ joined xs ++ joined ys
unfolding joined
joined-append [] ys = refl
joined-append (x ∷ xs) ys =
    ap (λ t. x ++ t) (joined-append xs ys) ∙ sym (append_assoc x (joined xs) (joined ys))

-- An event with no delta leaves the deltas as they are.
other_event :
    (key : Option String) (payload : Payload) (log : List Emitted) (answer buf : List ℕ) (n : ℕ)
    → delta_of payload ≡ []
    → IsStreamed log answer buf n
    → IsStreamed (log ++ entry key payload ∷ []) answer buf n
unfolding texts numbers
other_event key payload log answer buf n e i =
    let t : texts (log ++ entry key payload ∷ []) ≡ texts log =
      texts-append log (entry key payload ∷ []) ∙ ground (arith, e, append-nil (texts log)) in
    let m : numbers (log ++ entry key payload ∷ []) ≡ numbers log =
      numbers-append log (entry key payload ∷ []) ∙ ground (arith, e, append-nil (numbers log)) in
    record {
      whole = ap (λ ts. joined ts ++ buf) t ∙ i.whole;
      in_order = m ∙ i.in_order;
      pieces = subst (All IsPiece) (sym t) i.pieces;
    }

plain_no_delta : (payload : Payload) → plain payload ≡ true → delta_of payload ≡ []
unfolding plain delta_of
plain_no_delta payload e = ground arith

end_no_delta : (payload : Payload) → is_end payload ≡ true → delta_of payload ≡ []
unfolding is_end delta_of
end_no_delta payload e = ground arith

terminated_no_delta : (payload : Payload) → is_terminated payload ≡ true → delta_of payload ≡ []
unfolding is_terminated delta_of
terminated_no_delta payload e = ground arith

pub IsStreamed-closed : IsClosed IsStreamed
unfolding texts numbers delta_of upto joined
IsStreamed-closed = record {
  event = λ key payload log answer buf n e i.
      other_event key payload log answer buf n (plain_no_delta payload e) i;
  delta = λ text rest log answer n ok i.
      let e = entry none (answer_delta text n) in
      let t : texts (log ++ e ∷ []) ≡ texts log ++ text ∷ [] = texts-append log (e ∷ []) in
      record {
        whole =
            ap (λ ts. joined ts ++ rest) t
            ∙ ap (λ j. j ++ rest)
                (joined-append (texts log) (text ∷ [])
                  ∙ ap (λ j. joined (texts log) ++ j) (append-nil text))
            ∙ append_assoc (joined (texts log)) text rest
            ∙ i.whole;
        in_order = numbers-append log (e ∷ []) ∙ ap (λ ns. ns ++ n ∷ []) i.in_order;
        pieces =
            subst (All IsPiece) (sym t)
              (All-append IsPiece (texts log) (text ∷ []) i.pieces (ok, tt));
      };
  chunk = λ c log answer buf n i. record {
    whole = sym (append_assoc (joined (texts log)) buf c) ∙ ap (λ a. a ++ c) i.whole;
    in_order = i.in_order;
    pieces = i.pieces;
  };
}

-- What holds at each point of an execution, however far it got.
however :
    (c : IsClosed IsStreamed) (start : Start) (w : World)
    → Reached c c c
        (λ key payload log answer buf n e i.
          other_event key payload log answer buf n (end_no_delta payload e) i)
        (λ key payload log answer buf n e i.
          other_event key payload log answer buf n (terminated_no_delta payload e) i)
        start
        w
        (execute_turn start w new_worker)
    → Live c w (execute_turn start w new_worker)
however c start w (inl h) = h
however c start w (inr (e, inl h)) = h
however c start w (inr (e, inr h)) = h

-- However an execution goes, the deltas of its log, joined, and the units that still wait are the answer
-- that the worker kept; each delta has 1 to 4096 units, their numbers are 0, 1, 2 and so on in the order
-- of the log, and fewer than 4096 units wait.
pub execute_turn-IsStreamed :
    (start : Start) (w : World)
    → IsStreamed
        (execute_turn start w new_worker).log
        (execute_turn start w new_worker).answer
        (execute_turn start w new_worker).delta_buf
        (execute_turn start w new_worker).batch_seq
      × (length (execute_turn start w new_worker).delta_buf ≤ 4095)
unfolding texts numbers upto joined
execute_turn-IsStreamed start w =
    let h = however IsStreamed-closed start w (
      execute_turn_ends IsStreamed-closed IsStreamed-closed IsStreamed-closed
        (λ key payload log answer buf n e i.
          other_event key payload log answer buf n (end_no_delta payload e) i)
        (λ key payload log answer buf n e i.
          other_event key payload log answer buf n (terminated_no_delta payload e) i)
        start w new_worker
        (record { whole = refl; in_order = refl; pieces = tt }, omega arith, λ q. (refl, refl))) in
    (h.0, omega (arith, h.1))

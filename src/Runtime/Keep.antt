-- ===== src/Runtime/Keep.antt =====
-- What an execution of apps/worker/runtime.mjs keeps: a property of its event log and of the state of
-- its streaming holds to the end if each emission keeps it.
use agentmeld.Prelude.{
  ℕ, zero, suc, ◌≤◌, ◌<◌, ◌∙◌, append-nil, Bool, true, false, List, [], ◌∷◌, ◌++◌, Option, none,
  some, ◌≡◌, refl, sym, ap, subst, length, take, drop, arith, leb, ◌==◌, string_eq, nat_eq,
  if◌then◌else◌, not, ◌&&◌, length-drop, length-take, take-append-drop, if_elim, String,
}
use agentmeld.Prelude.Outcome.{done, threw, left}
use agentmeld.Runtime.{
  Payload, activity_changed, answer_delta, terminated, Emitted, Arrival, Failure, turn_cancel,
  service_error, turn_timeout, message_delta, command_started, Start, World, Worker,
}
use agentmeld.Runtime.Rest.{Rest, rest, queue_delta-rest}
use agentmeld.Runtime.Emit.{
  emit, once_key, emit_delta, emit_full, queue_delta, flush_delta, queue_activity, separate,
  hear_delta,
}
use agentmeld.Runtime.Await.{
  stop, arrive, arrive_all, stops, settle_await, await, checkpoint, milestone,
}

-- An event that is neither a delta nor the last of an execution.
unfoldable pub plain : Payload → Bool
plain (answer_delta text batch_seq) = false
plain (terminated cleanup_ok evidence) = false
plain _ = true

-- A piece of an answer as a delta carries it.
abbrev pub IsPiece : List ℕ → Type 0
IsPiece text = (1 ≤ length text) × (length text ≤ 4096)

abbrev pub entry : Option String → Payload → Emitted
entry key payload = record { payload = payload; dedupe_key = key }

-- A property of the log, the answer, the buffer and the batch number that every emission keeps.
pub record IsClosed (Q : List Emitted → List ℕ → List ℕ → ℕ → Type 0) : Type 0 where
  pub event :
      (key : Option String) (payload : Payload) (log : List Emitted) (answer buf : List ℕ) (n : ℕ)
      → plain payload ≡ true
      → Q log answer buf n
      → Q (log ++ entry key payload ∷ []) answer buf n
  pub delta :
      (text rest : List ℕ) (log : List Emitted) (answer : List ℕ) (n : ℕ)
      → IsPiece text
      → Q log answer (text ++ rest) n
      → Q (log ++ entry none (answer_delta text n) ∷ []) answer rest (suc n)
  pub chunk :
      (c : List ℕ) (log : List Emitted) (answer buf : List ℕ) (n : ℕ)
      → Q log answer buf n
      → Q log (answer ++ c) (buf ++ c) n

-- An outside in which every await is over at some time, and the provider's client can be made.
pub record Settles (w : World) : Type 0 where
  pub settled : (n : ℕ) → w.stuck n ≡ false
  pub made : w.client_error ≡ none

-- In such an outside the execution has not stopped.
abbrev pub Steady : World → Worker → Type 0
Steady w s = Settles w → (s.halted ≡ false) × (s.timer_left ≡ false)

same_rest-Steady : (w : World) (s t : Worker) → rest t ≡ rest s → Steady w s → Steady w t
unfolding rest
same_rest-Steady w s t e h q =
    (ap (λ (r : Rest). r.halted) e ∙ (h q).0, ap (λ (r : Rest). r.timer_left) e ∙ (h q).1)

module _ {Q : List Emitted → List ℕ → List ℕ → ℕ → Type 0} (closed : IsClosed Q) (w : World) where
  abbrev pub Holds : Worker → Type 0
  Holds s = Q s.log s.answer s.delta_buf s.batch_seq

  emit_delta_keep :
      (text rest : List ℕ) (s : Worker)
      → IsPiece text
      → s.delta_buf ≡ text ++ rest
      → Holds s
      → Holds (emit_delta text (record s { delta_buf = rest }))
  emit_delta_keep text rest s ok e h =
      closed.delta text rest s.log s.answer s.batch_seq ok
        (subst (λ b. Q s.log s.answer b s.batch_seq) e h)

  emit_full_keep : (fuel : ℕ) (s : Worker) → Holds s → Holds (emit_full fuel s)
  unfolding emit_full
  emit_full_keep zero s h = h
  emit_full_keep (suc fuel) s h =
      if_elim Holds (leb 4096 (length s.delta_buf)) _ _
        (λ e.
          emit_full_keep fuel
            (emit_delta (take 4096 s.delta_buf) (record s { delta_buf = drop 4096 s.delta_buf }))
            (emit_delta_keep (take 4096 s.delta_buf) (drop 4096 s.delta_buf) s
              (ground (arith, e, length-take 4096 s.delta_buf))
              (sym (take-append-drop 4096 s.delta_buf)) h))
        (λ e. h)

  length-emit_full :
      (fuel : ℕ) (s : Worker)
      → length s.delta_buf ≤ fuel
      → length (emit_full fuel s).delta_buf < 4096
  unfolding emit_full
  length-emit_full zero s h = omega arith
  length-emit_full (suc fuel) s h =
      if_elim (λ (t : Worker). length t.delta_buf < 4096) (leb 4096 (length s.delta_buf)) _ _
        (λ e.
          length-emit_full fuel
            (emit_delta (take 4096 s.delta_buf) (record s { delta_buf = drop 4096 s.delta_buf }))
            (ground (arith, e, length-drop 4096 s.delta_buf)))
        (λ e. ground (arith, e))

  -- The property, with less than a piece in the buffer.
  abbrev pub Live : Worker → Type 0
  Live s = Holds s × (length s.delta_buf < 4096) × Steady w s

  queue_delta_keep : (c : List ℕ) (s : Worker) → Live s → Live (queue_delta c s)
  unfolding queue_delta
  queue_delta_keep c s h = (
    emit_full_keep (length (s.delta_buf ++ c)) _
        (closed.chunk c s.log s.answer s.delta_buf s.batch_seq h.0),
    length-emit_full (length (s.delta_buf ++ c)) _ (omega arith),
    same_rest-Steady w s (queue_delta c s) (queue_delta-rest c s) h.2,
  )

  pub flush_delta_keep : (s : Worker) → Live s → Live (flush_delta s)
  unfolding flush_delta
  flush_delta_keep s (h, short, steady) =
      elim s.delta_buf
          as (λ b.
            s.delta_buf ≡ b
            → Live
                (elim b [ [] ↦ s | c ∷ cs ↦ emit_delta (c ∷ cs) (record s { delta_buf = [] }) ])) [
                  | [] ↦ λ e. (h, short, steady)
                  | c ∷ cs ↦ λ e. (
                    emit_delta_keep (c ∷ cs) [] s (ground (arith, e))
                        (e ∙ sym (append-nil (c ∷ cs))) h,
                    omega arith,
                    steady,
                  )
                ]
        refl

  pub emit_keep :
      (key : Option String) (payload : Payload) (s : Worker)
      → plain payload ≡ true
      → Live s
      → Live (emit key payload s)
  emit_keep key payload s p (h, short, steady) =
      (closed.event key payload s.log s.answer s.delta_buf s.batch_seq p h, short, steady)

  pub queue_activity_keep :
      (activity : String) (s : Worker) → Live s → Live (queue_activity activity s)
  unfolding queue_activity plain
  queue_activity_keep activity s h =
      let queued = emit_keep none (activity_changed activity) s refl h in
      elim s.last_activity
        as (λ o. Live (elim o [
          | none ↦
              emit none (activity_changed activity) (record s { last_activity = some activity })
          | some last ↦
              if activity == last
              then s
              else emit none (activity_changed activity)
                  (record s { last_activity = some activity })
        ])) [
          | none ↦ queued
          | some last ↦ if_elim Live (activity == last) _ _ (λ e. h) (λ e. queued)
        ]

  separate_keep : (item : String) (s : Worker) → Live s → Live (separate item s)
  unfolding separate
  separate_keep item s h =
      elim s.message_id
        as (λ o. Live (elim o [
          | none ↦ s
          | some last ↦
              if not (last == "") && not (last == item)
              then queue_delta (b'\n' ∷ b'\n' ∷ []) s
              else s
        ])) [
          | none ↦ h
          | some last ↦
              if_elim Live (not (last == "") && not (last == item)) _ _
                (λ e. queue_delta_keep (b'\n' ∷ b'\n' ∷ []) s h) (λ e. h)
        ]

  arrive_keep : (start : Start) (a : Arrival) (s : Worker) → Live s → Live (arrive start a s)
  unfolding arrive stop hear_delta
  arrive_keep start (turn_cancel generation) s h =
      if_elim Live (generation == start.generation) _ _ (λ e. h) (λ e. h)
  arrive_keep start (service_error message) s h = h
  arrive_keep start turn_timeout s h = h
  arrive_keep start (message_delta item text) s h =
      queue_delta_keep text (record (separate item s) { message_id = some item })
        (separate_keep item s h)
  arrive_keep start command_started s h = queue_activity_keep "Working on your files" s h

  arrive_all_keep :
      (start : Start) (arrivals : List Arrival) (s : Worker)
      → Live s
      → Live (arrive_all start arrivals s)
  unfolding arrive_all
  arrive_all_keep start [] s h = h
  arrive_all_keep start (a ∷ rest) s h =
      arrive_all_keep start rest (arrive start a s) (arrive_keep start a s h)

  settle_await_keep :
      (stopped : Bool) (f : Option Failure) (s : Worker)
      → (Settles w → stopped ≡ false)
      → Live s
      → Live (left (settle_await stopped f s))
  settle_await_keep true f s runs (h, short, steady) =
      (h, short, λ q. absurd (ground (arith, runs q)))
  settle_await_keep false none s runs h = h
  settle_await_keep false (some f) s runs h = h

  pub await_keep : (start : Start) (s : Worker) → Live s → Live (left (await start w s))
  unfolding await stops
  await_keep start s h =
      settle_await_keep (stops w s) (w.failure s.awaits)
        (record (arrive_all start (w.arrivals s.awaits) s) { awaits = suc s.awaits })
        (λ q. ground (arith, q.settled s.awaits, (h.2 q).1))
        (arrive_all_keep start (w.arrivals s.awaits) s h)

  pub milestone_keep :
      (start : Start) (payload : Payload) (s : Worker)
      → plain payload ≡ true
      → Live s
      → Live (left (milestone start w payload s))
  unfolding milestone
  milestone_keep start payload s p h =
      await_keep start (emit (once_key start.run_id payload) payload s)
        (emit_keep (once_key start.run_id payload) payload s p h)

  pub checkpoint_keep : (s : Worker) → Live s → Live (left (checkpoint s))
  unfolding checkpoint
  checkpoint_keep s h =
      elim s.fatal
        as (λ o. Live (
          left (elim o [
            | some message ↦ threw message s
            | none ↦ if s.cancelled then threw "Task stopped." s else done s
          ]))) [
            | some message ↦ h
            | none ↦ if_elim (λ o. Live (left o)) s.cancelled _ _ (λ e. h) (λ e. h)
          ]

-- ===== src/Runtime/Whole.antt =====
-- executeTurn of apps/worker/runtime.mjs from its start to its end: the event that ends the turn, and then
-- run.terminated.
use agentmeld.Prelude.{
  ℕ, Bool, String, true, false, List, [], ◌∷◌, ◌++◌, Option, none, ◌≡◌, refl, length, if_elim,
  if◌then◌else◌, arith, ◌⊎◌, inl, inr, ◌==◌, nat_eq,
}
use agentmeld.Prelude.Outcome.{Outcome, done, threw, left, WhenDone, in_order-Last}
use agentmeld.Runtime.{
  Payload, completed, failed, cancelled, terminated, Emitted, Start, World, Worker,
}
use agentmeld.Runtime.Emit.{emit, once_key, flush_delta}
use agentmeld.Runtime.Await.{await, milestone, unless_halted}
use agentmeld.Runtime.Execute.{save, save_steps, attempt, attempt_steps, final_answer, last_digest}
use agentmeld.Runtime.Finish.{last_event, error_user, catch_error, clean_up, finish, execute_turn}
use agentmeld.Runtime.Keep.{IsClosed, Live, entry, await_keep, flush_delta_keep}
use agentmeld.Runtime.Course.{attempt_keep, attempt_steps_keep, save_steps_keep, clean_up_keep}

-- An event that says how the turn ended.
unfoldable pub is_end : Payload → Bool
is_end (completed digest manifest) = true
is_end (failed stage error_user) = true
is_end (cancelled stage) = true
is_end _ = false

-- The event that ends the turn takes Q to R.
abbrev pub Ends :
    (Payload → Bool)
    → (List Emitted → List ℕ → List ℕ → ℕ → Type 0)
    → (List Emitted → List ℕ → List ℕ → ℕ → Type 0)
    → Type 0
Ends test Q R =
    (key : Option String) (payload : Payload) (log : List Emitted) (answer buf : List ℕ) (n : ℕ)
    → test payload ≡ true
    → Q log answer buf n
    → R (log ++ entry key payload ∷ []) answer buf n

unfoldable pub is_terminated : Payload → Bool
is_terminated (terminated cleanup_ok evidence) = true
is_terminated _ = false

pub last_event-is_end : (s : Worker) → is_end (last_event s) ≡ true
unfolding is_end last_event
last_event-is_end s = ground arith

module _ {P Q R : List Emitted → List ℕ → List ℕ → ℕ → Type 0} (p : IsClosed P) (q : IsClosed Q)
    (r : IsClosed R) (ended : Ends is_end P Q) (closed_log : Ends is_terminated Q R) (start : Start)
    (w : World) where
  -- An awaited event that ends the turn.
  end_milestone :
      (payload : Payload) (s : Worker)
      → is_end payload ≡ true
      → Live p w s
      → Live q w (left (milestone start w payload s))
  unfolding milestone
  end_milestone payload s e h =
      let key = once_key start.run_id payload in
      await_keep q w start (emit key payload s)
        (ended key payload s.log s.answer s.delta_buf s.batch_seq e h.0, h.1, h.2)

  left_done : (o : Outcome Worker) → Live q w (left o) → WhenDone (Live q w) o
  left_done (done s) h = h
  left_done (threw message s) h = tt

  save_done : (s : Worker) → Live p w s → WhenDone (Live q w) (save start w s)
  unfolding save save_steps is_end
  save_done s h =
      let answer = final_answer w s in
      in_order-Last (Live p w) (Live q w) (save_steps start w answer) s
        (save_steps_keep p start w answer)
        (λ t k.
          let payload = completed (w.sha256 answer) (last_digest t.delivered) in
          left_done (milestone start w payload t) (end_milestone payload t refl k))
        h

  attempt_done : (s : Worker) → Live p w s → WhenDone (Live q w) (attempt start w s)
  unfolding attempt attempt_steps
  attempt_done s h =
      in_order-Last (Live p w) (Live q w) (attempt_steps start w) s (attempt_steps_keep p start w)
        save_done h

  catch_error_ends : (s : Worker) → Live p w s → Live q w (catch_error start w s)
  unfolding catch_error
  catch_error_ends s h =
      end_milestone (last_event (flush_delta s)) (flush_delta s) (last_event-is_end (flush_delta s))
        (flush_delta_keep p w s h)

  closed_keep :
      (s : Worker) → Live q w s → Live q w (if s.has_client then left (await start w s) else s)
  closed_keep s h = if_elim (Live q w) s.has_client _ _ (λ e. await_keep q w start s h) (λ e. h)

  -- An execution past the event that ends the turn.
  abbrev Finished : Worker → Type 0
  Finished s = Live r w s ⊎ ((s.halted ≡ true) × Live q w s)

  finish_ends : (s : Worker) → Live q w s → Finished (finish start w s)
  unfolding finish is_terminated
  finish_ends s h =
      let c = clean_up start w (if s.has_client then left (await start w s) else s) in
      let k =
        clean_up_keep q start w (if s.has_client then left (await start w s) else s)
          (closed_keep s h) in
      let payload = terminated (length c.1 == 0) c.1 in
      if_elim Finished c.0.halted _ _ (λ e. inr (e, k))
        (λ e. inl (
          await_keep r w start (emit none payload c.0) (
            closed_log none payload c.0.log c.0.answer c.0.delta_buf c.0.batch_seq refl k.0,
            k.1,
            k.2,
          )))

  -- How far an execution gets: to run.terminated, or it has stopped before it.
  abbrev pub Reached : Worker → Type 0
  Reached s = Live r w s ⊎ ((s.halted ≡ true) × (Live p w s ⊎ Live q w s))

  finish-Reached : (s : Worker) → Finished s → Reached s
  finish-Reached s (inl h) = inl h
  finish-Reached s (inr (e, h)) = inr (e, inr h)

  catch_error-Reached :
      (t : Worker)
      → Live p w t
      → Reached (unless_halted (λ u. unless_halted (finish start w) (catch_error start w u)) t)
  catch_error-Reached t k =
      if_elim Reached t.halted _ _ (λ e. inr (e, inl k))
        (λ e.
          let c = catch_error_ends t k in
          if_elim Reached (catch_error start w t).halted _ _ (λ d. inr (d, inr c))
            (λ d.
              finish-Reached (finish start w (catch_error start w t))
                (finish_ends (catch_error start w t) c)))

  pub execute_turn_ends : (s : Worker) → Live p w s → Reached (execute_turn start w s)
  unfolding execute_turn
  execute_turn_ends s h =
      elim (attempt start w s)
          as (λ o.
            WhenDone (Live q w) o
            → Live p w (left o)
            → Reached (elim o [
              | done t ↦ finish start w t
              | threw message t ↦
                  unless_halted (λ u. unless_halted (finish start w) (catch_error start w u)) t
            ])) [
              | done t ↦ λ d k. finish-Reached (finish start w t) (finish_ends t d)
              | threw message t ↦ λ d k. catch_error-Reached t k
            ]
        (attempt_done s h) (attempt_keep p start w s h)

-- ===== src/Supervisor/Jobs/Closing.antt =====
-- A done turn of apps/poc/supervisor.mjs while handlers still await, and whatever comes.
use agentmeld.Prelude.{
  ℕ, zero, suc, ◌≤◌, String, Bool, true, false, Option, none, some, List, [], ◌∷◌, ◌≡◌, ◌≢◌, refl,
  arith, string_eq, nat_eq, if_elim, length, length-append, ◌+◌, ◌⊎◌, inl, inr, subst,
}
use agentmeld.Data.{busy}
use agentmeld.Supervisor.{Supervisor, Turn, Env, Promise, pending}
use agentmeld.Supervisor.Dispatch.{on_turn_transport_error, on_worker_close, cancel_active_turn}
use agentmeld.Supervisor.Jobs.{
  Job, job_of, Station, Entry, hears, resumes, errs, closes, cancels, resume, begin_message,
  on_turn, take_job, enter, enter_all,
}
use agentmeld.Supervisor.Run.Outcomes.{Final}
use agentmeld.Supervisor.Jobs.Quiet.{enter_all-Final}
use agentmeld.Supervisor.Jobs.Over.{IsOver, fail_turn-IsOver, resume-IsOver, begin_message-IsOver}

module _ (p : Promise) (given : p ≢ pending) where
  -- The current turn, if there is one, is over, and not more than so many handlers await.
  record IsClosing (n : ℕ) (s : Station) : Type 0 where
    awaiting : length s.jobs ≤ n
    current : elim s.supervisor.current as (λ _. Type 0) [ none ↦ Unit | some t ↦ IsOver p given t ]

  on_turn-IsClosing :
      (n k : ℕ) (f : Turn → Turn × Option Job) (jobs : List Job) (c : Option Turn) (armed : Bool)
      → ((t : Turn) → IsOver p given t → (IsOver p given (f t).0) × (length (job_of (f t).1) ≤ k))
      → length jobs + k ≤ n
      → (elim c as (λ _. Type 0) [ none ↦ Unit | some t ↦ IsOver p given t ])
      → IsClosing n (on_turn f jobs (record { current = c; pending_cancel = armed }))
  unfolding on_turn
  on_turn-IsClosing n k f jobs none armed keeps h i = record {
    awaiting = omega arith;
    current = tt;
  }
  on_turn-IsClosing n k f jobs (some t) armed keeps h i = record {
    awaiting = ground (arith, length-append jobs (job_of (f t).1), (keeps t i).1, h);
    current = (keeps t i).0;
  }

  failed-IsClosing :
      (n : ℕ) (env : Env) (m : String) (jobs : List Job) (c : Option Turn) (armed : Bool)
      → length jobs ≤ n
      → (elim c as (λ _. Type 0) [ none ↦ Unit | some t ↦ IsOver p given t ])
      → IsClosing n (record {
        supervisor = on_turn_transport_error env m (record { current = c; pending_cancel = armed });
        jobs = jobs;
      })
  unfolding on_turn_transport_error
  failed-IsClosing n env m jobs none armed h i = record { awaiting = h; current = tt }
  failed-IsClosing n env m jobs (some t) armed h i = record {
    awaiting = h;
    current = fail_turn-IsOver p given env m t i;
  }

  cancel-IsClosing :
      (n : ℕ) (reason : String) (jobs : List Job) (c : Option Turn) (armed : Bool)
      → length jobs ≤ n
      → (elim c as (λ _. Type 0) [ none ↦ Unit | some t ↦ IsOver p given t ])
      → IsClosing n (record {
        supervisor = cancel_active_turn reason (record { current = c; pending_cancel = armed });
        jobs = jobs;
      })
  unfolding cancel_active_turn
  cancel-IsClosing n reason jobs none armed h i = record { awaiting = h; current = tt }
  cancel-IsClosing n reason jobs (some t) armed h i =
      if_elim (λ (s : Supervisor). IsClosing n (record { supervisor = s; jobs = jobs }))
        t.turn_started _ _
        (λ e. record {
          awaiting = h;
          current = record { over = i.over; outcome = i.outcome; idle = i.idle };
        })
        (λ e. record { awaiting = h; current = i })

  -- A job taken is one less.
  take_job-length : (n : ℕ) (jobs : List Job) → elim (take_job n jobs) as (λ _. Type 0) [
    | none ↦ Unit
    | some (j, rest) ↦ length jobs ≡ length rest + 1
  ]
  unfolding take_job
  take_job-length n [] = tt
  take_job-length zero (j ∷ jobs) = omega arith
  take_job-length (suc n) (j ∷ jobs) = after (take_job n jobs) (take_job-length n jobs)
    where
      after :
          (o : Option (Job × List Job))
          → (elim o as (λ _. Type 0) [
            | none ↦ Unit
            | some (k, rest) ↦ length jobs ≡ length rest + 1
          ])
          → (elim (elim o as (λ _. Option (Job × List Job)) [
            | none ↦ none
            | some (k, rest) ↦ some (k, j ∷ rest)
          ])
              as (λ _. Type 0) [
                | none ↦ Unit
                | some (k, rest) ↦ length (j ∷ jobs) ≡ length rest + 1
              ])
      after none h = tt
      after (some (k, rest)) h = omega arith

  enter-IsClosing : (n : ℕ) (e : Entry) (s : Station) → IsClosing n s → IsClosing n (enter e s)
  unfolding enter on_worker_close on_turn_transport_error
  enter-IsClosing n (hears env msg) s i =
      on_turn-IsClosing n 0 (begin_message env msg) s.jobs s.supervisor.current
        s.supervisor.pending_cancel (begin_message-IsOver p given env msg)
        (omega (arith, i.awaiting)) i.current
  enter-IsClosing n (resumes env k) s i = resumed (take_job k s.jobs) (take_job-length k s.jobs)
    where
      resumed :
          (o : Option (Job × List Job))
          → (elim o as (λ _. Type 0) [
            | none ↦ Unit
            | some (j, rest) ↦ length s.jobs ≡ length rest + 1
          ])
          → IsClosing n (elim o as (λ _. Station) [
            | none ↦ s
            | some (j, rest) ↦ on_turn (resume env j) rest s.supervisor
          ])
      resumed none h = i
      resumed (some (j, rest)) h =
          on_turn-IsClosing n 1 (resume env j) rest s.supervisor.current s.supervisor.pending_cancel
            (resume-IsOver p given env j) (omega (arith, i.awaiting, h)) i.current
  enter-IsClosing n (errs env m) s i =
      failed-IsClosing n env m s.jobs s.supervisor.current s.supervisor.pending_cancel i.awaiting
        i.current
  enter-IsClosing n (closes env) s i =
      failed-IsClosing n env "worker exited mid-turn" s.jobs s.supervisor.current
        s.supervisor.pending_cancel i.awaiting i.current
  enter-IsClosing n (cancels reason) s i =
      cancel-IsClosing n reason s.jobs s.supervisor.current s.supervisor.pending_cancel i.awaiting
        i.current

  enter_all-IsClosing :
      (n : ℕ) (es : List Entry) (s : Station) → IsClosing n s → IsClosing n (enter_all es s)
  unfolding enter_all
  enter_all-IsClosing n [] s i = i
  enter_all-IsClosing n (e ∷ es) s i =
      enter_all-IsClosing n es (enter e s) (enter-IsClosing n e s i)

-- The supervisor at a turn with handlers that await, and after what comes from then on.
abbrev pub later : List Entry → List Job → Bool → Turn → Station
later es jobs armed t =
    enter_all es
      (record { supervisor = record { current = some t; pending_cancel = armed }; jobs = jobs })

later-Final :
    (es : List Entry) (jobs : List Job) (armed : Bool) (t u : Turn)
    → t.turn_done ≡ true
    → (later es jobs armed t).supervisor.current ≡ some u
    → (1 ≤ length jobs) ⊎ Final t u
later-Final es [] armed t u over e = inr (enter_all-Final es armed t u over e).0
later-Final es (j ∷ jobs) armed t u over e = inl (omega arith)

-- Handlers cut at each of their awaits, and after a turn is done, with its promise settled and a task that is no
-- longer busy, messages, errors, closes, cancels and the awaiting handlers' further parts in any order: the turn
-- stays done, its promise keeps its outcome, its task is not busy again, and no handler starts to await
-- beyond those that did. If none awaited, its task, its conversation and its ledger of applied events
-- stay as they are too; a handler that still awaits may write them.
pub enter_all-IsOver :
    (es : List Entry) (jobs : List Job) (armed : Bool) (t u : Turn)
    → t.turn_done ≡ true
    → t.promise ≢ pending
    → busy t.task.status ≡ false
    → (later es jobs armed t).supervisor.current ≡ some u
    → (u.turn_done ≡ true)
      × (u.promise ≡ t.promise)
      × (busy u.task.status ≡ false)
      × (length (later es jobs armed t).jobs ≤ length jobs)
      × ((1 ≤ length jobs) ⊎ Final t u)
enter_all-IsOver es jobs armed t u over settled idle e =
    let i =
      enter_all-IsClosing t.promise settled (length jobs) es
        (record { supervisor = record { current = some t; pending_cancel = armed }; jobs = jobs })
        (record {
          awaiting = omega arith;
          current = record { over = over; outcome = refl; idle = idle };
        }) in
    let o =
      subst
        (λ (c : Option Turn). elim c as (λ _. Type 0) [
          | none ↦ Unit
          | some v ↦ IsOver t.promise settled v
        ])
        e i.current in
    (o.over, o.outcome, o.idle, i.awaiting, later-Final es jobs armed t u over e)

-- ===== src/Supervisor/Jobs/Quiet.antt =====
-- The end of a turn of apps/poc/supervisor.mjs: once no handler of it awaits, it is final.
use agentmeld.Prelude.{
  String, Bool, true, not, ◌||◌, Option, none, some, List, [], ◌∷◌, ◌≡◌, refl, sym, subst, arith,
  ◌==◌, string_eq, nat_eq, if_elim,
}
use agentmeld.Supervisor.{Supervisor, Turn, Env, Message, protocol_name, turn_cancel}
use agentmeld.Supervisor.Dispatch.{on_turn_transport_error, on_worker_close, cancel_active_turn}
use agentmeld.Supervisor.Run.Outcomes.{
  Final, handle_message-Final, fail_turn-Final, send_frame-Final,
}
use agentmeld.Supervisor.Jobs.{
  Job, job_of, Station, Entry, hears, resumes, errs, closes, cancels, begin_message, on_turn,
  take_job, enter, enter_all,
}

-- No handler awaits, and the current turn, if there is one, is the end of this one.
record IsQuiet (t : Turn) (s : Station) : Type 0 where
  idle : s.jobs ≡ []
  final : (elim s.supervisor.current as (λ _. Type 0) [ none ↦ Unit | some u ↦ Final t u ])

module _ (t : Turn) where
  begin_message-Final :
      (env : Env) (msg : Message) (u : Turn)
      → Final t u
      → (Final t (begin_message env msg u).0) × (job_of (begin_message env msg u).1 ≡ [])
  unfolding begin_message
  begin_message-Final env msg u f =
      if_elim (λ (r : Turn × Option Job). Final t r.0 × (job_of r.1 ≡ []))
        (u.turn_done
          || not (msg.protocol == protocol_name)
          || not (msg.run_id == u.run_id)
          || not (msg.generation == u.generation))
        _ _ (λ e. (handle_message-Final t env msg u f, refl))
        (λ e. absurd (ground (arith, e, f.stays_done)))

  on_turn-IsQuiet :
      (f : Turn → Turn × Option Job) (c : Option Turn) (armed : Bool)
      → ((u : Turn) → Final t u → (Final t (f u).0) × (job_of (f u).1 ≡ []))
      → IsQuiet t
          (record { supervisor = record { current = c; pending_cancel = armed }; jobs = [] })
      → IsQuiet t (on_turn f [] (record { current = c; pending_cancel = armed }))
  unfolding on_turn
  on_turn-IsQuiet f none armed k i = record { idle = refl; final = tt }
  on_turn-IsQuiet f (some u) armed k i = record { idle = (k u i.final).1; final = (k u i.final).0 }

  cancel-IsQuiet :
      (reason : String) (c : Option Turn) (armed : Bool)
      → IsQuiet t
          (record { supervisor = record { current = c; pending_cancel = armed }; jobs = [] })
      → IsQuiet t (record {
        supervisor = cancel_active_turn reason (record { current = c; pending_cancel = armed });
        jobs = [];
      })
  unfolding cancel_active_turn
  cancel-IsQuiet reason none armed i = record { idle = refl; final = tt }
  cancel-IsQuiet reason (some u) armed i =
      if_elim (λ (s : Supervisor). IsQuiet t (record { supervisor = s; jobs = [] })) u.turn_started
        _ _ (λ e. record { idle = refl; final = send_frame-Final t (turn_cancel reason) u i.final })
        (λ e. record { idle = refl; final = i.final })

  failed-IsQuiet :
      (env : Env) (m : String) (c : Option Turn) (armed : Bool)
      → IsQuiet t
          (record { supervisor = record { current = c; pending_cancel = armed }; jobs = [] })
      → IsQuiet t (record {
        supervisor = on_turn_transport_error env m (record { current = c; pending_cancel = armed });
        jobs = [];
      })
  unfolding on_turn_transport_error
  failed-IsQuiet env m none armed i = record { idle = refl; final = tt }
  failed-IsQuiet env m (some u) armed i = record {
    idle = refl;
    final = fail_turn-Final t env m u i.final;
  }

  enter-IsQuiet :
      (e : Entry) (s : Supervisor)
      → IsQuiet t (record { supervisor = s; jobs = [] })
      → IsQuiet t (enter e (record { supervisor = s; jobs = [] }))
  unfolding enter take_job on_worker_close on_turn_transport_error
  enter-IsQuiet (hears env msg) s i =
      on_turn-IsQuiet (begin_message env msg) s.current s.pending_cancel
        (begin_message-Final env msg) i
  enter-IsQuiet (resumes env n) s i = i
  enter-IsQuiet (errs env m) s i = failed-IsQuiet env m s.current s.pending_cancel i
  enter-IsQuiet (closes env) s i =
      failed-IsQuiet env "worker exited mid-turn" s.current s.pending_cancel i
  enter-IsQuiet (cancels reason) s i = cancel-IsQuiet reason s.current s.pending_cancel i

  enter_all-IsQuiet : (es : List Entry) (s : Station) → IsQuiet t s → IsQuiet t (enter_all es s)
  unfolding enter_all
  enter_all-IsQuiet [] s i = i
  enter_all-IsQuiet (e ∷ es) s i =
      let idle : s ≡ record { supervisor = s.supervisor; jobs = [] } = ground (arith, i.idle) in
      enter_all-IsQuiet es (enter e s) (
        subst (λ (x : Station). IsQuiet t (enter e x)) (sym idle)
          (enter-IsQuiet e s.supervisor (subst (IsQuiet t) idle i)))

-- Once a turn is done and no handler of it awaits, whatever still arrives and in whatever order, handlers cut at
-- each of their awaits: no handler starts, and its task, conversation, ledger of applied events and promise
-- stay as they are.
pub enter_all-Final :
    (es : List Entry) (armed : Bool) (t u : Turn)
    → t.turn_done ≡ true
    → (enter_all es (record {
      supervisor = record { current = some t; pending_cancel = armed };
      jobs = [];
    })).supervisor.current
      ≡ some u
    → (Final t u)
      × ((enter_all es (record {
        supervisor = record { current = some t; pending_cancel = armed };
        jobs = [];
      })).jobs
          ≡ [])
enter_all-Final es armed t u over e =
    let start : Station = record {
      supervisor = record { current = some t; pending_cancel = armed };
      jobs = [];
    } in
    let i = enter_all-IsQuiet t es start (record {
      idle = refl;
      final = record {
        stays_done = over;
        task = refl;
        conversation = refl;
        promise = refl;
        ledger = refl;
      };
    }) in
    (
      subst (λ (c : Option Turn). elim c as (λ _. Type 0) [ none ↦ Unit | some v ↦ Final t v ]) e
          i.final,
      i.idle,
    )

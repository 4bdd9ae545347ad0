-- ===== src/Runtime/Rest.antt =====
-- What comes in during an await of apps/worker/runtime.mjs leaves the containers, the staged files, the
-- manifests and the removals alone.
use agentmeld.Prelude.{
  ℕ, zero, suc, Bool, true, false, ◌&&◌, not, String, List, [], ◌∷◌, ◌++◌, Option, none, some, ◌≡◌,
  refl, sym, ap, ◌∙◌, length, arith, select, append-nil, if_elim, if◌then◌else◌, leb, take, drop,
  ◌==◌, string_eq, nat_eq,
}
use agentmeld.Prelude.Outcome.{done, left, done_lem}
use agentmeld.Supervisor.{Manifest}
use agentmeld.Runtime.{
  Arrival, turn_cancel, service_error, turn_timeout, message_delta, command_started, Command,
  Failure, stop_worker, remove_worker, remove_proxy, remove_network, Start, World, Worker,
}
use agentmeld.Runtime.Emit.{
  emit_delta, emit_full, queue_delta, queue_activity, separate, hear_delta,
}
use agentmeld.Runtime.Await.{stop, arrive, arrive_all, stops, settle_await, await}

unfoldable pub is_removal : Command → Bool
is_removal remove_worker = true
is_removal remove_proxy = true
is_removal remove_network = true
is_removal _ = false

unfoldable pub removals : List Command → List Command
unfolding is_removal select
removals cs = select is_removal cs

pub record Rest : Type 0 where
  pub awaits : ℕ
  pub network_created : Bool
  pub proxy_created : Bool
  pub worker_created : Bool
  pub timer_left : Bool
  pub halted : Bool
  pub staged : List (List ℕ × List ℕ)
  pub delivered : List Manifest
  pub removed : List Command

unfoldable pub rest : Worker → Rest
unfolding removals
rest s = record {
  awaits = s.awaits;
  network_created = s.network_created;
  proxy_created = s.proxy_created;
  worker_created = s.worker_created;
  timer_left = s.timer_left;
  halted = s.halted;
  staged = s.staged;
  delivered = s.delivered;
  removed = removals s.commands;
}

pub removals-append : (cs ds : List Command) → removals (cs ++ ds) ≡ removals cs ++ removals ds
unfolding removals is_removal select
removals-append [] ds = refl
removals-append (c ∷ cs) ds = ground (arith, removals-append cs ds)

emit_full-rest : (fuel : ℕ) (s : Worker) → rest (emit_full fuel s) ≡ rest s
unfolding emit_full rest
emit_full-rest zero s = refl
emit_full-rest (suc fuel) s =
    if_elim (λ (t : Worker). rest t ≡ rest s) (leb 4096 (length s.delta_buf)) _ _
      (λ e.
        emit_full-rest fuel
          (emit_delta (take 4096 s.delta_buf) (record s { delta_buf = drop 4096 s.delta_buf })))
      (λ e. refl)

pub queue_delta-rest : (c : List ℕ) (s : Worker) → rest (queue_delta c s) ≡ rest s
unfolding queue_delta rest
queue_delta-rest c s = emit_full-rest (length (s.delta_buf ++ c)) _

queue_activity-rest : (activity : String) (s : Worker) → rest (queue_activity activity s) ≡ rest s
unfolding queue_activity rest
queue_activity-rest activity s = ground arith

separate-rest : (item : String) (s : Worker) → rest (separate item s) ≡ rest s
unfolding separate
separate-rest item s =
    elim s.message_id
      as (λ o.
        rest (elim o [
          | none ↦ s
          | some last ↦
              if not (last == "") && not (last == item)
              then queue_delta (b'\n' ∷ b'\n' ∷ []) s
              else s
        ])
        ≡ rest s) [
          | none ↦ refl
          | some last ↦
              if_elim (λ (t : Worker). rest t ≡ rest s) (not (last == "") && not (last == item)) _ _
                (λ e. queue_delta-rest (b'\n' ∷ b'\n' ∷ []) s) (λ e. refl)
        ]

stop-rest : (s : Worker) → rest (stop s) ≡ rest s
unfolding stop rest removals is_removal select
stop-rest s =
    ground (arith, removals-append s.commands (stop_worker ∷ []), append-nil (removals s.commands))

arrive-rest : (start : Start) (a : Arrival) (s : Worker) → rest (arrive start a s) ≡ rest s
unfolding arrive hear_delta rest
arrive-rest start (turn_cancel generation) s =
    if_elim (λ (t : Worker). rest t ≡ rest s) (generation == start.generation) _ _
      (λ e. stop-rest s) (λ e. refl)
arrive-rest start (service_error message) s = refl
arrive-rest start turn_timeout s = stop-rest s
arrive-rest start (message_delta item text) s =
    queue_delta-rest text (record (separate item s) { message_id = some item })
    ∙ separate-rest item s
arrive-rest start command_started s = queue_activity-rest "Working on your files" s

arrive_all-rest :
    (start : Start) (arrivals : List Arrival) (s : Worker)
    → rest (arrive_all start arrivals s) ≡ rest s
unfolding arrive_all
arrive_all-rest start [] s = refl
arrive_all-rest start (a ∷ more) s =
    arrive_all-rest start more (arrive start a s) ∙ arrive-rest start a s

abbrev pub after_await : Bool → Rest → Rest
after_await stopped r = record r { halted = if stopped then true else r.halted }

settle_await-rest :
    (stopped : Bool) (f : Option Failure) (s : Worker)
    → rest (left (settle_await stopped f s)) ≡ after_await stopped (rest s)
unfolding rest
settle_await-rest true f s = refl
settle_await-rest false none s = refl
settle_await-rest false (some f) s = refl

settle_await-done :
    (stopped : Bool) (f : Option Failure) (s t : Worker) → settle_await stopped f s ≡ done t → s ≡ t
settle_await-done true f s t e = absurd (cc)
settle_await-done false none s t e = done_lem s t e
settle_await-done false (some f) s t e = absurd (cc)

-- What comes in during an await, which is then one more.
arrived-rest :
    (start : Start) (w : World) (s : Worker)
    → rest (record (arrive_all start (w.arrivals s.awaits) s) { awaits = suc s.awaits })
      ≡ record (rest s) { awaits = suc s.awaits }
unfolding rest
arrived-rest start w s =
    ap (λ (x : Rest). record x { awaits = suc s.awaits })
      (arrive_all-rest start (w.arrivals s.awaits) s)

pub await-rest :
    (start : Start) (w : World) (s : Worker)
    → rest (left (await start w s))
      ≡ after_await (stops w s) (record (rest s) { awaits = suc s.awaits })
unfolding await
await-rest start w s =
    settle_await-rest (stops w s) (w.failure s.awaits) _
    ∙ ap (after_await (stops w s)) (arrived-rest start w s)

-- An await that goes through, its state.
pub await-done :
    (start : Start) (w : World) (s t : Worker)
    → await start w s ≡ done t
    → rest t ≡ record (rest s) { awaits = suc s.awaits }
unfolding await
await-done start w s t e =
    ap rest (sym (settle_await-done (stops w s) (w.failure s.awaits) _ t e))
    ∙ arrived-rest start w s

-- ===== src/Supervisor/Spawn/Admitted.antt =====
-- Who reaches a turn of apps/poc/supervisor.mjs, and in which order it is greeted.
use agentmeld.Prelude.{
  ℕ, String, Bool, true, List, [], ◌∷◌, ◌++◌, some, ◌≡◌, refl, subst, arith, if_elim, if◌then◌else◌,
  string_eq, nat_eq,
}
use agentmeld.Supervisor.{Turn, Promise, pending, resolved, rejected}
use agentmeld.Supervisor.Dispatch.{
  on_turn_transport_error, on_worker_close, cancel_active_turn, start_turn,
}
use agentmeld.Supervisor.Spawn.{
  Phase, listening, shaking, running, over, turn_start, Spawn, unsettled, settle_handshake, on_this,
  on_connection, on_timeout, on_socket_close, clear, settled_turn, proceed, SpawnEvent, proceeds,
  listen_fails, connects, hears, reader_fails, socket_closes, child_fails, child_exits,
  server_fails, times_out, cancels, reaps, on_listen_error, on_reaped, spawn_event, spawn_events,
  new_spawn,
}
use agentmeld.Supervisor.Spawn.Greeted.{
  greeted, IsSpawn, settle_handshake-IsSpawn, on_this-IsSpawn, welcomed-IsSpawn, on_current-none,
  cancel-none, on_frame-IsSpawn, clear-IsSpawn, start-IsSpawn, shaking_greeted, same-IsSpawn,
  before_or_after-IsSpawn,
}

data HandshakeIs (p : Promise) : Type 0 where
  still_pending : p ≡ pending → HandshakeIs p
  was_resolved : p ≡ resolved → HandshakeIs p
  was_rejected : (e : String) → p ≡ rejected e → HandshakeIs p

handshake_cases : (p : Promise) → HandshakeIs p
handshake_cases pending = still_pending refl
handshake_cases resolved = was_resolved refl
handshake_cases (rejected e) = was_rejected e refl

data PhaseIs (p : Phase) : Type 0 where
  is_listening : p ≡ listening → PhaseIs p
  is_shaking : p ≡ shaking → PhaseIs p
  is_running : p ≡ running → PhaseIs p
  is_over : p ≡ over → PhaseIs p

phase_cases : (p : Phase) → PhaseIs p
phase_cases listening = is_listening refl
phase_cases shaking = is_shaking refl
phase_cases running = is_running refl
phase_cases over = is_over refl

proceed-IsSpawn : (t : Turn) (pid : ℕ) (s : Spawn) → IsSpawn t s → IsSpawn t (proceed pid s)
unfolding proceed
proceed-IsSpawn t pid s i =
    let cleared = clear-IsSpawn t s i in
    elim (phase_cases s.phase) [
      | is_listening p ↦
          subst (IsSpawn t)
            (let w : record s { phase = shaking; child = some pid } ≡ proceed pid s =
                ground (arith, p) in
              w)
            (record {
              in_order = spawned p;
              opened = i.opened;
              hidden = i.hidden;
              untouched = i.untouched;
            })
      | is_shaking p ↦ elim (handshake_cases s.handshake) [
        | still_pending h ↦
            subst (IsSpawn t) (let w : s ≡ proceed pid s = ground (arith, p, h) in w) i
        | was_resolved h ↦
            subst (IsSpawn t)
              (let w : record (on_this start_turn s) {
                phase = running;
                greetings = s.greetings ++ turn_start ∷ [];
              }
                    ≡ proceed pid s =
                  ground (arith, p, h) in
                w)
              (start-IsSpawn t s p (i.opened h) i)
        | was_rejected e h ↦
            subst (IsSpawn t) (let w : clear s ≡ proceed pid s = ground (arith, p, h) in w) cleared
      ]
      | is_running p ↦
          subst (IsSpawn t)
            (let w : (if settled_turn s then clear s else s) ≡ proceed pid s = ground (arith, p) in
              w)
            (if_elim (IsSpawn t) (settled_turn s) _ _ (λ e. cleared) (λ e. i))
      | is_over p ↦ subst (IsSpawn t) (let w : s ≡ proceed pid s = ground (arith, p) in w) i
    ]
  where
    spawned : s.phase ≡ listening → greeted s.welcomed shaking s.greetings ≡ true
    spawned p =
        shaking_greeted s.welcomed s.greetings
          (subst (λ q. greeted s.welcomed q s.greetings ≡ true) p i.in_order)

spawn_event-IsSpawn :
    (t : Turn) (e : SpawnEvent) (s : Spawn) → IsSpawn t s → IsSpawn t (spawn_event e s)
unfolding spawn_event on_listen_error on_timeout on_connection on_socket_close on_reaped
    settle_handshake unsettled on_turn_transport_error on_worker_close
spawn_event-IsSpawn t (proceeds pid) s i = proceed-IsSpawn t pid s i
spawn_event-IsSpawn t (listen_fails e) s i =
    let cleared =
      clear-IsSpawn t (settle_handshake (rejected e) s) (settle_handshake-IsSpawn t e s i) in
    elim s.phase
      as (λ p. IsSpawn t (elim p [ listening ↦ clear (settle_handshake (rejected e) s) | _ ↦ s ])) [
        | listening ↦ cleared
        | shaking ↦ i
        | running ↦ i
        | over ↦ i
      ]
spawn_event-IsSpawn t connects s i =
    if_elim (IsSpawn t) s.has_socket _ _ (λ e. same-IsSpawn t s _ i refl refl refl refl refl)
      (λ e. same-IsSpawn t s _ i refl refl refl refl refl)
spawn_event-IsSpawn t (hears env as_message heard) s i = on_frame-IsSpawn t env as_message heard s i
spawn_event-IsSpawn t (reader_fails env e) s i =
    before_or_after-IsSpawn t e (on_turn_transport_error env e) s (on_current-none _ s.supervisor) i
spawn_event-IsSpawn t (socket_closes env) s i =
    if_elim (IsSpawn t) s.welcomed _ _ (λ w. welcomed-IsSpawn t (on_worker_close env) s w i)
      (λ w. i)
spawn_event-IsSpawn t (child_fails e) s i = settle_handshake-IsSpawn t e s i
spawn_event-IsSpawn t (child_exits env) s i =
    before_or_after-IsSpawn t "worker exited before hello" (on_worker_close env) s
      (on_current-none _ s.supervisor) i
spawn_event-IsSpawn t (server_fails env e) s i =
    before_or_after-IsSpawn t e (on_turn_transport_error env e) s (on_current-none _ s.supervisor) i
spawn_event-IsSpawn t times_out s i =
    let rejected_now = settle_handshake-IsSpawn t "worker hello timeout" s i in
    if_elim (IsSpawn t) (unsettled s.handshake) _ _
      (λ e.
        same-IsSpawn t (settle_handshake (rejected "worker hello timeout") s) _ rejected_now refl
          refl refl refl refl)
      (λ e. i)
spawn_event-IsSpawn t (cancels reason) s i =
    on_this-IsSpawn t (cancel_active_turn reason) s (cancel-none reason s.supervisor) i
spawn_event-IsSpawn t (reaps first second) s i =
    same-IsSpawn t s (on_reaped first second s) i (ground arith) (ground arith) (ground arith)
      (ground arith) (ground arith)

spawn_events-from :
    (t : Turn) (es : List SpawnEvent) (s : Spawn) → IsSpawn t s → IsSpawn t (spawn_events es s)
unfolding spawn_events
spawn_events-from t [] s i = i
spawn_events-from t (e ∷ es) s i =
    spawn_events-from t es (spawn_event e s) (spawn_event-IsSpawn t e s i)

new_spawn-IsSpawn : (armed : Bool) (token : String) (t : Turn) → IsSpawn t (new_spawn armed token t)
unfolding new_spawn greeted
new_spawn-IsSpawn armed token t = record {
  in_order = refl;
  opened = λ h. absurd (ground (arith, h));
  hidden = λ h. refl;
  untouched = λ h. refl;
}

-- A spawn that meets any events in any order: the worker is welcomed once at most and told to start once at most,
-- after the welcome; the handshake succeeds only for a worker that was welcomed; and as long as none was, the
-- supervisor has no current turn and the turn is as runTurn made it.
pub spawn_events-IsSpawn :
    (es : List SpawnEvent) (armed : Bool) (token : String) (t : Turn)
    → IsSpawn t (spawn_events es (new_spawn armed token t))
spawn_events-IsSpawn es armed token t =
    spawn_events-from t es (new_spawn armed token t) (new_spawn-IsSpawn armed token t)

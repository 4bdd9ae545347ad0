-- ===== src/Supervisor/Spawn/Greeted.antt =====
-- The callbacks of a spawn of apps/poc/supervisor.mjs, and who they let in.
use agentmeld.Prelude.{
  ℕ, String, Bool, true, false, ◌&&◌, List, [], ◌∷◌, ◌++◌, none, ◌≡◌, refl, sym, ◌∙◌, arith,
  if_elim, ◌==◌, string_eq, nat_eq,
}
use agentmeld.Supervisor.{Supervisor, Turn, Env, Message, resolved, rejected}
use agentmeld.Supervisor.Dispatch.{
  on_current, handle_worker_message, cancel_active_turn, start_turn,
}
use agentmeld.Supervisor.Spawn.{
  Phase, listening, shaking, running, over, Greeting, welcome, turn_start, Heard, hello, message,
  Spawn, unsettled, settle_handshake, on_this, before_or_after, has_pid, refuse_hello, on_hello,
  on_frame, clear,
}

-- The greetings of a worker, by whether it was welcomed and where runTurn stands.
unfoldable pub greeted : Bool → Phase → List Greeting → Bool
greeted false running gs = false
greeted false p [] = true
greeted true running (welcome m ∷ turn_start ∷ []) = true
greeted true listening (welcome m ∷ []) = true
greeted true shaking (welcome m ∷ []) = true
greeted true over (welcome m ∷ []) = true
greeted true over (welcome m ∷ turn_start ∷ []) = true
greeted w p gs = false

-- What holds of the spawn for the turn `t`: it is greeted in order, its handshake succeeds only for a worker that
-- was welcomed, and before that the turn is as it was made, and no worker can reach it.
pub record IsSpawn (t : Turn) (s : Spawn) : Type 0 where
  pub in_order : greeted s.welcomed s.phase s.greetings ≡ true
  pub opened : s.handshake ≡ resolved → s.welcomed ≡ true
  pub hidden : s.welcomed ≡ false → s.supervisor.current ≡ none
  pub untouched : s.welcomed ≡ false → s.turn ≡ t

pub settle_handshake-IsSpawn :
    (t : Turn) (e : String) (s : Spawn) → IsSpawn t s → IsSpawn t (settle_handshake (rejected e) s)
unfolding settle_handshake unsettled
settle_handshake-IsSpawn t e s i = record {
  in_order = ground (arith, i.in_order);
  opened = λ h. ground (arith, h, i.opened);
  hidden = λ h. ground (arith, h, i.hidden);
  untouched = λ h. ground (arith, h, i.untouched);
}

-- A callback of the supervisor that leaves it without a turn where it had none.
pub on_this-IsSpawn :
    (t : Turn) (f : Supervisor → Supervisor) (s : Spawn)
    → (s.supervisor.current ≡ none → (f s.supervisor).current ≡ none)
    → IsSpawn t s
    → IsSpawn t (on_this f s)
on_this-IsSpawn t f s k i = record {
  in_order = i.in_order;
  opened = i.opened;
  hidden = λ h. k (i.hidden h);
  untouched = i.untouched;
}

-- A callback after the welcome.
pub welcomed-IsSpawn :
    (t : Turn) (f : Supervisor → Supervisor) (s : Spawn)
    → s.welcomed ≡ true
    → IsSpawn t s
    → IsSpawn t (on_this f s)
welcomed-IsSpawn t f s w i = record {
  in_order = i.in_order;
  opened = i.opened;
  hidden = λ h. absurd (ground (arith, h, w));
  untouched = i.untouched;
}

pub on_current-none :
    (f : Turn → Turn) (s : Supervisor) → s.current ≡ none → (on_current f s).current ≡ none
on_current-none f s h = ground (arith, h)

pub cancel-none :
    (reason : String) (s : Supervisor)
    → s.current ≡ none
    → (cancel_active_turn reason s).current ≡ none
unfolding cancel_active_turn
cancel-none reason s h = ground (arith, h)

refuse_hello-IsSpawn :
    (t : Turn) (e : String) (s : Spawn) → IsSpawn t s → IsSpawn t (refuse_hello e s)
refuse_hello-IsSpawn t e s i =
    let j = settle_handshake-IsSpawn t e s i in
    record { in_order = j.in_order; opened = j.opened; hidden = j.hidden; untouched = j.untouched }

on_hello-IsSpawn :
    (t : Turn) (m : String) (pid : ℕ) (token : String) (s : Spawn)
    → s.welcomed ≡ false
    → IsSpawn t s
    → IsSpawn t (on_hello m pid token s)
unfolding on_hello settle_handshake unsettled greeted
on_hello-IsSpawn t m pid token s w i =
    if_elim (IsSpawn t) (has_pid pid s.child && token == s.token) _ _
      (λ e. record {
        in_order = ground (arith, w, i.in_order);
        opened = λ h. ground (arith, h);
        hidden = λ h. absurd (ground (arith, h));
        untouched = λ h. absurd (ground (arith, h));
      })
      (λ e. refuse_hello-IsSpawn t "worker hello rejected" s i)

pub on_frame-IsSpawn :
    (t : Turn) (env : Env) (as_message : String → ℕ → String → Message) (heard : Heard) (s : Spawn)
    → IsSpawn t s
    → IsSpawn t (on_frame env as_message heard s)
unfolding on_frame
on_frame-IsSpawn t env as_message (hello m pid token) s i =
    if_elim (IsSpawn t) s.welcomed _ _
      (λ w. welcomed-IsSpawn t (handle_worker_message env (as_message m pid token)) s w i)
      (λ w. on_hello-IsSpawn t m pid token s w i)
on_frame-IsSpawn t env as_message (message m) s i =
    if_elim (IsSpawn t) s.welcomed _ _ (λ w. welcomed-IsSpawn t (handle_worker_message env m) s w i)
      (λ w. refuse_hello-IsSpawn t "bad worker hello" s i)

-- The finally puts the turn back.
pub clear-IsSpawn : (t : Turn) (s : Spawn) → IsSpawn t s → IsSpawn t (clear s)
unfolding clear greeted
clear-IsSpawn t s i = record {
  in_order = ground (arith, i.in_order);
  opened = i.opened;
  hidden = λ h. refl;
  untouched = λ h. ground (arith, i.hidden h, i.untouched h);
}

-- A worker that was welcomed is told to start.
pub start-IsSpawn :
    (t : Turn) (s : Spawn)
    → s.phase ≡ shaking
    → s.welcomed ≡ true
    → IsSpawn t s
    → IsSpawn t (record (on_this start_turn s) {
      phase = running;
      greetings = s.greetings ++ turn_start ∷ [];
    })
unfolding greeted
start-IsSpawn t s p w i = record {
  in_order = ground (arith, p, w, i.in_order);
  opened = i.opened;
  hidden = λ h. absurd (ground (arith, h, w));
  untouched = λ h. i.untouched h;
}

pub shaking_greeted :
    (w : Bool) (gs : List Greeting) → greeted w listening gs ≡ true → greeted w shaking gs ≡ true
unfolding greeted
shaking_greeted w gs h = ground (arith, h)

-- A step that leaves all that a spawn's property is about.
pub same-IsSpawn :
    (t : Turn) (s u : Spawn)
    → IsSpawn t s
    → greeted u.welcomed u.phase u.greetings ≡ greeted s.welcomed s.phase s.greetings
    → u.handshake ≡ s.handshake
    → u.welcomed ≡ s.welcomed
    → u.supervisor.current ≡ s.supervisor.current
    → u.turn ≡ s.turn
    → IsSpawn t u
same-IsSpawn t s u i g h w c n = record {
  in_order = g ∙ i.in_order;
  opened = λ k. w ∙ i.opened (sym h ∙ k);
  hidden = λ k. c ∙ i.hidden (sym w ∙ k);
  untouched = λ k. n ∙ i.untouched (sym w ∙ k);
}

pub before_or_after-IsSpawn :
    (t : Turn) (e : String) (f : Supervisor → Supervisor) (s : Spawn)
    → (s.supervisor.current ≡ none → (f s.supervisor).current ≡ none)
    → IsSpawn t s
    → IsSpawn t (before_or_after e f s)
before_or_after-IsSpawn t e f s k i =
    if_elim (IsSpawn t) (unsettled s.handshake) _ _ (λ h. settle_handshake-IsSpawn t e s i)
      (λ h. on_this-IsSpawn t f s k i)

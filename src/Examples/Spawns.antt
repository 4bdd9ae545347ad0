-- ===== src/Examples/Spawns.antt =====
-- Spawns of apps/poc/supervisor.mjs on concrete events, and the inputs of a turn.
use Prim.Native.Char.{code}
use agentmeld.Prelude.{
  ℕ, zero, suc, String, true, false, none, some, List, [], ◌∷◌, ◌≡◌, ◌≢◌, refl, ap, sym, All, inl,
  length, map, arith,
}
use agentmeld.Data.{Task, Conversation}
use agentmeld.Supervisor.{Message, protocol_name, unlisted}
use agentmeld.Supervisor.Setup.{inputs_of, set_up_turn}
use agentmeld.Supervisor.Setup.Served.{files_of_turn, row_of, Fetched, inputs_of-files_of_turn}
use agentmeld.Supervisor.Spawn.{
  Spawn, SpawnEvent, proceeds, connects, hears, hello, times_out, child_exits, cancels, reaps,
  socket_closes, spawn_events, new_spawn, clear, welcome, turn_start,
}
use agentmeld.Supervisor.Spawn.Admitted.{spawn_events-IsSpawn}
use agentmeld.Supervisor.Spawn.Greeted.{IsSpawn}
use agentmeld.Supervisor.Spawn.Token.{without_token, spawn_events-without_token}
use agentmeld.Supervisor.Spawn.Late.{spawn_events-free, spawn_events-late_hello}
use agentmeld.Examples.Turns.{task, chat, turn, env, binding}

abbrev as_message : String → ℕ → String → Message
as_message m pid token = record {
  protocol = protocol_name;
  msg_id = some m;
  run_id = "t1";
  generation = 1;
  body = unlisted "worker.session.hello";
}

-- A cancel while the worker starts, the handshake, and the start with the cancel behind it.
abbrev script : List SpawnEvent
script =
    proceeds 7
    ∷ cancels "user_requested"
    ∷ connects
    ∷ hears env as_message (hello "h" 7 "secret")
    ∷ proceeds 7
    ∷ []

spawn_events-IsSpawn_example : IsSpawn turn (spawn_events script (new_spawn false "secret" turn))
spawn_events-IsSpawn_example = spawn_events-IsSpawn script false "secret" turn

script_greetings :
    (spawn_events script (new_spawn false "secret" turn)).greetings ≡ welcome "h" ∷ turn_start ∷ []
unfolding spawn_events new_spawn
script_greetings = refl

-- Another process guesses a token.
abbrev guess : List SpawnEvent
guess = proceeds 7 ∷ connects ∷ hears env as_message (hello "h" 7 "guess") ∷ proceeds 7 ∷ []

spawn_events-without_token_example :
    let s = spawn_events guess (new_spawn false "secret" turn) in
    (s.greetings ≡ []) × (s.supervisor.current ≡ none) × (s.turn ≡ turn)
unfolding without_token
spawn_events-without_token_example =
    spawn_events-without_token guess false "secret" turn (refl, (refl, (refl, (refl, tt))))

abbrev joined : Spawn
joined = spawn_events script (new_spawn false "secret" turn)

free_again :
    (spawn_events (socket_closes env ∷ child_exits env ∷ []) (clear joined)).supervisor.current
    ≡ none
unfolding spawn_events new_spawn
free_again = spawn_events-free (socket_closes env ∷ child_exits env ∷ []) joined refl

-- The hello comes after its time is over.
abbrev timed_out : Spawn
timed_out =
    spawn_events (proceeds 7 ∷ connects ∷ times_out ∷ proceeds 7 ∷ [])
      (new_spawn false "secret" turn)

spawn_events-late_hello_example :
    set_up_turn
      (λ bytes. "d")
      binding
      chat
      task
      (spawn_events
        (hears env as_message (hello "h" 7 timed_out.token)
          ∷ reaps false false
          ∷ child_exits env
          ∷ [])
        timed_out).supervisor
    ≡ inl "supervisor already has an active turn"
unfolding spawn_events new_spawn
spawn_events-late_hello_example =
    spawn_events-late_hello env as_message "h" 7 (reaps false false ∷ child_exits env ∷ [])
      timed_out (λ bytes. "d") binding chat task refl refl refl

-- A digest without collisions: each byte as a row of one letter, and then another.
abbrev row_then : ℕ → String → String
row_then zero s = String.◌∷◌ "b" s
row_then (suc n) s = String.◌∷◌ "a" (row_then n s)

digest : List ℕ → String
digest [] = ""
digest (n ∷ ns) = row_then n (digest ns)

abbrev first_code : String → ℕ
first_code String.[] = 0
first_code (String.◌∷◌ c s) = code c

apart_letters : (s t : String) → String.◌∷◌ "b" s ≢ String.◌∷◌ "a" t
apart_letters s t e = let h : 98 ≡ 97 = ap first_code e in absurd (omega (arith, h))

row_then_apart : (m n : ℕ) (s t : String) → row_then m s ≡ row_then n t → (m ≡ n) × (s ≡ t)
row_then_apart zero zero s t e = (refl, cc)
row_then_apart zero (suc n) s t e = absurd (apart_letters s (row_then n t) e)
row_then_apart (suc m) zero s t e = absurd (apart_letters t (row_then m s) (sym e))
row_then_apart (suc m) (suc n) s t e =
    let (p, q) = row_then_apart m n s t (tails (row_then m s) (row_then n t) e) in (ap suc p, q)
  where
    tails : (x y : String) → String.◌∷◌ "a" x ≡ String.◌∷◌ "a" y → x ≡ y
    tails x y h = cc

not_empty : (n : ℕ) (s : String) → "" ≢ row_then n s
not_empty zero s e = let h : 0 ≡ 98 = ap first_code e in absurd (omega (arith, h))
not_empty (suc n) s e = let h : 0 ≡ 97 = ap first_code e in absurd (omega (arith, h))

digest_apart : (a b : List ℕ) → digest a ≡ digest b → a ≡ b
unfolding digest
digest_apart [] [] e = refl
digest_apart [] (n ∷ ns) e = absurd (not_empty n (digest ns) e)
digest_apart (m ∷ ms) [] e = absurd (not_empty m (digest ms) (sym e))
digest_apart (m ∷ ms) (n ∷ ns) e =
    let (p, q) = row_then_apart m n (digest ms) (digest ns) e in let r = digest_apart ms ns q in cc

-- A directory, a file in it, and an attachment with the same bytes.
abbrev stocked : Conversation
stocked = record chat {
  workspace =
      record { name = "src"; directory = true; content = [] }
      ∷ record { name = "src/a.txt"; directory = false; content = 1 ∷ 2 ∷ [] }
      ∷ [];
}

abbrev asked : Task
asked = record task { inputs = record { name = "b.txt"; content = 1 ∷ 2 ∷ [] } ∷ [] }

inputs_of-files_of_turn_example :
    ((inputs_of digest stocked asked).rows ≡ map (row_of digest) (files_of_turn stocked asked))
    × All (Fetched digest (inputs_of digest stocked asked).blobs) (files_of_turn stocked asked)
inputs_of-files_of_turn_example = inputs_of-files_of_turn digest digest_apart stocked asked

one_blob : length (inputs_of digest stocked asked).blobs ≡ 1
unfolding inputs_of digest
one_blob = refl

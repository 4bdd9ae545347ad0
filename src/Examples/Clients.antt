-- ===== src/Examples/Clients.antt =====
-- The provider's client of apps/worker/codex-live-client.mjs on concrete frames.
use agentmeld.Prelude.{ℕ, false, none, some, List, [], ◌∷◌, ◌≡◌, refl, String, arith}
use agentmeld.Client.{
  LiveClient, NativeFrame, ClientCall, requests, hears, waits_for, fails, closes, client_calls,
  resolved, rejected,
}
use agentmeld.Client.Settled.{client_calls-IsClient}
use agentmeld.Client.Once.{IsClient}

abbrev new_client : LiveClient
new_client = record {
  takes_callbacks = false;
  callbacks = [];
  pending = [];
  settled = [];
  events = [];
  waiters = [];
  woken = 0;
  denied = 0;
  sequence = 0;
  failed = false;
  closing = false;
  written = [];
}

new_client-IsClient : IsClient new_client
unfolding agentmeld.Client.Once.times
new_client-IsClient = record {
  once = λ k. ground arith;
  few_events = omega arith;
  few_callbacks = omega arith;
  ended = λ h. refl;
}

abbrev reply : ℕ → String → NativeFrame
reply id model = record { method = none; id = some id; failed = false; model = some model }

-- Two replies, one with another model, a second reply to the first request, and an end with a third request.
abbrev script : List ClientCall
script =
    requests "thread/start" (some "m")
    ∷ requests "thread/resume" (some "m")
    ∷ hears (reply 2 "m")
    ∷ hears (reply 1 "other")
    ∷ hears (reply 1 "m")
    ∷ requests "turn/start" none
    ∷ fails
    ∷ closes
    ∷ []

client_calls-IsClient_example : IsClient (client_calls script new_client)
client_calls-IsClient_example = client_calls-IsClient script new_client new_client-IsClient

settled_script :
    (client_calls script new_client).settled
    ≡ (2, resolved)
      ∷ (1, rejected "native model mismatch")
      ∷ (3, rejected "native probe unavailable")
      ∷ []
unfolding client_calls
settled_script = refl

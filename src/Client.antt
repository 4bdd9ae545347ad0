-- ===== src/Client.antt =====
-- apps/worker/codex-live-client.mjs: the requests, replies, events and callbacks of the provider's client. The
-- bytes and their lines, the process and the timer are left out but for `fail`, which they call.
pub mod Once
pub mod Settled
use agentmeld.Prelude.{
  ℕ, suc, ◌+◌, String, Bool, true, false, not, ◌&&◌, ◌||◌, List, [], ◌∷◌, ◌++◌, Option, none, some,
  leb, length, map, contains, find, any, nat_eq, string_eq, ◌==◌, if◌then◌else◌,
}
use agentmeld.Prelude.Dict.{Dict, get, remove}

-- A frame of the provider, with the fields that the client reads: a method or id that is missing or empty
-- is `none`, and `model` is that of its result.
pub record NativeFrame : Type 0 where
  pub method : Option String
  pub id : Option ℕ
  pub failed : Bool
  pub model : Option String

pub data Verdict : Type 0 where
  resolved : Verdict
  rejected : String → Verdict

pub data Written : Type 0 where
  request_written : ℕ → String → Written
  denial_written : ℕ → Written
  result_written : ℕ → Written

-- A waiter is its test of a frame; `woken` counts those that a frame or an end has settled. `settled`
-- has each settled request with its verdict, in order.
pub record LiveClient : Type 0 where
  pub takes_callbacks : Bool
  pub callbacks : List ℕ
  pub pending : Dict ℕ (Option String)
  pub settled : List (ℕ × Verdict)
  pub events : List NativeFrame
  pub waiters : List (NativeFrame → Bool)
  pub woken : ℕ
  pub denied : ℕ
  pub sequence : ℕ
  pub failed : Bool
  pub closing : Bool
  pub written : List Written

-- Every promise that is left is rejected.
unfoldable pub reject_all : String → LiveClient → LiveClient
reject_all message c = record c {
  settled = c.settled ++ map (λ (p : ℕ × Option String). (p.0, rejected message)) c.pending;
  pending = [];
  woken = c.woken + length c.waiters;
  waiters = [];
}

unfoldable pub fail : LiveClient → LiveClient
unfolding reject_all
fail c =
    if c.closing || c.failed
    then c
    else reject_all "native probe unavailable" (record c { failed = true })

unfoldable pub close_client : LiveClient → LiveClient
unfolding reject_all
close_client c = reject_all "native probe closed" (record c { closing = true })

-- The model that a thread is asked for, by method.
abbrev pub expected_model : String → Option String → Option String
expected_model method model =
    if method == "thread/start" || method == "thread/resume" then model else none

unfoldable pub request : String → Option String → LiveClient → LiveClient
request method model c = if c.failed || c.closing then c else record c {
  sequence = suc c.sequence;
  pending = c.pending ++ (suc c.sequence, expected_model method model) ∷ [];
  written = c.written ++ request_written (suc c.sequence) method ∷ [];
}

-- p.expectedModel && frame.result?.model !== p.expectedModel
unfoldable pub other_model : Option String → Option String → Bool
other_model none model = false
other_model (some expected) none = not (expected == "")
other_model (some expected) (some model) = not (expected == "") && not (model == expected)

unfoldable pub verdict : Option String → NativeFrame → Verdict
unfolding other_model
verdict expected f =
    if f.failed
    then rejected "native rejected probe request"
    else if other_model expected f.model
    then rejected "native model mismatch"
    else resolved

unfoldable pub settle_request : ℕ → Option String → NativeFrame → LiveClient → LiveClient
unfolding remove verdict
settle_request id expected f c = record c {
  pending = remove id c.pending;
  settled = c.settled ++ (id, verdict expected f) ∷ [];
}

-- A request of the provider: to the handler if there is one, at most 32 and none twice; otherwise denied.
unfoldable pub call_back : ℕ → LiveClient → LiveClient
unfolding fail contains
call_back id c =
    let taken = record c { callbacks = c.callbacks ++ id ∷ [] } in
    let denied = record c {
      denied = suc c.denied;
      written = c.written ++ denial_written id ∷ [];
    } in
    let refused = fail c in
    if c.takes_callbacks
    then (if contains id c.callbacks || leb 32 (length c.callbacks) then refused else taken)
    else denied

-- The end of the handler of a callback: its result is written while the client is live.
unfoldable pub callback_done : Bool → ℕ → LiveClient → LiveClient
unfolding fail
callback_done ok id c =
    let refused = fail c in
    if not ok
    then refused
    else if c.failed || c.closing
    then c
    else record c { written = c.written ++ result_written id ∷ [] }

-- The waiters that a frame does not match, and the number of those that it matches.
unfoldable pub still_waiting : NativeFrame → List (NativeFrame → Bool) → List (NativeFrame → Bool)
still_waiting f [] = []
still_waiting f (w ∷ ws) = let rest = still_waiting f ws in if w f then rest else w ∷ rest

unfoldable pub matched : NativeFrame → List (NativeFrame → Bool) → ℕ
matched f [] = 0
matched f (w ∷ ws) = let rest = matched f ws in if w f then suc rest else rest

unfoldable pub keep_event : NativeFrame → LiveClient → LiveClient
unfolding fail still_waiting matched
keep_event f c =
    let kept = record c {
      events = c.events ++ f ∷ [];
      waiters = still_waiting f c.waiters;
      woken = c.woken + matched f c.waiters;
    } in
    let refused = fail c in if leb 4096 (length c.events) then refused else kept

-- A frame that is not a request of the provider: a reply to a pending request, or an event.
unfoldable pub reply_or_event : NativeFrame → LiveClient → LiveClient
unfolding get settle_request keep_event
reply_or_event f c =
    let event : LiveClient = elim f.method [ none ↦ c | some method ↦ keep_event f c ] in
    elim f.id [
      | none ↦ event
      | some id ↦ elim (get id c.pending) [
        | none ↦ event
        | some expected ↦ settle_request id expected f c
      ]
    ]

unfoldable pub frame : NativeFrame → LiveClient → LiveClient
unfolding fail call_back reply_or_event
frame f c =
    let other = reply_or_event f c in
    let refused = fail c in
    if c.failed then c else elim f.method [
      | none ↦ other
      | some method ↦
          if method == "model/rerouted"
          then refused
          else elim f.id [ none ↦ other | some id ↦ call_back id c ]
    ]

unfoldable pub wait : (NativeFrame → Bool) → LiveClient → LiveClient
unfolding any
wait match_frame c =
    if c.failed || c.closing
    then c
    else if any match_frame c.events
    then record c { woken = suc c.woken }
    else record c { waiters = c.waiters ++ match_frame ∷ [] }

-- What the client is given, in any order.
pub data ClientCall : Type 0 where
  requests : String → Option String → ClientCall
  hears : NativeFrame → ClientCall
  waits_for : (NativeFrame → Bool) → ClientCall
  handles : Bool → ℕ → ClientCall
  fails closes : ClientCall

unfoldable pub client_call : ClientCall → LiveClient → LiveClient
unfolding request frame wait callback_done fail close_client
client_call (requests method model) c = request method model c
client_call (hears f) c = frame f c
client_call (waits_for match_frame) c = wait match_frame c
client_call (handles ok id) c = callback_done ok id c
client_call fails c = fail c
client_call closes c = close_client c

unfoldable pub client_calls : List ClientCall → LiveClient → LiveClient
unfolding client_call
client_calls [] c = c
client_calls (x ∷ xs) c = client_calls xs (client_call x c)

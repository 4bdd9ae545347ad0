-- ===== src/Examples/Seams.antt =====
-- A connection of apps/worker/seam.mjs with concrete events, and an input fetched from a turn.
use agentmeld.Prelude.{
  ℕ, String, Bool, true, false, Option, none, some, List, [], ◌∷◌, ◌≡◌, ◌≢◌, refl, length, map,
  arith, All,
}
use agentmeld.Prelude.Dict.{get}
use agentmeld.Seam.{SeamEvent, Failure, connected}
use agentmeld.Seam.Calls.{Call, begin, append, timer_fires, ack_timeout, receive, calls}
use agentmeld.Seam.Order.{calls-connected, calls-InOrder, connected-InOrder}
use agentmeld.Seam.Ordered.{line_up, range, settled_tickets}
use agentmeld.Seam.Lost.{MissesBatch, settled-fail_all}
use agentmeld.Seam.Fetch.{fetch_inputs, fetched, out_of_fuel, Answer, request_failed}
use agentmeld.Seam.Transfer.{serve, fetch_inputs-serve, fetch_inputs_safe}
use agentmeld.Examples.Turns.{turn}

abbrev delta : SeamEvent
delta = record {
  event_id = "e1";
  event_type = "run.answer_delta";
  payload = "{}";
  dedupe_key = none;
}

-- Two events; the first batch is sent, its ack is lost, and the retry is acknowledged.
abbrev retry_script : List Call
retry_script =
    begin "t1" 1
    ∷ append "" none delta
    ∷ timer_fires "m1" none
    ∷ append "" none delta
    ∷ ack_timeout "m1"
    ∷ timer_fires "m2" none
    ∷ receive (record {
      protocol = "worker-seam/1";
      in_reply_to = some "m2";
      msg_type = "service.events.stored";
      rows = ("e1", 0) ∷ [];
      code = none;
    })
    ∷ []

both_settled : settled_tickets (calls retry_script connected).settled ≡ 0 ∷ 1 ∷ []
unfolding calls get agentmeld.Prelude.Dict.put agentmeld.Prelude.Dict.remove
both_settled = refl

calls-connected_example :
    line_up (calls retry_script connected) ≡ range (calls retry_script connected).next_ticket
unfolding calls get agentmeld.Prelude.Dict.put agentmeld.Prelude.Dict.remove
calls-connected_example =
    calls-connected retry_script (refl, (tt, (tt, (tt, (tt, (tt, (tt, tt))))))) refl

abbrev in_flight_script : List Call
in_flight_script =
    begin "t1" 1 ∷ append "" none delta ∷ timer_fires "m1" none ∷ append "" none delta ∷ []

abbrev lost_connection : Failure
lost_connection = record { code = none; message = "socket closed" }

settled-fail_all_example :
    MissesBatch lost_connection (append "" none delta ∷ []) (calls in_flight_script connected)
unfolding calls
settled-fail_all_example =
    settled-fail_all lost_connection (append "" none delta ∷ []) (calls in_flight_script connected)
      (calls-InOrder in_flight_script connected (refl, (tt, (tt, (tt, tt)))) connected-InOrder) refl

fetch_inputs-serve_example :
    fetch_inputs (λ b. "d1") (serve turn "d1") "d1" (length {A = ℕ} (7 ∷ 8 ∷ 9 ∷ []))
    ≡ fetched (7 ∷ 8 ∷ 9 ∷ [])
unfolding get
fetch_inputs-serve_example = fetch_inputs-serve (λ b. "d1") turn "d1" (7 ∷ 8 ∷ 9 ∷ []) refl refl

abbrev refusing : ℕ → ℕ → Answer
refusing offset len = request_failed "unknown input digest"

fetch_inputs_safe_example :
    (fetch_inputs (λ b. "d1") refusing "d1" 5 ≢ out_of_fuel)
    × ((bytes : List ℕ)
        → fetch_inputs (λ b. "d1") refusing "d1" 5 ≡ fetched bytes
        → (length bytes ≡ 5) × (◌≡◌ {A = String} "d1" "d1"))
fetch_inputs_safe_example = fetch_inputs_safe (λ b. "d1") refusing "d1" 5

-- ===== src/Track/Stream.antt =====
-- Frames and events of the stream in apps/poc/public/client-track.js. What JSON.parse reads in a text is
-- given: the fields that the code looks at, or nothing if the text is no JSON object.
pub mod Keep
pub mod Window
use agentmeld.Prelude.{
  ℕ, suc, ◌+◌, ◌-◌, String, Bool, true, false, ◌&&◌, ◌||◌, not, List, [], ◌∷◌, ◌++◌, Option, none,
  some, contains, string_eq, nat_eq, list_beq, length, drop, ltb, if◌then◌else◌, ◌==◌, take,
}
use agentmeld.Prelude.Fields.{Field, missing, other, given}
use agentmeld.Prelude.Text.{codes}
use agentmeld.Sse.{Frame}
use agentmeld.Track.{Track, StepPayload, Poll, approvals_poll, lease_poll}
use agentmeld.Track.Steps.{step_started, step_finished}

pub record Message : Type 0 where
  pub server_time_ms : Field ℕ
  pub message_type : String
  pub current_seq : Field ℕ
  pub seq : Field ℕ
  pub run_id : Field String
  pub delta : List ℕ
  pub payload : StepPayload

abbrev pub seen_cap : ℕ
seen_cap = 2000

-- seenSeq.add, and the oldest goes when the set passes its cap.
unfoldable pub add_seen : ℕ → List ℕ → List ℕ
add_seen seq seen =
    let more = seen ++ seq ∷ [] in if ltb seen_cap (length more) then drop 1 more else more

-- t.indexOf(prefix) === 0
unfoldable pub begins : String → String → Bool
begins prefix t = list_beq (take (length (codes prefix)) (codes t)) (codes prefix)

unfoldable pub queue_refresh : ℕ → Track → Track
queue_refresh now t =
    if ltb (now - t.refresh_timer) 750
    then t
    else record t { refresh_timer = now; refreshes = t.refreshes + 1 }

abbrev pub poll_now : Poll → Track → Track
poll_now p t = record t { polls = t.polls ++ p ∷ [] }

-- A delta is taken by the application if its run id is a text and its own text is not empty.
unfoldable pub take_delta : Bool → ℕ → Message → Track → Track
unfolding queue_refresh
take_delta on_delta now m t = elim m.run_id [
  | given run ↦
      if on_delta && not (list_beq m.delta [])
      then record t { deltas = t.deltas ++ (run, m.delta) ∷ [] }
      else queue_refresh now t
  | missing ↦ queue_refresh now t
  | other ↦ queue_refresh now t
]

-- The run id of a tool event, empty if it has none; tool events have no run id of another type.
abbrev pub run_of : Message → String
run_of m = elim m.run_id [ given run ↦ run | missing ↦ "" | other ↦ "" ]

-- handleEvent; `on_delta` says that the application takes deltas.
unfoldable pub handle_event : Bool → ℕ → Message → Track → Track
unfolding queue_refresh begins step_started step_finished take_delta
handle_event on_delta now m t =
    let t' = record t { last_event_at = now } in
    if m.message_type == "run.answer_delta"
    then take_delta on_delta now m t'
    else if m.message_type == "tool.call_started"
    then record t' { steps = step_started (run_of m) m.payload t.steps }
    else if m.message_type == "tool.call_finished"
    then record t' { steps = step_finished (run_of m) m.payload t.steps }
    else if begins "approval." m.message_type
    then poll_now approvals_poll t'
    else if begins "lease." m.message_type
    then poll_now lease_poll t'
    else if begins "run." m.message_type
    then queue_refresh now t'
    else t'

-- onResync: the polls that it awaits are started here.
unfoldable pub on_resync : Field ℕ → Track → Track
on_resync current_seq t =
    let t' = record t {
      refreshes = t.refreshes + 1;
      polls = t.polls ++ approvals_poll ∷ lease_poll ∷ [];
    } in
    elim current_seq as (λ _. Track) [
      | given seq ↦ record t' { cursor = some seq }
      | missing ↦ t'
      | other ↦ t'
    ]

-- The end of dispatchFrame, for an event with a sequence number: it is handled once.
unfoldable pub take_event : Bool → ℕ → ℕ → Message → Track → Track
unfolding add_seen handle_event
take_event on_delta now seq m t =
    if contains seq t.seen_seq
    then t
    else handle_event on_delta now m (record t {
      seen_seq = add_seen seq t.seen_seq;
      cursor = some seq;
      handled = t.handled ++ seq ∷ [];
    })

unfoldable pub on_hello : ℕ → Field ℕ → Track → Track
on_hello now (given time) t = record t { clock = some (time, now) }
on_hello now _ t = t

unfoldable pub on_event : Bool → ℕ → Message → Track → Track
unfolding take_event
on_event on_delta now m t = elim m.seq [
  | given seq ↦ take_event on_delta now seq m t
  | missing ↦ t
  | other ↦ t
]

-- frame.data.join('\n')
unfoldable pub join_lines : List (List ℕ) → List ℕ
join_lines [] = []
join_lines (l ∷ []) = l
join_lines (l ∷ m ∷ ls) = l ++ 10 ∷ join_lines (m ∷ ls)

module _ (parse : List ℕ → Option Message) (on_delta : Bool) where
  unfoldable pub dispatch_message : ℕ → List ℕ → Message → Track → Track
  unfolding on_hello on_resync on_event
  dispatch_message now event m t =
      if list_beq event (codes "stream.hello")
      then on_hello now m.server_time_ms t
      else if list_beq event (codes "control")
      then (if m.message_type == "stream.resync_required" then on_resync m.current_seq t else t)
      else on_event on_delta now m t

  -- dispatchFrame. A data frame without data is not parsed; its text is empty, which is no JSON.
  unfoldable pub dispatch_frame : ℕ → Frame → Track → Track
  unfolding dispatch_message join_lines
  dispatch_frame now f t = elim (parse (join_lines f.data_lines)) [
    | none ↦ t
    | some m ↦ dispatch_message now f.event m t
  ]

  unfoldable pub dispatch_frames : ℕ → List Frame → Track → Track
  unfolding dispatch_frame
  dispatch_frames now [] t = t
  dispatch_frames now (f ∷ fs) t = dispatch_frames now fs (dispatch_frame now f t)

-- ===== src/Track/Lease.antt =====
-- The controller's lease in apps/poc/public/client-track.js: its polls, leaseMutate and maybeHeartbeat.
use agentmeld.Prelude.{
  ℕ, ◌+◌, ◌-◌, String, Bool, false, ◌&&◌, ◌||◌, not, List, [], ◌∷◌, ◌++◌, Option, none, some,
  string_eq, if◌then◌else◌, ◌==◌, ltb,
}
use agentmeld.Track.{
  Track, ControllerLease, Request, lease_takeover, lease_action, heartbeat, Response, accepted,
  refused, unreachable,
}

abbrev pub ask : Request → Track → Track
ask r t = record t { requests = t.requests ++ r ∷ [] }

abbrev pub notice : String → Track → Track
notice n t = record t { notices = t.notices ++ n ∷ [] }

abbrev pub request_refresh : Track → Track
request_refresh t = record t { refreshes = t.refreshes + 1 }

-- pollLease; nothing is given if the request failed.
unfoldable pub poll_lease : Option ControllerLease → Track → Track
poll_lease none t = t
poll_lease (some l) t = record t { lease = some l }

-- pollSession; an answer without a device id gives none.
unfoldable pub poll_session : Option (Option String) → Track → Track
poll_session none t = t
poll_session (some device) t = record t { session_device_id = device }

abbrev pub takeover_window_ms : ℕ
takeover_window_ms = 6000

-- leaseMutate, up to its request. The first click on takeover arms the second.
unfoldable pub lease_mutate : ℕ → String → Track → Track
lease_mutate now action t = elim t.lease_busy [
  | some b ↦ t
  | none ↦ elim t.lease [
    | none ↦ t
    | some l ↦
        if action == "takeover" && ltb takeover_window_ms (now - t.armed_takeover)
        then record t { armed_takeover = now }
        else ask (if action == "takeover" then lease_takeover else lease_action action l.generation)
            (record t { armed_takeover = 0; lease_busy = some action })
  ]
]

-- What the catch of leaseMutate shows. ctx.api gives the parsed answer, which has no function `json`, so an
-- action that the service has accepted throws there too, and shows the last notice.
unfoldable pub lease_notice : Response → Track → Track
lease_notice (accepted b) t =
    notice "The lease action could not be completed. Check the connection and try again." t
lease_notice (refused error message) t =
    if error == "stale_lease"
    then notice "Control changed since you acted — the lease moved. Review it and try again." t
    else if error == "not_holder"
    then notice "Another device holds the lease now." t
    else notice "The lease action could not be completed. Check the connection and try again." t
lease_notice unreachable t =
    notice "The lease action could not be completed. Check the connection and try again." t

-- The rest of leaseMutate, with the answer and with the lease that is polled then.
unfoldable pub lease_answered : Response → Option ControllerLease → Track → Track
unfolding lease_notice poll_lease
lease_answered r polled t =
    request_refresh (poll_lease polled (record (lease_notice r t) { lease_busy = none }))

-- This device holds the lease: holder_device_id is neither absent nor another device's.
unfoldable pub is_mine : ControllerLease → Option String → Bool
is_mine l none = false
is_mine l (some device) =
    not (l.holder_device_id == "") && not (device == "") && l.holder_device_id == device

-- maybeHeartbeat, up to its request; `server_now` is Date.now() with the offset of stream.hello.
unfoldable pub maybe_heartbeat : ℕ → Track → Track
unfolding is_mine
maybe_heartbeat server_now t = elim t.lease [
  | none ↦ t
  | some l ↦
      if not (l.state == "human") || not (is_mine l t.session_device_id)
      then t
      else if ltb (server_now - l.heartbeat_at_ms) 60000
      then t
      else ask (heartbeat l.generation) t
]

-- The rest of maybeHeartbeat, with the lease of the answer, if there is one: the call of `json` on the parsed answer
-- throws and the catch drops it, so that the lease is never taken from it.
abbrev pub heartbeat_answered : Option ControllerLease → Track → Track
heartbeat_answered answered t = t

-- The text of the pill.
unfoldable pub lease_label : String → String
lease_label s =
    if s == "agent" || s == "observed"
    then "Observing"
    else if s == "human"
    then "Human control"
    else if s == "pausing"
    then "Handing over…"
    else if s == "resuming"
    then "Resuming…"
    else if s == "paused"
    then "Paused"
    else s

unfoldable pub pill_label : ControllerLease → Option String → String
unfolding is_mine lease_label
pill_label l device =
    if l.state == "human"
    then (if is_mine l device
        then "Controlling on this device"
        else if not (l.holder_device_id == "")
        then "Controlled by another device"
        else "Human control")
    else lease_label l.state

-- The buttons of paintLeaseControls, by the actions that they send.
unfoldable pub lease_buttons : ControllerLease → Option String → Option String → List String
unfolding is_mine
lease_buttons l device (some busy) = busy ∷ []
lease_buttons l device none =
    if l.state == "agent" || l.state == "observed"
    then "takeover" ∷ []
    else if l.state == "pausing" && is_mine l device
    then "takeover/ack" ∷ []
    else if l.state == "human" && is_mine l device
    then "resume" ∷ (if l.private_bracket then "private/end" else "private/begin") ∷ []
    else []

-- ===== src/Track/Decisions.antt =====
-- decide and revokeApproval of apps/poc/public/client-track.js.
use agentmeld.Prelude.{
  ℕ, String, Bool, false, ◌||◌, List, Option, none, some, string_eq, if◌then◌else◌, ◌==◌,
}
use agentmeld.Track.{
  Track, Approval, ControllerLease, decision, revocation, Response, accepted, refused, unreachable,
}
use agentmeld.Track.Approvals.{poll_approvals}
use agentmeld.Track.Lease.{ask, notice, request_refresh, poll_lease}
use agentmeld.Track.Steps.{or_text}

-- decide, up to its request; without a lease it polls one first, at once here, and sends generation 0 if
-- it gets none.
unfoldable pub begin_decide : String → Option ControllerLease → Track → Track
unfolding poll_lease
begin_decide id polled t = elim t.lease [
  | none ↦ poll_lease polled (record t { deciding = some id })
  | some l ↦ record t { deciding = some id }
]

abbrev pub generation_of : Option ControllerLease → ℕ
generation_of none = 0
generation_of (some l) = l.generation

unfoldable pub decide : String → String → Option ControllerLease → Track → Track
unfolding begin_decide
decide id choice polled t = elim t.deciding [
  | some d ↦ t
  | none ↦ let t' = begin_decide id polled t in ask (decision id choice (generation_of t'.lease)) t'
]

abbrev pub moved_error : String → Bool
moved_error error = error == "stale_lease" || error == "stale_grant"

unfoldable pub decide_notice : String → Response → Track → Track
decide_notice choice (accepted b) t =
    notice (if choice == "approve" then "Approved." else "Denied.") t
decide_notice choice unreachable t =
    notice "The decision could not be recorded. Check the connection and try again." t
decide_notice choice (refused error message) t =
    if moved_error error
    then notice
        "Control changed since you reviewed this — the lease moved. Review it again before deciding."
        t
    else if error == "already_settled" || error == "expired"
    then notice (or_text message "That approval already settled.") t
    else if error == "digest_mismatch"
    then notice "The action changed after it was proposed. It was revoked, not approved." t
    else if error == "run_not_waiting"
    then notice "The run is no longer waiting on this approval." t
    else notice (or_text message "The decision could not be recorded.") t

abbrev pub has_moved : Response → Bool
has_moved (refused error message) = moved_error error
has_moved _ = false

-- The rest of decide: a moved lease is polled before the notice, and the approvals after it.
unfoldable pub decide_answered :
    String → Response → Option ControllerLease → Option (List Approval) → Track → Track
unfolding decide_notice poll_lease poll_approvals
decide_answered choice r polled rows t =
    let t' = if has_moved r then poll_lease polled t else t in
    request_refresh (poll_approvals rows (record (decide_notice choice r t') { deciding = none }))

-- revokeApproval, up to its request: the first click arms the second.
unfoldable pub revoke_approval : String → Track → Track
revoke_approval id t = elim t.revoking [
  | some r ↦ t
  | none ↦
      if (elim t.revoke_armed [ none ↦ false | some a ↦ a == id ])
      then ask (revocation id) (record t { revoke_armed = none; revoking = some id })
      else record t { revoke_armed = some id }
]

-- The timer of revokeApproval, six seconds after it was armed.
abbrev pub disarm_revoke : Track → Track
disarm_revoke t = record t { revoke_armed = none }

unfoldable pub revoke_notice : Response → Track → Track
revoke_notice (accepted already_dispatched) t =
    notice
      (if already_dispatched
        then "Approval revoked. The action may have already run."
        else "Approval revoked.")
      t
revoke_notice unreachable t =
    notice "The revocation could not be recorded. Check the connection and try again." t
revoke_notice (refused error message) t =
    if error == "already_settled" || error == "expired"
    then notice (or_text message "That approval already settled.") t
    else notice (or_text message "The revocation could not be recorded.") t

unfoldable pub revoke_answered : Response → Option (List Approval) → Track → Track
unfolding revoke_notice poll_approvals
revoke_answered r rows t =
    request_refresh (poll_approvals rows (record (revoke_notice r t) { revoking = none }))

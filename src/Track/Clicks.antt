-- ===== src/Track/Clicks.antt =====
-- The clicks and the answers of apps/poc/public/client-track.js in any order.
pub mod Balance
pub mod Locks
pub mod Single
use agentmeld.Prelude.{
  ℕ, suc, ◌+◌, String, Bool, true, false, List, [], ◌∷◌, ◌++◌, Option, none, some, if◌then◌else◌,
}
use agentmeld.Track.{Track, Approval, ControllerLease, Request, Response}
use agentmeld.Track.Approvals.{poll_approvals}
use agentmeld.Track.Decisions.{
  decide, decide_answered, revoke_approval, disarm_revoke, revoke_answered,
}
use agentmeld.Track.Lease.{
  poll_lease, poll_session, lease_mutate, lease_answered, maybe_heartbeat, heartbeat_answered,
}

pub data TrackCall : Type 0 where
  clicks_decide : String → String → Option ControllerLease → TrackCall
  answers_decide : String → Response → Option ControllerLease → Option (List Approval) → TrackCall
  clicks_revoke : String → TrackCall
  revoke_timer : TrackCall
  answers_revoke : Response → Option (List Approval) → TrackCall
  clicks_lease : ℕ → String → TrackCall
  answers_lease : Response → Option ControllerLease → TrackCall
  polls_approvals : Option (List Approval) → TrackCall
  polls_lease : Option ControllerLease → TrackCall
  polls_session : Option (Option String) → TrackCall
  beats : ℕ → TrackCall
  answers_beat : Option ControllerLease → TrackCall

unfoldable pub track_call : TrackCall → Track → Track
unfolding decide decide_answered revoke_approval revoke_answered lease_mutate lease_answered
    poll_approvals poll_lease poll_session maybe_heartbeat
track_call (clicks_decide id choice polled) t = decide id choice polled t
track_call (answers_decide choice r polled rows) t = decide_answered choice r polled rows t
track_call (clicks_revoke id) t = revoke_approval id t
track_call revoke_timer t = disarm_revoke t
track_call (answers_revoke r rows) t = revoke_answered r rows t
track_call (clicks_lease now action) t = lease_mutate now action t
track_call (answers_lease r polled) t = lease_answered r polled t
track_call (polls_approvals rows) t = poll_approvals rows t
track_call (polls_lease l) t = poll_lease l t
track_call (polls_session s) t = poll_session s t
track_call (beats server_now) t = maybe_heartbeat server_now t
track_call (answers_beat l) t = heartbeat_answered l t

unfoldable pub track_calls : List TrackCall → Track → Track
unfolding track_call
track_calls [] t = t
track_calls (c ∷ cs) t = track_calls cs (track_call c t)

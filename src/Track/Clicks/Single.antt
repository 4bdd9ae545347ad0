-- ===== src/Track/Clicks/Single.antt =====
-- One decision, one revocation and one lease action at a time in apps/poc/public/client-track.js.
use agentmeld.Prelude.{
  ℕ, ◌+◌, ◌≤◌, String, List, [], ◌∷◌, Option, none, some, if◌then◌else◌, refl, ◌==◌, string_eq, ltb,
  ◌-◌, ◌||◌, not, if_elim, arith,
}
use agentmeld.Track.{Track, Approval, ControllerLease, heartbeat, Response}
use agentmeld.Track.Approvals.{poll_approvals}
use agentmeld.Track.Decisions.{
  has_moved, decide_notice, decide_answered, revoke_notice, revoke_answered,
}
use agentmeld.Track.Lease.{
  is_mine, ask, poll_lease, poll_session, lease_notice, lease_answered, maybe_heartbeat,
}
use agentmeld.Track.Clicks.{
  TrackCall, clicks_decide, answers_decide, clicks_revoke, revoke_timer, answers_revoke,
  clicks_lease, answers_lease, polls_approvals, polls_lease, polls_session, beats, answers_beat,
  track_call, track_calls,
}
use agentmeld.Track.Clicks.Locks.{
  ask-Balanced, decide-Balanced, revoke_approval-Balanced, lease_mutate-Balanced, SameLocks-trans,
  decide_notice-SameLocks, revoke_notice-SameLocks, lease_notice-SameLocks, freed, SameLocks-refl,
  answer-Balanced,
}
use agentmeld.Track.Clicks.Balance.{
  takes_lock, sent, same_lock, frees_lock, answered, awaits, Balanced, SameLocks-Balanced,
  poll_approvals-SameLocks, poll_lease-SameLocks, Lock, SameLocks, deciding_lock, revoking_lock,
  lease_lock,
}

decide_answered-Balanced :
    (k : Lock) (choice : String) (r : Response) (p : Option ControllerLease)
    (rows : Option (List Approval)) (t : Track)
    → Balanced k (same_lock k deciding_lock) t (decide_answered choice r p rows t)
unfolding decide_answered freed
decide_answered-Balanced k choice r p rows t =
    answer-Balanced k deciding_lock t (decide_notice choice r moved)
      (poll_approvals rows (record (decide_notice choice r moved) { deciding = none }))
      (SameLocks-trans t moved (decide_notice choice r moved)
        (if_elim (SameLocks t) (has_moved r) _ _ (λ e. poll_lease-SameLocks p t)
          (λ e. SameLocks-refl t))
        (decide_notice-SameLocks choice r moved))
      (poll_approvals-SameLocks rows (record (decide_notice choice r moved) { deciding = none }))
  where
    moved : Track
    moved = if has_moved r then poll_lease p t else t

revoke_answered-Balanced :
    (k : Lock) (r : Response) (rows : Option (List Approval)) (t : Track)
    → Balanced k (same_lock k revoking_lock) t (revoke_answered r rows t)
unfolding revoke_answered freed
revoke_answered-Balanced k r rows t =
    answer-Balanced k revoking_lock t (revoke_notice r t)
      (poll_approvals rows (record (revoke_notice r t) { revoking = none }))
      (revoke_notice-SameLocks r t)
      (poll_approvals-SameLocks rows (record (revoke_notice r t) { revoking = none }))

lease_answered-Balanced :
    (k : Lock) (r : Response) (p : Option ControllerLease) (t : Track)
    → Balanced k (same_lock k lease_lock) t (lease_answered r p t)
unfolding lease_answered freed
lease_answered-Balanced k r p t =
    answer-Balanced k lease_lock t (lease_notice r t)
      (poll_lease p (record (lease_notice r t) { lease_busy = none })) (lease_notice-SameLocks r t)
      (poll_lease-SameLocks p (record (lease_notice r t) { lease_busy = none }))

heartbeat_takes :
    (k : Lock) (g : ℕ) (t : Track) → awaits k t + takes_lock k (heartbeat g) ≤ awaits k t
unfolding takes_lock
heartbeat_takes deciding_lock g t = omega arith
heartbeat_takes revoking_lock g t = omega arith
heartbeat_takes lease_lock g t = omega arith

maybe_heartbeat-Balanced : (k : Lock) (now : ℕ) (t : Track) → Balanced k 0 t (maybe_heartbeat now t)
unfolding maybe_heartbeat
maybe_heartbeat-Balanced k now t = beat t.lease
  where
    stays : Balanced k 0 t t
    stays = omega arith

    beat :
        (o : Option ControllerLease)
        → Balanced k 0 t (elim o as (λ _. Track) [
          | none ↦ t
          | some l ↦
              if not (l.state == "human") || not (is_mine l t.session_device_id)
              then t
              else if ltb (now - l.heartbeat_at_ms) 60000
              then t
              else ask (heartbeat l.generation) t
        ])
    beat none = stays
    beat (some l) =
        if_elim (Balanced k 0 t) (not (l.state == "human") || not (is_mine l t.session_device_id)) _
          _ (λ e. stays)
          (λ e.
            if_elim (Balanced k 0 t) (ltb (now - l.heartbeat_at_ms) 60000) _ _ (λ f. stays)
              (λ f.
                ask-Balanced k (heartbeat l.generation) t t refl
                  (heartbeat_takes k l.generation t)))

track_call-Balanced :
    (k : Lock) (c : TrackCall) (t : Track) → Balanced k (frees_lock k c) t (track_call c t)
unfolding track_call frees_lock poll_session
track_call-Balanced k (clicks_decide id choice p) t = decide-Balanced k id choice p t
track_call-Balanced k (answers_decide choice r p rows) t =
    decide_answered-Balanced k choice r p rows t
track_call-Balanced k (clicks_revoke id) t = revoke_approval-Balanced k id t
track_call-Balanced k revoke_timer t =
    SameLocks-Balanced k t (record t { revoke_armed = none })
      (record {
        same_requests = refl;
        same_deciding = refl;
        same_revoking = refl;
        same_busy = refl;
      })
track_call-Balanced k (answers_revoke r rows) t = revoke_answered-Balanced k r rows t
track_call-Balanced k (clicks_lease now action) t = lease_mutate-Balanced k now action t
track_call-Balanced k (answers_lease r p) t = lease_answered-Balanced k r p t
track_call-Balanced k (polls_approvals rows) t =
    SameLocks-Balanced k t (poll_approvals rows t) (poll_approvals-SameLocks rows t)
track_call-Balanced k (polls_lease l) t =
    SameLocks-Balanced k t (poll_lease l t) (poll_lease-SameLocks l t)
track_call-Balanced k (polls_session none) t = SameLocks-Balanced k t t (SameLocks-refl t)
track_call-Balanced k (polls_session (some d)) t =
    SameLocks-Balanced k t (record t { session_device_id = d })
      (record {
        same_requests = refl;
        same_deciding = refl;
        same_revoking = refl;
        same_busy = refl;
      })
track_call-Balanced k (beats now) t = maybe_heartbeat-Balanced k now t
track_call-Balanced k (answers_beat l) t = SameLocks-Balanced k t t (SameLocks-refl t)

track_calls-Balanced :
    (k : Lock) (cs : List TrackCall) (t : Track) → Balanced k (answered k cs) t (track_calls cs t)
unfolding track_calls answered
track_calls-Balanced k [] t = omega arith
track_calls-Balanced k (c ∷ cs) t =
    omega (arith, track_calls-Balanced k cs (track_call c t), track_call-Balanced k c t)

awaits_one : (k : Lock) (t : Track) → awaits k t ≤ 1
unfolding awaits
awaits_one deciding_lock t = ground arith
awaits_one revoking_lock t = ground arith
awaits_one lease_lock t = ground arith

-- Of decisions, of revocations and of lease actions at most one is under way: whatever is clicked, polled and answered, the requests of a kind that the calls send are at
-- most one more than the answers that arrive.
pub track_calls-sent :
    (k : Lock) (cs : List TrackCall) (t : Track)
    → sent k (track_calls cs t).requests ≤ sent k t.requests + 1 + answered k cs
track_calls-sent k cs t =
    omega (arith, track_calls-Balanced k cs t, awaits_one k (track_calls cs t))

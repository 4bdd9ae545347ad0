-- ===== src/Track/Clicks/Locks.antt =====
-- The locks of the buttons in apps/poc/public/client-track.js: what each call sends and starts to await.
use agentmeld.Prelude.{
  ℕ, ◌+◌, ◌≤◌, String, Option, none, some, if◌then◌else◌, ◌≡◌, refl, ap, subst, Option-cases, inl,
  inr, ◌==◌, string_eq, ltb, ◌-◌, ◌&&◌, if_elim, arith,
}
use agentmeld.Track.{
  Track, ControllerLease, Request, decision, revocation, lease_takeover, lease_action, Response,
  accepted, refused, unreachable,
}
use agentmeld.Track.Decisions.{
  begin_decide, generation_of, decide, decide_notice, revoke_approval, revoke_notice,
}
use agentmeld.Track.Lease.{
  ask, request_refresh, takeover_window_ms, poll_lease, lease_mutate, lease_notice,
}
use agentmeld.Track.Clicks.Balance.{
  Lock, takes_lock, sent, same_lock, awaits, sent-append, Balanced, SameLocks, SameLocks-Balanced,
  poll_lease-SameLocks, deciding_lock, revoking_lock, lease_lock,
}

-- A request that is sent with its lock taken.
pub ask-Balanced :
    (k : Lock) (r : Request) (t u : Track)
    → u.requests ≡ t.requests
    → awaits k t + takes_lock k r ≤ awaits k u
    → Balanced k 0 t (ask r u)
unfolding awaits
ask-Balanced deciding_lock r t u e h =
    omega (arith, sent-append deciding_lock u.requests r, ap (sent deciding_lock) e)
ask-Balanced revoking_lock r t u e h =
    omega (arith, sent-append revoking_lock u.requests r, ap (sent revoking_lock) e)
ask-Balanced lease_lock r t u e h =
    omega (arith, sent-append lease_lock u.requests r, ap (sent lease_lock) e)

pub begin_decide-SameLocks :
    (id : String) (p : Option ControllerLease) (t : Track)
    → SameLocks (record t { deciding = some id }) (begin_decide id p t)
unfolding begin_decide
begin_decide-SameLocks id p t = begun t.lease
  where
    begun :
        (o : Option ControllerLease)
        → SameLocks
            (record t { deciding = some id })
            (elim o as (λ _. Track) [
              | none ↦ poll_lease p (record t { deciding = some id })
              | some l ↦ record t { deciding = some id }
            ])
    begun none = poll_lease-SameLocks p (record t { deciding = some id })
    begun (some l) = record {
      same_requests = refl;
      same_deciding = refl;
      same_revoking = refl;
      same_busy = refl;
    }

pub decision_takes :
    (k : Lock) (id choice : String) (g : ℕ) (t u : Track)
    → t.deciding ≡ none
    → SameLocks (record t { deciding = some id }) u
    → awaits k t + takes_lock k (decision id choice g) ≤ awaits k u
unfolding awaits takes_lock
decision_takes deciding_lock id choice g t u e s = ground (arith, e, s.same_deciding)
decision_takes revoking_lock id choice g t u e s = ground (arith, s.same_revoking)
decision_takes lease_lock id choice g t u e s = ground (arith, s.same_busy)

pub decide-Balanced :
    (k : Lock) (id choice : String) (p : Option ControllerLease) (t : Track)
    → Balanced k 0 t (decide id choice p t)
unfolding decide
decide-Balanced k id choice p t = elim (Option-cases t.deciding) [
  | inr (d, e) ↦
      subst (Balanced k 0 t) (ground (arith, e)) (let s : Balanced k 0 t t = omega arith in s)
  | inl e ↦
      subst (Balanced k 0 t)
        (let w : ask (decision id choice (generation_of u.lease)) u ≡ decide id choice p t =
            ground (arith, e) in
          w)
        (ask-Balanced k (decision id choice (generation_of u.lease)) t u
          (begin_decide-SameLocks id p t).same_requests
          (decision_takes k id choice (generation_of u.lease) t u e
            (begin_decide-SameLocks id p t)))
]
  where
    u : Track
    u = begin_decide id p t

pub revoke_approval-Balanced :
    (k : Lock) (id : String) (t : Track) → Balanced k 0 t (revoke_approval id t)
unfolding revoke_approval awaits takes_lock
revoke_approval-Balanced deciding_lock id t =
    ground (arith, sent-append deciding_lock t.requests (revocation id))
revoke_approval-Balanced revoking_lock id t =
    ground (arith, sent-append revoking_lock t.requests (revocation id))
revoke_approval-Balanced lease_lock id t =
    ground (arith, sent-append lease_lock t.requests (revocation id))

-- The request of a lease action.
abbrev pub lease_request : String → ControllerLease → Request
lease_request action l =
    if action == "takeover" then lease_takeover else lease_action action l.generation

pub lease_request-takes :
    (k : Lock) (action : String) (l : ControllerLease) (t : Track)
    → t.lease_busy ≡ none
    → awaits k t + takes_lock k (lease_request action l)
      ≤ awaits k (record t { armed_takeover = 0; lease_busy = some action })
unfolding awaits takes_lock
lease_request-takes deciding_lock action l t e = ground arith
lease_request-takes revoking_lock action l t e = ground arith
lease_request-takes lease_lock action l t e = ground arith

pub lease_mutate-Balanced :
    (k : Lock) (now : ℕ) (action : String) (t : Track) → Balanced k 0 t (lease_mutate now action t)
unfolding lease_mutate
lease_mutate-Balanced k now action t = elim (Option-cases t.lease_busy) [
  | inr (b, e) ↦
      subst (Balanced k 0 t) (let w : t ≡ lease_mutate now action t = ground (arith, e) in w)
        (SameLocks-Balanced k t t same)
  | inl e ↦ elim (Option-cases t.lease) [
    | inl n ↦
        subst (Balanced k 0 t) (let w : t ≡ lease_mutate now action t = ground (arith, e, n) in w)
          (SameLocks-Balanced k t t same)
    | inr (l, n) ↦
        subst (Balanced k 0 t)
          (let w : clicked l ≡ lease_mutate now action t = ground (arith, e, n) in w)
          (if_elim (Balanced k 0 t)
            (action == "takeover" && ltb takeover_window_ms (now - t.armed_takeover)) _ _
            (λ c.
              SameLocks-Balanced k t (record t { armed_takeover = now })
                (record {
                  same_requests = refl;
                  same_deciding = refl;
                  same_revoking = refl;
                  same_busy = refl;
                }))
            (λ c.
              ask-Balanced k (lease_request action l) t _ refl
                (lease_request-takes k action l t e)))
  ]
]
  where
    same : SameLocks t t
    same = record {
      same_requests = refl;
      same_deciding = refl;
      same_revoking = refl;
      same_busy = refl;
    }

    clicked : ControllerLease → Track
    clicked l =
        if action == "takeover" && ltb takeover_window_ms (now - t.armed_takeover)
        then record t { armed_takeover = now }
        else ask (lease_request action l)
            (record t { armed_takeover = 0; lease_busy = some action })

pub SameLocks-trans : (t u v : Track) → SameLocks t u → SameLocks u v → SameLocks t v
SameLocks-trans t u v a b = ground arith

pub decide_notice-SameLocks :
    (choice : String) (r : Response) (t : Track) → SameLocks t (decide_notice choice r t)
unfolding decide_notice
decide_notice-SameLocks choice (accepted b) t = ground arith
decide_notice-SameLocks choice unreachable t = ground arith
decide_notice-SameLocks choice (refused e m) t = ground arith

pub revoke_notice-SameLocks : (r : Response) (t : Track) → SameLocks t (revoke_notice r t)
unfolding revoke_notice
revoke_notice-SameLocks (accepted b) t = ground arith
revoke_notice-SameLocks unreachable t = ground arith
revoke_notice-SameLocks (refused e m) t = ground arith

pub lease_notice-SameLocks : (r : Response) (t : Track) → SameLocks t (lease_notice r t)
unfolding lease_notice
lease_notice-SameLocks (accepted b) t = ground arith
lease_notice-SameLocks unreachable t = ground arith
lease_notice-SameLocks (refused e m) t = ground arith

-- The lock of a kind, free.
unfoldable pub freed : Lock → Track → Track
freed deciding_lock t = record t { deciding = none }
freed revoking_lock t = record t { revoking = none }
freed lease_lock t = record t { lease_busy = none }

pub freed-SameLocks : (k : Lock) (t u : Track) → SameLocks t u → SameLocks (freed k t) (freed k u)
unfolding freed
freed-SameLocks deciding_lock t u s = ground arith
freed-SameLocks revoking_lock t u s = ground arith
freed-SameLocks lease_lock t u s = ground arith

-- An answer frees its own lock, and costs the others nothing.
pub freed-Balanced : (k j : Lock) (t : Track) → Balanced k (same_lock k j) t (freed j t)
unfolding freed awaits same_lock
freed-Balanced deciding_lock deciding_lock t = ground arith
freed-Balanced deciding_lock revoking_lock t = omega arith
freed-Balanced deciding_lock lease_lock t = omega arith
freed-Balanced revoking_lock deciding_lock t = omega arith
freed-Balanced revoking_lock revoking_lock t = ground arith
freed-Balanced revoking_lock lease_lock t = omega arith
freed-Balanced lease_lock deciding_lock t = omega arith
freed-Balanced lease_lock revoking_lock t = omega arith
freed-Balanced lease_lock lease_lock t = ground arith

pub SameLocks-refl : (t : Track) → SameLocks t t
SameLocks-refl t = record {
  same_requests = refl;
  same_deciding = refl;
  same_revoking = refl;
  same_busy = refl;
}

-- An answer that shows a notice, frees its lock, polls, and asks for a refresh.
pub answer-Balanced :
    (k j : Lock) (t u v : Track)
    → SameLocks t u
    → SameLocks (freed j u) v
    → Balanced k (same_lock k j) t (request_refresh v)
answer-Balanced k j t u v s p =
    let b = SameLocks-Balanced k (freed j t) (request_refresh v) (
      SameLocks-trans (freed j t) v (request_refresh v)
        (SameLocks-trans (freed j t) (freed j u) v (freed-SameLocks j t u s) p)
        (record {
          same_requests = refl;
          same_deciding = refl;
          same_revoking = refl;
          same_busy = refl;
        })) in
    omega (arith, freed-Balanced k j t, b)

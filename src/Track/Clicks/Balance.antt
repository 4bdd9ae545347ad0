-- ===== src/Track/Clicks/Balance.antt =====
-- The three locks of apps/poc/public/client-track.js: the requests that take them and the answers that free them.
use agentmeld.Prelude.{ℕ, ◌+◌, ◌≤◌, List, [], ◌∷◌, ◌++◌, Option, none, some, ◌≡◌, string_eq, arith}
use agentmeld.Track.{
  Track, Approval, ControllerLease, Request, decision, revocation, lease_takeover, lease_action,
}
use agentmeld.Track.Approvals.{poll_approvals}
use agentmeld.Track.Lease.{poll_lease}
use agentmeld.Track.Clicks.{TrackCall, answers_decide, answers_revoke, answers_lease}

-- The kinds of request that lock their button.
pub data Lock : Type 0 where
  deciding_lock revoking_lock lease_lock : Lock

unfoldable pub takes_lock : Lock → Request → ℕ
takes_lock deciding_lock (decision id choice g) = 1
takes_lock revoking_lock (revocation id) = 1
takes_lock lease_lock lease_takeover = 1
takes_lock lease_lock (lease_action a g) = 1
takes_lock _ _ = 0

unfoldable pub sent : Lock → List Request → ℕ
unfolding takes_lock
sent k [] = 0
sent k (r ∷ rs) = takes_lock k r + sent k rs

unfoldable pub same_lock : Lock → Lock → ℕ
same_lock deciding_lock deciding_lock = 1
same_lock revoking_lock revoking_lock = 1
same_lock lease_lock lease_lock = 1
same_lock _ _ = 0

-- The lock whose request a call answers.
unfoldable pub frees_lock : Lock → TrackCall → ℕ
unfolding same_lock
frees_lock k (answers_decide c r p rows) = same_lock k deciding_lock
frees_lock k (answers_revoke r rows) = same_lock k revoking_lock
frees_lock k (answers_lease r p) = same_lock k lease_lock
frees_lock k _ = 0

unfoldable pub answered : Lock → List TrackCall → ℕ
unfolding frees_lock
answered k [] = 0
answered k (c ∷ cs) = frees_lock k c + answered k cs

abbrev pub one_if {ℓ} : {A : Type ℓ} → Option A → ℕ
one_if none = 0
one_if (some a) = 1

-- The request of the kind whose answer the track awaits.
unfoldable pub awaits : Lock → Track → ℕ
awaits deciding_lock t = one_if t.deciding
awaits revoking_lock t = one_if t.revoking
awaits lease_lock t = one_if t.lease_busy

pub sent-append :
    (k : Lock) (rs : List Request) (r : Request)
    → sent k (rs ++ r ∷ []) ≡ sent k rs + takes_lock k r
unfolding sent
sent-append k [] r = omega arith
sent-append k (q ∷ rs) r = omega (arith, sent-append k rs r)

-- A call sends at most what it starts to await, and frees at most what was awaited.
abbrev pub Balanced : Lock → ℕ → Track → Track → Type 0
Balanced k freed t u = sent k u.requests + awaits k t ≤ sent k t.requests + awaits k u + freed

-- The fields that `awaits` and `sent` read.
pub record SameLocks (t u : Track) : Type 0 where
  pub same_requests : u.requests ≡ t.requests
  pub same_deciding : u.deciding ≡ t.deciding
  pub same_revoking : u.revoking ≡ t.revoking
  pub same_busy : u.lease_busy ≡ t.lease_busy

pub SameLocks-Balanced : (k : Lock) (t u : Track) → SameLocks t u → Balanced k 0 t u
unfolding awaits
SameLocks-Balanced deciding_lock t u s = ground arith
SameLocks-Balanced revoking_lock t u s = ground arith
SameLocks-Balanced lease_lock t u s = ground arith

pub poll_approvals-SameLocks :
    (rows : Option (List Approval)) (t : Track) → SameLocks t (poll_approvals rows t)
unfolding poll_approvals
poll_approvals-SameLocks none t = ground arith
poll_approvals-SameLocks (some rows) t = ground arith

pub poll_lease-SameLocks : (l : Option ControllerLease) (t : Track) → SameLocks t (poll_lease l t)
unfolding poll_lease
poll_lease-SameLocks none t = ground arith
poll_lease-SameLocks (some l) t = ground arith

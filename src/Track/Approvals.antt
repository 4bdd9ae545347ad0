-- ===== src/Track/Approvals.antt =====
-- pollApprovals of apps/poc/public/client-track.js, with the rows that the service answers.
use agentmeld.Prelude.{
  ℕ, ◌≤◌, String, Bool, ◌&&◌, not, List, [], ◌∷◌, Option, none, some, contains, string_eq,
  if◌then◌else◌, ◌==◌, ◌≡◌, arith, map, take, select, ltb, nat_beq, length, length-take,
}
use agentmeld.Prelude.Sorting.{
  sort_by, IsSortedBy, sort_by-IsSortedBy, select-sort_by, take-IsSortedBy,
}
use agentmeld.Track.{Approval, Track, Steps}
use agentmeld.Track.Steps.{project_terminal_step}

unfoldable pub is_pending : Approval → Bool
is_pending a = a.state == "pending"

-- a.decided_at_ms || a.created_at_ms || 0
unfoldable pub settled_at : Approval → ℕ
settled_at a = if nat_beq a.decided_at_ms 0 then a.created_at_ms else a.decided_at_ms

-- The comparisons of both sorts.
abbrev pub expires_before : Approval → Approval → Bool
expires_before a b = ltb a.expires_at_ms b.expires_at_ms

unfoldable pub settled_after : Approval → Approval → Bool
unfolding settled_at
settled_after a b = ltb (settled_at b) (settled_at a)

-- A row that was pending and has ended without a step on the stream.
unfoldable pub newly_terminal : List String → Approval → Bool
newly_terminal was_pending a =
    contains a.id was_pending
    && not (a.state == "pending")
    && contains a.state ("denied" ∷ "expired" ∷ "revoked" ∷ [])

unfoldable pub project_all : List String → List Approval → Steps → Steps
unfolding newly_terminal project_terminal_step
project_all was_pending [] steps = steps
project_all was_pending (a ∷ rows) steps =
    project_all was_pending rows
      (if newly_terminal was_pending a then project_terminal_step a steps else steps)

-- No rows are given if the request failed.
unfoldable pub poll_approvals : Option (List Approval) → Track → Track
unfolding is_pending settled_after project_all
poll_approvals none t = t
poll_approvals (some rows) t = record t {
  pending = sort_by expires_before (select is_pending rows);
  history = take 10 (sort_by settled_after (select (λ (a : Approval). not (is_pending a)) rows));
  steps = project_all (map (λ (a : Approval). a.id) t.pending) rows t.steps;
}

-- A deadline that the rows of a list share.
abbrev pub due_at : ℕ → Approval → Bool
due_at n a = nat_beq a.expires_at_ms n

-- What a poll shows of the rows.
pub record ShowsApprovals (rows : List Approval) (t : Track) : Type 0 where
  pub urgent_first : IsSortedBy expires_before t.pending
  pub all_pending :
      (n : ℕ) → select (due_at n) t.pending ≡ select (due_at n) (select is_pending rows)
  pub latest_first : IsSortedBy settled_after t.history
  pub few : length t.history ≤ 10

-- After a poll that was answered, the pending approvals are those of the rows, each deadline's in the
-- order of the rows, with the most urgent first; the history is sorted with the latest first and has
-- at most ten.
pub poll_approvals-Shows :
    (rows : List Approval) (t : Track) → ShowsApprovals rows (poll_approvals (some rows) t)
unfolding poll_approvals
poll_approvals-Shows rows t = record {
  urgent_first = sort_by-IsSortedBy expires_before (select is_pending rows) (λ a b h. ground arith);
  all_pending = λ n.
      select-sort_by expires_before (due_at n) (select is_pending rows) (λ a b h k. ground arith);
  latest_first =
      take-IsSortedBy settled_after 10 _
        (sort_by-IsSortedBy settled_after _ (λ a b h. ground arith));
  few = omega (
    arith,
    length-take 10 (sort_by settled_after (select (λ (a : Approval). not (is_pending a)) rows)),
  );
}

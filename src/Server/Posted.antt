-- ===== src/Server/Posted.antt =====
-- The routes of apps/poc/server.mjs that take messages and changes: when they leave a queued task without a runner.
use agentmeld.Prelude.{
  ℕ, Bool, false, not, ◌&&◌, List, [], ◌∷◌, Option, none, some, ◌≡◌, refl, arith, any, find,
  string_eq, nat_eq, ◌==◌, Option-cases, inl, inr, ◌⊎◌,
}
use agentmeld.Data.{State, Task, Conversation}
use agentmeld.Store.{
  Request, Change, Refusal, Outside, Checked, Answer, Answered, refused, accepted,
}
use agentmeld.Store.Check.{check}
use agentmeld.Store.Admit.{
  admit, admit_parsed, admit_checked, admit_new, admit_addressed, admit_first, admit_into, enter,
}
use agentmeld.Store.Update.{update_conversation, update_named, update_known}
use agentmeld.Server.{
  Server, is_queued, edit_first, start_turn, has_active, pump, post_task, post_conversation,
}

-- A queued task waits although the server could start it.
unfoldable pub waits : Server → Bool
unfolding has_active any is_queued
waits s =
    not (has_active s)
    && not s.closing
    && s.healthy
    && s.pending == 0
    && any is_queued s.state.tasks

find-none : (ts : List Task) → find is_queued ts ≡ none → any is_queued ts ≡ false
unfolding find any
find-none [] h = refl
find-none (t ∷ ts) h = ground (arith, h, find-none ts (ground (arith, h)))

pub pump-waits : (now : ℕ) (s : Server) → waits (pump now s) ≡ false
unfolding waits pump has_active start_turn
pump-waits now s = elim (Option-cases (find is_queued s.state.tasks)) [
  | inl e ↦ ground (arith, e, find-none s.state.tasks e)
  | inr (t, e) ↦ ground (arith, e)
]

-- What a refused admission leaves is the state as it was.
admit_into-refused :
    (out : Outside) (q : Checked) (s : State) (c : Conversation) (r : Refusal)
    → (admit_into out q s c).answer ≡ refused r
    → (admit_into out q s c).state ≡ s
unfolding admit_into enter
admit_into-refused out q s c r e = ground (arith, e)

admit_first-refused :
    (out : Outside) (q : Checked) (s : State) (r : Refusal)
    → (admit_first out q s).answer ≡ refused r
    → (admit_first out q s).state ≡ s
unfolding admit_first enter
admit_first-refused out q s r e = ground (arith, e)

admit_addressed-refused :
    (out : Outside) (q : Checked) (s : State) (o : Option Conversation) (r : Refusal)
    → (admit_addressed out q s o).answer ≡ refused r
    → (admit_addressed out q s o).state ≡ s
unfolding admit_addressed
admit_addressed-refused out q s none r e = admit_first-refused out q s r e
admit_addressed-refused out q s (some c) r e = admit_into-refused out q s c r e

admit_new-refused :
    (out : Outside) (q : Checked) (s : State) (r : Refusal)
    → (admit_new out q s).answer ≡ refused r
    → (admit_new out q s).state ≡ s
unfolding admit_new
admit_new-refused out q s r e = ground (
  arith,
  e,
  admit_addressed-refused out q s
      (agentmeld.Store.Admit.addressed q.conversation_id s.conversations) r,
)

either_cases : {A B : Type 0} (x : A ⊎ B) → ((a : A) × (x ≡ inl a)) ⊎ ((b : B) × (x ≡ inr b))
either_cases (inl a) = inl (a, refl)
either_cases (inr b) = inr (b, refl)

admit-refused :
    (out : Outside) (request : Option Request) (s : State) (r : Refusal)
    → (admit out request s).answer ≡ refused r
    → (admit out request s).state ≡ s
unfolding admit admit_parsed admit_checked
admit-refused out request s r e = elim (either_cases (check request)) [
  | inl (x, c) ↦ ground (arith, e, c)
  | inr (q, c) ↦ ground (arith, e, c, admit_new-refused out q s r)
]

-- A write that leaves no queued task queued makes no task queued.
pub queued-edit_first :
    (test : Task → Bool) (f : Task → Task) (ts : List Task)
    → ((t : Task) → is_queued (f t) ≡ false)
    → any is_queued ts ≡ false
    → any is_queued (edit_first test f ts) ≡ false
unfolding edit_first any
queued-edit_first test f [] h n = refl
queued-edit_first test f (t ∷ ts) h n =
    ground (arith, n, h t, queued-edit_first test f ts h (ground (arith, n)))

pub post_task-waits :
    (out : Outside) (request : Option Request) (s : Server)
    → waits s ≡ false
    → waits (post_task out request s) ≡ false
unfolding waits post_task has_active
post_task-waits out request s h = elim (answer_cases (admit out request s.state).answer) [
  | inl (r, e) ↦ ground (arith, h, e, admit-refused out request s.state r e)
  | inr ((t, replay), e) ↦ ground (arith, h, e)
]
  where
    answer_cases :
        (a : Answer)
        → ((r : Refusal) × (a ≡ refused r)) ⊎ ((p : Task × Bool) × (a ≡ accepted p.0 p.1))
    answer_cases (refused r) = inl (r, refl)
    answer_cases (accepted t replay) = inr ((t, replay), refl)

update_conversation-tasks :
    (d : Change) (s u : State) → update_conversation (some d) s ≡ inr u → u.tasks ≡ s.tasks
unfolding update_conversation update_named update_known
update_conversation-tasks d s u e = ground (arith, e)

pub post_conversation-waits :
    (d : Change) (ok : Bool) (s : Server)
    → waits s ≡ false
    → waits (post_conversation d ok s) ≡ false
unfolding waits post_conversation has_active
post_conversation-waits d ok s h = elim (either_cases (update_conversation (some d) s.state)) [
  | inl (r, e) ↦ ground (arith, h, e)
  | inr (u, e) ↦ ground (arith, h, e, update_conversation-tasks d s.state u e)
]

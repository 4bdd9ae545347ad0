-- ===== src/Store/Retry.antt =====
-- A request that is sent again, with the same key, to admit of apps/poc/conversations.mjs.
use agentmeld.Prelude.{
  String, true, false, List, [], ◌∷◌, ◌++◌, ◌⊎◌, inl, inr, Option, none, some, ◌≡◌, ◌≢◌, refl,
  arith, find, nat_eq, leb, length, sym, ap, subst, ◌∙◌, if_elim, any, string_eq, eq_lem,
  Option-cases,
}
use agentmeld.Data.{State, Task, Conversation}
use agentmeld.Store.{Request, Checked, Outside, accepted, Answered, Refusal}
use agentmeld.Store.Check.{check}
use agentmeld.Store.Admit.{
  task_of_key, addressed, blocked, enter, admit_new, admit_checked, admit, admit_parsed, new_task,
  digest_of, refuse, names_none, new_conversation, admit_first, admit_into, admit_addressed, full,
}

-- Both attempts compute the digest of a request by the same function.
pub record SameDigest (a b : Outside) : Type 0 where
  pub same_digest : a.digest ≡ b.digest

task_of_key-append :
    (k : String) (ts : List Task) (t : Task)
    → task_of_key k ts ≡ none
    → t.request_key ≡ k
    → task_of_key k (ts ++ t ∷ []) ≡ some t
unfolding task_of_key find
task_of_key-append k [] t h e = ground (arith, eq_lem t.request_key k)
task_of_key-append k (u ∷ ts) t h e = ground (arith, task_of_key-append k ts t)

-- What an admission that is not a duplicate leaves: the task under its key, with its digest.
record IsEntered (out : Outside) (q : Checked) (s : State) (t : Task) : Type 0 where
  held : task_of_key q.request_key s.tasks ≡ some t
  digest : t.request_digest ≡ digest_of out q

-- An answer that refuses, or that lets the message enter a conversation.
abbrev Decided : Outside → Checked → State → Answered → Type 0
Decided out q s a =
    ((r : Refusal) × (a ≡ refuse r s))
    ⊎ ((c : Conversation) × (cs : List Conversation) × (a ≡ enter out q c cs s))

admit_addressed-Decided :
    (out : Outside) (q : Checked) (s : State) (o : Option Conversation)
    → Decided out q s (admit_addressed out q s o)
unfolding admit_addressed admit_first admit_into
admit_addressed-Decided out q s none =
    if_elim (Decided out q s) (names_none q.conversation_id) _ _
      (λ e. inr (new_conversation out q, _, refl)) (λ e. inl (_, refl))
admit_addressed-Decided out q s (some c) = into (blocked c s.tasks q.files)
  where
    into :
        (o : Option Refusal)
        → Decided out q s (elim o as (λ _. Answered) [
          | some r ↦ refuse r s
          | none ↦ enter out q c s.conversations s
        ])
    into (some r) = inl (r, refl)
    into none = inr (c, s.conversations, refl)

admit_new-Decided : (out : Outside) (q : Checked) (s : State) → Decided out q s (admit_new out q s)
unfolding admit_new
admit_new-Decided out q s =
    if_elim (Decided out q s) (leb 30 (length s.tasks)) _ _ (λ e. inl (full, refl))
      (λ e. admit_addressed-Decided out q s (addressed q.conversation_id s.conversations))

enter-IsEntered :
    (out : Outside) (q : Checked) (c : Conversation) (cs : List Conversation) (s : State) (t : Task)
    → task_of_key q.request_key s.tasks ≡ none
    → (enter out q c cs s).answer ≡ accepted t false
    → IsEntered out q (enter out q c cs s).state t
unfolding enter new_task any
enter-IsEntered out q c cs s t fresh e =
    subst (λ u. IsEntered out q (enter out q c cs s).state u) (ground arith)
      (let k : IsEntered out q (enter out q c cs s).state (new_task out q c) = record {
        held = task_of_key-append q.request_key s.tasks (new_task out q c) fresh refl;
        digest = refl;
      } in
        k)

-- A task that is held under the request's key, with its digest, answers the request.
answer_held :
    (out again : Outside) (q : Checked) (s : State) (t : Task)
    → SameDigest out again
    → IsEntered out q s t
    → admit_checked again q s ≡ record { state = s; answer = accepted t true }
unfolding admit_checked
answer_held out again q s t d h =
    ground (arith, h.held, h.digest, d.same_digest, eq_lem t.request_digest (digest_of again q))

admit_new-IsEntered :
    (out : Outside) (q : Checked) (s : State) (t : Task)
    → task_of_key q.request_key s.tasks ≡ none
    → (admit_new out q s).answer ≡ accepted t false
    → IsEntered out q (admit_new out q s).state t
admit_new-IsEntered out q s t fresh e = elim (admit_new-Decided out q s) [
  | inl (r, w) ↦ absurd (ground (arith, w))
  | inr (c, cs, w) ↦
      subst (λ a. IsEntered out q a.state t) (sym w)
        (enter-IsEntered out q c cs s t fresh (ap (λ a. a.answer) (sym w) ∙ e))
]

admit_checked_fresh :
    (out : Outside) (q : Checked) (s : State)
    → task_of_key q.request_key s.tasks ≡ none
    → admit_checked out q s ≡ admit_new out q s
unfolding admit_checked
admit_checked_fresh out q s fresh = ground (arith, fresh)

held_not_anew :
    (out : Outside) (q : Checked) (s : State) (t u : Task)
    → task_of_key q.request_key s.tasks ≡ some u
    → (admit_checked out q s).answer ≢ accepted t false
unfolding admit_checked
held_not_anew out q s t u held e = ground (arith, held)

admit_checked_again :
    (out again : Outside) (q : Checked) (s : State) (t : Task)
    → SameDigest out again
    → (admit_checked out q s).answer ≡ accepted t false
    → admit_checked again q (admit_checked out q s).state
      ≡ record { state = (admit_checked out q s).state; answer = accepted t true }
admit_checked_again out again q s t d e = elim (Option-cases (task_of_key q.request_key s.tasks)) [
  | inl fresh ↦
      let w = admit_checked_fresh out q s fresh in
      answer_held out again q (admit_checked out q s).state t d (
        subst (λ (a : Answered). IsEntered out q a.state t) (sym w)
          (admit_new-IsEntered out q s t fresh (ap (λ (a : Answered). a.answer) (sym w) ∙ e)))
  | inr (u, held) ↦ absurd (held_not_anew out q s t u held e)
]

admit_parsed_again :
    (out again : Outside) (r : Refusal ⊎ Checked) (s : State) (t : Task)
    → SameDigest out again
    → (admit_parsed out r s).answer ≡ accepted t false
    → admit_parsed again r (admit_parsed out r s).state
      ≡ record { state = (admit_parsed out r s).state; answer = accepted t true }
unfolding admit_parsed
admit_parsed_again out again (inl r) s t d e = cc
admit_parsed_again out again (inr q) s t d e = admit_checked_again out again q s t d e

-- A request that was accepted anew is accepted as a duplicate when it is sent again: the answer holds
-- the same task, and the state is left alone, whatever the time and the random ids of the second attempt.
pub admit_again :
    (out again : Outside) (request : Option Request) (s : State) (t : Task)
    → SameDigest out again
    → (admit out request s).answer ≡ accepted t false
    → admit again request (admit out request s).state
      ≡ record { state = (admit out request s).state; answer = accepted t true }
unfolding admit
admit_again out again request s t d e = admit_parsed_again out again (check request) s t d e

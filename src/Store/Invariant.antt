-- ===== src/Store/Invariant.antt =====
-- What holds of the store of apps/poc/conversations.mjs after any calls of its operations.
pub mod Admission
pub mod Changes
pub mod Calls
use agentmeld.Prelude.{
  ℕ, suc, ◌+◌, ◌≤◌, String, Bool, true, false, not, ◌&&◌, ◌||◌, List, [], ◌∷◌, ◌++◌, ◌⊎◌, inl, inr,
  Option, none, some, ◌≡◌, refl, arith, length, length-append, any, every, find, map, string_eq,
  nat_eq, eq_lem, if◌then◌else◌, ◌==◌, Option-cases, subst,
}
use agentmeld.Data.{State, Task, Conversation, File, busy}
use agentmeld.Events.{record_event}
use agentmeld.Store.{Request, Checked, Outside, Answered, Change, Refusal}
use agentmeld.Store.Check.{check}
use agentmeld.Store.Admit.{
  conversation_of, task_of_key, addressed, blocked, new_conversation, new_task, enter, admit_new,
  admit_checked, admit,
}
use agentmeld.Store.Update.{
  edit, changed, raises, working, set_flag, update_known, update_named, update_conversation,
}
use agentmeld.Store.Recover.{
  begun, interrupt, make_unavailable, recover_tasks, recover_conversations, recover,
}

-- The task's conversation is stored, and is not archived while the task has not ended.
unfoldable pub at_home : List Conversation → Task → Bool
unfolding conversation_of busy
at_home cs t = elim (conversation_of t.conversation_id cs) [
  | none ↦ false
  | some c ↦ not (c.archived && busy t.status)
]

unfoldable pub count_key : String → List Task → ℕ
count_key k [] = 0
count_key k (t ∷ ts) = let rest = count_key k ts in if t.request_key == k then suc rest else rest

pub record IsStore (s : State) : Type 0 where
  pub bounded : length s.tasks ≤ 30
  pub homes : every (at_home s.conversations) s.tasks ≡ true
  pub keys : (k : String) → count_key k s.tasks ≤ 1

pub conversation_of-append :
    (id : String) (cs : List Conversation) (c : Conversation)
    → conversation_of id (cs ++ c ∷ [])
      ≡ elim (conversation_of id cs) as (λ _. Option Conversation) [
        | none ↦ if c.id == id then some c else none
        | some d ↦ some d
      ]
unfolding conversation_of find
conversation_of-append id [] c = refl
conversation_of-append id (d ∷ cs) c = ground (arith, conversation_of-append id cs c)

-- A write that keeps the id changes what is found under that id only.
pub conversation_of-edit :
    (id j : String) (f : Conversation → Conversation) (cs : List Conversation)
    → ((c : Conversation) → (f c).id ≡ c.id)
    → conversation_of j (edit id f cs) ≡ elim (conversation_of j cs) as (λ _. Option Conversation) [
      | none ↦ none
      | some c ↦ if id == j then some (f c) else some c
    ]
unfolding conversation_of find edit
conversation_of-edit id j f [] keep = refl
conversation_of-edit id j f (c ∷ cs) keep =
    ground (
      arith,
      conversation_of-edit id j f cs keep,
      keep c,
      eq_lem c.id id,
      eq_lem c.id j,
      eq_lem id j,
    )

pub every-append :
    (p : Task → Bool) (ts us : List Task) → every p (ts ++ us) ≡ (every p ts && every p us)
unfolding every
every-append p [] us = refl
every-append p (t ∷ ts) us = ground (arith, every-append p ts us)

-- To show a test of all tasks by a test of each.
pub every_imp :
    (p q : Task → Bool) (ts : List Task)
    → ((t : Task) → p t ≡ true → q t ≡ true)
    → every p ts ≡ true
    → every q ts ≡ true
unfolding every
every_imp p q [] h e = refl
every_imp p q (t ∷ ts) h e = ground (arith, every_imp p q ts h, h t)

pub count_key-append :
    (k : String) (ts : List Task) (t : Task)
    → count_key k (ts ++ t ∷ []) ≡ count_key k ts + (if t.request_key == k then 1 else 0)
unfolding count_key
count_key-append k [] t = ground arith
count_key-append k (u ∷ ts) t = ground (arith, count_key-append k ts t)

-- A key that no task has is not counted.
pub count_key-none : (k : String) (ts : List Task) → task_of_key k ts ≡ none → count_key k ts ≡ 0
unfolding count_key task_of_key find
count_key-none k [] h = refl
count_key-none k (t ∷ ts) h = ground (arith, count_key-none k ts)

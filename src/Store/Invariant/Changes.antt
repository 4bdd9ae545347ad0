-- ===== src/Store/Invariant/Changes.antt =====
-- updateConversation and the restart keep the store's invariant.
use agentmeld.Prelude.{
  ℕ, String, true, false, ◌&&◌, List, [], ◌∷◌, ◌⊎◌, inl, inr, Option, none, some, ◌≡◌, refl, arith,
  length, any, every, string_eq, nat_eq, eq_lem, if◌then◌else◌, ◌==◌, Option-cases,
}
use agentmeld.Data.{State, Task, Conversation, busy}
use agentmeld.Events.{record_event}
use agentmeld.Prelude.Fields.{Field, missing, other, given}
use agentmeld.Store.{Change, Refusal}
use agentmeld.Store.Admit.{conversation_of}
use agentmeld.Store.Update.{
  edit, changed, raises, working, set_flag, update_known, update_named, update_conversation,
}
use agentmeld.Store.Recover.{
  begun, interrupt, make_unavailable, recover_tasks, recover_conversations, recover,
}
use agentmeld.Store.Invariant.{IsStore, at_home, count_key, conversation_of-edit}

-- The state that an operation leaves, when a refusal leaves it alone.
unfoldable pub after : State → Refusal ⊎ State → State
after s (inl r) = s
after s (inr s') = s'

at_home-changed :
    (id : String) (d : Change) (cs : List Conversation) (t : Task)
    → ((t.conversation_id == id) && busy t.status && raises d.archived) ≡ false
    → at_home cs t ≡ true
    → at_home (edit id (changed d) cs) t ≡ true
unfolding at_home changed raises set_flag
at_home-changed id d cs t h e = ground (
  arith,
  conversation_of-edit id t.conversation_id (changed d) cs (λ c. refl),
  eq_lem t.conversation_id id,
  eq_lem id t.conversation_id,
)

homes-changed :
    (id : String) (d : Change) (cs : List Conversation) (ts : List Task)
    → (raises d.archived && working id ts) ≡ false
    → every (at_home cs) ts ≡ true
    → every (at_home (edit id (changed d) cs)) ts ≡ true
unfolding every working any
homes-changed id d cs [] h e = refl
homes-changed id d cs (t ∷ ts) h e =
    ground (arith, homes-changed id d cs ts, at_home-changed id d cs t)

update_known-IsStore :
    (id : String) (d : Change) (c : Conversation) (s : State)
    → IsStore s
    → IsStore (after s (update_known id d c s))
unfolding update_known after
update_known-IsStore id d c s i = ground (arith, homes-changed id d s.conversations s.tasks)

update_named-IsStore :
    (id : Field String) (d : Change) (s : State)
    → IsStore s
    → IsStore (after s (update_named id d s))
unfolding update_named after
update_named-IsStore (given id) d s i = elim (Option-cases (conversation_of id s.conversations)) [
  | inl e ↦ ground arith
  | inr (c, e) ↦ ground (arith, update_known-IsStore id d c s i)
]
update_named-IsStore missing d s i = i
update_named-IsStore other d s i = i

pub update_conversation-IsStore :
    (change : Option Change) (s : State)
    → IsStore s
    → IsStore (after s (update_conversation change s))
unfolding update_conversation after
update_conversation-IsStore none s i = i
update_conversation-IsStore (some d) s i = update_named-IsStore d.id d s i

at_home-interrupted :
    (now : ℕ) (cs : List Conversation) (t : Task)
    → at_home cs t ≡ true
    → at_home cs (if begun t.status then interrupt now t else t) ≡ true
unfolding at_home interrupt record_event
at_home-interrupted now cs t h = ground arith

at_home-unavailable :
    (id : String) (cs : List Conversation) (t : Task)
    → at_home cs t ≡ true
    → at_home (edit id make_unavailable cs) t ≡ true
unfolding at_home make_unavailable
at_home-unavailable id cs t h =
    ground (arith, conversation_of-edit id t.conversation_id make_unavailable cs (λ c. refl))

at_home-recovered :
    (t : Task) (ts : List Task) (cs : List Conversation)
    → at_home cs t ≡ true
    → at_home (recover_conversations ts cs) t ≡ true
unfolding recover_conversations
at_home-recovered t [] cs h = h
at_home-recovered t (u ∷ ts) cs h =
    elim (begun u.status)
      as (λ b.
        at_home
          (recover_conversations ts (if b then edit u.conversation_id make_unavailable cs else cs))
          t
        ≡ true) [
          | true ↦ at_home-recovered t ts _ (at_home-unavailable u.conversation_id cs t h)
          | false ↦ at_home-recovered t ts cs h
        ]

length-recover_tasks : (now : ℕ) (ts : List Task) → length (recover_tasks now ts) ≡ length ts
unfolding recover_tasks
length-recover_tasks now [] = refl
length-recover_tasks now (t ∷ ts) = omega (arith, length-recover_tasks now ts)

count_key-recover_tasks :
    (now : ℕ) (k : String) (ts : List Task) → count_key k (recover_tasks now ts) ≡ count_key k ts
unfolding recover_tasks count_key interrupt record_event
count_key-recover_tasks now k [] = refl
count_key-recover_tasks now k (t ∷ ts) = ground (arith, count_key-recover_tasks now k ts)

homes-recovered :
    (now : ℕ) (cs ds : List Conversation) (ts : List Task)
    → ((t : Task) → at_home cs t ≡ true → at_home ds t ≡ true)
    → every (at_home cs) ts ≡ true
    → every (at_home ds) (recover_tasks now ts) ≡ true
unfolding every recover_tasks
homes-recovered now cs ds [] keep e = refl
homes-recovered now cs ds (t ∷ ts) keep e =
    ground (arith, homes-recovered now cs ds ts keep, keep t, at_home-interrupted now ds t)

pub recover-IsStore : (now : ℕ) (s : State) → IsStore s → IsStore (recover now s)
unfolding recover
recover-IsStore now s i = record {
  bounded = omega (arith, length-recover_tasks now s.tasks, i.bounded);
  homes =
      homes-recovered now s.conversations (recover now s).conversations s.tasks
        (λ t. at_home-recovered t s.tasks s.conversations) i.homes;
  keys = λ k. omega (arith, count_key-recover_tasks now k s.tasks, i.keys k);
}

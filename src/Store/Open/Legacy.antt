-- ===== src/Store/Open/Legacy.antt =====
-- What a store without a version becomes: history that no turn continues.
use agentmeld.Prelude.{
  ℕ, String, Bool, true, false, not, List, [], ◌∷◌, inl, inr, none, some, ◌≡◌, refl, arith, map,
  every, find, if◌then◌else◌, if_elim, string_eq, eq_self, Option-cases,
}
use agentmeld.Prelude.Fields.{missing}
use agentmeld.Data.{Task, Conversation}
use agentmeld.Events.{record_event}
use agentmeld.Store.Admit.{conversation_of, is_ready}
use agentmeld.Store.Update.{edit}
use agentmeld.Store.Recover.{
  begun, interrupt, make_unavailable, recover_tasks, recover_conversations, recover,
}
use agentmeld.Store.Invariant.{conversation_of-edit}
use agentmeld.Store.Open.{
  StoredState, stored, Opened, migrated_task, migrated_conversation, migrate, open_tasks,
  open_store,
}

-- The task's conversation is stored, and takes no further message.
unfoldable pub is_history : List Conversation → Task → Bool
unfolding conversation_of is_ready
is_history cs t = elim (conversation_of t.conversation_id cs) [
  | none ↦ false
  | some c ↦ not (is_ready c.continuation)
]

edit-is_history :
    (id : String) (cs : List Conversation) (t : Task)
    → is_history cs t ≡ true
    → is_history (edit id make_unavailable cs) t ≡ true
unfolding is_history make_unavailable is_ready
edit-is_history id cs t h =
    let e = conversation_of-edit id t.conversation_id make_unavailable cs (λ c. refl) in
    elim (Option-cases (conversation_of t.conversation_id cs)) [
      | inl n ↦ absurd (ground (arith, h, n))
      | inr (c, n) ↦ ground (arith, h, n, e)
    ]

recover_conversations-is_history :
    (ts : List Task) (cs : List Conversation) (t : Task)
    → is_history cs t ≡ true
    → is_history (recover_conversations ts cs) t ≡ true
unfolding recover_conversations
recover_conversations-is_history [] cs t h = h
recover_conversations-is_history (u ∷ ts) cs t h =
    recover_conversations-is_history ts
      (if begun u.status then edit u.conversation_id make_unavailable cs else cs) t
      (if_elim (λ (ds : List Conversation). is_history ds t ≡ true) (begun u.status) _ _
        (λ b. edit-is_history u.conversation_id cs t h) (λ b. h))

-- The restart leaves the conversation of a task.
recovered-is_history :
    (now : ℕ) (cs : List Conversation) (t : Task)
    → is_history cs t ≡ true
    → is_history cs (if begun t.status then interrupt now t else t) ≡ true
unfolding is_history interrupt record_event
recovered-is_history now cs t h = ground (arith, h)

every_recovered :
    (now : ℕ) (cs : List Conversation) (ts : List Task)
    → every (is_history cs) ts ≡ true
    → every (is_history cs) (recover_tasks now ts) ≡ true
unfolding every recover_tasks
every_recovered now cs [] h = refl
every_recovered now cs (t ∷ ts) h =
    ground (arith, h, recovered-is_history now cs t, every_recovered now cs ts)

every_kept :
    (all : List Task) (cs : List Conversation) (ts : List Task)
    → every (is_history cs) ts ≡ true
    → every (is_history (recover_conversations all cs)) ts ≡ true
unfolding every
every_kept all cs [] h = refl
every_kept all cs (t ∷ ts) h =
    ground (arith, h, recover_conversations-is_history all cs t, every_kept all cs ts)

-- One more conversation of the migration hides none.
migrated-is_history :
    (u : Task) (us : List Task) (t : Task)
    → is_history (map migrated_conversation us) t ≡ true
    → is_history (map migrated_conversation (u ∷ us)) t ≡ true
unfolding is_history conversation_of find migrated_conversation is_ready
migrated-is_history u us t h = ground (arith, h)

every_more :
    (u : Task) (us ts : List Task)
    → every (is_history (map migrated_conversation us)) ts ≡ true
    → every (is_history (map migrated_conversation (u ∷ us))) ts ≡ true
unfolding every
every_more u us [] h = refl
every_more u us (t ∷ ts) h = ground (arith, h, migrated-is_history u us t, every_more u us ts)

own-is_history :
    (u : Task) (us : List Task)
    → is_history (map migrated_conversation (u ∷ us)) (migrated_task u) ≡ true
unfolding is_history conversation_of find migrated_conversation migrated_task is_ready
own-is_history u us = ground (arith, eq_self u.id)

every_migrated :
    (ts : List Task)
    → every (is_history (map migrated_conversation ts)) (map migrated_task ts) ≡ true
unfolding every
every_migrated [] = refl
every_migrated (t ∷ ts) =
    ground (arith, own-is_history t ts, every_more t ts (map migrated_task ts) (every_migrated ts))

-- A store without a version is opened only after its original was written to a backup; then each task's conversation
-- is stored and takes no further message, so that no session from before the migration is resumed.
pub open_store-is_history :
    (now : ℕ) (written : Bool) (s : StoredState) (o : Opened)
    → s.version ≡ missing
    → open_store now written (stored s) ≡ inr o
    → (written ≡ true)
      × (o.backup ≡ true)
      × (every (is_history o.state.conversations) o.state.tasks ≡ true)
unfolding open_store open_tasks migrate recover
open_store-is_history now written s o v e = elim (Option-cases s.tasks) [
  | inl n ↦ absurd (ground (arith, v, e, n))
  | inr (ts, n) ↦
      let cs = recover_conversations (map migrated_task ts) (map migrated_conversation ts) in
      let kept = every_recovered now cs (map migrated_task ts) (
        every_kept (map migrated_task ts) (map migrated_conversation ts) (map migrated_task ts)
          (every_migrated ts)) in
      (ground (arith, v, e, n), ground (arith, v, e, n), ground (arith, v, e, n, kept))
]

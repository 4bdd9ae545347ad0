-- ===== src/Store/Recover/Interrupted.antt =====
-- What a restart of apps/poc/conversations.mjs guarantees of the turns that it finds begun.
use agentmeld.Prelude.{
  ℕ, String, Bool, true, not, ◌&&◌, List, [], ◌∷◌, some, ◌≡◌, refl, arith, any, every, string_eq,
  eq_lem, ◌==◌, if_elim, Bool-cases, inl, inr, subst,
}
use agentmeld.Data.{State, Task, Conversation, unavailable}
use agentmeld.Store.Admit.{conversation_of}
use agentmeld.Store.Update.{edit}
use agentmeld.Store.Recover.{
  begun, interrupt, make_unavailable, recover_tasks, recover_conversations, recover,
}
use agentmeld.Store.Invariant.{conversation_of-edit}

-- The conversation that the id finds, if any, is unavailable.
abbrev pub IsCut : String → List Conversation → Type 0
IsCut id cs = (c : Conversation) → conversation_of id cs ≡ some c → c.continuation ≡ unavailable

abbrev pub idle : Task → Bool
idle t = not (begun t.status)

-- A turn of the conversation had begun.
unfoldable pub began : String → List Task → Bool
unfolding begun
began id ts = any (λ (t : Task). t.conversation_id == id && begun t.status) ts

pub record Interrupted (now : ℕ) (s : State) : Type 0 where
  pub ended : every idle (recover now s).tasks ≡ true
  pub cut : (id : String) → began id s.tasks ≡ true → IsCut id (recover now s).conversations
  pub fixed : (later : ℕ) → recover later (recover now s) ≡ recover now s

edit-IsCut :
    (id j : String) (cs : List Conversation) → IsCut id cs → IsCut id (edit j make_unavailable cs)
unfolding make_unavailable
edit-IsCut id j cs h c e =
    ground (arith, conversation_of-edit j id make_unavailable cs (λ c. refl), h c)

edit_self-IsCut : (id : String) (cs : List Conversation) → IsCut id (edit id make_unavailable cs)
unfolding make_unavailable
edit_self-IsCut id cs c e =
    ground (arith, conversation_of-edit id id make_unavailable cs (λ c. refl), eq_lem id id)

recovered-IsCut :
    (id : String) (ts : List Task) (cs : List Conversation)
    → IsCut id cs
    → IsCut id (recover_conversations ts cs)
unfolding recover_conversations
recovered-IsCut id [] cs h = h
recovered-IsCut id (t ∷ ts) cs h =
    recovered-IsCut id ts _
      (if_elim (IsCut id) (begun t.status) _ _ (λ e. edit-IsCut id t.conversation_id cs h) (λ e. h))

began-IsCut :
    (id : String) (ts : List Task) (cs : List Conversation)
    → began id ts ≡ true
    → IsCut id (recover_conversations ts cs)
unfolding recover_conversations began any
began-IsCut id [] cs h = cc
began-IsCut id (t ∷ ts) cs h = elim (Bool-cases (t.conversation_id == id && begun t.status)) [
  | inl e ↦ recovered-IsCut id ts _ (
      if_elim (IsCut id) (begun t.status) _ _
        (λ b.
          subst (λ j. IsCut id (edit j make_unavailable cs))
            (ground (arith, eq_lem t.conversation_id id)) (edit_self-IsCut id cs))
        (λ b. absurd (ground arith)))
  | inr e ↦ began-IsCut id ts _ (ground arith)
]

recover_tasks-idle : (now : ℕ) (ts : List Task) → every idle (recover_tasks now ts) ≡ true
unfolding recover_tasks every begun interrupt
recover_tasks-idle now [] = refl
recover_tasks-idle now (t ∷ ts) = ground (arith, recover_tasks-idle now ts)

recover_tasks_idle : (now : ℕ) (ts : List Task) → every idle ts ≡ true → recover_tasks now ts ≡ ts
unfolding recover_tasks every
recover_tasks_idle now [] h = refl
recover_tasks_idle now (t ∷ ts) h = ground (arith, recover_tasks_idle now ts)

recover_conversations_idle :
    (ts : List Task) (cs : List Conversation)
    → every idle ts ≡ true
    → recover_conversations ts cs ≡ cs
unfolding recover_conversations every
recover_conversations_idle [] cs h = refl
recover_conversations_idle (t ∷ ts) cs h = ground (arith, recover_conversations_idle ts cs)

-- After a restart no task is running or being cancelled; the conversation of every task that had begun,
-- if it is stored, is unavailable; and a second restart changes nothing.
pub recover-Interrupted : (now : ℕ) (s : State) → Interrupted now s
unfolding recover
recover-Interrupted now s = record {
  ended = recover_tasks-idle now s.tasks;
  cut = λ id h. began-IsCut id s.tasks s.conversations h;
  fixed = λ later. ground (
    arith,
    recover_tasks_idle later (recover now s).tasks (recover_tasks-idle now s.tasks),
    recover_conversations_idle (recover now s).tasks (recover now s).conversations
        (recover_tasks-idle now s.tasks),
  );
}

-- ===== src/Store/Invariant/Calls.antt =====
-- Any sequence of admissions, changes and restarts of the store of apps/poc/conversations.mjs.
use agentmeld.Prelude.{ℕ, List, [], ◌∷◌, Option, none, ◌≡◌}
use agentmeld.Data.{State}
use agentmeld.Store.{Request, Outside, Change}
use agentmeld.Store.Admit.{conversation_of, admit}
use agentmeld.Store.Update.{update_conversation}
use agentmeld.Store.Recover.{recover}
use agentmeld.Store.Invariant.{IsStore}
use agentmeld.Store.Invariant.Admission.{admit-IsStore}
use agentmeld.Store.Invariant.Changes.{after, update_conversation-IsStore, recover-IsStore}

pub data StoreCall : Type 0 where
  admits : Outside → Option Request → StoreCall
  updates : Option Change → StoreCall
  restarts : ℕ → StoreCall

unfoldable pub store_call : StoreCall → State → State
unfolding admit after update_conversation recover
store_call (admits out q) s = (admit out q s).state
store_call (updates d) s = after s (update_conversation d s)
store_call (restarts now) s = recover now s

unfoldable pub store_calls : List StoreCall → State → State
unfolding store_call
store_calls [] s = s
store_calls (c ∷ cs) s = store_calls cs (store_call c s)

-- The random id that an admission takes names no conversation.
abbrev pub IsFreshCall : StoreCall → State → Type 0
IsFreshCall (admits out q) s = conversation_of out.conversation_id s.conversations ≡ none
IsFreshCall (updates d) s = Unit
IsFreshCall (restarts now) s = Unit

abbrev pub IsFreshRun : List StoreCall → State → Type 0
IsFreshRun [] s = Unit
IsFreshRun (c ∷ cs) s = IsFreshCall c s × IsFreshRun cs (store_call c s)

store_call-IsStore :
    (c : StoreCall) (s : State) → IsFreshCall c s → IsStore s → IsStore (store_call c s)
unfolding store_call
store_call-IsStore (admits out q) s f i = admit-IsStore out q s f i
store_call-IsStore (updates d) s f i = update_conversation-IsStore d s i
store_call-IsStore (restarts now) s f i = recover-IsStore now s i

-- If the random ids of new conversations are fresh, any admissions, changes and restarts keep the
-- store's invariant: at most 30 tasks, no request key used twice, and the conversation of every task
-- stored, and not archived while the task is queued, running or being cancelled.
pub store_calls-IsStore :
    (cs : List StoreCall) (s : State) → IsFreshRun cs s → IsStore s → IsStore (store_calls cs s)
unfolding store_calls
store_calls-IsStore [] s f i = i
store_calls-IsStore (c ∷ cs) s f i =
    store_calls-IsStore cs (store_call c s) f.1 (store_call-IsStore c s f.0 i)

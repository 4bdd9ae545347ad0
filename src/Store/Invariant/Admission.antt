-- ===== src/Store/Invariant/Admission.antt =====
-- admit keeps the store's invariant.
use agentmeld.Prelude.{
  ◌<◌, String, true, false, List, [], ◌∷◌, ◌++◌, ◌⊎◌, inl, inr, Option, none, some, ◌≡◌, refl,
  arith, length, length-append, every, find, string_eq, nat_eq, eq_lem, leb, if_elim, eq_self, sym,
  subst, Option-cases,
}
use agentmeld.Data.{State, Task, Conversation}
use agentmeld.Store.{Request, Checked, Outside, Answered, Refusal}
use agentmeld.Store.Check.{check}
use agentmeld.Store.Admit.{
  conversation_of, task_of_key, addressed, blocked, new_conversation, new_task, enter, admit_new,
  admit_checked, admit, admit_parsed, admit_addressed, admit_first, admit_into,
}
use agentmeld.Store.Invariant.{
  IsStore, at_home, conversation_of-append, every-append, every_imp, count_key-append,
  count_key-none,
}

pub conversation_of-id :
    (id : String) (cs : List Conversation) (c : Conversation)
    → conversation_of id cs ≡ some c
    → c.id ≡ id
unfolding conversation_of find
conversation_of-id id [] c h = cc
conversation_of-id id (d ∷ cs) c h = ground (arith, conversation_of-id id cs c, eq_lem d.id id)

blocked-archived :
    (c : Conversation) (ts : List Task) (q : Checked)
    → blocked c ts q.files ≡ none
    → c.archived ≡ false
unfolding blocked
blocked-archived c ts q h = ground arith

enter-IsStore :
    (out : Outside) (q : Checked) (c : Conversation) (cs : List Conversation) (s : State)
    → IsStore s
    → length s.tasks < 30
    → task_of_key q.request_key s.tasks ≡ none
    → every (at_home cs) s.tasks ≡ true
    → conversation_of c.id cs ≡ some c
    → c.archived ≡ false
    → IsStore (enter out q c cs s).state
unfolding enter new_task at_home every
enter-IsStore out q c cs s i few fresh homes found shown = record {
  bounded = omega (arith, length-append s.tasks (new_task out q c ∷ []));
  homes = ground (arith, every-append (at_home cs) s.tasks (new_task out q c ∷ []));
  keys = λ k. ground (
    arith,
    count_key-append k s.tasks (new_task out q c),
    i.keys k,
    count_key-none k s.tasks,
    eq_lem q.request_key k,
  );
}

at_home-append :
    (c : Conversation) (cs : List Conversation) (t : Task)
    → at_home cs t ≡ true
    → at_home (cs ++ c ∷ []) t ≡ true
unfolding at_home
at_home-append c cs t h = ground (arith, conversation_of-append t.conversation_id cs c)

addressed_self :
    (o : Option String) (cs : List Conversation) (c : Conversation)
    → addressed o cs ≡ some c
    → conversation_of c.id cs ≡ some c
unfolding addressed
addressed_self none cs c h = cc
addressed_self (some id) cs c h =
    subst (λ j. conversation_of j cs ≡ some c) (sym (conversation_of-id id cs c h)) h

begin-IsStore :
    (out : Outside) (q : Checked) (s : State)
    → IsStore s
    → length s.tasks < 30
    → task_of_key q.request_key s.tasks ≡ none
    → conversation_of out.conversation_id s.conversations ≡ none
    → IsStore
        (enter out q
          (new_conversation out q)
          (s.conversations ++ new_conversation out q ∷ [])
          s).state
unfolding new_conversation
begin-IsStore out q s i few fresh fresh_id =
    enter-IsStore out q c (s.conversations ++ c ∷ []) s i few fresh
      (every_imp (at_home s.conversations) (at_home (s.conversations ++ c ∷ [])) s.tasks
        (at_home-append c s.conversations) i.homes)
      (ground (arith, conversation_of-append out.conversation_id s.conversations c, eq_self c.id))
      refl
  where
    c : Conversation
    c = new_conversation out q

admit_addressed-IsStore :
    (out : Outside) (q : Checked) (s : State) (o : Option Conversation)
    → addressed q.conversation_id s.conversations ≡ o
    → conversation_of out.conversation_id s.conversations ≡ none
    → task_of_key q.request_key s.tasks ≡ none
    → length s.tasks < 30
    → IsStore s
    → IsStore (admit_addressed out q s o).state
unfolding admit_addressed admit_first admit_into
admit_addressed-IsStore out q s none e fresh_id fresh few i =
    ground (arith, begin-IsStore out q s i few fresh fresh_id)
admit_addressed-IsStore out q s (some c) e fresh_id fresh few i =
    elim (Option-cases (blocked c s.tasks q.files)) [
      | inl b ↦ ground (
        arith,
        enter-IsStore out q c s.conversations s i few fresh i.homes
            (addressed_self q.conversation_id s.conversations c e) (blocked-archived c s.tasks q b),
      )
      | inr (r, b) ↦ ground arith
    ]

admit_new-IsStore :
    (out : Outside) (q : Checked) (s : State)
    → conversation_of out.conversation_id s.conversations ≡ none
    → task_of_key q.request_key s.tasks ≡ none
    → IsStore s
    → IsStore (admit_new out q s).state
unfolding admit_new
admit_new-IsStore out q s fresh_id fresh i =
    if_elim (λ (a : Answered). IsStore a.state) (leb 30 (length s.tasks)) _ _ (λ e. i)
      (λ e. admit_addressed-IsStore out q s _ refl fresh_id fresh (ground arith) i)

admit_checked-IsStore :
    (out : Outside) (q : Checked) (s : State)
    → conversation_of out.conversation_id s.conversations ≡ none
    → IsStore s
    → IsStore (admit_checked out q s).state
unfolding admit_checked
admit_checked-IsStore out q s fresh i = ground (arith, admit_new-IsStore out q s fresh)

admit_parsed-IsStore :
    (out : Outside) (r : Refusal ⊎ Checked) (s : State)
    → conversation_of out.conversation_id s.conversations ≡ none
    → IsStore s
    → IsStore (admit_parsed out r s).state
unfolding admit_parsed
admit_parsed-IsStore out (inl r) s fresh i = i
admit_parsed-IsStore out (inr q) s fresh i = admit_checked-IsStore out q s fresh i

pub admit-IsStore :
    (out : Outside) (request : Option Request) (s : State)
    → conversation_of out.conversation_id s.conversations ≡ none
    → IsStore s
    → IsStore (admit out request s).state
unfolding admit
admit-IsStore out request s fresh i = admit_parsed-IsStore out (check request) s fresh i

-- ===== src/Examples/Stores.antt =====
-- The store of apps/poc/conversations.mjs with concrete requests.
use agentmeld.Prelude.{
  true, false, none, some, List, [], ◌∷◌, ◌≡◌, refl, Option, arith, every, any, find, string_eq,
  nat_eq, map, length, String, ℕ,
}
use agentmeld.Data.{State, Task, Status, Kind}
use agentmeld.Prelude.Fields.{missing, given}
use agentmeld.Store.{Request, Outside, Change, Answer, accepted, refused, Attachment}
use agentmeld.Store.Admit.{admit}
use agentmeld.Store.Check.{refusal}
use agentmeld.Store.Recover.Interrupted.{Interrupted, recover-Interrupted}
use agentmeld.Store.Invariant.{IsStore, count_key}
use agentmeld.Store.Invariant.Calls.{
  StoreCall, admits, updates, restarts, store_calls, store_calls-IsStore,
}
use agentmeld.Store.Retry.{admit_again}
use agentmeld.Prelude.Text.{codes, trim}
use agentmeld.Store.Names.{safe_name}
use agentmeld.Examples.Turns.{task, chat}

abbrev key : String
key = "0123456789abcdef-0123456789abcdef-01"

abbrev report : Attachment
report = record {
  name = given "report 1.csv";
  content = given (b'a' ∷ b'b' ∷ []);
  extra_keys = false;
}

abbrev request : Request
request = record {
  prompt = given (codes "  sum it up ");
  request_key = given key;
  conversation_id = missing;
  files = given (report ∷ []);
}

abbrev outside : ℕ → String → String → Outside
outside now t c = record { now = now; task_id = t; conversation_id = c; digest = λ c p fs. "d" }

abbrev empty : State
empty = record { tasks = []; conversations = [] }

abbrev admitted_title : Answer → List ℕ
admitted_title (accepted t d) = t.prompt
admitted_title (refused r) = []

admit_trims :
    admitted_title (admit (outside 1 "t1" "c1") (some request) empty).answer ≡ codes "sum it up"
unfolding admit agentmeld.Prelude.Text.blank trim agentmeld.Prelude.list_beq
    agentmeld.Store.Names.valid_key every safe_name agentmeld.Prelude.contains find any
admit_trims = refl

safe_names : map safe_name ("a.txt" ∷ ".." ∷ "-a" ∷ "a/b" ∷ []) ≡ true ∷ false ∷ false ∷ false ∷ []
unfolding safe_name every
safe_names = refl

-- One file twice is refused.
admit_twice_named :
    (admit
      (outside 1 "t1" "c1")
      (some (record request { files = given (report ∷ report ∷ []) }))
      empty).answer
    ≡ refused (refusal "Use unique, safe filenames and valid file data." 400)
unfolding admit agentmeld.Prelude.Text.blank trim agentmeld.Prelude.list_beq
    agentmeld.Store.Names.valid_key every safe_name agentmeld.Prelude.contains
admit_twice_named = refl

abbrev archive : Change
archive = record {
  id = given "c1";
  extra_keys = false;
  title = missing;
  pinned = missing;
  archived = given true;
}

abbrev script : List StoreCall
script =
    admits (outside 1 "t1" "c1") (some request)
    ∷ updates (some archive)
    ∷ restarts 5
    ∷ updates none
    ∷ []

empty-IsStore : IsStore empty
unfolding every count_key
empty-IsStore = record { bounded = omega arith; homes = refl; keys = λ k. omega arith }

store_calls-IsStore_example : IsStore (store_calls script empty)
unfolding agentmeld.Store.Admit.conversation_of find
store_calls-IsStore_example =
    store_calls-IsStore script empty (refl, (tt, (tt, (tt, tt)))) empty-IsStore

abbrev entered : Task
entered = record task {
  request_key = key;
  request_digest = "d";
  prompt = codes "sum it up";
  inputs = record { name = "report 1.csv"; content = b'a' ∷ b'b' ∷ [] } ∷ [];
  status = Status.queued;
  activity = "Queued";
  events = record { id = ("t1", Kind.queued); kind = Kind.queued; at = 1 } ∷ [];
}

admit_again_example :
    admit
      (outside 2 "t2" "c2")
      (some request)
      (admit (outside 1 "t1" "c1") (some request) empty).state
    ≡ record {
      state = (admit (outside 1 "t1" "c1") (some request) empty).state;
      answer = accepted entered true;
    }
unfolding admit agentmeld.Prelude.Text.blank trim agentmeld.Prelude.list_beq
    agentmeld.Store.Names.valid_key every safe_name agentmeld.Prelude.contains find any
admit_again_example =
    admit_again (outside 1 "t1" "c1") (outside 2 "t2" "c2") (some request) empty entered
      (record { same_digest = refl }) refl

recover-Interrupted_example :
    Interrupted 9 (record { tasks = task ∷ []; conversations = chat ∷ [] })
recover-Interrupted_example =
    recover-Interrupted 9 (record { tasks = task ∷ []; conversations = chat ∷ [] })

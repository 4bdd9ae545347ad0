-- ===== src/Examples/Openings.antt =====
-- The opening and the saves of the store of apps/poc/conversations.mjs on concrete files.
use agentmeld.Prelude.{ℕ, true, false, none, some, List, [], ◌∷◌, ◌++◌, ◌≡◌, refl, every, inr}
use agentmeld.Prelude.Fields.{missing}
use agentmeld.Data.{Task, Status}
use agentmeld.Store.Open.{StoredState, stored, Opened, open_store, migrate}
use agentmeld.Store.Open.Legacy.{is_history, open_store-is_history}
use agentmeld.Store.Recover.{recover}
use agentmeld.Store.Saving.{SaverEvent, saves, writes, renames, saver_events, new_saver}
use agentmeld.Store.Saving.Durable.{saver_events-durable}
use agentmeld.Store.Saving.Settled.{last_saved, snapshots, taken, any_failed}
use agentmeld.Examples.Turns.{task}

abbrev old_tasks : List Task
old_tasks =
    record task { status = Status.completed }
    ∷ record task { id = "t2"; status = Status.running }
    ∷ []

abbrev old_store : StoredState
old_store = record { version = missing; tasks = some old_tasks; conversations = none }

abbrev opened : Opened
opened = record { state = recover 9 (migrate old_tasks); backup = true }

opens : open_store 9 true (stored old_store) ≡ inr opened
unfolding open_store
opens = refl

open_store-is_history_example :
    (true ≡ true)
    × (opened.backup ≡ true)
    × (every (is_history opened.state.conversations) opened.state.tasks ≡ true)
unfolding open_store
open_store-is_history_example = open_store-is_history 9 true old_store opened refl refl

-- Three saves, of which the second fails while the third waits, and a fourth after that.
abbrev script : List (SaverEvent ℕ)
script =
    saves 1
    ∷ writes true
    ∷ saves 2
    ∷ renames true
    ∷ saves 3
    ∷ writes false
    ∷ saves 4
    ∷ writes true
    ∷ renames true
    ∷ []

saver_events-durable_example :
    let s = saver_events script (new_saver (some 0)) in
    (s.disk ≡ last_saved (some 0) s.settled)
    × (snapshots s.settled ++ s.queue ≡ taken script (new_saver (some 0)))
    × (s.failed ≡ any_failed s.settled)
saver_events-durable_example = saver_events-durable script (some 0)

script_settled :
    (saver_events script (new_saver (some 0))).settled ≡ (1, true) ∷ (2, false) ∷ (3, true) ∷ []
unfolding saver_events
script_settled = refl

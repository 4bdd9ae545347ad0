-- ===== src/Store/Open.antt =====
-- openStore of apps/poc/conversations.mjs up to its first save: reading, the migration of a store without a
-- version, and the restart.
pub mod Legacy
use agentmeld.Prelude.{
  ℕ, String, Bool, true, false, List, [], ◌∷◌, ◌⊎◌, inl, inr, Option, none, some, map,
  if◌then◌else◌, ◌==◌, nat_eq,
}
use agentmeld.Prelude.Fields.{Field, missing, other, given}
use agentmeld.Data.{State, Task, Conversation, legacy}
use agentmeld.Store.Recover.{recover}

-- The value in state.json; a list that is no array is `none`.
pub record StoredState : Type 0 where
  pub version : Field ℕ
  pub tasks : Option (List Task)
  pub conversations : Option (List Conversation)

-- state.json: there is none, it cannot be read or parsed, or it holds a value.
pub data StateFile : Type 0 where
  no_file unreadable : StateFile
  stored : StoredState → StateFile

-- The state, and whether a backup of the original was written.
pub record Opened : Type 0 where
  pub state : State
  pub backup : Bool

unfoldable pub migrated_task : Task → Task
migrated_task t = record t { conversation_id = t.id }

unfoldable pub migrated_conversation : Task → Conversation
migrated_conversation t = record {
  id = t.id;
  title = t.prompt;
  created_at = t.created_at;
  session = none;
  workspace = [];
  captured_at = none;
  continuation = legacy;
  pinned = false;
  archived = false;
}

unfoldable pub migrate : List Task → State
unfolding migrated_task migrated_conversation
migrate ts = record { tasks = map migrated_task ts; conversations = map migrated_conversation ts }

-- Version 2, with both arrays.
unfoldable pub open_current : ℕ → List Task → Option (List Conversation) → String ⊎ Opened
unfolding recover
open_current now ts none = inl "Invalid conversation store"
open_current now ts (some cs) =
    inr (record { state = recover now (record { tasks = ts; conversations = cs }); backup = false })

-- `written` says whether the backup could be written.
unfoldable pub open_tasks : ℕ → Bool → StoredState → List Task → String ⊎ Opened
unfolding open_current migrate recover
open_tasks now written s ts =
    let migrated =
      if written
      then inr (record { state = recover now (migrate ts); backup = true })
      else inl "backup failed" in
    elim s.version [
      | missing ↦ migrated
      | other ↦ inl "Unsupported store version"
      | given v ↦
          if v == 2 then open_current now ts s.conversations else inl "Unsupported store version"
    ]

unfoldable pub open_store : ℕ → Bool → StateFile → String ⊎ Opened
unfolding open_tasks recover
open_store now written no_file =
    inr (record { state = recover now (record { tasks = []; conversations = [] }); backup = false })
open_store now written unreadable = inl "unreadable"
open_store now written (stored s) = elim s.tasks [
  | none ↦ inl "Invalid task store"
  | some ts ↦ open_tasks now written s ts
]

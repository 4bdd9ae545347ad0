-- ===== src/Store/Update.antt =====
-- updateConversation of apps/poc/conversations.mjs: every test precedes every write.
use agentmeld.Prelude.{
  ℕ, String, Bool, true, false, ◌&&◌, ◌||◌, List, [], ◌∷◌, ◌⊎◌, inl, inr, Option, none, some, leb,
  ltb, length, any, nat_eq, string_eq, if◌then◌else◌, ◌==◌,
}
use agentmeld.Data.{State, Task, Conversation, busy}
use agentmeld.Prelude.Fields.{Field, missing, other, given}
use agentmeld.Store.{Change, Refusal}
use agentmeld.Prelude.Text.{trim, blank}
use agentmeld.Store.Check.{refusal}
use agentmeld.Store.Admit.{conversation_of}

unfoldable pub control : ℕ → Bool
control c = leb c 31

-- typeof data.title!=='string' || ... of a title that is present.
unfoldable pub bad_title : Field (List ℕ) → Bool
unfolding control
bad_title missing = false
bad_title other = true
bad_title (given t) = blank (trim t) || ltb 120 (length (trim t)) || any control t

unfoldable pub bad_flag : Field Bool → Bool
bad_flag missing = false
bad_flag other = true
bad_flag (given b) = false

unfoldable pub raises : Field Bool → Bool
raises (given b) = b
raises _ = false

-- A turn of the conversation that has not ended.
unfoldable pub working : String → List Task → Bool
unfolding busy
working id ts = any (λ (t : Task). t.conversation_id == id && busy t.status) ts

unfoldable pub set_title : Field (List ℕ) → List ℕ → List ℕ
set_title (given t) old = trim t
set_title _ old = old

unfoldable pub set_flag : Field Bool → Bool → Bool
set_flag (given b) old = b
set_flag _ old = old

unfoldable pub changed : Change → Conversation → Conversation
unfolding set_title set_flag
changed d c = record c {
  title = set_title d.title c.title;
  pinned = set_flag d.pinned c.pinned;
  archived = set_flag d.archived c.archived;
}

-- A write to the conversation that `find` gives.
unfoldable pub edit : String → (Conversation → Conversation) → List Conversation → List Conversation
edit id f [] = []
edit id f (c ∷ cs) = let rest = edit id f cs in if c.id == id then f c ∷ cs else c ∷ rest

unfoldable pub update_known : String → Change → Conversation → State → Refusal ⊎ State
unfolding bad_title bad_flag raises working changed edit
update_known id d c s =
    if bad_title d.title
    then inl (refusal "Use a title of 1–120 characters on one line." 400)
    else if bad_flag d.pinned || bad_flag d.archived
    then inl (refusal "Invalid conversation setting." 400)
    else if raises d.archived && working id s.tasks
    then inl (refusal "Wait for this conversation’s work to finish before archiving." 409)
    else inr (record s { conversations = edit id (changed d) s.conversations })

unfoldable pub update_named : Field String → Change → State → Refusal ⊎ State
unfolding update_known conversation_of
update_named (given id) d s =
    if d.extra_keys
    then inl (refusal "Invalid conversation update." 400)
    else elim (conversation_of id s.conversations) [
      | none ↦ inl (refusal "Conversation not found." 404)
      | some c ↦ update_known id d c s
    ]
update_named _ d s = inl (refusal "Invalid conversation update." 400)

-- A body that is not an object, or is an array, has no change.
unfoldable pub update_conversation : Option Change → State → Refusal ⊎ State
unfolding update_named
update_conversation (some d) s = update_named d.id d s
update_conversation none s = inl (refusal "Invalid conversation update." 400)

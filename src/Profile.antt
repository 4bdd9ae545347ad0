-- ===== src/Profile.antt =====
-- apps/poc/profile.mjs: the agent's profile and the owner's updates of it. Texts are lists of UTF-16
-- units; the length of a profile as JSON is given.
pub mod Revisions
use agentmeld.Prelude.{
  ℕ, suc, ◌+◌, String, Bool, true, false, not, ◌&&◌, ◌||◌, List, [], ◌∷◌, ◌++◌, ◌⊎◌, inl, inr,
  Option, none, some, leb, ltb, length, any, select, contains, nat_beq, nat_eq, string_eq,
  if◌then◌else◌, ◌==◌,
}
use agentmeld.Prelude.Text.{trim, blank}
use agentmeld.Data.{Task}
use agentmeld.Prelude.Fields.{Field, missing, other, given}
use agentmeld.Store.{Refusal}
use agentmeld.Store.Check.{refusal, ◌or_refuse◌}

pub record Memory : Type 0 where
  pub id : String
  pub content : List ℕ
  pub source_task_id : Option String
  pub created_at : ℕ

pub record Profile : Type 0 where
  pub revision : ℕ
  pub name : List ℕ
  pub identity : List ℕ
  pub persona : List ℕ
  pub profile : List ℕ
  pub memories : List Memory
  pub updated_at : Option ℕ

-- data.action with the fields that it reads; a request with fields that the action does not have is
-- `unknown_field`, with the name that the refusal gives them.
pub data ProfileAction : Type 0 where
  edits : Field (List ℕ) → Field (List ℕ) → Field (List ℕ) → Field (List ℕ) → ProfileAction
  remembers : Field (List ℕ) → Field String → ProfileAction
  forgets : Field String → ProfileAction
  unknown_field : String → ProfileAction
  unknown_action : ProfileAction

-- A body that is an object; a revision that is no safe integer is not given.
pub record ProfileUpdate : Type 0 where
  pub revision : Field ℕ
  pub action : ProfileAction

-- The time, a random id, and the length of the profile as JSON.
pub record ProfileOutside : Type 0 where
  pub now : ℕ
  pub memory_id : String
  pub json_length : Profile → ℕ

-- text(value,max,label,required)
unfoldable pub text : Field (List ℕ) → ℕ → String → Bool → Refusal ⊎ List ℕ
text (given t) limit message required =
    if ltb limit (length t) || contains 0 t || (required && blank (trim t))
    then inl (refusal message 400)
    else inr (trim t)
text _ limit message required = inl (refusal message 400)

unfoldable pub one_line : List ℕ → Refusal ⊎ List ℕ
one_line name =
    if contains 10 name || contains 13 name
    then inl (refusal "Use a name on one line." 400)
    else inr name

unfoldable pub edit_profile :
    Field (List ℕ) → Field (List ℕ) → Field (List ℕ) → Field (List ℕ) → Profile → Refusal ⊎ Profile
unfolding text one_line
edit_profile name identity persona profile p = text name 80 "Invalid name." true or_refuse λ n.
    one_line n or_refuse λ n. text identity 4000 "Invalid identity." false or_refuse λ i.
    text persona 4000 "Invalid persona." false or_refuse λ q.
    text profile 4000 "Invalid profile." false or_refuse λ r.
    inr (record p { name = n; identity = i; persona = q; profile = r })

-- data.sourceTaskId??null, which names no task unless it is the id of one.
unfoldable pub source_of : Field String → List Task → Refusal ⊎ Option String
source_of missing ts = inr none
source_of other ts = inl (refusal "Source task not found." 404)
source_of (given id) ts =
    if any (λ (t : Task). t.id == id) ts
    then inr (some id)
    else inl (refusal "Source task not found." 404)

unfoldable pub remember_text :
    ProfileOutside → Field (List ℕ) → Field String → List Task → Profile → Refusal ⊎ Profile
unfolding text source_of
remember_text out t source ts p =
    if leb 100 (length p.memories)
    then inl (refusal "Keep up to 100 approved memories." 400)
    else (source_of source ts or_refuse λ s. text t 2000 "Invalid memory." true or_refuse λ c.
        inr (record p {
          memories =
              p.memories
              ++ record {
                id = out.memory_id;
                content = c;
                source_task_id = s;
                created_at = out.now;
              }
                ∷ [];
        }))

unfoldable pub forget_memory : Field String → Profile → Refusal ⊎ Profile
forget_memory (given id) p =
    if any (λ (m : Memory). m.id == id) p.memories
    then inr (record p { memories = select (λ (m : Memory). not (m.id == id)) p.memories })
    else inl (refusal "Memory not found." 404)
forget_memory _ p = inl (refusal "Memory not found." 404)

unfoldable pub apply_action :
    ProfileOutside → ProfileAction → List Task → Profile → Refusal ⊎ Profile
unfolding edit_profile remember_text forget_memory
apply_action out (edits n i q r) ts p = edit_profile n i q r p
apply_action out (remembers t s) ts p = remember_text out t s ts p
apply_action out (forgets id) ts p = forget_memory id p
apply_action out (unknown_field message) ts p = inl (refusal message 400)
apply_action out unknown_action ts p = inl (refusal "Unknown profile action." 400)

-- The cap on the whole profile, and the new revision.
unfoldable pub commit : ProfileOutside → Profile → Refusal ⊎ Profile
commit out next =
    if ltb 24000 (out.json_length next)
    then inl (refusal "Agent context is full. Shorten preferences or remove a memory." 400)
    else inr (record next { revision = suc next.revision; updated_at = some out.now })

unfoldable pub update_at :
    ProfileOutside → Field ℕ → ProfileAction → List Task → Profile → Refusal ⊎ Profile
unfolding apply_action commit
update_at out (given r) action ts prior =
    if nat_beq r prior.revision
    then (apply_action out action ts prior or_refuse λ next. commit out next)
    else inl (refusal "The agent changed elsewhere. Reload before saving." 409)
update_at out _ action ts prior = inl (refusal "A profile revision is required." 400)

-- updateProfile on state.agentProfile; a body that is not an object has no update.
unfoldable pub update_profile :
    ProfileOutside → Option ProfileUpdate → List Task → Profile → Refusal ⊎ Profile
unfolding update_at
update_profile out none ts prior = inl (refusal "A profile revision is required." 400)
update_profile out (some u) ts prior = update_at out u.revision u.action ts prior

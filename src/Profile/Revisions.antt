-- ===== src/Profile/Revisions.antt =====
-- The revisions of apps/poc/profile.mjs: an update is made from the profile that its author saw.
use agentmeld.Prelude.{
  ℕ, suc, ◌≤◌, ◌<◌, String, Bool, true, false, not, List, [], ◌∷◌, ◌++◌, ◌⊎◌, inl, inr, Option,
  some, length, length-append, select, ◌≡◌, refl, arith, nat_beq, if_elim, any, Bool-cases, ap,
  subst, leb, string_eq, ◌==◌,
}
use agentmeld.Data.{Task}
use agentmeld.Prelude.Fields.{Field, missing, other, given}
use agentmeld.Store.{Refusal}
use agentmeld.Store.Check.{refusal, ◌or_refuse◌}
use agentmeld.Profile.{
  Memory, Profile, ProfileAction, ProfileUpdate, ProfileOutside, edits, remembers, forgets,
  unknown_field, unknown_action, text, one_line, edit_profile, source_of, remember_text,
  forget_memory, apply_action, commit, update_at, update_profile,
}

-- The profile that follows an update that was accepted: the next revision, and at most 100 memories.
pub record IsNext (prior next : Profile) : Type 0 where
  pub counted : next.revision ≡ suc prior.revision
  pub bounded : length prior.memories ≤ 100 → length next.memories ≤ 100

-- What an action leaves before the update is counted.
record IsDraft (prior next : Profile) : Type 0 where
  same : next.revision ≡ prior.revision
  few : length prior.memories ≤ 100 → length next.memories ≤ 100

abbrev Drafts : Profile → Refusal ⊎ Profile → Type 0
Drafts p (inl r) = Unit
Drafts p (inr next) = IsDraft p next

length-select : (p : Memory → Bool) (ms : List Memory) → length (select p ms) ≤ length ms
unfolding select
length-select p [] = omega arith
length-select p (m ∷ ms) = ground (arith, length-select p ms)

-- The texts of an edit, each checked or refused.
edited-Drafts :
    (p : Profile) (n y z w : Refusal ⊎ List ℕ)
    → Drafts p (
        n or_refuse λ n. y or_refuse λ i. z or_refuse λ q.
        w or_refuse λ r. inr (record p { name = n; identity = i; persona = q; profile = r }))
edited-Drafts p (inl e) y z w = tt
edited-Drafts p (inr n) (inl e) z w = tt
edited-Drafts p (inr n) (inr i) (inl e) w = tt
edited-Drafts p (inr n) (inr i) (inr q) (inl e) = tt
edited-Drafts p (inr n) (inr i) (inr q) (inr r) = record { same = refl; few = λ h. h }

edit_profile-Drafts :
    (name identity persona profile : Field (List ℕ)) (p : Profile)
    → Drafts p (edit_profile name identity persona profile p)
unfolding edit_profile
edit_profile-Drafts name identity persona profile p = named (text name 80 "Invalid name." true)
  where
    named :
        (x : Refusal ⊎ List ℕ)
        → Drafts p (
            x or_refuse λ n. one_line n or_refuse λ n.
            text identity 4000 "Invalid identity." false or_refuse λ i.
            text persona 4000 "Invalid persona." false or_refuse λ q.
            text profile 4000 "Invalid profile." false or_refuse λ r.
            inr (record p { name = n; identity = i; persona = q; profile = r }))
    named (inl e) = tt
    named (inr n) =
        edited-Drafts p (one_line n) (text identity 4000 "Invalid identity." false)
          (text persona 4000 "Invalid persona." false) (text profile 4000 "Invalid profile." false)

remember_text-Drafts :
    (out : ProfileOutside) (t : Field (List ℕ)) (s : Field String) (ts : List Task) (p : Profile)
    → Drafts p (remember_text out t s ts p)
unfolding remember_text
remember_text-Drafts out t s ts p =
    if_elim (Drafts p) (leb 100 (length p.memories)) _ _ (λ e. tt)
      (λ e. added (ground arith) (source_of s ts) (text t 2000 "Invalid memory." true))
  where
    added :
        length p.memories < 100
        → (x : Refusal ⊎ Option String) (y : Refusal ⊎ List ℕ)
        → Drafts p (
            x or_refuse λ s. y or_refuse λ c. inr (record p {
              memories =
                  p.memories
                  ++ record {
                    id = out.memory_id;
                    content = c;
                    source_task_id = s;
                    created_at = out.now;
                  }
                    ∷ [];
            }))
    added few (inl e) y = tt
    added few (inr s) (inl e) = tt
    added few (inr s) (inr c) = record {
      same = refl;
      few = λ h. omega (
        arith,
        length-append p.memories (
            record { id = out.memory_id; content = c; source_task_id = s; created_at = out.now }
            ∷ []),
      );
    }

forget_memory-Drafts : (id : Field String) (p : Profile) → Drafts p (forget_memory id p)
unfolding forget_memory
forget_memory-Drafts (given id) p =
    if_elim (Drafts p) (any (λ (m : Memory). m.id == id) p.memories) (inr kept)
      (inl (refusal "Memory not found." 404))
      (λ e. record {
        same = refl;
        few = λ h. omega (arith, length-select (λ (m : Memory). not (m.id == id)) p.memories);
      })
      (λ e. tt)
  where
    kept : Profile
    kept = record p { memories = select (λ (m : Memory). not (m.id == id)) p.memories }
forget_memory-Drafts missing p = tt
forget_memory-Drafts other p = tt

apply_action-Drafts :
    (out : ProfileOutside) (a : ProfileAction) (ts : List Task) (p : Profile)
    → Drafts p (apply_action out a ts p)
unfolding apply_action
apply_action-Drafts out (edits n i q r) ts p = edit_profile-Drafts n i q r p
apply_action-Drafts out (remembers t s) ts p = remember_text-Drafts out t s ts p
apply_action-Drafts out (forgets id) ts p = forget_memory-Drafts id p
apply_action-Drafts out (unknown_field m) ts p = tt
apply_action-Drafts out unknown_action ts p = tt

commit-IsNext :
    (out : ProfileOutside) (prior next : Profile) (x : Refusal ⊎ Profile)
    → Drafts prior x
    → (x or_refuse λ d. commit out d) ≡ inr next
    → IsNext prior next
unfolding commit
commit-IsNext out prior next (inl r) d e = cc
commit-IsNext out prior next (inr draft) d e = subst (IsNext prior) (ground arith) (
    let n : IsNext prior
        (record draft { revision = suc draft.revision; updated_at = some out.now }) =
      record { counted = ap suc d.same; bounded = d.few } in
    n)

update_at-IsNext :
    (out : ProfileOutside) (r : Field ℕ) (a : ProfileAction) (ts : List Task) (prior next : Profile)
    → update_at out r a ts prior ≡ inr next
    → (r ≡ given prior.revision) × IsNext prior next
unfolding update_at
update_at-IsNext out missing a ts prior next e = cc
update_at-IsNext out other a ts prior next e = cc
update_at-IsNext out (given r) a ts prior next e = elim (Bool-cases (nat_beq r prior.revision)) [
  | inl b ↦ (
    ap given (ground arith),
    commit-IsNext out prior next (apply_action out a ts prior) (apply_action-Drafts out a ts prior)
        (ground arith),
  )
  | inr b ↦ absurd (ground arith)
]

-- An update that is accepted was made from the revision that it replaces, the new profile has the next
-- revision, and it has at most 100 memories if the old one had.
pub update_profile-IsNext :
    (out : ProfileOutside) (u : ProfileUpdate) (ts : List Task) (prior next : Profile)
    → update_profile out (some u) ts prior ≡ inr next
    → (u.revision ≡ given prior.revision) × IsNext prior next
unfolding update_profile
update_profile-IsNext out u ts prior next e =
    update_at-IsNext out u.revision u.action ts prior next e

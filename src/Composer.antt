-- ===== src/Composer.antt =====
-- apps/poc/public/composer.js: what a person may attach to a message. The display of a size is left out.
pub mod Taken
use agentmeld.Prelude.{
  ℕ, ◌+◌, String, not, List, [], ◌∷◌, ◌++◌, ◌⊎◌, inl, inr, Option, none, some, ltb, length,
  contains, string_eq, if◌then◌else◌,
}
use agentmeld.Store.Names.{safe_name}

-- A chosen file, or one whose base64 text was read; `size` is absent in the second case.
pub record Draft : Type 0 where
  pub name : String
  pub size : Option ℕ
  pub content : List ℕ

-- The errors that validateAttachments throws.
pub data Objection : Type 0 where
  too_many : Objection
  bad_name : Objection
  named_twice : String → Objection
  too_large : Objection
  too_large_together : Objection

-- file.size ?? atob(file.data).length
abbrev pub size_of : Draft → ℕ
size_of f = elim f.size [ none ↦ length f.content | some n ↦ n ]

-- The loop, with the names and the total so far; its regular expression is that of safeName.
unfoldable pub check_drafts : List String → ℕ → List Draft → Objection ⊎ ℕ
unfolding safe_name contains
check_drafts names total [] = inr total
check_drafts names total (f ∷ fs) =
    let rest = check_drafts (names ++ f.name ∷ []) (total + size_of f) fs in
    if not (safe_name f.name)
    then inl bad_name
    else if contains f.name names
    then inl (named_twice f.name)
    else if ltb 2097152 (size_of f)
    then inl too_large
    else rest

-- The objection, if there is one.
unfoldable pub validate_attachments : List Draft → List Draft → Option Objection
unfolding check_drafts
validate_attachments existing incoming =
    if ltb 5 (length (existing ++ incoming))
    then some too_many
    else elim (check_drafts [] 0 (existing ++ incoming)) [
      | inl o ↦ some o
      | inr total ↦ if ltb 5242880 total then some too_large_together else none
    ]

-- ===== src/Store/Check.antt =====
-- The checks of a message that admit makes before it reads the state.
use agentmeld.Prelude.{
  ℕ, String, not, ◌&&◌, ◌||◌, List, [], ◌∷◌, ◌++◌, ◌+◌, ◌⊎◌, inl, inr, Option, none, some, ltb,
  length, contains, string_eq, if◌then◌else◌, list_beq, nat_eq,
}
use agentmeld.Data.{File}
use agentmeld.Prelude.Fields.{Field, missing, other, given}
use agentmeld.Store.{Attachment, Request, Refusal, Checked}
use agentmeld.Prelude.Text.{trim, blank, codes}
use agentmeld.Store.Names.{safe_name, valid_key}

abbrev pub refusal : String → ℕ → Refusal
refusal m n = record { message = m; status = n }

abbrev pub bad_file : Refusal
bad_file = refusal "Use unique, safe filenames and valid file data." 400

abbrev pub large_file : Refusal
large_file = refusal "Files must be under 2 MB each and 5 MB combined." 400

abbrev pub file_limit : ℕ
file_limit = 2097152

abbrev pub total_limit : ℕ
total_limit = 5242880

-- The name and the bytes of a file, if it passes the tests on keys, names and data.
unfoldable pub named_file : List String → Field String → Field (List ℕ) → Option File
named_file names (given n) (given b) =
    if safe_name n && not (contains n names) then some (record { name = n; content = b }) else none
named_file names _ _ = none

unfoldable pub read_file : List String → Attachment → Option File
unfolding named_file
read_file names a = if a.extra_keys then none else named_file names a.name a.content

-- The loop over the files, with the names and the total size so far.
unfoldable pub check_files : List String → ℕ → List Attachment → Refusal ⊎ List File
unfolding read_file
check_files names size [] = inr []
check_files names size (a ∷ more) = elim (read_file names a) [
  | none ↦ inl bad_file
  | some f ↦
      let rest = check_files (names ++ f.name ∷ []) (size + length f.content) more in
      if ltb file_limit (length f.content) || ltb total_limit (size + length f.content)
      then inl large_file
      else elim rest [ inl r ↦ inl r | inr fs ↦ inr (f ∷ fs) ]
]

unfoldable pub check_prompt : Field (List ℕ) → Refusal ⊎ List ℕ
check_prompt (given p) =
    if blank (trim p) || ltb 16000 (length p)
    then inl (refusal "Enter a request of up to 16,000 characters." 400)
    else if list_beq (trim p) (codes "/new")
    then inl (refusal "Use New chat to start a fresh conversation." 400)
    else inr (trim p)
check_prompt _ = inl (refusal "Enter a request of up to 16,000 characters." 400)

unfoldable pub check_key : Field String → Refusal ⊎ String
check_key (given k) =
    if valid_key k then inr k else inl (refusal "A request key is required. Refresh the app." 400)
check_key _ = inl (refusal "A request key is required. Refresh the app." 400)

unfoldable pub check_conversation : Field String → Refusal ⊎ Option String
check_conversation missing = inr none
check_conversation (given c) = inr (some c)
check_conversation other = inl (refusal "Invalid conversation." 400)

unfoldable pub check_attachments : Field (List Attachment) → Refusal ⊎ List File
unfolding check_files
check_attachments (given more) =
    if ltb 5 (length more)
    then inl (refusal "Attach up to five files." 400)
    else check_files [] 0 more
check_attachments _ = inl (refusal "Attach up to five files." 400)

infixl 5 ◌or_refuse◌
abbrev pub ◌or_refuse◌ {ℓ κ} :
    {A : Type ℓ} {B : Type κ} → Refusal ⊎ A → (A → Refusal ⊎ B) → Refusal ⊎ B
inl r or_refuse f = inl r
inr a or_refuse f = f a

-- The checks in the order of the code; a body that is not an object has no request.
unfoldable pub check : Option Request → Refusal ⊎ Checked
unfolding check_prompt check_key check_conversation check_attachments
check none = inl (refusal "Invalid message." 400)
check (some q) = check_prompt q.prompt or_refuse λ p. check_key q.request_key or_refuse λ k.
    check_conversation q.conversation_id or_refuse λ c. check_attachments q.files or_refuse λ fs.
    inr (record { prompt = p; request_key = k; conversation_id = c; files = fs })

-- ===== src/Files.antt =====
-- apps/poc/filesystem.mjs: the view of a conversation's workspace and the lookup of one of its files. The
-- time of a file's last change is left out, as it is in the entries.
use agentmeld.Prelude.{
  ℕ, String, Bool, true, false, not, ◌&&◌, ◌||◌, List, [], ◌∷◌, Option, none, some, ◌≡◌, arith, map,
  select, find, any, every, leb, length, string_eq, nat_eq, ◌==◌, if◌then◌else◌, Option-cases, inl,
  inr, find-test,
}
use agentmeld.Prelude.Text.{codes}
use agentmeld.Data.{State, Continuation, Entry}
use agentmeld.Store.Names.{alphanumeric, name_character}
use agentmeld.Store.Admit.{conversation_of}
use agentmeld.Store.Update.{working}
use agentmeld.Runtime.Upload.{split_path}

-- /^[a-zA-Z0-9.][a-zA-Z0-9 ._-]{0,119}$/
unfoldable pub path_characters : List ℕ → Bool
unfolding alphanumeric name_character every
path_characters [] = false
path_characters (c ∷ cs) =
    (alphanumeric c || c == b'.') && every name_character cs && leb (length cs) 119

unfoldable pub valid_part : String → Bool
unfolding path_characters
valid_part part = not (part == ".") && not (part == "..") && path_characters (codes part)

unfoldable pub valid_workspace_path : String → Bool
unfolding valid_part split_path
valid_workspace_path name = leb (length (codes name)) 1088 && every valid_part (split_path name)

pub record EntryView : Type 0 where
  pub name : String
  pub directory : Bool
  pub size : Option ℕ

pub record WorkspaceView : Type 0 where
  pub conversation_id : String
  pub title : List ℕ
  pub captured_at : Option ℕ
  pub continuation : Continuation
  pub is_working : Bool
  pub entries : List EntryView

unfoldable pub entry_view : Entry → EntryView
entry_view f = record {
  name = f.name;
  directory = f.directory;
  size = if f.directory then none else some (length f.content);
}

unfoldable pub valid_entry : Entry → Bool
unfolding valid_workspace_path
valid_entry f = valid_workspace_path f.name

unfoldable pub workspace_view : State → String → Option WorkspaceView
unfolding conversation_of select valid_entry entry_view working
workspace_view s id = elim (conversation_of id s.conversations) [
  | none ↦ none
  | some c ↦ some (record {
    conversation_id = id;
    title = c.title;
    captured_at = c.captured_at;
    continuation = c.continuation;
    is_working = working id s.tasks;
    entries = map entry_view (select valid_entry c.workspace);
  })
]

-- f.name===name&&!f.directory
unfoldable pub is_file : String → Entry → Bool
is_file name f = f.name == name && not f.directory

unfoldable pub workspace_file : State → String → String → Option Entry
unfolding valid_workspace_path conversation_of find is_file
workspace_file s id name =
    let found : Option Entry = elim (conversation_of id s.conversations) [
      | none ↦ none
      | some c ↦ find (is_file name) c.workspace
    ] in
    if valid_workspace_path name then found else none

-- A view that lists a file of the name.
unfoldable pub lists : String → Option WorkspaceView → Bool
unfolding any
lists name none = false
lists name (some v) = any (λ (e : EntryView). e.name == name && not e.directory) v.entries

unfoldable pub present {ℓ} : {A : Type ℓ} → Option A → Bool
present none = false
present (some a) = true

-- Among the entries with valid paths, a file of a valid name is found if the view has it.
lists_found :
    (name : String) (fs : List Entry)
    → any
        (λ (e : EntryView). e.name == name && not e.directory)
        (map entry_view (select valid_entry fs))
      ≡ (valid_workspace_path name && present (find (is_file name) fs))
unfolding any select find present valid_entry is_file entry_view
lists_found name [] = ground arith
lists_found name (f ∷ fs) = ground (arith, lists_found name fs, string_eq.same_iff f.name name)

-- A file can be fetched exactly when the view of its conversation lists it as a file, so no path that
-- the view leaves out and no directory is ever served; and what is served is an entry of that name which
-- is not a directory.
pub workspace_file-workspace_view :
    (s : State) (id name : String)
    → (present (workspace_file s id name) ≡ lists name (workspace_view s id))
      × ((f : Entry) → workspace_file s id name ≡ some f → is_file name f ≡ true)
unfolding workspace_file workspace_view lists present
workspace_file-workspace_view s id name = elim (Option-cases (conversation_of id s.conversations)) [
  | inl e ↦ (ground (arith, e), λ f h. absurd (ground (arith, e, h)))
  | inr (c, e) ↦ (
    ground (arith, e, lists_found name c.workspace),
    λ f h. find-test (is_file name) c.workspace f (ground (arith, e, h)),
  )
]

-- ===== src/Runtime/Upload.antt =====
-- The files that apps/worker/runtime.mjs restores into the container: the inputs, with the directories
-- of their paths.
use Prim.Native.Char.{code}
use Prim.Native.String.{◌++◌ as text_append}
use agentmeld.Prelude.{
  ℕ, ◌+◌, String, Option, none, some, List, [], ◌∷◌, ◌++◌, if◌then◌else◌, length, contains, ◌==◌,
  string_eq, nat_beq,
}
use agentmeld.Prelude.Outcome.{Outcome, done, ◌then_do◌}
use agentmeld.Runtime.{Input, Start, World, Worker}
use agentmeld.Runtime.Await.{await}

-- name.split('/')
unfoldable pub split_path : String → List String
split_path String.[] = "" ∷ []
split_path (String.◌∷◌ c s) =
    let rest = split_path s in
    if nat_beq (code c) 47
    then "" ∷ rest
    else elim rest [ [] ↦ String.◌∷◌ c "" ∷ [] | p ∷ ps ↦ String.◌∷◌ c p ∷ ps ]

abbrev pub extend : String → String → String
extend prefix part = if prefix == "" then part else text_append prefix (text_append "/" part)

-- `seenDirs` with the entries pushed for it, which have no data.
pub record Upload : Type 0 where
  pub seen_dirs : List String
  pub entries : List (String × Option (List ℕ))

unfoldable pub add_directory : String → Upload → Upload
add_directory prefix u = if contains prefix u.seen_dirs then u else record {
  seen_dirs = u.seen_dirs ++ prefix ∷ [];
  entries = u.entries ++ (prefix, none) ∷ [];
}

-- The loop over all parts but the last.
unfoldable pub add_parents : String → List String → Upload → Upload
unfolding add_directory
add_parents prefix [] u = u
add_parents prefix (part ∷ []) u = u
add_parents prefix (part ∷ next ∷ rest) u =
    add_parents (extend prefix part) (next ∷ rest) (add_directory (extend prefix part) u)

unfoldable pub add_input : String → List ℕ → Upload → Upload
unfolding add_parents split_path
add_input name bytes u =
    let v = add_parents "" (split_path name) u in
    record v { entries = v.entries ++ (name, some bytes) ∷ [] }

-- The entries for all inputs, with the bytes restored.
unfoldable pub gather : World → List Input → Upload → ℕ → Upload × ℕ
unfolding add_input
gather w [] u n = (u, n)
gather w (i ∷ is_rest) u n =
    gather w is_rest (add_input i.name (w.fetched i) u) (n + length (w.fetched i))

-- seam.fetchInputs, one after the other: an await for each input.
unfoldable pub fetch_all : Start → World → List Input → Worker → Outcome Worker
unfolding await
fetch_all start w [] s = done s
fetch_all start w (i ∷ is_rest) s = await start w s then_do fetch_all start w is_rest

-- ===== src/Supervisor/Artifacts.antt =====
-- onArtifactsDeliver of apps/poc/supervisor.mjs. A file entry is an object whose name is a text; a
-- staging reference is the list of its UTF-16 units, and an absent one is the empty list. The handler is run whole here;
-- Supervisor/Jobs cuts it at its awaits.
use Prim.Native.Nat.{Ordering}
use Prim.Native.String.{compare as compare_text}
use agentmeld.Prelude.{
  ℕ, ◌+◌, String, Bool, true, false, ◌&&◌, ◌||◌, not, Option, none, some, List, [], ◌∷◌, ◌++◌,
  if◌then◌else◌, map, ltb, leb, length, contains, every, ◌==◌, string_eq, nat_eq,
}
use mathlib.Core.List.{foldl}
use agentmeld.Data.{File}
use agentmeld.Supervisor.{
  Turn, Env, Artifact, Manifest, Reply, artifacts_rejected, artifacts_stored, send_frame,
}

abbrev pub between : ℕ → ℕ → ℕ → Bool
between lo hi c = leb lo c && leb c hi

unfoldable pub alphanumeric : ℕ → Bool
alphanumeric c = between b'A' b'Z' c || between b'a' b'z' c || between b'0' b'9' c

-- [A-Za-z0-9._-]
unfoldable pub ref_character : ℕ → Bool
unfolding alphanumeric
ref_character c = alphanumeric c || c == b'.' || c == b'_' || c == b'-'

-- /^[A-Za-z0-9][A-Za-z0-9._-]{0,127}$/
unfoldable pub valid_ref : List ℕ → Bool
unfolding ref_character
valid_ref [] = false
valid_ref (c ∷ cs) = alphanumeric c && leb (length cs) 127 && every ref_character cs

abbrev pub total_size : List Artifact → ℕ
total_size [] = 0
total_size (f ∷ fs) = f.size + total_size fs

abbrev pub row : Artifact → String × String × ℕ
row f = (f.name, f.digest, f.size)

-- a[0] < b[0]
abbrev pub name_lt : String × String × ℕ → String × String × ℕ → Bool
name_lt (a, _, _) (b, _, _) = elim (compare_text a b) [ Ordering.lt ↦ true | _ ↦ false ]

-- `sort` with that comparison puts each row before the first that is greater.
unfoldable pub insert_row :
    String × String × ℕ → List (String × String × ℕ) → List (String × String × ℕ)
insert_row r [] = r ∷ []
insert_row r (s ∷ rows) =
    let later = s ∷ insert_row r rows in if name_lt r s then r ∷ s ∷ rows else later

unfoldable pub sort_rows : List (String × String × ℕ) → List (String × String × ℕ)
unfolding insert_row
sort_rows = foldl (λ rows r. insert_row r rows) []

-- The loop over the files: the entries of all of them, or the first refusal.
pub data Checked : Type 0 where
  entries : List File → Checked
  refuse : String → String → Checked

abbrev pub add_entry : File → Checked → Checked
add_entry f (entries fs) = entries (f ∷ fs)
add_entry f (refuse code message) = refuse code message

unfoldable pub matches : Env → Artifact → List ℕ → Bool
matches env f bytes = length bytes == f.size && env.sha256 bytes == f.digest

unfoldable pub check_files : Env → List String → List Artifact → Checked
unfolding valid_ref matches
check_files env names [] = entries []
check_files env names (f ∷ fs) =
    let rest = check_files env (names ++ f.name ∷ []) fs in
    if contains f.name names
    then refuse "malformed" "bad file entry"
    else if not (valid_ref f.staging_ref)
    then refuse "malformed" "bad staging ref"
    else elim (env.staged f.staging_ref) [
      | none ↦ refuse "internal" "staged artifact missing"
      | some bytes ↦
          if matches env f bytes
          then add_entry (record { name = f.name; content = bytes }) rest
          else refuse "digest_mismatch" "artifact bytes do not match manifest"
    ]

-- Every test of the manifest, in the order of the code.
unfoldable pub check_manifest : Env → Option Manifest → Checked
unfolding check_files sort_rows
check_manifest env none = refuse "malformed" "bad artifact manifest"
check_manifest env (some m) =
    if length m.files == 0 || ltb 64 (length m.files)
    then refuse "malformed" "bad artifact manifest"
    else if not (env.sha256_rows (sort_rows (map row m.files)) == m.manifest_digest)
    then refuse "digest_mismatch" "manifest digest mismatch"
    else if not (m.total_bytes == total_size m.files)
    then refuse "malformed" "total_bytes mismatch"
    else check_files env [] m.files

abbrev pub receipt : Option Manifest → Reply
receipt none = artifacts_rejected "internal" "artifact delivery failed"
receipt (some m) = artifacts_stored m.manifest_digest (map (λ f. (f.name, f.digest)) m.files)

-- The artifacts are kept before the save, and stay kept when it fails.
unfoldable pub on_artifacts_deliver : Env → Option String → Option Manifest → Turn → Turn
on_artifacts_deliver env reply m t = elim (check_manifest env m) [
  | refuse code message ↦ send_frame reply (artifacts_rejected code message) t
  | entries files ↦
      let kept = record t { task = record t.task { artifacts = t.task.artifacts ++ files } } in
      if env.saved
      then send_frame reply (receipt m) kept
      else send_frame reply (artifacts_rejected "internal" "artifact delivery failed") kept
]

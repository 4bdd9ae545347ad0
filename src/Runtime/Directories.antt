-- ===== src/Runtime/Directories.antt =====
-- The upload of apps/worker/runtime.mjs: its order, each directory once, and each file after its directories.
use agentmeld.Prelude.{
  ℕ, ◌+◌, Bool, true, ◌&&◌, not, String, List, [], ◌∷◌, ◌++◌, Option, none, some, ◌≡◌, refl, sym,
  ap, ◌∙◌, arith, map, contains, contains-append, string_eq, eq_self, if_elim, append_assoc,
  append-nil, length, if◌then◌else◌, Bool-cases, inl, inr,
}
use agentmeld.Runtime.{Input, World}
use agentmeld.Runtime.Execute.{no_upload}
use agentmeld.Runtime.Upload.{
  Upload, extend, add_directory, add_parents, add_input, split_path, gather,
}

-- The directories of a path: its prefixes, but not the path.
unfoldable pub parents : String → List String → List String
parents prefix [] = []
parents prefix (part ∷ []) = []
parents prefix (part ∷ next ∷ more) =
    extend prefix part ∷ parents (extend prefix part) (next ∷ more)

unfoldable pub contains_all : List String → List String → Bool
contains_all names [] = true
contains_all names (n ∷ ns) = contains n names && contains_all names ns

-- No directory is made twice, and each file's directories are made before it.
unfoldable pub in_place : List String → List (String × Option (List ℕ)) → Bool
unfolding contains contains_all parents split_path
in_place made [] = true
in_place made ((name, none) ∷ es) = not (contains name made) && in_place (made ++ name ∷ []) es
in_place made ((name, some bytes) ∷ es) =
    contains_all made (parents "" (split_path name)) && in_place made es

-- The directories that entries make.
unfoldable pub made_by : List (String × Option (List ℕ)) → List String
made_by [] = []
made_by ((name, none) ∷ es) = name ∷ made_by es
made_by ((name, some bytes) ∷ es) = made_by es

made_by-append :
    (es fs : List (String × Option (List ℕ))) → made_by (es ++ fs) ≡ made_by es ++ made_by fs
unfolding made_by
made_by-append [] fs = refl
made_by-append ((name, none) ∷ es) fs = ap (λ l. name ∷ l) (made_by-append es fs)
made_by-append ((name, some bytes) ∷ es) fs = made_by-append es fs

in_place-append :
    (made : List String) (es fs : List (String × Option (List ℕ)))
    → in_place made (es ++ fs) ≡ (in_place made es && in_place (made ++ made_by es) fs)
unfolding in_place made_by
in_place-append made [] fs = ap (λ l. in_place l fs) (sym (append-nil made))
in_place-append made ((name, none) ∷ es) fs =
    ground
      (arith, in_place-append (made ++ name ∷ []) es fs, append_assoc made (name ∷ []) (made_by es))
in_place-append made ((name, some bytes) ∷ es) fs = ground (arith, in_place-append made es fs)

-- An upload in the loop: `seenDirs` has exactly the directories made.
record IsUpload (u : Upload) : Type 0 where
  placed : in_place [] u.entries ≡ true
  seen : made_by u.entries ≡ u.seen_dirs

add_directory-IsUpload :
    (prefix : String) (u : Upload)
    → IsUpload u
    → IsUpload (add_directory prefix u)
      × (contains prefix (add_directory prefix u).seen_dirs ≡ true)
unfolding add_directory made_by in_place contains
add_directory-IsUpload prefix u i =
    if_elim (λ (v : Upload). IsUpload v × (contains prefix v.seen_dirs ≡ true))
      (contains prefix u.seen_dirs) _ _ (λ e. (i, e))
      (λ e. (
        record {
          placed =
              in_place-append [] u.entries ((prefix, none) ∷ [])
              ∙ ground (arith, e, i.placed, i.seen);
          seen = made_by-append u.entries ((prefix, none) ∷ []) ∙ ap (λ l. l ++ prefix ∷ []) i.seen;
        },
        ground (arith, contains-append prefix u.seen_dirs (prefix ∷ []), eq_self prefix),
      ))

add_directory-keeps :
    (prefix name : String) (u : Upload)
    → contains name u.seen_dirs ≡ true
    → contains name (add_directory prefix u).seen_dirs ≡ true
unfolding add_directory
add_directory-keeps prefix name u h =
    ground (arith, h, contains-append name u.seen_dirs (prefix ∷ []))

add_parents-keeps :
    (prefix : String) (parts : List String) (name : String) (u : Upload)
    → contains name u.seen_dirs ≡ true
    → contains name (add_parents prefix parts u).seen_dirs ≡ true
unfolding add_parents
add_parents-keeps prefix [] name u h = h
add_parents-keeps prefix (part ∷ []) name u h = h
add_parents-keeps prefix (part ∷ next ∷ more) name u h =
    add_parents-keeps (extend prefix part) (next ∷ more) name (add_directory (extend prefix part) u)
      (add_directory-keeps (extend prefix part) name u h)

add_parents-IsUpload :
    (prefix : String) (parts : List String) (u : Upload)
    → IsUpload u
    → IsUpload (add_parents prefix parts u)
      × (contains_all (add_parents prefix parts u).seen_dirs (parents prefix parts) ≡ true)
unfolding add_parents parents contains_all
add_parents-IsUpload prefix [] u i = (i, refl)
add_parents-IsUpload prefix (part ∷ []) u i = (i, refl)
add_parents-IsUpload prefix (part ∷ next ∷ more) u i =
    let p = extend prefix part in
    let (j, has) = add_directory-IsUpload p u i in
    let (k, all) = add_parents-IsUpload p (next ∷ more) (add_directory p u) j in
    (k, ground (arith, all, add_parents-keeps p (next ∷ more) p (add_directory p u) has))

add_input-IsUpload :
    (name : String) (bytes : List ℕ) (u : Upload) → IsUpload u → IsUpload (add_input name bytes u)
unfolding add_input made_by in_place
add_input-IsUpload name bytes u i =
    let (j, all) = add_parents-IsUpload "" (split_path name) u i in
    let v = add_parents "" (split_path name) u in
    record {
      placed =
          in_place-append [] v.entries ((name, some bytes) ∷ [])
          ∙ ground (arith, j.placed, j.seen, all);
      seen =
          made_by-append v.entries ((name, some bytes) ∷ [])
          ∙ append-nil (made_by v.entries)
          ∙ j.seen;
    }

gather-IsUpload :
    (w : World) (inputs : List Input) (u : Upload) (n : ℕ)
    → IsUpload u
    → IsUpload (gather w inputs u n).0
unfolding gather
gather-IsUpload w [] u n i = i
gather-IsUpload w (f ∷ inputs) u n i =
    gather-IsUpload w inputs (add_input f.name (w.fetched f) u) (n + length (w.fetched f))
      (add_input-IsUpload f.name (w.fetched f) u i)

-- Those of some directories that are not made yet, in their order.
unfoldable pub fresh : List String → List String → List String
unfolding contains
fresh made [] = []
fresh made (d ∷ ds) =
    let more = fresh (made ++ d ∷ []) ds in
    let rest = fresh made ds in if contains d made then rest else d ∷ more

abbrev pub as_entry : String → String × Option (List ℕ)
as_entry d = (d, none)

-- The entries of files: for each, the directories of its path that no file before has, from the outermost to
-- the innermost, and then the file.
unfoldable pub entries_for : List String → List (String × List ℕ) → List (String × Option (List ℕ))
unfolding fresh parents split_path
entries_for made [] = []
entries_for made ((name, bytes) ∷ files) =
    let new = fresh made (parents "" (split_path name)) in
    map as_entry new ++ (name, some bytes) ∷ entries_for (made ++ new) files

add_parents-fresh :
    (prefix : String) (parts : List String) (u : Upload)
    → add_parents prefix parts u ≡ record {
      seen_dirs = u.seen_dirs ++ fresh u.seen_dirs (parents prefix parts);
      entries = u.entries ++ map as_entry (fresh u.seen_dirs (parents prefix parts));
    }
unfolding add_parents add_directory parents fresh
add_parents-fresh prefix [] u = ground (arith, append-nil u.seen_dirs, append-nil u.entries)
add_parents-fresh prefix (part ∷ []) u =
    ground (arith, append-nil u.seen_dirs, append-nil u.entries)
add_parents-fresh prefix (part ∷ next ∷ more) u =
    let p = extend prefix part in
    let ds = parents p (next ∷ more) in
    elim (Bool-cases (contains p u.seen_dirs)) [
      | inl known ↦ ground (arith, known, add_parents-fresh p (next ∷ more) u)
      | inr new ↦ ground (
        arith,
        new,
        add_parents-fresh p (next ∷ more) (add_directory p u),
        append_assoc u.seen_dirs (p ∷ []) (fresh (u.seen_dirs ++ p ∷ []) ds),
        append_assoc u.entries (as_entry p ∷ []) (map as_entry (fresh (u.seen_dirs ++ p ∷ []) ds)),
      )
    ]

abbrev pub sent_as : World → Input → String × List ℕ
sent_as w i = (i.name, w.fetched i)

entries-gather :
    (w : World) (inputs : List Input) (u : Upload) (n : ℕ)
    → (gather w inputs u n).0.entries
      ≡ u.entries ++ entries_for u.seen_dirs (map (sent_as w) inputs)
unfolding gather add_input entries_for
entries-gather w [] u n = sym (append-nil u.entries)
entries-gather w (i ∷ inputs) u n =
    let new = fresh u.seen_dirs (parents "" (split_path i.name)) in
    let v = add_input i.name (w.fetched i) u in
    let file : String × Option (List ℕ) = (i.name, some (w.fetched i)) in
    ground (
      arith,
      entries-gather w inputs v (n + length (w.fetched i)),
      add_parents-fresh "" (split_path i.name) u,
      append_assoc (u.entries ++ map as_entry new) (file ∷ [])
          (entries_for (u.seen_dirs ++ new) (map (sent_as w) inputs)),
      append_assoc u.entries (map as_entry new)
          (file ∷ entries_for (u.seen_dirs ++ new) (map (sent_as w) inputs)),
    )

-- The files that entries write.
unfoldable pub files_of : List (String × Option (List ℕ)) → List (String × List ℕ)
files_of [] = []
files_of ((name, none) ∷ es) = files_of es
files_of ((name, some bytes) ∷ es) = (name, bytes) ∷ files_of es

files_of-append :
    (es fs : List (String × Option (List ℕ))) → files_of (es ++ fs) ≡ files_of es ++ files_of fs
unfolding files_of
files_of-append [] fs = refl
files_of-append ((name, none) ∷ es) fs = files_of-append es fs
files_of-append ((name, some bytes) ∷ es) fs = ap (λ l. (name, bytes) ∷ l) (files_of-append es fs)

files_of-add_parents :
    (prefix : String) (parts : List String) (u : Upload)
    → files_of (add_parents prefix parts u).entries ≡ files_of u.entries
unfolding add_parents add_directory files_of
files_of-add_parents prefix [] u = refl
files_of-add_parents prefix (part ∷ []) u = refl
files_of-add_parents prefix (part ∷ next ∷ more) u =
    let p = extend prefix part in
    files_of-add_parents p (next ∷ more) (add_directory p u)
    ∙ if_elim (λ (v : Upload). files_of v.entries ≡ files_of u.entries) (contains p u.seen_dirs) _ _
        (λ e. refl)
        (λ e. files_of-append u.entries ((p, none) ∷ []) ∙ append-nil (files_of u.entries))

files_of-gather :
    (w : World) (inputs : List Input) (u : Upload) (n : ℕ)
    → files_of (gather w inputs u n).0.entries
      ≡ files_of u.entries ++ map (λ (i : Input). (i.name, w.fetched i)) inputs
unfolding gather add_input files_of
files_of-gather w [] u n = sym (append-nil (files_of u.entries))
files_of-gather w (i ∷ inputs) u n =
    let v = add_parents "" (split_path i.name) u in
    let one = (i.name, w.fetched i) ∷ [] in
    files_of-gather w inputs (add_input i.name (w.fetched i) u) (n + length (w.fetched i))
    ∙ ap (λ l. l ++ map (λ (j : Input). (j.name, w.fetched j)) inputs)
        (files_of-append v.entries ((i.name, some (w.fetched i)) ∷ [])
          ∙ ap (λ l. l ++ one) (files_of-add_parents "" (split_path i.name) u))
    ∙ append_assoc (files_of u.entries) one (map (λ (j : Input). (j.name, w.fetched j)) inputs)

-- The entries of an upload are, for each input in the manifest's order, the directories of its path that no input
-- before it has, from the outermost to the innermost, and then the input with the bytes fetched. So no
-- directory is made twice, each file comes after all directories of its path, and the files are those of the
-- manifest.
pub entries_for-gather :
    (w : World) (inputs : List Input)
    → ((gather w inputs no_upload 0).0.entries ≡ entries_for [] (map (sent_as w) inputs))
      × (in_place [] (gather w inputs no_upload 0).0.entries ≡ true)
      × (files_of (gather w inputs no_upload 0).0.entries ≡ map (sent_as w) inputs)
unfolding in_place made_by files_of
entries_for-gather w inputs =
    let i = gather-IsUpload w inputs no_upload 0 (record { placed = refl; seen = refl }) in
    (entries-gather w inputs no_upload 0, i.placed, files_of-gather w inputs no_upload 0)

-- ===== src/Supervisor/Setup/Served.antt =====
-- The inputs of a turn of apps/poc/supervisor.mjs: what the manifest lists can be fetched from the blobs.
use agentmeld.Prelude.{
  ℕ, String, Bool, true, false, List, [], ◌∷◌, ◌++◌, some, ◌≡◌, refl, sym, ap, ◌∙◌, subst, arith,
  All, All-append, map, length, append_assoc, append-nil, Option-cases, Bool-cases, inl, inr, ◌==◌,
  string_eq, eq_lem, select, not,
}
use agentmeld.Prelude.Dict.{Dict, get, put, get-put}
use agentmeld.Data.{Task, Conversation, File, Entry}
use agentmeld.Supervisor.Setup.{
  InputRow, Inputs, add_file, add_workspace, add_attachments, inputs_of,
}

-- A file to send: its name, its bytes, and whether it is an attachment.
abbrev pub Sent : Type 0
Sent = String × List ℕ × Bool

abbrev pub workspace_sent : List Entry → List Sent
workspace_sent entries =
    map (λ (f : Entry). (f.name, f.content, false))
      (select (λ (f : Entry). not f.directory) entries)

abbrev pub request_sent : List File → List Sent
request_sent files = map (λ (f : File). (f.name, f.content, true)) files

-- The files of the workspace and then those of the request.
unfoldable pub files_of_turn : Conversation → Task → List Sent
files_of_turn c t = workspace_sent c.workspace ++ request_sent t.inputs

module _ (sha256 : List ℕ → String) where
  abbrev pub row_of : Sent → InputRow
  row_of (name, bytes, attachment) = record {
    name = name;
    digest = sha256 bytes;
    size = length bytes;
    attachment = attachment;
  }

  abbrev pub Fetched : Dict String (List ℕ) → Sent → Type 0
  Fetched blobs (name, bytes, attachment) = get (sha256 bytes) blobs ≡ some bytes

  -- The inputs made for files so far.
  record IsInputs (fs : List Sent) (i : Inputs) : Type 0 where
    rows : i.rows ≡ map row_of fs
    keyed : (k : String) (v : List ℕ) → get k i.blobs ≡ some v → sha256 v ≡ k
    served : All (Fetched i.blobs) fs

  module _ (apart : (a b : List ℕ) → sha256 a ≡ sha256 b → a ≡ b) where
    map-append : (fs gs : List Sent) → map row_of (fs ++ gs) ≡ map row_of fs ++ map row_of gs
    map-append [] gs = refl
    map-append (f ∷ fs) gs = ap (λ l. row_of f ∷ l) (map-append fs gs)

    served_put :
        (bytes : List ℕ) (blobs : Dict String (List ℕ)) (fs : List Sent)
        → All (Fetched blobs) fs
        → All (Fetched (put (sha256 bytes) bytes blobs)) fs
    served_put bytes blobs [] h = tt
    served_put bytes blobs ((name, own, attachment) ∷ fs) h = (
      elim (Bool-cases (sha256 bytes == sha256 own)) [
        | inl e ↦
            let same = apart bytes own ((eq_lem (sha256 bytes) (sha256 own)).0 e) in
            get-put (sha256 bytes) (sha256 own) bytes blobs ∙ ground (arith, e, same)
        | inr e ↦ get-put (sha256 bytes) (sha256 own) bytes blobs ∙ ground (arith, e, h.0)
      ],
      served_put bytes blobs fs h.1,
    )

    add_file-IsInputs :
        (attachment : Bool) (name : String) (bytes : List ℕ) (fs : List Sent) (i : Inputs)
        → IsInputs fs i
        → IsInputs (fs ++ (name, bytes, attachment) ∷ []) (add_file sha256 attachment name bytes i)
    unfolding add_file
    add_file-IsInputs attachment name bytes fs i j =
        elim (Option-cases (get (sha256 bytes) i.blobs)) [
          | inl e ↦
              subst (IsInputs (fs ++ (name, bytes, attachment) ∷ []))
                (let w : record {
                  rows = i.rows ++ row_of (name, bytes, attachment) ∷ [];
                  blobs = put (sha256 bytes) bytes i.blobs;
                }
                      ≡ add_file sha256 attachment name bytes i =
                    ground (arith, e) in
                  w)
                (record {
                  rows = rows;
                  keyed = λ k v g. keyed_put k v g;
                  served =
                      All-append (Fetched (put (sha256 bytes) bytes i.blobs)) fs
                        ((name, bytes, attachment) ∷ []) (served_put bytes i.blobs fs j.served)
                        (
                          get-put (sha256 bytes) (sha256 bytes) bytes i.blobs
                              ∙ ground (arith, eq_lem (sha256 bytes) (sha256 bytes)),
                          tt,
                        );
                })
          | inr (kept, e) ↦
              subst (IsInputs (fs ++ (name, bytes, attachment) ∷ []))
                (let w : record {
                  rows = i.rows ++ row_of (name, bytes, attachment) ∷ [];
                  blobs = i.blobs;
                }
                      ≡ add_file sha256 attachment name bytes i =
                    ground (arith, e) in
                  w)
                (record {
                  rows = rows;
                  keyed = j.keyed;
                  served =
                      All-append (Fetched i.blobs) fs ((name, bytes, attachment) ∷ []) j.served
                        (e ∙ ap some (apart kept bytes (j.keyed (sha256 bytes) kept e)), tt);
                })
        ]
      where
        rows :
            i.rows ++ row_of (name, bytes, attachment) ∷ []
            ≡ map row_of (fs ++ (name, bytes, attachment) ∷ [])
        rows =
            ap (λ l. l ++ row_of (name, bytes, attachment) ∷ []) j.rows
            ∙ sym (map-append fs ((name, bytes, attachment) ∷ []))

        keyed_put :
            (k : String) (v : List ℕ)
            → get k (put (sha256 bytes) bytes i.blobs) ≡ some v
            → sha256 v ≡ k
        keyed_put k v g =
            let p = get-put (sha256 bytes) k bytes i.blobs in
            elim (Bool-cases (sha256 bytes == k)) [
              | inl q ↦ let same = (eq_lem (sha256 bytes) k).0 q in ground (arith, p, q, g, same)
              | inr q ↦ j.keyed k v (ground (arith, p, q, g))
            ]

    add_workspace-IsInputs :
        (entries : List Entry) (fs : List Sent) (i : Inputs)
        → IsInputs fs i
        → IsInputs (fs ++ workspace_sent entries) (add_workspace sha256 entries i)
    unfolding add_workspace select
    add_workspace-IsInputs [] fs i j = subst (λ l. IsInputs l i) (sym (append-nil fs)) j
    add_workspace-IsInputs (f ∷ entries) fs i j =
        let more = workspace_sent entries in
        elim (Bool-cases f.directory) [
          | inl d ↦
              subst2 (fs ++ more) _ (add_workspace sha256 entries i) _ (ground (arith, d))
                (ground (arith, d)) (add_workspace-IsInputs entries fs i j)
          | inr d ↦
              let one : Sent = (f.name, f.content, false) in
              let next = add_file sha256 false f.name f.content i in
              subst2 ((fs ++ one ∷ []) ++ more) _ (add_workspace sha256 entries next) _
                (append_assoc fs (one ∷ []) more ∙ ground (arith, d)) (ground (arith, d))
                (add_workspace-IsInputs entries (fs ++ one ∷ []) next
                  (add_file-IsInputs false f.name f.content fs i j))
        ]
      where
        subst2 :
            (xs ys : List Sent) (a b : Inputs) → xs ≡ ys → a ≡ b → IsInputs xs a → IsInputs ys b
        subst2 xs ys a b p q h = subst (λ l. IsInputs l b) p (subst (IsInputs xs) q h)

    add_attachments-IsInputs :
        (files : List File) (fs : List Sent) (i : Inputs)
        → IsInputs fs i
        → IsInputs (fs ++ request_sent files) (add_attachments sha256 files i)
    unfolding add_attachments
    add_attachments-IsInputs [] fs i j = subst (λ l. IsInputs l i) (sym (append-nil fs)) j
    add_attachments-IsInputs (f ∷ files) fs i j =
        let one : Sent = (f.name, f.content, true) in
        let next = add_file sha256 true f.name f.content i in
        subst (λ l. IsInputs l (add_attachments sha256 files next))
          (append_assoc fs (one ∷ []) (request_sent files))
          (add_attachments-IsInputs files (fs ++ one ∷ []) next
            (add_file-IsInputs true f.name f.content fs i j))

    -- The manifest lists the files of the conversation's workspace and then those of the request, each with its
    -- digest and its size, and no directory; and for each of them its digest finds exactly its bytes among the
    -- blobs, if no two contents have one digest.
    pub inputs_of-files_of_turn :
        (c : Conversation) (t : Task)
        → ((inputs_of sha256 c t).rows ≡ map row_of (files_of_turn c t))
          × All (Fetched (inputs_of sha256 c t).blobs) (files_of_turn c t)
    unfolding inputs_of files_of_turn get
    inputs_of-files_of_turn c t =
        let none_yet : IsInputs [] (record { rows = []; blobs = [] }) = record {
          rows = refl;
          keyed = λ k v g. absurd (ground (arith, g));
          served = tt;
        } in
        let j =
          add_attachments-IsInputs t.inputs _ _
            (add_workspace-IsInputs c.workspace [] _ none_yet) in
        (j.rows, j.served)

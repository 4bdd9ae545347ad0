-- ===== src/Runtime/Delivered.antt =====
-- The delivery of apps/worker/runtime.mjs against the checks of onArtifactsDeliver in
-- apps/poc/supervisor.mjs: what the worker stages, the service takes.
pub mod Batches
use agentmeld.Prelude.{
  ℕ, zero, suc, ◌+◌, ◌≤◌, Bool, true, false, ◌||◌, ◌&&◌, not, String, List, [], ◌∷◌, ◌++◌, Option,
  none, some, ◌≡◌, refl, sym, ap, ◌∙◌, subst, length, arith, map, append_assoc, append-nil, if_elim,
  if◌then◌else◌, take, drop, All, contains, ◌==◌, string_eq, nat_eq, eq_self, take-append-drop,
  length-take, length-drop, length-append,
}
use agentmeld.Prelude.Lines.{joined}
use agentmeld.Prelude.Outcome.{
  Outcome, done, threw, left, ◌then_do◌, in_order, then_do-done, done_lem,
}
use agentmeld.Data.{File}
use agentmeld.Supervisor.{Env, Artifact, Manifest}
use agentmeld.Supervisor.Artifacts.{
  Checked, entries, refuse, add_entry, valid_ref, matches, check_files, check_manifest, row,
  sort_rows, total_size,
}
use agentmeld.Runtime.{artifacts_delivered, Start, World, Worker}
use agentmeld.Runtime.Emit.{emit}
use agentmeld.Runtime.Await.{await}
use agentmeld.Runtime.Output.{
  artifacts_of, put_staged, stage_all, manifest_of, delivery_key, deliver_steps, deliver, batches,
  deliver_all,
}
use agentmeld.Runtime.Rest.{rest, Rest, await-done, removals}

-- The writes for files, from the number of files staged before.
unfoldable pub writes : World → ℕ → List (String × List ℕ) → List (List ℕ × List ℕ)
writes w n [] = []
writes w n ((name, bytes) ∷ fs) = (w.fresh_ref n, bytes) ∷ writes w (suc n) fs

abbrev pub file_of : String × List ℕ → File
file_of (name, bytes) = record { name = name; content = bytes }

-- No name twice, and none of `names`.
unfoldable pub fresh_names : List String → List (String × List ℕ) → Bool
unfolding contains
fresh_names names [] = true
fresh_names names ((name, bytes) ∷ fs) =
    not (contains name names) && fresh_names (names ++ name ∷ []) fs

-- The service's side for a worker: the same digests, references that its pattern takes, and a directory
-- with what was written.
pub record Serves (env : Env) (w : World) (staged : List (List ℕ × List ℕ)) : Type 0 where
  pub same_digest : (bytes : List ℕ) → env.sha256 bytes ≡ w.sha256 bytes
  pub same_rows : (rows : List (String × String × ℕ)) → env.sha256_rows rows ≡ w.sha256_rows rows
  pub valid : (n : ℕ) → valid_ref (w.fresh_ref n) ≡ true
  pub kept : All (λ (p : List ℕ × List ℕ). env.staged p.0 ≡ some p.1) staged

pub All-right :
    {A : Type 0} (good : A → Type 0) (xs ys : List A) → All good (xs ++ ys) → All good ys
All-right good [] ys h = h
All-right good (x ∷ xs) ys h = All-right good xs ys h.1

pub All-left : {A : Type 0} (good : A → Type 0) (xs ys : List A) → All good (xs ++ ys) → All good xs
All-left good [] ys h = tt
All-left good (x ∷ xs) ys h = (h.0, All-left good xs ys h.1)

check_files-artifacts_of :
    (env : Env) (w : World) (n : ℕ) (names : List String) (fs : List (String × List ℕ))
    → Serves env w (writes w n fs)
    → fresh_names names fs ≡ true
    → check_files env names (artifacts_of w n fs) ≡ entries (map file_of fs)
unfolding check_files artifacts_of writes fresh_names matches
check_files-artifacts_of env w n names [] s u = refl
check_files-artifacts_of env w n names ((name, bytes) ∷ fs) s u =
    let more : Serves env w (writes w (suc n) fs) = record {
      same_digest = s.same_digest;
      same_rows = s.same_rows;
      valid = s.valid;
      kept = s.kept.1;
    } in
    ground (
      arith,
      u,
      s.valid n,
      s.kept.0,
      s.same_digest bytes,
      eq_self (length bytes),
      eq_self (w.sha256 bytes),
      check_files-artifacts_of env w (suc n) (names ++ name ∷ []) fs more (ground (arith, u)),
    )

length-artifacts_of :
    (w : World) (n : ℕ) (fs : List (String × List ℕ)) → length (artifacts_of w n fs) ≡ length fs
unfolding artifacts_of
length-artifacts_of w n [] = refl
length-artifacts_of w n ((name, bytes) ∷ fs) = ap suc (length-artifacts_of w (suc n) fs)

-- One manifest of at most 64 files.
pub check_manifest-manifest_of :
    (env : Env) (w : World) (n : ℕ) (fs : List (String × List ℕ))
    → Serves env w (writes w n fs)
    → fresh_names [] fs ≡ true
    → 1 ≤ length fs
    → length fs ≤ 64
    → check_manifest env (some (manifest_of w n fs)) ≡ entries (map file_of fs)
unfolding check_manifest manifest_of
check_manifest-manifest_of env w n fs s u low high =
    let rows = sort_rows (map row (artifacts_of w n fs)) in
    ground (
      arith,
      length-artifacts_of w n fs,
      low,
      high,
      s.same_rows rows,
      eq_self (w.sha256_rows rows),
      eq_self (total_size (artifacts_of w n fs)),
      check_files-artifacts_of env w n [] fs s u,
    )

stage_all-done :
    (start : Start) (w : World) (fs : List (String × List ℕ)) (s t : Worker)
    → stage_all start w fs s ≡ done t
    → (t.staged ≡ s.staged ++ writes w (length s.staged) fs) × (t.delivered ≡ s.delivered)
unfolding stage_all writes rest
stage_all-done start w [] s t e =
    let same = done_lem s t e in
    (
      ap (λ (u : Worker). u.staged) (sym same) ∙ sym (append-nil s.staged),
      ap (λ (u : Worker). u.delivered) (sym same),
    )
stage_all-done start w (f ∷ fs) s t e =
    let (u, a, b) = then_do-done (await start w (put_staged w f s)) (stage_all start w fs) t e in
    let same = await-done start w (put_staged w f s) u a in
    let staged : u.staged ≡ s.staged ++ (w.fresh_ref (length s.staged), f.1) ∷ [] =
      ap (λ (r : Rest). r.staged) same in
    let n : length u.staged ≡ suc (length s.staged) =
      ap length staged
      ∙ length-append s.staged ((w.fresh_ref (length s.staged), f.1) ∷ [])
      ∙ omega arith in
    let (x, y) = stage_all-done start w fs u t b in
    (
      x
          ∙ ap (λ l. l ++ writes w (length u.staged) fs) staged
          ∙ append_assoc s.staged ((w.fresh_ref (length s.staged), f.1) ∷ [])
              (writes w (length u.staged) fs)
          ∙ ap (λ k. s.staged ++ (w.fresh_ref (length s.staged), f.1) ∷ writes w k fs) n,
      y ∙ ap (λ (r : Rest). r.delivered) same,
    )

pub deliver-done :
    (start : Start) (w : World) (fs : List (String × List ℕ)) (s t : Worker)
    → deliver start w fs s ≡ done t
    → (t.staged ≡ s.staged ++ writes w (length s.staged) fs)
      × (t.delivered ≡ s.delivered ++ manifest_of w (length s.staged) fs ∷ [])
unfolding deliver deliver_steps in_order rest
deliver-done start w fs s t e =
    let m = manifest_of w (length s.staged) fs in
    let event = artifacts_delivered m.manifest_digest (length m.files) m.total_bytes in
    let key = some (delivery_key start.run_id m.manifest_digest) in
    let deliver_one =
      λ (x : Worker). await start w (record x { delivered = x.delivered ++ m ∷ [] }) in
    let report = λ (x : Worker). await start w (emit key event x) in
    let (u, a, b) =
      then_do-done (stage_all start w fs s) (λ x. deliver_one x then_do λ y. report y then_do done)
        t e in
    let (v, c, d) = then_do-done (deliver_one u) (λ y. report y then_do done) t b in
    let (x, f, g) = then_do-done (report v) done t d in
    let (p, q) = stage_all-done start w fs s u a in
    let one = await-done start w (record u { delivered = u.delivered ++ m ∷ [] }) v c in
    let two = await-done start w (emit key event v) x f in
    let same = done_lem x t g in
    (
      ap (λ (z : Worker). z.staged) (sym same)
          ∙ ap (λ (r : Rest). r.staged) two
          ∙ ap (λ (r : Rest). r.staged) one
          ∙ p,
      ap (λ (z : Worker). z.delivered) (sym same)
          ∙ ap (λ (r : Rest). r.delivered) two
          ∙ ap (λ (r : Rest). r.delivered) one
          ∙ ap (λ l. l ++ m ∷ []) q,
    )

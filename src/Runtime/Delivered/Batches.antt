-- ===== src/Runtime/Delivered/Batches.antt =====
-- The manifests of a whole delivery of apps/worker/runtime.mjs, one after the other at the service.
use agentmeld.Prelude.{
  ℕ, zero, suc, ◌+◌, ◌≤◌, true, String, List, [], ◌∷◌, ◌++◌, some, ◌≡◌, refl, sym, ap, ◌∙◌, subst,
  length, arith, map, append_assoc, append-nil, take, drop, All, contains-append, string_eq,
  take-append-drop, length-take, length-drop, length-append,
}
use agentmeld.Prelude.Outcome.{done, then_do-done, done_lem}
use agentmeld.Data.{File}
use agentmeld.Supervisor.{Env, Manifest}
use agentmeld.Supervisor.Artifacts.{Checked, entries, refuse, check_manifest}
use agentmeld.Runtime.{Start, World, Worker}
use agentmeld.Runtime.Output.{manifest_of, deliver, batches, deliver_all}
use agentmeld.Runtime.Delivered.{
  writes, file_of, fresh_names, Serves, All-left, All-right, check_manifest-manifest_of,
  deliver-done,
}

abbrev pub Files : Type 0
Files = List (String × List ℕ)

-- All files of the batches.
unfoldable pub all_files : List Files → Files
all_files [] = []
all_files (b ∷ bs) = b ++ all_files bs

unfoldable pub manifests : World → ℕ → List Files → List Manifest
manifests w n [] = []
manifests w n (b ∷ bs) = manifest_of w n b ∷ manifests w (n + length b) bs

-- The files of the manifests that the service takes in turn, or the first refusal.
abbrev pub before_all : List File → Checked → Checked
before_all fs (entries gs) = entries (fs ++ gs)
before_all fs (refuse code message) = refuse code message

unfoldable pub check_manifests : Env → List Manifest → Checked
unfolding check_manifest
check_manifests env [] = entries []
check_manifests env (m ∷ ms) = elim (check_manifest env (some m)) [
  | refuse code message ↦ refuse code message
  | entries fs ↦ before_all fs (check_manifests env ms)
]

writes-append :
    (w : World) (n : ℕ) (fs gs : Files)
    → writes w n (fs ++ gs) ≡ writes w n fs ++ writes w (n + length fs) gs
unfolding writes
writes-append w n [] gs = ap (λ k. writes w k gs) (omega arith)
writes-append w n ((name, bytes) ∷ fs) gs =
    ap (λ l. (w.fresh_ref n, bytes) ∷ l)
      (writes-append w (suc n) fs gs
        ∙ ap (λ k. writes w (suc n) fs ++ writes w k gs)
            (let e : suc n + length fs ≡ n + suc (length fs) = omega arith in e))

length-writes : (w : World) (n : ℕ) (fs : Files) → length (writes w n fs) ≡ length fs
unfolding writes
length-writes w n [] = refl
length-writes w n ((name, bytes) ∷ fs) = ap suc (length-writes w (suc n) fs)

deliver_all-done :
    (start : Start) (w : World) (bs : List Files) (s t : Worker)
    → deliver_all start w bs s ≡ done t
    → (t.staged ≡ s.staged ++ writes w (length s.staged) (all_files bs))
      × (t.delivered ≡ s.delivered ++ manifests w (length s.staged) bs)
unfolding deliver_all all_files manifests writes
deliver_all-done start w [] s t e =
    let same = done_lem s t e in
    (
      ap (λ (u : Worker). u.staged) (sym same) ∙ sym (append-nil s.staged),
      ap (λ (u : Worker). u.delivered) (sym same) ∙ sym (append-nil s.delivered),
    )
deliver_all-done start w (b ∷ bs) s t e =
    let n = length s.staged in
    let (u, a, c) = then_do-done (deliver start w b s) (deliver_all start w bs) t e in
    let (p, q) = deliver-done start w b s u a in
    let (x, y) = deliver_all-done start w bs u t c in
    let k : length u.staged ≡ n + length b =
      ap length p ∙ length-append s.staged (writes w n b) ∙ ap (λ j. n + j) (length-writes w n b) in
    (
      x
          ∙ ap (λ j. u.staged ++ writes w j (all_files bs)) k
          ∙ ap (λ l. l ++ writes w (n + length b) (all_files bs)) p
          ∙ append_assoc s.staged (writes w n b) (writes w (n + length b) (all_files bs))
          ∙ ap (λ l. s.staged ++ l) (sym (writes-append w n b (all_files bs))),
      y
          ∙ ap (λ j. u.delivered ++ manifests w j bs) k
          ∙ ap (λ l. l ++ manifests w (n + length b) bs) q
          ∙ append_assoc s.delivered (manifest_of w n b ∷ []) (manifests w (n + length b) bs),
    )

-- A name that is new after more names is new after fewer.
fresh_names-fewer :
    (more names : List String) (fs : Files)
    → fresh_names (more ++ names) fs ≡ true
    → fresh_names names fs ≡ true
unfolding fresh_names
fresh_names-fewer more names [] h = refl
fresh_names-fewer more names ((name, bytes) ∷ fs) h = ground (
  arith,
  h,
  contains-append name more names,
  fresh_names-fewer more (names ++ name ∷ []) fs (
      subst (λ l. fresh_names l fs ≡ true) (append_assoc more names (name ∷ []))
        (ground (arith, h))),
)

fresh_names-left :
    (names : List String) (fs gs : Files)
    → fresh_names names (fs ++ gs) ≡ true
    → fresh_names names fs ≡ true
unfolding fresh_names
fresh_names-left names [] gs h = refl
fresh_names-left names ((name, bytes) ∷ fs) gs h =
    ground (arith, h, fresh_names-left (names ++ name ∷ []) fs gs (ground (arith, h)))

fresh_names-right :
    (names : List String) (fs gs : Files)
    → fresh_names names (fs ++ gs) ≡ true
    → fresh_names [] gs ≡ true
unfolding fresh_names
fresh_names-right names [] gs h =
    fresh_names-fewer names [] gs (subst (λ l. fresh_names l gs ≡ true) (sym (append-nil names)) h)
fresh_names-right names ((name, bytes) ∷ fs) gs h =
    fresh_names-right (names ++ name ∷ []) fs gs (ground (arith, h))

map-append : (fs gs : Files) → map file_of (fs ++ gs) ≡ map file_of fs ++ map file_of gs
map-append [] gs = refl
map-append (f ∷ fs) gs = ap (λ l. file_of f ∷ l) (map-append fs gs)

check_manifests-manifests :
    (env : Env) (w : World) (n : ℕ) (bs : List Files)
    → Serves env w (writes w n (all_files bs))
    → fresh_names [] (all_files bs) ≡ true
    → All (λ (b : Files). (1 ≤ length b) × (length b ≤ 64)) bs
    → check_manifests env (manifests w n bs) ≡ entries (map file_of (all_files bs))
unfolding check_manifests manifests all_files
check_manifests-manifests env w n [] s u h = refl
check_manifests-manifests env w n (b ∷ bs) s u h =
    let good = λ (p : List ℕ × List ℕ). env.staged p.0 ≡ some p.1 in
    let kept = subst (All good) (writes-append w n b (all_files bs)) s.kept in
    let first : Serves env w (writes w n b) = record {
      same_digest = s.same_digest;
      same_rows = s.same_rows;
      valid = s.valid;
      kept = All-left good (writes w n b) (writes w (n + length b) (all_files bs)) kept;
    } in
    let others : Serves env w (writes w (n + length b) (all_files bs)) = record {
      same_digest = s.same_digest;
      same_rows = s.same_rows;
      valid = s.valid;
      kept = All-right good (writes w n b) (writes w (n + length b) (all_files bs)) kept;
    } in
    ground (
      arith,
      map-append b (all_files bs),
      check_manifest-manifest_of env w n b first (fresh_names-left [] b (all_files bs) u) h.0.0
          h.0.1,
      check_manifests-manifests env w (n + length b) bs others
          (fresh_names-right [] b (all_files bs) u) h.1,
    )

batches-all_files : (fuel : ℕ) (fs : Files) → length fs ≤ fuel → all_files (batches fuel fs) ≡ fs
unfolding batches all_files
batches-all_files zero [] h = refl
batches-all_files zero (f ∷ fs) h = absurd (omega arith)
batches-all_files (suc fuel) [] h = refl
batches-all_files (suc fuel) (f ∷ fs) h =
    ap (λ l. take 64 (f ∷ fs) ++ l)
      (batches-all_files fuel (drop 64 (f ∷ fs)) (omega (arith, length-drop 64 (f ∷ fs), h)))
    ∙ take-append-drop 64 (f ∷ fs)

batches-sizes :
    (fuel : ℕ) (fs : Files)
    → All (λ (b : Files). (1 ≤ length b) × (length b ≤ 64)) (batches fuel fs)
unfolding batches
batches-sizes zero fs = tt
batches-sizes (suc fuel) [] = tt
batches-sizes (suc fuel) (f ∷ fs) = (
  (omega (arith, length-take 64 (f ∷ fs)), omega (arith, length-take 64 (f ∷ fs))),
  batches-sizes fuel (drop 64 (f ∷ fs)),
)

-- A delivery that goes through is taken whole: the service's checks of the manifests, in the order in
-- which they were delivered, give exactly the changed files in their order with their bytes. The two
-- sides' digests agree, the staging names match the service's pattern, its directory holds what the
-- worker has written, and no name of a changed file occurs twice.
pub deliver_all-check_manifests :
    (env : Env) (start : Start) (w : World) (fs : Files) (s t : Worker)
    → deliver_all start w (batches (length fs) fs) s ≡ done t
    → s.staged ≡ []
    → s.delivered ≡ []
    → Serves env w t.staged
    → fresh_names [] fs ≡ true
    → check_manifests env t.delivered ≡ entries (map file_of fs)
deliver_all-check_manifests env start w fs s t e none_staged none_delivered serves unique =
    let bs = batches (length fs) fs in
    let all = batches-all_files (length fs) fs (omega arith) in
    let (p, q) = deliver_all-done start w bs s t e in
    let staged : t.staged ≡ writes w 0 (all_files bs) =
      p
      ∙ ap (λ (l : List (List ℕ × List ℕ)). l ++ writes w (length l) (all_files bs)) none_staged in
    let delivered : t.delivered ≡ manifests w 0 bs =
      q
      ∙ ap (λ (l : List (List ℕ × List ℕ)). s.delivered ++ manifests w (length l) bs) none_staged
      ∙ ap (λ (l : List Manifest). l ++ manifests w 0 bs) none_delivered in
    ap (check_manifests env) delivered
    ∙ check_manifests-manifests env w 0 bs (subst (Serves env w) staged serves)
        (subst (λ (l : Files). fresh_names [] l ≡ true) (sym all) unique)
        (batches-sizes (length fs) fs)
    ∙ ap (λ (l : Files). entries (map file_of l)) all

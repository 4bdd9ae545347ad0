-- ===== src/Runtime/Output.antt =====
-- The output of a turn in apps/worker/runtime.mjs: the changed files of the snapshot, and their
-- delivery in manifests of at most 64 files.
use Prim.Native.String.{◌++◌ as text_append}
use agentmeld.Prelude.{
  ℕ, zero, suc, ◌+◌, String, Bool, false, ◌&&◌, ◌||◌, not, none, some, List, [], ◌∷◌, ◌++◌,
  if◌then◌else◌, map, ltb, length, take, drop, any, ◌==◌, string_eq,
}
use agentmeld.Prelude.Dict.{Dict, get, put}
use agentmeld.Prelude.Outcome.{Outcome, done, ◌then_do◌, in_order}
use agentmeld.Supervisor.{Artifact, Manifest}
use agentmeld.Supervisor.Artifacts.{row, sort_rows, total_size}
use agentmeld.Store.Names.{safe_name}
use agentmeld.Runtime.{artifacts_delivered, Input, Row, Start, World, Worker}
use agentmeld.Runtime.Emit.{emit}
use agentmeld.Runtime.Await.{await}

abbrev pub max_output : ℕ
max_output = 8388608

-- The digests of the inputs by name, the last of a name.
unfoldable pub previous_digests : List Input → Dict String String → Dict String String
unfolding put
previous_digests [] m = m
previous_digests (i ∷ is_rest) m = previous_digests is_rest (put i.name i.digest m)

unfoldable pub is_attachment : List Input → String → Bool
unfolding any
is_attachment inputs name = any (λ (i : Input). i.attachment && i.name == name) inputs

unfoldable pub unchanged : World → List Input → Row → Bool
unfolding previous_digests get
unchanged w inputs f = elim (get f.name (previous_digests inputs [])) [
  | none ↦ false
  | some digest ↦ digest == w.sha256 f.content
]

-- A row that is not an output: a directory, an attachment, or a file as it was.
unfoldable pub skipped : World → List Input → Row → Bool
unfolding is_attachment unchanged
skipped w inputs f = f.directory || is_attachment inputs f.name || unchanged w inputs f

-- A safe name has no '/'.
unfoldable pub supported : Row → Bool
unfolding safe_name
supported f = safe_name f.name

pub data Selected : Type 0 where
  changed : List (String × List ℕ) → Selected
  refused : String → Selected

abbrev pub add_changed : String × List ℕ → Selected → Selected
add_changed f (changed fs) = changed (f ∷ fs)
add_changed f (refused message) = refused message

-- The loop over the snapshot, from the bytes counted so far.
unfoldable pub select_changed : World → List Input → ℕ → List Row → Selected
unfolding supported skipped
select_changed w inputs output_bytes [] = changed []
select_changed w inputs output_bytes (f ∷ fs) =
    let past = select_changed w inputs output_bytes fs in
    let total = output_bytes + length f.content in
    let rest = select_changed w inputs total fs in
    if not (supported f)
    then refused "Unsupported workspace name"
    else if skipped w inputs f
    then past
    else if ltb max_output total
    then refused "Output limit exceeded"
    else add_changed (f.name, f.content) rest

abbrev pub put_staged : World → String × List ℕ → Worker → Worker
put_staged w f s = record s { staged = s.staged ++ (w.fresh_ref (length s.staged), f.1) ∷ [] }

-- The files of a manifest, from the number of files staged before.
unfoldable pub artifacts_of : World → ℕ → List (String × List ℕ) → List Artifact
artifacts_of w n [] = []
artifacts_of w n ((name, bytes) ∷ fs) =
    record {
      name = name;
      digest = w.sha256 bytes;
      size = length bytes;
      staging_ref = w.fresh_ref n;
    }
    ∷ artifacts_of w (suc n) fs

-- Their writes, each awaited.
unfoldable pub stage_all : Start → World → List (String × List ℕ) → Worker → Outcome Worker
unfolding await
stage_all start w [] s = done s
stage_all start w (f ∷ fs) s = await start w (put_staged w f s) then_do stage_all start w fs

unfoldable pub manifest_of : World → ℕ → List (String × List ℕ) → Manifest
unfolding artifacts_of
manifest_of w n fs =
    let files = artifacts_of w n fs in
    record {
      manifest_digest = w.sha256_rows (sort_rows (map row files));
      files = files;
      total_bytes = total_size files;
    }

-- The key of run.artifacts_delivered names the manifest.
abbrev pub delivery_key : String → String → String
delivery_key run_id digest = text_append run_id (text_append ":run.artifacts_delivered:" digest)

unfoldable pub deliver_steps :
    Start → World → List (String × List ℕ) → Manifest → List (Worker → Outcome Worker)
unfolding stage_all await
deliver_steps start w fs m =
    stage_all start w fs
    ∷ (λ t. await start w (record t { delivered = t.delivered ++ m ∷ [] }))
    ∷ (λ t. await start w (
        emit (some (delivery_key start.run_id m.manifest_digest))
          (artifacts_delivered m.manifest_digest (length m.files) m.total_bytes) t))
    ∷ []

-- One manifest: the files, the delivery and its event.
unfoldable pub deliver : Start → World → List (String × List ℕ) → Worker → Outcome Worker
unfolding in_order deliver_steps manifest_of
deliver start w fs s = in_order (deliver_steps start w fs (manifest_of w (length s.staged) fs)) s

-- for (let i = 0; i < changed.length; i += 64), on fuel.
unfoldable pub batches : ℕ → List (String × List ℕ) → List (List (String × List ℕ))
batches zero fs = []
batches (suc fuel) [] = []
batches (suc fuel) (f ∷ fs) = take 64 (f ∷ fs) ∷ batches fuel (drop 64 (f ∷ fs))

unfoldable pub deliver_all : Start → World → List (List (String × List ℕ)) → Worker → Outcome Worker
unfolding deliver
deliver_all start w [] s = done s
deliver_all start w (b ∷ bs) s = deliver start w b s then_do deliver_all start w bs

-- ===== src/Seam/Fetch.antt =====
-- fetchInputs of apps/worker/seam.mjs. The service answers by a function of the offset and the length.
-- Each round brings at least a byte, so one round more than the size is fuel enough.
use agentmeld.Prelude.{
  ℕ, zero, suc, ◌+◌, ◌-◌, String, Bool, true, false, List, [], ◌∷◌, ◌++◌, min, ltb, length, ◌==◌,
  string_eq, nat_eq, not, if◌then◌else◌,
}

pub data Answer : Type 0 where
  input_bytes : List ℕ → Bool → Answer
  request_failed : String → Answer

pub data Fetched : Type 0 where
  fetched : List ℕ → Fetched
  fetch_failed : String → Fetched
  out_of_fuel : Fetched

abbrev pub max_chunk : ℕ
max_chunk = 262144

-- A reply in the loop: `next` is the rest of the loop after its bytes.
unfoldable pub use_answer : List ℕ → (List ℕ → Fetched) → Answer → Fetched
use_answer got next (request_failed m) = fetch_failed m
use_answer got next (input_bytes [] eof) = fetch_failed "empty input chunk"
use_answer got next (input_bytes (b ∷ bs) true) = fetched (got ++ b ∷ bs)
use_answer got next (input_bytes (b ∷ bs) false) = next (b ∷ bs)

unfoldable pub fetch_chunks : ℕ → (ℕ → ℕ → Answer) → ℕ → ℕ → List ℕ → Fetched
unfolding use_answer
fetch_chunks zero ask size offset got = out_of_fuel
fetch_chunks (suc fuel) ask size offset got = elim (ltb offset size) [
  | false ↦ fetched got
  | true ↦
      use_answer got (λ bytes. fetch_chunks fuel ask size (offset + length bytes) (got ++ bytes))
        (ask offset (min max_chunk (size - offset)))
]

-- The tests after the loop.
unfoldable pub verify : (List ℕ → String) → String → ℕ → Fetched → Fetched
verify sha256 digest size (fetched bytes) =
    if not (length bytes == size)
    then fetch_failed "input size mismatch"
    else if not (sha256 bytes == digest)
    then fetch_failed "input digest mismatch"
    else fetched bytes
verify sha256 digest size (fetch_failed m) = fetch_failed m
verify sha256 digest size out_of_fuel = out_of_fuel

unfoldable pub fetch_inputs : (List ℕ → String) → (ℕ → ℕ → Answer) → String → ℕ → Fetched
unfolding fetch_chunks verify
fetch_inputs sha256 ask digest size =
    verify sha256 digest size (fetch_chunks (suc size) ask size 0 [])

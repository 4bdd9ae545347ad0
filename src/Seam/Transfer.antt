-- ===== src/Seam/Transfer.antt =====
-- One input across the seam: fetchInputs of apps/worker/seam.mjs against onInputsFetch of
-- apps/poc/supervisor.mjs.
use agentmeld.Prelude.{
  ℕ, zero, suc, ◌+◌, ◌-◌, ◌<◌, ◌≤◌, String, Bool, true, false, some, List, [], ◌∷◌, ◌++◌, ◌≡◌, ◌≢◌,
  refl, ap, min, ltb, leb, length, length-take, length-drop, take, drop, string_eq, nat_eq,
  if◌then◌else◌, arith, inl, inr, Bool-cases, eq_lem, take-add, take_all, ltb→lt,
}
use agentmeld.Prelude.Dict.{get}
use agentmeld.Supervisor.{Turn, nat, Reply, inputs_data, service_error}
use agentmeld.Supervisor.Inputs.{fetch_reply}
use agentmeld.Seam.Fetch.{
  Answer, input_bytes, request_failed, Fetched, fetched, fetch_failed, out_of_fuel, max_chunk,
  fetch_chunks, verify, use_answer, fetch_inputs,
}

-- How the worker reads the service's reply to worker.inputs.fetch.
unfoldable pub read_reply : Reply → Answer
read_reply (inputs_data digest offset bytes eof total) = input_bytes bytes eof
read_reply (service_error code message) = request_failed message
read_reply _ = request_failed "unexpected reply to inputs.fetch"

-- The service as the worker's requests for one digest meet it.
unfoldable pub serve : Turn → String → ℕ → ℕ → Answer
unfolding read_reply
serve t digest offset len = read_reply (fetch_reply digest (nat offset) (nat len) t)

-- The loop ends within its fuel, whatever the service answers.
use_answer_ends :
    (got : List ℕ) (next : List ℕ → Fetched) (a : Answer)
    → ((bytes : List ℕ) → 0 < length bytes → next bytes ≢ out_of_fuel)
    → use_answer got next a ≢ out_of_fuel
unfolding use_answer
use_answer_ends got next (request_failed m) k e = cc
use_answer_ends got next (input_bytes [] eof) k e = cc
use_answer_ends got next (input_bytes (b ∷ bs) true) k e = cc
use_answer_ends got next (input_bytes (b ∷ bs) false) k e = k (b ∷ bs) (omega arith) e

use_answer-bytes :
    (got : List ℕ) (next : List ℕ → Fetched) (bytes : List ℕ) (eof : Bool)
    → 0 < length bytes
    → use_answer got next (input_bytes bytes eof)
      ≡ (if eof then fetched (got ++ bytes) else next bytes)
unfolding use_answer
use_answer-bytes got next [] eof h = absurd (omega arith)
use_answer-bytes got next (b ∷ bs) true h = refl
use_answer-bytes got next (b ∷ bs) false h = refl

module _ (fuel : ℕ) (ask : ℕ → ℕ → Answer) (size offset : ℕ) (got : List ℕ) where
  fetch_chunks-stop :
      ltb offset size ≡ false → fetch_chunks (suc fuel) ask size offset got ≡ fetched got
  unfolding fetch_chunks
  fetch_chunks-stop t = rw (t, fetch_chunks)

  fetch_chunks-round :
      ltb offset size ≡ true
      → fetch_chunks (suc fuel) ask size offset got
        ≡ use_answer got
            (λ bytes. fetch_chunks fuel ask size (offset + length bytes) (got ++ bytes))
            (ask offset (min max_chunk (size - offset)))
  unfolding fetch_chunks
  fetch_chunks-round t = rw (t, fetch_chunks)

fetch_chunks_ends :
    (fuel : ℕ) (ask : ℕ → ℕ → Answer) (size offset : ℕ) (got : List ℕ)
    → size - offset < fuel
    → fetch_chunks fuel ask size offset got ≢ out_of_fuel
fetch_chunks_ends zero ask size offset got h = absurd (omega arith)
fetch_chunks_ends (suc fuel) ask size offset got h = elim (Bool-cases (ltb offset size)) [
  | inl t ↦ rw (fetch_chunks-round fuel ask size offset got t) (
      use_answer_ends got _ _ (λ bytes pos.
        fetch_chunks_ends fuel ask size (offset + length bytes) (got ++ bytes)
          (omega (arith, ltb→lt offset size t))))
  | inr t ↦ rw (fetch_chunks-stop fuel ask size offset got t) (λ x. cc)
]

module _ (t : Turn) (digest : String) (bytes : List ℕ)
    (known : get digest t.blobs ≡ some bytes) where
  -- The answer to a request for `len` bytes from `offset`.
  serve_chunk :
      (offset len : ℕ)
      → 0 < len
      → len ≤ max_chunk
      → offset + len ≤ length bytes
      → serve t digest offset len
        ≡ input_bytes (take len (drop offset bytes)) (leb (length bytes) (offset + len))
  unfolding serve fetch_reply read_reply
  serve_chunk offset len pos small fits =
      ground (arith, known, length-take len (drop offset bytes), length-drop offset bytes)

  -- One round: the bytes so far are `take offset bytes`, and so they are after it.
  round_serve :
      (fuel offset : ℕ)
      → ltb offset (length bytes) ≡ true
      → let len = min max_chunk (length bytes - offset) in
        fetch_chunks (suc fuel) (serve t digest) (length bytes) offset (take offset bytes) ≡ (
          if leb (length bytes) (offset + len)
          then fetched (take (offset + len) bytes)
          else fetch_chunks fuel
              (serve t digest)
              (length bytes)
              (offset + len)
              (take (offset + len) bytes))
  round_serve fuel offset more =
      let len = min max_chunk (length bytes - offset) in
      let below = ltb→lt offset (length bytes) more in
      let chunk = take len (drop offset bytes) in
      let size : length chunk ≡ len =
        omega (arith, length-take len (drop offset bytes), length-drop offset bytes) in
      rw (fetch_chunks-round fuel (serve t digest) (length bytes) offset (take offset bytes) more) (
        rw (serve_chunk offset len (omega arith) (omega arith) (omega arith)) (
          rw
            (use_answer-bytes (take offset bytes) _ chunk (leb (length bytes) (offset + len))
              (omega arith))
            (rw (size, take-add offset len bytes) refl)))

  fetch_chunks-serve :
      (fuel offset : ℕ)
      → offset ≤ length bytes
      → length bytes - offset < fuel
      → fetch_chunks fuel (serve t digest) (length bytes) offset (take offset bytes) ≡ fetched bytes
  fetch_chunks-serve zero offset o h = absurd (omega arith)
  fetch_chunks-serve (suc fuel) offset o h =
      let len = min max_chunk (length bytes - offset) in
      elim (Bool-cases (ltb offset (length bytes))) [
        | inr stop ↦
            rw
              (fetch_chunks-stop fuel (serve t digest) (length bytes) offset (take offset bytes)
                stop)
              (ap fetched (take_all offset bytes (ground arith)))
        | inl more ↦
            let below = ltb→lt offset (length bytes) more in
            rw (round_serve fuel offset more) (
              ground (
                arith,
                take_all (offset + len) bytes,
                fetch_chunks-serve fuel (offset + len) (omega arith) (omega arith),
              ))
      ]

-- An input that the service holds under its digest reaches the worker whole: from the requests that
-- fetchInputs makes and the chunks with which onInputsFetch answers them, the loop rebuilds exactly
-- the bytes, whatever their number, and the tests of the size and the digest pass.
pub fetch_inputs-serve :
    (sha256 : List ℕ → String) (t : Turn) (digest : String) (bytes : List ℕ)
    → get digest t.blobs ≡ some bytes
    → sha256 bytes ≡ digest
    → fetch_inputs sha256 (serve t digest) digest (length bytes) ≡ fetched bytes
unfolding fetch_inputs verify
fetch_inputs-serve sha256 t digest bytes known sum =
    rw (fetch_chunks-serve t digest bytes known (suc (length bytes)) 0 (omega arith) (omega arith))
      (ground (arith, eq_lem (sha256 bytes) digest))

verify_sound :
    (sha256 : List ℕ → String) (digest : String) (size : ℕ) (r : Fetched) (bytes : List ℕ)
    → verify sha256 digest size r ≡ fetched bytes
    → (length bytes ≡ size) × (sha256 bytes ≡ digest)
unfolding verify
verify_sound sha256 digest size (fetched got) bytes h = ground (arith, eq_lem (sha256 got) digest)
verify_sound sha256 digest size (fetch_failed m) bytes h = absurd (cc)
verify_sound sha256 digest size out_of_fuel bytes h = absurd (cc)

verify_ends :
    (sha256 : List ℕ → String) (digest : String) (size : ℕ) (r : Fetched)
    → r ≢ out_of_fuel
    → verify sha256 digest size r ≢ out_of_fuel
unfolding verify
verify_ends sha256 digest size (fetched got) h = ground arith
verify_ends sha256 digest size (fetch_failed m) h = cc
verify_ends sha256 digest size out_of_fuel h = absurd (h refl)

-- Whatever a service answers, fetchInputs comes to an end, and the bytes that it returns have the size
-- and the digest that were asked for.
pub fetch_inputs_safe :
    (sha256 : List ℕ → String) (ask : ℕ → ℕ → Answer) (digest : String) (size : ℕ)
    → (fetch_inputs sha256 ask digest size ≢ out_of_fuel)
      × ((bytes : List ℕ)
          → fetch_inputs sha256 ask digest size ≡ fetched bytes
          → (length bytes ≡ size) × (sha256 bytes ≡ digest))
unfolding fetch_inputs
fetch_inputs_safe sha256 ask digest size = (
  verify_ends sha256 digest size _ (fetch_chunks_ends (suc size) ask size 0 [] (omega arith)),
  λ bytes h. verify_sound sha256 digest size _ bytes h,
)

-- ===== src/Framing.antt =====
-- apps/worker/framing.mjs: JSON lines over the socket of worker-seam/1. A chunk and a line are bytes;
-- what JSON.parse makes of a line, and whether the handler throws on a message, are given.
pub mod Sent
pub mod Errors
use agentmeld.Prelude.Lines.{break_line}
use agentmeld.Prelude.{
  ℕ, zero, suc, String, Bool, true, false, List, [], ◌∷◌, ◌++◌, Option, none, some, ltb, length,
  nat_beq, if◌then◌else◌,
}

-- MAX_FRAME_BYTES
abbrev pub max_frame_bytes : ℕ
max_frame_bytes = 1048576

-- The reader, with the messages and the errors that it has reported.
pub record Reader {ℓ} (M : Type ℓ) : Type ℓ where
  pub buffer : List ℕ
  pub ended : Bool
  pub heard : List M
  pub errors : List String

abbrev pub new_reader {ℓ} : {M : Type ℓ} → Reader M
new_reader = record { buffer = []; ended = false; heard = []; errors = [] }

module _ {ℓ} {M : Type ℓ} (parse : List ℕ → Option M) (throws : M → Option String) where
  unfoldable pub fail_reader : String → Reader M → Reader M
  fail_reader err r =
      if r.ended then r else record r { ended = true; errors = r.errors ++ err ∷ [] }

  -- try { onFrame(msg) } catch (err) { fail(err) }
  unfoldable pub hear : M → Reader M → Reader M
  unfolding fail_reader
  hear m r =
      let r' = record r { heard = r.heard ++ m ∷ [] } in
      elim (throws m) [ none ↦ r' | some err ↦ fail_reader err r' ]

  -- The loop over the complete lines. An unreadable line ends it at once; a handler that throws does not.
  unfoldable pub read_lines : ℕ → Reader M → Reader M
  unfolding break_line hear
  read_lines zero r = r
  read_lines (suc fuel) r = elim (break_line r.buffer) [
    | none ↦ r
    | some ([], rest) ↦ read_lines fuel (record r { buffer = rest })
    | some (b ∷ line, rest) ↦ elim (parse (b ∷ line)) [
      | none ↦ fail_reader "malformed JSON frame" (record r { buffer = rest })
      | some m ↦ read_lines fuel (hear m (record r { buffer = rest }))
    ]
  ]

  -- socket.on('data'). Each turn of the loop takes a newline off the buffer.
  unfoldable pub on_data : ℕ → List ℕ → Reader M → Reader M
  unfolding read_lines
  on_data max_bytes chunk r =
      let r' = record r { buffer = r.buffer ++ chunk } in
      if r.ended
      then r
      else if ltb max_bytes (length r'.buffer)
      then fail_reader "frame exceeds 1 MiB cap" r'
      else read_lines (suc (length r'.buffer)) r'

  unfoldable pub on_chunks : ℕ → List (List ℕ) → Reader M → Reader M
  unfolding on_data
  on_chunks max_bytes [] r = r
  on_chunks max_bytes (c ∷ cs) r = on_chunks max_bytes cs (on_data max_bytes c r)

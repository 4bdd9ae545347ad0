-- ===== src/Sse/Retry.antt =====
-- The reconnect delay that the parser of apps/poc/public/sse-parse.js holds.
use agentmeld.Prelude.{
  ℕ, zero, suc, ◌+◌, ◌≤◌, drop, List, [], ◌∷◌, ◌++◌, Option, none, some, length, ◌≡◌, arith,
  Option-cases, inl, inr, if_elim,
}
use agentmeld.Prelude.Lines.{break_line}
use agentmeld.Prelude.Text.{trim}
use agentmeld.Sse.{
  SseParser, Progress, start, clamp_retry, set_retry, read_field, read_text, drop_return, read_line,
  read_lines, push, push_all,
}

-- A delay, if there is one, within the bounds.
unfoldable pub IsClamped : Option ℕ → Type 0
IsClamped o = (n : ℕ) → o ≡ some n → (500 ≤ n) × (n ≤ 30000)

module _ (to_number : List ℕ → Option ℕ) where
  clamp_retry-IsClamped : (s : List ℕ) → IsClamped (clamp_retry to_number s)
  unfolding IsClamped clamp_retry
  clamp_retry-IsClamped s n e = ground arith

  set_retry-IsClamped :
      (o : Option ℕ) (w : Progress)
      → IsClamped o
      → IsClamped w.retry_ms
      → IsClamped (set_retry o w).retry_ms
  unfolding set_retry
  set_retry-IsClamped none w h i = i
  set_retry-IsClamped (some n) w h i = h

  read_field-IsClamped :
      (line : List ℕ) (w : Progress)
      → IsClamped w.retry_ms
      → IsClamped (read_field to_number line w).retry_ms
  unfolding read_field
  read_field-IsClamped line w i = ground (
    arith,
    set_retry-IsClamped (clamp_retry to_number (trim (drop 6 line))) w
        (clamp_retry-IsClamped (trim (drop 6 line))) i,
  )

  read_text-IsClamped :
      (line : List ℕ) (w : Progress)
      → IsClamped w.retry_ms
      → IsClamped (read_text to_number line w).retry_ms
  unfolding read_text
  read_text-IsClamped [] w i = i
  read_text-IsClamped (c ∷ cs) w i =
      if_elim (λ (v : Progress). IsClamped v.retry_ms) _ _ _ (λ e. i)
        (λ e. read_field-IsClamped (c ∷ cs) w i)

  read_lines-IsClamped :
      (fuel : ℕ) (buf : List ℕ) (w : Progress)
      → IsClamped w.retry_ms
      → IsClamped (read_lines to_number fuel buf w).1.retry_ms
  unfolding read_lines read_line
  read_lines-IsClamped zero buf w i = i
  read_lines-IsClamped (suc fuel) buf w i = elim (Option-cases (break_line buf)) [
    | inl e ↦ ground arith
    | inr ((line, rest), e) ↦ ground (
      arith,
      read_lines-IsClamped fuel rest (read_line to_number line w)
          (read_text-IsClamped (drop_return line) (record w { lines_seen = w.lines_seen + 1 }) i),
    )
  ]

  -- Whatever text arrives, in whatever chunks, the delay that the parser holds is none or between 500
  -- and 30000 milliseconds, if it was so before.
  pub push_all-IsClamped :
      (cs : List (List ℕ)) (p : SseParser)
      → IsClamped p.retry_ms
      → IsClamped (push_all to_number cs p).parser.retry_ms
  unfolding push_all push
  push_all-IsClamped [] p i = i
  push_all-IsClamped (c ∷ cs) p i =
      push_all-IsClamped cs (push to_number c p).parser
        (read_lines-IsClamped (suc (length (p.buf ++ c))) (p.buf ++ c) (start p) i)

-- ===== src/Sse/Chunks.antt =====
-- The parser of apps/poc/public/sse-parse.js reads the same frames however the text is cut.
use agentmeld.Prelude.{
  ℕ, zero, suc, ◌+◌, ◌≤◌, ◌<◌, List, [], ◌∷◌, ◌++◌, Option, none, some, length, ◌≡◌, refl, sym, ap,
  ◌∙◌, arith, append_assoc, append-nil, length-append, subst, Option-cases, inl, inr,
}
use agentmeld.Prelude.Lines.{break_line, joined, break_line-append, length-break_line}
use agentmeld.Sse.{
  Frame, SseParser, Progress, Pushed, start, finish, set_retry, read_field, read_text, drop_return,
  read_line, read_lines, push, push_all,
}

-- No complete line waits.
abbrev pub IsWaiting : SseParser → Type 0
IsWaiting p = break_line p.buf ≡ none

-- Progress that follows other frames.
abbrev after : List Frame → Progress → Progress
after fs w = record w { frames = fs ++ w.frames }

module _ (to_number : List ℕ → Option ℕ) where
  read_field-after :
      (fs : List Frame) (line : List ℕ) (w : Progress)
      → read_field to_number line (after fs w) ≡ after fs (read_field to_number line w)
  unfolding read_field set_retry
  read_field-after fs line w = ground arith

  read_text-after :
      (fs : List Frame) (line : List ℕ) (w : Progress)
      → read_text to_number line (after fs w) ≡ after fs (read_text to_number line w)
  unfolding read_text
  read_text-after fs [] w = ground (arith, append_assoc fs w.frames (w.frame ∷ []))
  read_text-after fs (c ∷ cs) w = ground (arith, read_field-after fs (c ∷ cs) w)

  read_line-after :
      (fs : List Frame) (line : List ℕ) (w : Progress)
      → read_line to_number line (after fs w) ≡ after fs (read_line to_number line w)
  unfolding read_line
  read_line-after fs line w =
      read_text-after fs (drop_return line) (record w { lines_seen = w.lines_seen + 1 })

  read_lines_step :
      (fuel : ℕ) (buf line rest : List ℕ) (w : Progress)
      → break_line buf ≡ some (line, rest)
      → read_lines to_number (suc fuel) buf w
        ≡ read_lines to_number fuel rest (read_line to_number line w)
  unfolding read_lines
  read_lines_step fuel buf line rest w e = ground (arith, e)

  read_lines_stop :
      (fuel : ℕ) (buf : List ℕ) (w : Progress)
      → break_line buf ≡ none
      → read_lines to_number fuel buf w ≡ (buf, w)
  unfolding read_lines
  read_lines_stop zero buf w e = refl
  read_lines_stop (suc fuel) buf w e = ground (arith, e)

  read_lines-after :
      (fuel : ℕ) (fs : List Frame) (buf : List ℕ) (w : Progress)
      → read_lines to_number fuel buf (after fs w)
        ≡ ((read_lines to_number fuel buf w).0, after fs (read_lines to_number fuel buf w).1)
  unfolding read_lines
  read_lines-after zero fs buf w = refl
  read_lines-after (suc fuel) fs buf w = elim (Option-cases (break_line buf)) [
    | inl e ↦
        read_lines_stop (suc fuel) buf (after fs w) e
        ∙ ap (λ (x : List ℕ × Progress). (x.0, after fs x.1))
            (sym (read_lines_stop (suc fuel) buf w e))
    | inr ((line, rest), e) ↦
        read_lines_step fuel buf line rest (after fs w) e
        ∙ ap (read_lines to_number fuel rest) (read_line-after fs line w)
        ∙ read_lines-after fuel fs rest (read_line to_number line w)
        ∙ ap (λ (x : List ℕ × Progress). (x.0, after fs x.1))
            (sym (read_lines_step fuel buf line rest w e))
  ]

  -- Any fuel above the buffer's length is enough.
  read_lines_enough :
      (f g : ℕ) (buf : List ℕ) (w : Progress)
      → length buf < f
      → length buf < g
      → read_lines to_number f buf w ≡ read_lines to_number g buf w
  read_lines_enough zero g buf w hf hg = absurd (omega arith)
  read_lines_enough (suc f) zero buf w hf hg = absurd (omega arith)
  read_lines_enough (suc f) (suc g) buf w hf hg = elim (Option-cases (break_line buf)) [
    | inl e ↦ read_lines_stop (suc f) buf w e ∙ sym (read_lines_stop (suc g) buf w e)
    | inr ((line, rest), e) ↦
        read_lines_step f buf line rest w e
        ∙ read_lines_enough f g rest (read_line to_number line w)
            (omega (arith, length-break_line buf line rest e))
            (omega (arith, length-break_line buf line rest e))
        ∙ sym (read_lines_step g buf line rest w e)
  ]

  -- The loop over a text is the loop over its beginning and then over what that left and the rest.
  read_lines-split :
      (f g : ℕ) (buf tail : List ℕ) (w : Progress)
      → length buf < f
      → length (buf ++ tail) < g
      → read_lines to_number g (buf ++ tail) w
        ≡ read_lines to_number g
            ((read_lines to_number f buf w).0 ++ tail)
            (read_lines to_number f buf w).1
  read_lines-split zero g buf tail w hf hg = absurd (omega arith)
  read_lines-split (suc f) zero buf tail w hf hg = absurd (omega arith)
  read_lines-split (suc f) (suc g) buf tail w hf hg = elim (Option-cases (break_line buf)) [
    | inl e ↦ ap again (sym (read_lines_stop (suc f) buf w e))
    | inr ((line, rest), e) ↦
        read_lines_step g (buf ++ tail) line (rest ++ tail) w
          (break_line-append buf tail line rest e)
        ∙ read_lines_enough g (suc g) (rest ++ tail) (read_line to_number line w)
            (shorter line rest e) (omega (arith, shorter line rest e))
        ∙ read_lines-split f (suc g) rest tail (read_line to_number line w)
            (omega (arith, length-break_line buf line rest e)) (omega (arith, shorter line rest e))
        ∙ ap again (sym (read_lines_step f buf line rest w e))
  ]
    where
      again : List ℕ × Progress → List ℕ × Progress
      again x = read_lines to_number (suc g) (x.0 ++ tail) x.1

      shorter :
          (line rest : List ℕ) → break_line buf ≡ some (line, rest) → length (rest ++ tail) < g
      shorter line rest e = omega (
        arith,
        length-break_line buf line rest e,
        length-append rest tail,
        length-append buf tail,
      )

  -- What the loop leaves.
  read_lines-unread :
      (f : ℕ) (buf : List ℕ) (w : Progress)
      → length buf < f
      → (break_line (read_lines to_number f buf w).0 ≡ none)
        × (length (read_lines to_number f buf w).0 ≤ length buf)
  read_lines-unread zero buf w hf = absurd (omega arith)
  read_lines-unread (suc f) buf w hf = elim (Option-cases (break_line buf)) [
    | inl e ↦ subst Unread (sym (read_lines_stop (suc f) buf w e)) (e, omega arith)
    | inr ((line, rest), e) ↦
        let i =
          read_lines-unread f rest (read_line to_number line w)
            (omega (arith, length-break_line buf line rest e)) in
        subst Unread (sym (read_lines_step f buf line rest w e))
          (i.0, omega (arith, i.1, length-break_line buf line rest e))
  ]
    where
      Unread : List ℕ × Progress → Type 0
      Unread x = (break_line x.0 ≡ none) × (length x.0 ≤ length buf)

  -- A call of push that goes on from where the loop stopped.
  resume :
      (tail : List ℕ) (x : List ℕ × Progress)
      → finish (read_lines to_number (suc (length (x.0 ++ tail))) (x.0 ++ tail) x.1) ≡ record {
        parser = (push to_number tail (finish x).parser).parser;
        frames = x.1.frames ++ (push to_number tail (finish x).parser).frames;
      }
  unfolding push
  resume tail (rest, w) =
      ap (λ v. finish (read_lines to_number (suc (length (rest ++ tail))) (rest ++ tail) v))
        (let e : w ≡ after w.frames (start (finish (rest, w)).parser) =
            ap (λ fs. record w { frames = fs }) (sym (append-nil w.frames)) in
          e)
      ∙ ap finish (
          read_lines-after (suc (length (rest ++ tail))) w.frames (rest ++ tail)
            (start (finish (rest, w)).parser))

  -- Two chunks read as one.
  push-append :
      (c tail : List ℕ) (p : SseParser)
      → push to_number (c ++ tail) p ≡ record {
        parser = (push to_number tail (push to_number c p).parser).parser;
        frames =
            (push to_number c p).frames ++ (push to_number tail (push to_number c p).parser).frames;
      }
  unfolding push
  push-append c tail p =
      ap whole (sym (append_assoc p.buf c tail))
      ∙ ap finish (
          read_lines-split (suc (length (p.buf ++ c))) (suc (length ((p.buf ++ c) ++ tail)))
            (p.buf ++ c) tail (start p) (omega arith) (omega arith))
      ∙ ap finish (
          read_lines_enough (suc (length ((p.buf ++ c) ++ tail))) (suc (length (first.0 ++ tail)))
            (first.0 ++ tail) first.1 (omega (arith, fits)) (omega arith))
      ∙ resume tail first
    where
      first : List ℕ × Progress
      first = read_lines to_number (suc (length (p.buf ++ c))) (p.buf ++ c) (start p)

      whole : List ℕ → Pushed
      whole buf = finish (read_lines to_number (suc (length buf)) buf (start p))

      fits : length (first.0 ++ tail) ≤ length ((p.buf ++ c) ++ tail)
      fits = omega (
        arith,
        length-append first.0 tail,
        length-append (p.buf ++ c) tail,
        (read_lines-unread (suc (length (p.buf ++ c))) (p.buf ++ c) (start p) (omega arith)).1,
      )

  push-IsWaiting : (c : List ℕ) (p : SseParser) → IsWaiting (push to_number c p).parser
  unfolding push
  push-IsWaiting c p =
      (read_lines-unread (suc (length (p.buf ++ c))) (p.buf ++ c) (start p) (omega arith)).0

  push_nothing :
      (p : SseParser) → IsWaiting p → push to_number [] p ≡ record { parser = p; frames = [] }
  unfolding push
  push_nothing p h =
      ap (λ buf. finish (read_lines to_number (suc (length buf)) buf (start p))) (append-nil p.buf)
      ∙ ap finish (read_lines_stop (suc (length p.buf)) p.buf (start p) h)

  -- Chunks of a text give the frames that the whole text gives, in order, and leave the parser as the
  -- whole text does, wherever the text is cut, if no complete line waits in the parser.
  pub push_all-joined :
      (cs : List (List ℕ)) (p : SseParser)
      → IsWaiting p
      → push_all to_number cs p ≡ push to_number (joined cs) p
  unfolding push_all joined
  push_all-joined [] p h = sym (push_nothing p h)
  push_all-joined (c ∷ cs) p h =
      ap
        (λ (rest : Pushed).
          let r : Pushed = record {
            parser = rest.parser;
            frames = (push to_number c p).frames ++ rest.frames;
          } in
          r)
        (push_all-joined cs (push to_number c p).parser (push-IsWaiting c p))
      ∙ sym (push-append c (joined cs) p)

-- ===== src/Framing/Sent.antt =====
-- The reader of apps/worker/framing.mjs against sendFrame: what one side sends, the other side hears.
use agentmeld.Prelude.{
  ℕ, zero, suc, ◌+◌, ◌≤◌, ◌<◌, String, false, List, [], ◌∷◌, ◌++◌, Option, none, some, length, ◌≡◌,
  ◌≢◌, refl, sym, ap, ◌∙◌, arith, append_assoc, append-nil, length-append, All, subst, Option-cases,
  inl, inr,
}
use agentmeld.Prelude.Lines.{newline, break_line, joined, break_line-append, length-break_line}
use agentmeld.Framing.{Reader, new_reader, hear, read_lines, on_data, on_chunks}

-- A text without a newline, and then a newline.
break_line-line :
    (line rest : List ℕ)
    → break_line line ≡ none
    → break_line (line ++ newline ∷ rest) ≡ some (line, rest)
unfolding break_line
break_line-line [] rest h = refl
break_line-line (b ∷ line) rest h = elim (Option-cases (break_line line)) [
  | inl e ↦ ground (arith, break_line-line line rest e)
  | inr ((l, r), e) ↦ absurd (ground arith)
]

-- What is left unread ends before the newline does.
length-unread :
    (bs tail line rest : List ℕ)
    → break_line bs ≡ none
    → bs ++ tail ≡ line ++ newline ∷ rest
    → length bs ≤ length line
unfolding break_line
length-unread [] tail line rest h e = omega arith
length-unread (b ∷ bs) tail [] rest h e = absurd (ground arith)
length-unread (b ∷ bs) tail (d ∷ line) rest h e = elim (Option-cases (break_line bs)) [
  | inl u ↦ ground (arith, length-unread bs tail line rest u)
  | inr ((l, r), u) ↦ absurd (ground arith)
]

length-none : (bs tail : List ℕ) (n : ℕ) → bs ++ tail ≡ [] → length bs ≤ n
length-none [] tail n e = omega arith
length-none (b ∷ bs) tail n e = absurd (ground arith)

module _ {ℓ} {M : Type ℓ} (encode : M → List ℕ) where
  -- The bytes that sendFrame writes for messages.
  unfoldable pub written : List M → List ℕ
  written [] = []
  written (m ∷ ms) = encode m ++ newline ∷ written ms

  -- An encoding that the reader can take apart: JSON.stringify writes no raw newline and no empty
  -- text, and JSON.parse reads what it wrote. No frame is longer than `size`.
  pub record IsCodec (parse : List ℕ → Option M) (size : ℕ) : Type ℓ where
    pub one_line : (m : M) → break_line (encode m) ≡ none
    pub nonempty : (m : M) → encode m ≢ []
    pub read_back : (m : M) → parse (encode m) ≡ some m
    pub short : (m : M) → length (encode m) ≤ size

module _ {ℓ} {M : Type ℓ} (parse : List ℕ → Option M) (throws : M → Option String) where
  read_lines_stop :
      (fuel : ℕ) (r : Reader M)
      → break_line r.buffer ≡ none
      → read_lines parse throws (suc fuel) r ≡ r
  unfolding read_lines
  read_lines_stop fuel r e = ground (arith, e)

  read_lines_step :
      (fuel : ℕ) (r : Reader M) (line rest : List ℕ) (m : M)
      → break_line r.buffer ≡ some (line, rest)
      → line ≢ []
      → parse line ≡ some m
      → throws m ≡ none
      → read_lines parse throws (suc fuel) r
        ≡ read_lines parse throws fuel (record r { buffer = rest; heard = r.heard ++ m ∷ [] })
  unfolding read_lines hear
  read_lines_step fuel r [] rest m e n p t = absurd (n refl)
  read_lines_step fuel r (b ∷ line) rest m e n p t = ground (arith, e, p, t)

  on_data_fits :
      (limit : ℕ) (chunk : List ℕ) (r : Reader M)
      → r.ended ≡ false
      → length (r.buffer ++ chunk) ≤ limit
      → on_data parse throws limit chunk r
        ≡ read_lines parse throws
            (suc (length (r.buffer ++ chunk)))
            (record r { buffer = r.buffer ++ chunk })
  unfolding on_data
  on_data_fits limit chunk r live fits = ground (arith, live)

  module _ (encode : M → List ℕ) (size : ℕ) (codec : IsCodec encode parse size)
      (quiet : (m : M) → throws m ≡ none) where
    -- A reader that has heard some of the messages, with the rest in its buffer and on the wire.
    record IsMid (all : List M) (tail : List ℕ) (todo : List M) (r : Reader M) : Type ℓ where
      order : r.heard ++ todo ≡ all
      bytes : r.buffer ++ tail ≡ written encode todo
      live : r.ended ≡ false
      clean : r.errors ≡ []

    -- Such a reader with no complete line in its buffer.
    record IsRead (all : List M) (tail : List ℕ) (r : Reader M) : Type ℓ where
      todo : List M
      mid : IsMid all tail todo r
      unread : break_line r.buffer ≡ none

    -- A line of the buffer is the first message that is not heard yet.
    first_frame :
        (all : List M) (tail line rest : List ℕ) (todo : List M) (r : Reader M)
        → IsMid all tail todo r
        → break_line r.buffer ≡ some (line, rest)
        → (m : M) × (ms : List M) × (todo ≡ m ∷ ms)
          × (line ≡ encode m)
          × (rest ++ tail ≡ written encode ms)
    unfolding written break_line
    first_frame all tail line rest [] r i e =
        absurd
          (let h = sym (break_line-append r.buffer tail line rest e) ∙ ap break_line i.bytes in cc)
    first_frame all tail line rest (m ∷ ms) r i e =
        let h =
          sym (break_line-append r.buffer tail line rest e)
          ∙ ap break_line i.bytes
          ∙ break_line-line (encode m) (written encode ms) (codec.one_line m) in
        (m, ms, refl, cc, cc)

    read_lines-IsRead :
        (fuel : ℕ) (all : List M) (tail : List ℕ) (todo : List M) (r : Reader M)
        → length r.buffer < fuel
        → IsMid all tail todo r
        → IsRead all tail (read_lines parse throws fuel r)
    read_lines-IsRead zero all tail todo r f i = absurd (omega arith)
    read_lines-IsRead (suc fuel) all tail todo r f i = elim (Option-cases (break_line r.buffer)) [
      | inl e ↦
          subst (IsRead all tail) (sym (read_lines_stop fuel r e))
            (record { todo = todo; mid = i; unread = e })
      | inr ((line, rest), e) ↦
          let (m, ms, w, l, b) = first_frame all tail line rest todo r i e in
          subst (IsRead all tail)
            (sym (
              read_lines_step fuel r line rest m e (λ n. codec.nonempty m (sym l ∙ n))
                (ap parse l ∙ codec.read_back m) (quiet m)))
            (read_lines-IsRead fuel all tail ms
              (record r { buffer = rest; heard = r.heard ++ m ∷ [] })
              (omega (arith, length-break_line r.buffer line rest e))
              (record {
                order =
                    append_assoc r.heard (m ∷ []) ms ∙ ap (λ ts. r.heard ++ ts) (sym w) ∙ i.order;
                bytes = b;
                live = i.live;
                clean = i.clean;
              }))
    ]

    -- What waits in the buffer is shorter than a frame.
    length-buffer :
        (all : List M) (tail : List ℕ) (r : Reader M) → IsRead all tail r → length r.buffer ≤ size
    unfolding written
    length-buffer all tail r i =
        elim i.todo as (λ todo. IsMid all tail todo r → length r.buffer ≤ size) [
          | [] ↦ λ j. length-none r.buffer tail size j.bytes
          | m ∷ ms ↦ λ j. omega (
            arith,
            length-unread r.buffer tail (encode m) (written encode ms) i.unread j.bytes,
            codec.short m,
          )
        ]
          i.mid

    on_data-IsRead :
        (limit : ℕ) (all : List M) (chunk tail : List ℕ) (r : Reader M)
        → length chunk + size ≤ limit
        → IsRead all (chunk ++ tail) r
        → IsRead all tail (on_data parse throws limit chunk r)
    on_data-IsRead limit all chunk tail r short i =
        subst (IsRead all tail)
          (sym (
            on_data_fits limit chunk r i.mid.live
              (omega (arith, length-append r.buffer chunk, length-buffer all (chunk ++ tail) r i))))
          (read_lines-IsRead (suc (length (r.buffer ++ chunk))) all tail i.todo
            (record r { buffer = r.buffer ++ chunk }) (omega arith)
            (record {
              order = i.mid.order;
              bytes = append_assoc r.buffer chunk tail ∙ i.mid.bytes;
              live = i.mid.live;
              clean = i.mid.clean;
            }))

    on_chunks-IsRead :
        (limit : ℕ) (all : List M) (chunks : List (List ℕ)) (r : Reader M)
        → All (λ c. length c + size ≤ limit) chunks
        → IsRead all (joined chunks) r
        → IsRead all [] (on_chunks parse throws limit chunks r)
    unfolding on_chunks joined
    on_chunks-IsRead limit all [] r h i = i
    on_chunks-IsRead limit all (c ∷ cs) r h i =
        on_chunks-IsRead limit all cs (on_data parse throws limit c r) h.1
          (on_data-IsRead limit all c (joined cs) r h.0 i)

    -- A reader whose wire is empty has heard everything.
    heard_all :
        (all : List M) (r : Reader M)
        → IsRead all [] r
        → r ≡ record { buffer = []; ended = false; heard = all; errors = [] }
    unfolding written
    heard_all all r i =
        elim i.todo
            as (λ todo.
              IsMid all [] todo r
              → r ≡ record { buffer = []; ended = false; heard = all; errors = [] }) [
                | [] ↦ λ j. ground (
                  arith,
                  j.live,
                  j.clean,
                  append-nil r.buffer,
                  append-nil r.heard,
                  j.order,
                  j.bytes,
                )
                | m ∷ ms ↦ λ j. absurd (
                    let h =
                      sym i.unread
                      ∙ ap break_line (sym (append-nil r.buffer) ∙ j.bytes)
                      ∙ break_line-line (encode m) (written encode ms) (codec.one_line m) in
                    cc)
              ]
          i.mid

    -- Messages that one side writes reach the handler of the other side, all of them and in order, and
    -- leave the reader live and its buffer empty, however the socket cuts the bytes into chunks: if the
    -- encoding is a codec whose frames have at most `size` bytes, no chunk is longer than the limit less
    -- `size`, and the handler does not throw.
    pub on_chunks-written :
        (limit : ℕ) (chunks : List (List ℕ)) (ms : List M)
        → All (λ c. length c + size ≤ limit) chunks
        → joined chunks ≡ written encode ms
        → on_chunks parse throws limit chunks new_reader
          ≡ record { buffer = []; ended = false; heard = ms; errors = [] }
    unfolding break_line
    on_chunks-written limit chunks ms h e =
        heard_all ms (on_chunks parse throws limit chunks new_reader) (
          on_chunks-IsRead limit ms chunks new_reader h (record {
            todo = ms;
            mid = record { order = refl; bytes = e; live = refl; clean = refl };
            unread = refl;
          }))

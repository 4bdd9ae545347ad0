-- ===== src/Framing/Errors.antt =====
-- The cap and the errors of the reader of apps/worker/framing.mjs.
use agentmeld.Prelude.{
  ℕ, zero, suc, ◌≤◌, String, true, false, List, [], ◌∷◌, ◌++◌, Option, none, some, ltb, length, ◌≡◌,
  arith, Option-cases, inl, inr, if_elim, subst,
}
use agentmeld.Prelude.Lines.{break_line, length-break_line}
use agentmeld.Framing.{Reader, fail_reader, hear, read_lines, on_data, on_chunks}

-- A live reader has reported no error and buffers no more than the limit; an ended one has reported
-- one error.
pub record IsTame {ℓ} {M : Type ℓ} (limit : ℕ) (r : Reader M) : Type 0 where
  pub live_clean : r.ended ≡ false → r.errors ≡ []
  pub live_small : r.ended ≡ false → length r.buffer ≤ limit
  pub one_error : r.ended ≡ true → length r.errors ≡ 1

module _ {ℓ} {M : Type ℓ} (parse : List ℕ → Option M) (throws : M → Option String) (limit : ℕ) where
  fail_reader-IsTame :
      (err : String) (r : Reader M)
      → (r.ended ≡ false → r.errors ≡ [])
      → (r.ended ≡ true → length r.errors ≡ 1)
      → IsTame limit (fail_reader parse throws err r)
  unfolding fail_reader
  fail_reader-IsTame err r c o =
      if_elim (IsTame limit) r.ended _ _
        (λ e. record { live_clean = c; live_small = λ f. absurd (ground arith); one_error = o })
        (λ e. record {
          live_clean = λ f. absurd (ground arith);
          live_small = λ f. absurd (ground arith);
          one_error = λ f. ground (arith, c e);
        })

  hear-IsTame : (m : M) (r : Reader M) → IsTame limit r → IsTame limit (hear parse throws m r)
  unfolding hear fail_reader
  hear-IsTame m r i = heard (throws m)
    where
      more : Reader M
      more = record r { heard = r.heard ++ m ∷ [] }

      heard :
          (o : Option String)
          → IsTame limit (elim o as (λ _. Reader M) [
            | none ↦ more
            | some err ↦ fail_reader parse throws err more
          ])
      heard none = record {
        live_clean = i.live_clean;
        live_small = i.live_small;
        one_error = i.one_error;
      }
      heard (some err) = fail_reader-IsTame err more i.live_clean i.one_error

  shrink-IsTame :
      (r : Reader M) (rest : List ℕ)
      → suc (length rest) ≤ length r.buffer
      → IsTame limit r
      → IsTame limit (record r { buffer = rest })
  shrink-IsTame r rest h i = record {
    live_clean = i.live_clean;
    live_small = λ e. omega (arith, h, i.live_small e);
    one_error = i.one_error;
  }

  read_lines-IsTame :
      (fuel : ℕ) (r : Reader M) → IsTame limit r → IsTame limit (read_lines parse throws fuel r)
  unfolding read_lines
  read_lines-IsTame zero r i = i
  read_lines-IsTame (suc fuel) r i = elim (Option-cases (break_line r.buffer)) [
    | inl e ↦
        subst (IsTame limit)
          (let q : r ≡ read_lines parse throws (suc fuel) r = ground (arith, e) in q) i
    | inr (([], rest), e) ↦
        let s = shrink-IsTame r rest (length-break_line r.buffer [] rest e) i in
        subst (IsTame limit)
          (let q : read_lines parse throws fuel (record r { buffer = rest })
                ≡ read_lines parse throws (suc fuel) r =
              ground (arith, e) in
            q)
          (read_lines-IsTame fuel (record r { buffer = rest }) s)
    | inr ((b ∷ line, rest), e) ↦
        let s = shrink-IsTame r rest (length-break_line r.buffer (b ∷ line) rest e) i in
        elim (Option-cases (parse (b ∷ line))) [
          | inl p ↦
              subst (IsTame limit)
                (let q : fail_reader parse throws "malformed JSON frame"
                        (record r { buffer = rest })
                      ≡ read_lines parse throws (suc fuel) r =
                    ground (arith, e, p) in
                  q)
                (fail_reader-IsTame "malformed JSON frame" (record r { buffer = rest }) s.live_clean
                  s.one_error)
          | inr (m, p) ↦
              subst (IsTame limit)
                (let q : read_lines parse throws fuel
                        (hear parse throws m (record r { buffer = rest }))
                      ≡ read_lines parse throws (suc fuel) r =
                    ground (arith, e, p) in
                  q)
                (read_lines-IsTame fuel (hear parse throws m (record r { buffer = rest }))
                  (hear-IsTame m (record r { buffer = rest }) s))
        ]
  ]

  -- Whatever arrives, the reader reports at most one error, and while it is live it has reported none and
  -- its buffer is within the limit.
  pub on_chunks-IsTame :
      (cs : List (List ℕ)) (r : Reader M)
      → IsTame limit r
      → IsTame limit (on_chunks parse throws limit cs r)
  unfolding on_chunks on_data
  on_chunks-IsTame [] r i = i
  on_chunks-IsTame (c ∷ cs) r i = on_chunks-IsTame cs (on_data parse throws limit c r) (
      if_elim (IsTame limit) r.ended _ _ (λ e. i)
        (λ live.
          if_elim (IsTame limit) (ltb limit (length (r.buffer ++ c))) _ _
            (λ e.
              fail_reader-IsTame "frame exceeds 1 MiB cap" (record r { buffer = r.buffer ++ c })
                i.live_clean i.one_error)
            (λ e.
              read_lines-IsTame (suc (length (r.buffer ++ c))) (record r { buffer = r.buffer ++ c })
                (record {
                  live_clean = i.live_clean;
                  live_small = λ f. ground arith;
                  one_error = i.one_error;
                }))))

-- ===== src/Runtime/Changed.antt =====
-- The selection of changed files in apps/worker/runtime.mjs against a filter of the snapshot.
use agentmeld.Prelude.{
  ℕ, ◌+◌, ◌≤◌, Bool, true, false, not, String, List, [], ◌∷◌, ◌≡◌, refl, length, arith, map, select,
  every, ltb, leb, Bool-cases, inl, inr, ◌&&◌,
}
use agentmeld.Runtime.{Input, Row, World}
use agentmeld.Runtime.Output.{changed, refused, supported, skipped, select_changed, max_output}

-- The rows that are outputs, and the sum of their bytes.
unfoldable pub outputs : World → List Input → List Row → List (String × List ℕ)
unfolding select
outputs w inputs fs =
    map (λ (f : Row). (f.name, f.content)) (select (λ f. not (skipped w inputs f)) fs)

unfoldable pub bytes_of : List (String × List ℕ) → ℕ
bytes_of [] = 0
bytes_of ((name, bytes) ∷ fs) = length bytes + bytes_of fs

-- A snapshot that the loop takes whole.
unfoldable pub accepted : World → List Input → ℕ → List Row → Bool
unfolding every outputs bytes_of
accepted w inputs n fs = every supported fs && leb (n + bytes_of (outputs w inputs fs)) max_output

select_changed_from :
    (w : World) (inputs : List Input) (n : ℕ) (fs : List Row)
    → n ≤ max_output
    → accepted w inputs n fs ≡ true
    → select_changed w inputs n fs ≡ changed (outputs w inputs fs)
unfolding select_changed accepted outputs select every bytes_of
select_changed_from w inputs n [] low h = refl
select_changed_from w inputs n (f ∷ fs) low h = elim (Bool-cases (skipped w inputs f)) [
  | inl e ↦ ground (arith, h, e, select_changed_from w inputs n fs low (ground (arith, h, e)))
  | inr e ↦ ground (
    arith,
    h,
    e,
    select_changed_from w inputs (n + length f.content) fs (ground (arith, h, e))
        (ground (arith, h, e)),
  )
]

select_changed_refused :
    (w : World) (inputs : List Input) (n : ℕ) (fs : List Row)
    → n ≤ max_output
    → accepted w inputs n fs ≡ false
    → (message : String) × (select_changed w inputs n fs ≡ refused message)
unfolding select_changed accepted outputs select every bytes_of
select_changed_refused w inputs n [] low h = absurd (ground (arith, h))
select_changed_refused w inputs n (f ∷ fs) low h = elim (Bool-cases (supported f)) [
  | inr s ↦ ("Unsupported workspace name", ground (arith, s))
  | inl s ↦ elim (Bool-cases (skipped w inputs f)) [
    | inl e ↦
        let (m, p) = select_changed_refused w inputs n fs low (ground (arith, h, s, e)) in
        (m, ground (arith, s, e, p))
    | inr e ↦ elim (Bool-cases (ltb max_output (n + length f.content))) [
      | inl o ↦ ("Output limit exceeded", ground (arith, s, e, o))
      | inr o ↦
          let (m, p) =
            select_changed_refused w inputs (n + length f.content) fs (ground (arith, o))
              (ground (arith, h, s, e)) in
          (m, ground (arith, s, e, o, p))
    ]
  ]
]

-- The loop over the snapshot selects the rows that are outputs, in their order, exactly when each row of the
-- snapshot has a supported name and the outputs have at most 8 MiB together; otherwise it throws.
pub select_changed-outputs :
    (w : World) (inputs : List Input) (fs : List Row)
    → (accepted w inputs 0 fs ≡ true → select_changed w inputs 0 fs ≡ changed (outputs w inputs fs))
      × (accepted w inputs 0 fs ≡ false
          → (message : String) × (select_changed w inputs 0 fs ≡ refused message))
select_changed-outputs w inputs fs = (
  select_changed_from w inputs 0 fs (omega arith),
  select_changed_refused w inputs 0 fs (omega arith),
)

-- ===== src/Prelude/Sorting.antt =====
-- `Array.sort` with a comparison: a stable sort. `before x y` says that x stands strictly before y.
use Prim.Native.Nat.{ℕ, zero, suc}
use mathlib.Core.Path.{◌≡◌, refl, sym, ap, subst, ◌∙◌}
use mathlib.Core.Bool.{Bool, true, false}
use mathlib.Core.List.{List, [], ◌∷◌}
use native.Mathlib.Omega.{arith}
use agentmeld.Prelude.Tests.{if◌then◌else◌}
use agentmeld.Prelude.Lists.{select, take, take-nil}

module _ {ℓ} {A : Type ℓ} (before : A → A → Bool) where
  unfoldable pub insert_by : A → List A → List A
  insert_by x [] = x ∷ []
  insert_by x (y ∷ ys) = let rest = insert_by x ys in if before y x then y ∷ rest else x ∷ y ∷ ys

  unfoldable pub sort_by : List A → List A
  unfolding insert_by
  sort_by [] = []
  sort_by (x ∷ xs) = insert_by x (sort_by xs)

  -- No element stands before its left neighbour.
  abbrev pub IsSortedBy : List A → Type 0
  IsSortedBy [] = Unit
  IsSortedBy (x ∷ []) = Unit
  IsSortedBy (x ∷ y ∷ ys) = (before y x ≡ false) × IsSortedBy (y ∷ ys)

  insert_by-IsSortedBy :
      (x : A) (ys : List A)
      → ((a b : A) → before a b ≡ true → before b a ≡ false)
      → IsSortedBy ys
      → IsSortedBy (insert_by x ys)
  unfolding insert_by
  insert_by-IsSortedBy x [] asym h = tt
  insert_by-IsSortedBy x (y ∷ []) asym h = ground (arith, asym y x)
  insert_by-IsSortedBy x (y ∷ z ∷ zs) asym h =
      ground (arith, asym y x, asym z x, insert_by-IsSortedBy x (z ∷ zs) asym h.1)

  pub sort_by-IsSortedBy :
      (xs : List A) → ((a b : A) → before a b ≡ true → before b a ≡ false) → IsSortedBy (sort_by xs)
  unfolding sort_by
  sort_by-IsSortedBy [] asym = tt
  sort_by-IsSortedBy (x ∷ xs) asym =
      insert_by-IsSortedBy x (sort_by xs) asym (sort_by-IsSortedBy xs asym)

  -- Elements that a test keeps, and that never stand before each other, keep their order.
  select-insert_by :
      (p : A → Bool) (x : A) (ys : List A)
      → ((a b : A) → p a ≡ true → p b ≡ true → before a b ≡ false)
      → select p (insert_by x ys) ≡ select p (x ∷ ys)
  unfolding select insert_by
  select-insert_by p x [] tie = refl
  select-insert_by p x (y ∷ ys) tie = ground (arith, tie y x, select-insert_by p x ys tie)

  pub select-sort_by :
      (p : A → Bool) (xs : List A)
      → ((a b : A) → p a ≡ true → p b ≡ true → before a b ≡ false)
      → select p (sort_by xs) ≡ select p xs
  unfolding select sort_by
  select-sort_by p [] tie = refl
  select-sort_by p (x ∷ xs) tie =
      select-insert_by p x (sort_by xs) tie ∙ ground (arith, select-sort_by p xs tie)

  pub take-IsSortedBy : (n : ℕ) (xs : List A) → IsSortedBy xs → IsSortedBy (take n xs)
  take-IsSortedBy zero xs h = tt
  take-IsSortedBy (suc n) [] h = tt
  take-IsSortedBy (suc n) (x ∷ []) h = subst IsSortedBy (ap (λ ys. x ∷ ys) (sym (take-nil n))) tt
  take-IsSortedBy (suc zero) (x ∷ y ∷ ys) h = tt
  take-IsSortedBy (suc (suc n)) (x ∷ y ∷ ys) h = (h.0, take-IsSortedBy (suc n) (y ∷ ys) h.1)

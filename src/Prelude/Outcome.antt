-- ===== src/Prelude/Outcome.antt =====
-- Code that mutates an object and may throw. What was written before the throw stays written, so
-- both cases carry the state.
use Prim.Native.String.{String}
use mathlib.Core.Path.{◌≡◌, refl}
use mathlib.Core.List.{List, [], ◌∷◌}
use agentmeld.Prelude.Lists.{All}
use mathlib.Core.Logic.{◌⊎◌, inl, inr}

pub data Outcome {ℓ} (S : Type ℓ) : Type ℓ where
  done : S → Outcome S
  threw : String → S → Outcome S

module _ {ℓ} {S : Type ℓ} where
  -- The object as the code leaves it.
  abbrev pub left : Outcome S → S
  left (done s) = s
  left (threw e s) = s

  infixl 5 ◌then_do◌
  -- Statements in sequence.
  abbrev pub ◌then_do◌ : Outcome S → (S → Outcome S) → Outcome S
  done s then_do f = f s
  threw e s then_do f = threw e s

  -- To split on a computed outcome and keep the equation.
  pub Outcome-cases :
      (o : Outcome S) → ((s : S) × (o ≡ done s)) ⊎ ((e : String) × (s : S) × (o ≡ threw e s))
  Outcome-cases (done s) = inl (s, refl)
  Outcome-cases (threw e s) = inr (e, s, refl)

  -- A list of statements in sequence.
  unfoldable pub in_order : List (S → Outcome S) → S → Outcome S
  in_order [] s = done s
  in_order (f ∷ fs) s = f s then_do in_order fs

  -- What each statement of two keeps, the sequence keeps.
  pub in_turn {κ} :
      (P : S → Type κ) (o : Outcome S) (f : S → Outcome S)
      → P (left o)
      → ((s : S) → P s → P (left (f s)))
      → P (left (o then_do f))
  in_turn P (done s) f p q = q s p
  in_turn P (threw e s) f p q = p

  -- What each statement of a list keeps, the sequence keeps.
  pub in_order-All {κ} :
      (P : S → Type κ) (fs : List (S → Outcome S)) (s : S)
      → All (λ f. (t : S) → P t → P (left (f t))) fs
      → P s
      → P (left (in_order fs s))
  unfolding in_order
  in_order-All P [] s h p = p
  in_order-All P (f ∷ fs) s h p =
      in_turn P (f s) (in_order fs) (h.0 s p) (λ t. in_order-All P fs t h.1)

  -- What holds of a state that the code reaches without a throw.
  abbrev pub WhenDone {κ} : (S → Type κ) → Outcome S → Type κ
  WhenDone P (done s) = P s
  WhenDone P (threw e s) = Unit

  -- The last statement of a list gives P to a state that has I, unless it throws.
  abbrev pub Last {κ μ} : (S → Type κ) → (S → Type μ) → List (S → Outcome S) → Type (ℓ ⊔ κ ⊔ μ)
  Last I P [] = (s : S) → I s → P s
  Last I P (f ∷ []) = (s : S) → I s → WhenDone P (f s)
  Last I P (f ∷ g ∷ fs) = Last I P (g ∷ fs)

  WhenDone-then_do {κ μ} :
      (I : S → Type κ) (P : S → Type μ) (o : Outcome S) (f : S → Outcome S)
      → I (left o)
      → ((s : S) → I s → WhenDone P (f s))
      → WhenDone P (o then_do f)
  WhenDone-then_do I P (done s) f i q = q s i
  WhenDone-then_do I P (threw e s) f i q = tt

  WhenDone-done {κ} : (P : S → Type κ) (o : Outcome S) → WhenDone P o → WhenDone P (o then_do done)
  WhenDone-done P (done s) p = p
  WhenDone-done P (threw e s) p = tt

  pub in_order-Last {κ μ} :
      (I : S → Type κ) (P : S → Type μ) (fs : List (S → Outcome S)) (s : S)
      → All (λ f. (t : S) → I t → I (left (f t))) fs
      → Last I P fs
      → I s
      → WhenDone P (in_order fs s)
  unfolding in_order
  in_order-Last I P [] s h l i = l s i
  in_order-Last I P (f ∷ []) s h l i = WhenDone-done P (f s) (l s i)
  in_order-Last I P (f ∷ g ∷ fs) s h l i =
      WhenDone-then_do I P (f s) (in_order (g ∷ fs)) (h.0 s i)
        (λ t. in_order-Last I P (g ∷ fs) t h.1 l)

  -- A sequence that is done went through its first part.
  pub then_do-done :
      (o : Outcome S) (f : S → Outcome S) (t : S)
      → (o then_do f) ≡ done t
      → (s : S) × (o ≡ done s) × (f s ≡ done t)
  then_do-done (done s) f t e = (s, refl, e)
  then_do-done (threw m s) f t e = absurd (cc)

  pub done_lem : (s t : S) → done s ≡ done t → s ≡ t
  done_lem s t e = cc

-- ===== src/Base/Distinct.antt =====
-- `len(set(xs)) == len(xs)`: membership, and lists without repetition.
use mathlib.Core.Path.{◌≡◌, refl}
use mathlib.Core.Bool.{Bool, true, false, ◌&&◌, ◌||◌, not}
use mathlib.Core.List.{List, [], ◌∷◌, ◌++◌}
use native.Mathlib.Omega.{arith}
use base_agent.Base.Eq.{Equality, ◌==◌}

module _ {ℓ} {A : Type ℓ} ⦃e : Equality A⦄ where
  -- `a in xs`.
  unfoldable pub contains : A → List A → Bool
  contains a [] = false
  contains a (x ∷ xs) = x == a || contains a xs

  unfoldable pub all_distinct : List A → Bool
  unfolding contains
  all_distinct [] = true
  all_distinct (x ∷ xs) = not (contains x xs) && all_distinct xs

  pub contains-append :
      (a : A) (xs ys : List A) → contains a (xs ++ ys) ≡ (contains a xs || contains a ys)
  unfolding contains
  contains-append a [] ys = refl
  contains-append a (x ∷ xs) ys = ground (arith, contains-append a xs ys)

  -- A new element at the end keeps a list free of repetition.
  pub all_distinct-snoc :
      (xs : List A) (a : A)
      → all_distinct xs ≡ true
      → contains a xs ≡ false
      → all_distinct (xs ++ a ∷ []) ≡ true
  unfolding all_distinct
  all_distinct-snoc [] a h n = refl
  all_distinct-snoc (x ∷ xs) a h n =
      ground (
        arith,
        all_distinct-snoc xs a,
        contains-append x xs (a ∷ []),
        e.same_iff x a,
        e.same_iff a x,
      )

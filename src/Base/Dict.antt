-- ===== src/Base/Dict.antt =====
-- A Python `dict` as an association list, in insertion order. An assignment to a key that is
-- there keeps the key's place, as `dict` does.
use mathlib.Core.Path.{◌≡◌, refl, sym, ap, ◌∙◌, subst, subst₂}
use mathlib.Core.Bool.{true, ◌||◌}
use mathlib.Core.Logic.{◌≢◌, inl, inr}
use mathlib.Core.Option.{Option, none, some}
use mathlib.Core.List.{List, [], ◌∷◌, map}
use native.Mathlib.Omega.{arith}
use base_agent.Base.Lists.{All, In, here, there}
use base_agent.Base.Distinct.{contains, all_distinct}
use base_agent.Base.Eq.{Equality, ◌==◌, ==_refl, ==_sound}
use base_agent.Base.Tests.{if◌then◌else◌, Bool-cases, some_inj}

abbrev pub Dict {ℓ κ} : Type ℓ → Type κ → Type (ℓ ⊔ κ)
Dict K V = List (K × V)

-- `d.values()`.
abbrev pub values {ℓ κ} : {K : Type ℓ} {V : Type κ} → Dict K V → List V
values [] = []
values ((k, v) ∷ m) = v ∷ values m

module _ {ℓ κ} {K : Type ℓ} ⦃e : Equality K⦄ {V : Type κ} where
  unfoldable pub lookup : K → Dict K V → Option V
  lookup k [] = none
  lookup k ((j, v) ∷ m) = if j == k then some v else lookup k m

  unfoldable pub insert : K → V → Dict K V → Dict K V
  insert k v [] = (k, v) ∷ []
  insert k v ((j, w) ∷ m) = if j == k then (j, v) ∷ m else (j, w) ∷ insert k v m

  -- `d.pop(k, None)`, for its effect on the dictionary.
  unfoldable pub remove : K → Dict K V → Dict K V
  remove k [] = []
  remove k ((j, w) ∷ m) = if j == k then remove k m else (j, w) ∷ remove k m

  pub lookup-insert :
      (k j : K) (v : V) (m : Dict K V)
      → lookup j (insert k v m) ≡ (if k == j then some v else lookup j m)
  unfolding lookup insert
  lookup-insert new old value [] = refl
  lookup-insert new old value ((i, w) ∷ rest) = ground (
    arith,
    lookup-insert new old value rest,
    e.same_iff new old,
    e.same_iff i new,
    e.same_iff i old,
  )

  pub lookup-insert_self : (k : K) (v : V) (m : Dict K V) → lookup k (insert k v m) ≡ some v
  lookup-insert_self k v m = rw (lookup-insert k k v m, ==_refl k)

  pub lookup-insert_ne :
      (k j : K) (v : V) (m : Dict K V) → k ≢ j → lookup j (insert k v m) ≡ lookup j m
  lookup-insert_ne k j v m h = elim (Bool-cases (k == j)) [
    | inl same ↦ absurd (h (==_sound k j same))
    | inr other ↦ rw (lookup-insert k j v m, other)
  ]

  pub lookup-remove :
      (k j : K) (m : Dict K V) → lookup j (remove k m) ≡ (if k == j then none else lookup j m)
  unfolding lookup remove
  lookup-remove k j [] = elim (Bool-cases (k == j)) [ inl h ↦ rw h | inr h ↦ rw h ]
  lookup-remove k j ((i, w) ∷ m) =
      ground (arith, e.same_iff k j, e.same_iff i k, e.same_iff i j, lookup-remove k j m)

  -- What holds of every value that a lookup can find.
  abbrev pub Holds {μ} : (K → V → Type μ) → Dict K V → Type (ℓ ⊔ κ ⊔ μ)
  Holds P m = (k : K) (v : V) → lookup k m ≡ some v → P k v

  pub insert-Holds {μ} :
      (P : K → V → Type μ) (k : K) (v : V) (m : Dict K V)
      → P k v
      → Holds P m
      → Holds P (insert k v m)
  insert-Holds P k v m new old j w h = elim (Bool-cases (k == j)) [
    | inl same ↦
        let found : some v ≡ some w = cc (lookup-insert k j v m, same, h) in
        subst₂ P (==_sound k j same) (some_inj found) new
    | inr other ↦ old j w (cc (lookup-insert k j v m, other, h))
  ]

  pub remove-Holds {μ} :
      (P : K → V → Type μ) (k : K) (m : Dict K V) → Holds P m → Holds P (remove k m)
  remove-Holds P k m old j w h = elim (Bool-cases (k == j)) [
    | inl same ↦ absurd (cc (lookup-remove k j m, same, h))
    | inr other ↦ old j w (cc (lookup-remove k j m, other, h))
  ]

  -- What holds of every entry, and the keys.
  abbrev pub Entries {μ} : (K → V → Type μ) → Dict K V → Type μ
  Entries P = All (λ entry. P entry.0 entry.1)

  abbrev pub keys : Dict K V → List K
  keys = map (λ entry. entry.0)

  pub insert-Entries {μ} :
      (P : K → V → Type μ) (k : K) (v : V) (m : Dict K V)
      → P k v
      → Entries P m
      → Entries P (insert k v m)
  unfolding insert
  insert-Entries P k v [] new old = (new, tt)
  insert-Entries P k v ((j, w) ∷ m) new old = elim (Bool-cases (j == k)) [
    | inl same ↦ rw same (subst (λ i. P i v) (sym (==_sound j k same)) new, old.1)
    | inr other ↦ rw other (old.0, insert-Entries P k v m new old.1)
  ]

  pub lookup-Entries {μ} :
      (P : K → V → Type μ) (k : K) (m : Dict K V) {v : V}
      → Entries P m
      → lookup k m ≡ some v
      → P k v
  unfolding lookup
  lookup-Entries P k [] old h = absurd (cc)
  lookup-Entries P k ((j, w) ∷ m) {v} old h = elim (Bool-cases (j == k)) [
    | inl same ↦
        subst₂ P (==_sound j k same)
          (some_inj (ap (λ b. if b then some w else lookup k m) (sym same) ∙ h)) old.0
    | inr other ↦
        lookup-Entries P k m old.1 (ap (λ b. if b then some w else lookup k m) (sym other) ∙ h)
  ]

  -- An assignment adds its key to the keys, or leaves them.
  contains-keys-insert :
      (a k : K) (v : V) (m : Dict K V)
      → contains a (keys (insert k v m)) ≡ (contains a (keys m) || k == a)
  unfolding contains insert
  contains-keys-insert a k v [] = ground arith
  contains-keys-insert a k v ((j, w) ∷ m) =
      ground (arith, contains-keys-insert a k v m, e.same_iff j k, e.same_iff j a, e.same_iff k a)

  pub insert-all_distinct :
      (k : K) (v : V) (m : Dict K V)
      → all_distinct (keys m) ≡ true
      → all_distinct (keys (insert k v m)) ≡ true
  unfolding all_distinct contains insert
  insert-all_distinct k v [] d = refl
  insert-all_distinct k v ((j, w) ∷ m) d = ground (
    arith,
    insert-all_distinct k v m,
    contains-keys-insert j k v m,
    e.same_iff j k,
    e.same_iff k j,
  )

  -- With distinct keys, an entry is what its key finds.
  In-contains-keys : (k : K) (v : V) (m : Dict K V) → In (k, v) m → contains k (keys m) ≡ true
  unfolding contains
  In-contains-keys k v [] i = elim i [ ]
  In-contains-keys k v ((j, w) ∷ m) here = rw (==_refl k) refl
  In-contains-keys k v ((j, w) ∷ m) (there i) = ground (arith, In-contains-keys k v m i)

  pub In-lookup :
      (k : K) (v : V) (m : Dict K V)
      → all_distinct (keys m) ≡ true
      → In (k, v) m
      → lookup k m ≡ some v
  unfolding lookup all_distinct
  In-lookup k v [] d i = elim i [ ]
  In-lookup k v ((j, w) ∷ m) d here = rw (==_refl k) refl
  In-lookup k v ((j, w) ∷ m) d (there i) =
      ground (arith, In-contains-keys k v m i, In-lookup k v m (ground arith) i, e.same_iff j k)

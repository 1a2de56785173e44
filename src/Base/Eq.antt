-- ===== src/Base/Eq.antt =====
-- Equality tests as an interface, with the instances that the program needs.
use Prim.Native.Nat.{ℕ}
use Prim.Native.String.{String}
use mathlib.Core.Path.{◌≡◌, refl, ap}
use mathlib.Core.Logic.{◌↔◌, ◌≢◌}
use mathlib.Core.Bool.{Bool, true, false, ◌&&◌}
use mathlib.Core.Option.{Option, none, some}
use text.Mathlib.Text.{◌==◌ as str_eq}
use text.Mathlib.TextEquality.{eq_iff}
use native.Mathlib.Omega.{arith}
use base_agent.Base.Tests.{nat_beq, nat_beq_iff, &&-true}

pub record Equality {ℓ} (A : Type ℓ) : Type ℓ where
  pub same : A → A → Bool
  pub same_iff : (x y : A) → (same x y ≡ true) ↔ (x ≡ y)

infix 50 ◌==◌
abbrev pub ◌==◌ {ℓ} : {A : Type ℓ} ⦃e : Equality A⦄ → A → A → Bool
◌==◌ ⦃e⦄ = e.same

instance abbrev pub string_eq : Equality String
string_eq = record { same = str_eq; same_iff = eq_iff }

instance abbrev pub nat_eq : Equality ℕ
nat_eq = record { same = nat_beq; same_iff = nat_beq_iff }

module _ {ℓ} {A : Type ℓ} ⦃e : Equality A⦄ where
  abbrev pub option_beq : Option A → Option A → Bool
  option_beq none none = true
  option_beq none (some b) = false
  option_beq (some a) none = false
  option_beq (some a) (some b) = a == b

  pub option_beq_iff : (x y : Option A) → (option_beq x y ≡ true) ↔ (x ≡ y)
  option_beq_iff none none = (λ _. refl, λ _. refl)
  option_beq_iff none (some b) = (λ h. cc, λ h. cc)
  option_beq_iff (some a) none = (λ h. cc, λ h. cc)
  option_beq_iff (some a) (some b) =
      (λ h. ap some ((e.same_iff a b).0 h), λ h. (e.same_iff a b).1 (cc))

  instance abbrev pub option_eq : Equality (Option A)
  option_eq = record { same = option_beq; same_iff = option_beq_iff }

  pub ==_refl : (a : A) → (a == a) ≡ true
  ==_refl a = (e.same_iff a a).1 refl

  pub ==_sound : (a b : A) → (a == b) ≡ true → a ≡ b
  ==_sound a b = (e.same_iff a b).0

  pub ==_false : (a b : A) → (a == b) ≡ false → a ≢ b
  ==_false a b h p = cc ((e.same_iff a b).1 p)

  pub ==_of_eq : {a b : A} → a ≡ b → (a == b) ≡ true
  ==_of_eq {a} {b} h = (e.same_iff a b).1 h

both_true : {a b : Bool} → a ≡ true → b ≡ true → (a && b) ≡ true
both_true p q = ground arith

module _ {ℓ κ} {A : Type ℓ} {B : Type κ} ⦃ea : Equality A⦄ ⦃eb : Equality B⦄ where
  abbrev pub pair_beq : A × B → A × B → Bool
  pair_beq (a, b) (c, d) = (a == c) && (b == d)

  pub pair_beq_iff : (x y : A × B) → (pair_beq x y ≡ true) ↔ (x ≡ y)
  pair_beq_iff (a, b) (c, d) = (
    λ h.
        let (f, g) = &&-true (a == c) (b == d) h in
        let p : a ≡ c = ==_sound a c f in let q : b ≡ d = ==_sound b d g in cc (p, q),
    λ h. both_true (==_of_eq (ap (λ k. k.0) h)) (==_of_eq (ap (λ k. k.1) h)),
  )

  instance abbrev pub pair_eq : Equality (A × B)
  pair_eq = record { same = pair_beq; same_iff = pair_beq_iff }

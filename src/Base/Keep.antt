-- ===== src/Base/Keep.antt =====
-- Lists cut down to the elements that pass a test, and byte strings that are equal by a test.
use Prim.Native.Nat.{ℕ, ◌≤◌}
use mathlib.Core.Path.{◌≡◌, refl, ap, ◌∙◌}
use mathlib.Core.Logic.{inl, inr}
use mathlib.Core.Bool.{Bool, true, false}
use mathlib.Core.List.{List, [], ◌∷◌, ◌++◌}
use native.Mathlib.Omega.{arith}
use bkc_chooser.Base.Tests.{if◌then◌else◌, Bool-cases}
use bkc_chooser.Base.Lists.{length, bytes_eq}

pub bytes_eq_path : (a b : List ℕ) → bytes_eq a b ≡ true → a ≡ b
bytes_eq_path [] [] h = refl
bytes_eq_path [] (y ∷ ys) h = absurd (cc h)
bytes_eq_path (x ∷ xs) [] h = absurd (cc h)
bytes_eq_path (x ∷ xs) (y ∷ ys) h =
    let e : x ≡ y = ground (arith, h) in
    let es = bytes_eq_path xs ys (ground (arith, h)) in ap (λ z. z ∷ xs) e ∙ ap (λ zs. y ∷ zs) es

pub bytes_eq_self : (a : List ℕ) → bytes_eq a a ≡ true
bytes_eq_self [] = refl
bytes_eq_self (x ∷ xs) = ground (arith, bytes_eq_self xs)

-- The elements that pass a test, in order.
abbrev pub keep {ℓ} : {A : Type ℓ} → (A → Bool) → List A → List A
keep f [] = []
keep f (x ∷ xs) = let ys = keep f xs in if f x then x ∷ ys else ys

pub keep-append {ℓ} :
    {A : Type ℓ} (f : A → Bool) (xs ys : List A) → keep f (xs ++ ys) ≡ keep f xs ++ keep f ys
keep-append f [] ys = refl
keep-append f (x ∷ xs) ys = elim (Bool-cases (f x)) [
  | inl e ↦ rw e (ap (λ zs. x ∷ zs) (keep-append f xs ys))
  | inr e ↦ rw e (keep-append f xs ys)
]

pub length-keep {ℓ} : {A : Type ℓ} (f : A → Bool) (xs : List A) → length (keep f xs) ≤ length xs
length-keep f [] = omega arith
length-keep f (x ∷ xs) = elim (Bool-cases (f x)) [
  | inl e ↦ rw e (omega (arith, length-keep f xs))
  | inr e ↦ rw e (omega (arith, length-keep f xs))
]

-- Two tests in turn are one that fails where either does.
pub keep-keep {ℓ} :
    {A : Type ℓ} (f g h : A → Bool) (xs : List A)
    → ((x : A) → f x ≡ false → h x ≡ false)
    → ((x : A) → f x ≡ true → h x ≡ g x)
    → keep g (keep f xs) ≡ keep h xs
keep-keep f g h [] fails same = refl
keep-keep f g h (x ∷ xs) fails same = elim (Bool-cases (f x)) [
  | inl e ↦ rw (e, same x e) (ap (λ ys. if g x then x ∷ ys else ys) (keep-keep f g h xs fails same))
  | inr e ↦ rw (e, fails x e) (keep-keep f g h xs fails same)
]

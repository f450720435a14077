-- ===== src/Base/Lists.antt =====
-- Lists measured by native numbers, searches by a Boolean test, and predicates over all elements.
use Prim.Native.Nat.{ℕ, zero, suc, ◌+◌}
use mathlib.Core.Path.{◌≡◌, subst}
use mathlib.Core.Logic.{◌⊎◌, inl, inr}
use mathlib.Core.Bool.{Bool}
use mathlib.Core.List.{List, [], ◌∷◌, ◌++◌}
use mathlib.Core.Option.{Option, none, some}
use native.Mathlib.Omega.{arith}
use kdbus.Base.Tests.{if◌then◌else◌, Bool-cases}

module _ {ℓ} {A : Type ℓ} where
  abbrev pub length : List A → ℕ
  length [] = 0
  length (x ∷ xs) = suc (length xs)

  abbrev pub take : ℕ → List A → List A
  take zero xs = []
  take (suc n) [] = []
  take (suc n) (x ∷ xs) = x ∷ take n xs

  abbrev pub drop : ℕ → List A → List A
  drop zero xs = xs
  drop (suc n) [] = []
  drop (suc n) (x ∷ xs) = drop n xs

  abbrev pub get_or : List A → ℕ → A → A
  get_or [] i d = d
  get_or (x ∷ xs) zero d = x
  get_or (x ∷ xs) (suc i) d = get_or xs i d

  pub length-append : (xs ys : List A) → length (xs ++ ys) ≡ length xs + length ys
  length-append [] ys = omega arith
  length-append (x ∷ xs) ys = omega (arith, length-append xs ys)

  -- The first element that passes the test, as a list walk with a `break` finds it.
  unfoldable pub find : (A → Bool) → List A → Option A
  find p [] = none
  find p (x ∷ xs) = if p x then some x else find p xs

  -- The list without the first element that passes, and without every one that passes.
  unfoldable pub remove_first : (A → Bool) → List A → List A
  remove_first p [] = []
  remove_first p (x ∷ xs) = if p x then xs else x ∷ remove_first p xs

  unfoldable pub remove_all : (A → Bool) → List A → List A
  remove_all p [] = []
  remove_all p (x ∷ xs) = if p x then remove_all p xs else x ∷ remove_all p xs

  unfoldable pub keep : (A → Bool) → List A → List A
  keep p [] = []
  keep p (x ∷ xs) = if p x then x ∷ keep p xs else keep p xs

  -- In-place change of the first element that passes.
  unfoldable pub modify_first : (A → Bool) → (A → A) → List A → List A
  modify_first p f [] = []
  modify_first p f (x ∷ xs) = if p x then f x ∷ xs else x ∷ modify_first p f xs

  abbrev pub All {κ} : (A → Type κ) → List A → Type κ
  All P [] = Unit
  All P (x ∷ xs) = P x × All P xs

-- Membership with its position kept.
abbrev pub Has : {A : Type 0} → A → List A → Type 0
Has a [] = ⊥
Has a (x ∷ xs) = (a ≡ x) ⊎ Has a xs

pub find-All {ℓ κ} :
    {A : Type ℓ} (P : A → Type κ) (p : A → Bool) (l : List A) {a : A}
    → All P l
    → find p l ≡ some a
    → P a
unfolding find
find-All P p [] {a} r h = absurd (ground arith)
find-All P p (x ∷ l) {a} r h = elim (Bool-cases (p x)) [
  | inl hit ↦ subst P (some_eq (ground arith)) r.0
  | inr miss ↦ find-All P p l {a = a} r.1 (ground arith)
]
  where
    some_eq : some x ≡ some a → x ≡ a
    some_eq e = cc

module _ {ℓ κ} {A : Type ℓ} (P : A → Type κ) (p : A → Bool) where
  pub All-keep : (l : List A) → All P l → All P (keep p l)
  unfolding keep
  All-keep [] r = tt
  All-keep (x ∷ l) r = ground (arith, All-keep l r.1)

  pub All-remove_all : (l : List A) → All P l → All P (remove_all p l)
  unfolding remove_all
  All-remove_all [] r = tt
  All-remove_all (x ∷ l) r = ground (arith, All-remove_all l r.1)

-- ===== src/Rbtree/Laws.antt =====
-- Descents against the list of the tree's objects in order.
use Prim.Native.Nat.Ordering.{lt, eq, gt}
use Prim.Native.Nat.{Ordering}
use kdbus.Base.{
  ◌≡◌, refl, Bool, true, false, List, [], ◌∷◌, ◌++◌, none, ◌≢◌, All, Has, arith, find, inl, inr,
  ◌⊎◌,
}

module _ {A : Type 0} where
  pub All-append : (P : A → Type 0) (xs ys : List A) → All P xs → All P ys → All P (xs ++ ys)
  All-append P [] ys hx hy = hy
  All-append P (x ∷ xs) ys hx hy = (hx.0, All-append P xs ys hx.1 hy)

  pub All-append_left : (P : A → Type 0) (xs ys : List A) → All P (xs ++ ys) → All P xs
  All-append_left P [] ys h = tt
  All-append_left P (x ∷ xs) ys h = (h.0, All-append_left P xs ys h.1)

  pub All-append_right : (P : A → Type 0) (xs ys : List A) → All P (xs ++ ys) → All P ys
  All-append_right P [] ys h = h
  All-append_right P (x ∷ xs) ys h = All-append_right P xs ys h.1

  pub All-imp : (P Q : A → Type 0) → ((a : A) → P a → Q a) → (xs : List A) → All P xs → All Q xs
  All-imp P Q f [] h = tt
  All-imp P Q f (x ∷ xs) h = (f x h.0, All-imp P Q f xs h.1)

  pub All-Has : (P : A → Type 0) (xs : List A) {a : A} → All P xs → Has a xs → P a
  All-Has P [] h m = absurd m
  All-Has P (x ∷ xs) h (inl e) = rw e h.0
  All-Has P (x ∷ xs) h (inr m) = All-Has P xs h.1 m

  pub Has-append_left : (a : A) (xs ys : List A) → Has a xs → Has a (xs ++ ys)
  Has-append_left a [] ys m = absurd m
  Has-append_left a (x ∷ xs) ys (inl e) = inl e
  Has-append_left a (x ∷ xs) ys (inr m) = inr (Has-append_left a xs ys m)

  pub Has-append_right : (a : A) (xs ys : List A) → Has a ys → Has a (xs ++ ys)
  Has-append_right a [] ys m = m
  Has-append_right a (x ∷ xs) ys m = inr (Has-append_right a xs ys m)

  -- The place of `x` in a list: in front of the first object that the comparison puts behind it.
  unfoldable pub insert_by : (A → Ordering) → A → List A → List A
  insert_by cmp x [] = x ∷ []
  insert_by cmp x (y ∷ ys) = elim (cmp y) [
    | lt ↦ x ∷ y ∷ ys
    | eq ↦ x ∷ y ∷ ys
    | gt ↦ y ∷ insert_by cmp x ys
  ]

  -- Behind an object that is not before the place, all objects are behind the place.
  abbrev pub IsCut : (A → Ordering) → List A → Type 0
  IsCut cmp [] = Unit
  IsCut cmp (y ∷ ys) = ((cmp y ≡ gt) ⊎ All (λ z. cmp z ≡ lt) ys) × IsCut cmp ys

  pub IsCut-left : (cmp : A → Ordering) (xs ys : List A) → IsCut cmp (xs ++ ys) → IsCut cmp xs
  IsCut-left cmp [] ys h = tt
  IsCut-left cmp (x ∷ xs) ys (inl g, h) = (inl g, IsCut-left cmp xs ys h)
  IsCut-left cmp (x ∷ xs) ys (inr b, h) =
      (inr (All-append_left (λ z. cmp z ≡ lt) xs ys b), IsCut-left cmp xs ys h)

  pub IsCut-right : (cmp : A → Ordering) (xs ys : List A) → IsCut cmp (xs ++ ys) → IsCut cmp ys
  IsCut-right cmp [] ys h = h
  IsCut-right cmp (x ∷ xs) ys h = IsCut-right cmp xs ys h.1

  -- What stands in front of an object that is not behind the place is before the place.
  pub IsCut-before :
      (cmp : A → Ordering) (xs : List A) (a : A) (ys : List A)
      → IsCut cmp (xs ++ a ∷ ys)
      → cmp a ≢ lt
      → All (λ z. cmp z ≡ gt) xs
  IsCut-before cmp [] a ys h n = tt
  IsCut-before cmp (x ∷ xs) a ys (inl g, h) n = (g, IsCut-before cmp xs a ys h n)
  IsCut-before cmp (x ∷ xs) a ys (inr b, h) n =
      absurd (n (All-append_right (λ z. cmp z ≡ lt) xs (a ∷ ys) b).0)

  pub IsCut-behind :
      (cmp : A → Ordering) (xs : List A) (a : A) (ys : List A)
      → IsCut cmp (xs ++ a ∷ ys)
      → cmp a ≢ gt
      → All (λ z. cmp z ≡ lt) ys
  IsCut-behind cmp xs a ys h n = elim (IsCut-right cmp xs (a ∷ ys) h).0 [
    | inl g ↦ absurd (n g)
    | inr b ↦ b
  ]

  pub insert_by-append :
      (cmp : A → Ordering) (x : A) (xs ys : List A)
      → All (λ z. cmp z ≡ gt) xs
      → insert_by cmp x (xs ++ ys) ≡ xs ++ insert_by cmp x ys
  unfolding insert_by
  insert_by-append cmp x [] ys h = refl
  insert_by-append cmp x (y ∷ xs) ys h = rw (h.0, insert_by-append cmp x xs ys h.1) refl

  pub insert_by-left :
      (cmp : A → Ordering) (x : A) (xs : List A) (a : A) (ys : List A)
      → cmp a ≡ lt
      → insert_by cmp x (xs ++ a ∷ ys) ≡ insert_by cmp x xs ++ a ∷ ys
  unfolding insert_by
  insert_by-left cmp x [] a ys h = rw h refl
  insert_by-left cmp x (y ∷ xs) a ys h = ground (arith, insert_by-left cmp x xs a ys h)

  find-none : (p : A → Bool) (xs : List A) → All (λ z. p z ≡ false) xs → find p xs ≡ none
  unfolding find
  find-none p [] h = refl
  find-none p (x ∷ xs) h = ground (arith, h.0, find-none p xs h.1)

  pub find-append_right :
      (p : A → Bool) (xs ys : List A) → All (λ z. p z ≡ false) xs → find p (xs ++ ys) ≡ find p ys
  unfolding find
  find-append_right p [] ys h = refl
  find-append_right p (x ∷ xs) ys h = ground (arith, h.0, find-append_right p xs ys h.1)

  pub find-append_left :
      (p : A → Bool) (xs ys : List A) → All (λ z. p z ≡ false) ys → find p (xs ++ ys) ≡ find p xs
  unfolding find
  find-append_left p [] ys h = find-none p ys h
  find-append_left p (x ∷ xs) ys h = ground (arith, find-append_left p xs ys h)

abbrev pub is_eq : Ordering → Bool
is_eq eq = true
is_eq lt = false
is_eq gt = false

pub Ordering-cases : (o : Ordering) → (o ≡ lt) ⊎ (o ≡ eq) ⊎ (o ≡ gt)
Ordering-cases lt = inl refl
Ordering-cases eq = inr (inl refl)
Ordering-cases gt = inr (inr refl)

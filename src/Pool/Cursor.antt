-- ===== src/Pool/Cursor.antt =====
-- pool.c: a position in the list of slices, and the list around it.
use kdbus.Base.{
  ℕ, ◌≡◌, refl, ◌∙◌, ap, subst, Bool, false, List, [], ◌∷◌, some, arith, find, remove_first, All,
  Has, ◌==◌, if◌then◌else◌, Bool-cases, inl, inr,
}
use kdbus.Rbtree.{insert_by, IsCut}
use Prim.Native.Nat.Ordering.{gt}
use Prim.Native.Nat.{Ordering}
use kdbus.Pool.Slices.{Slice, Cursor, seek, rejoin}

-- The list that a cursor stands in.
abbrev pub whole : Cursor → List Slice
whole c = rejoin c.before (c.here ∷ c.after)

-- The position that `seek` finds is in the list, at a slice of the offset.
pub seek-some :
    (off : ℕ) (before l : List Slice) {c : Cursor}
    → seek off before l ≡ some c
    → (whole c ≡ rejoin before l) × (c.here.off ≡ off)
unfolding seek rejoin
seek-some off before [] {c} h = absurd (ground (arith, h))
seek-some off before (s ∷ l) {c} h = elim (Bool-cases (s.off == off)) [
  | inl hit ↦
      subst (λ d. (whole d ≡ rejoin before (s ∷ l)) × (d.here.off ≡ off))
        (some_inj (ground (arith, h, hit))) (refl, ground (arith, hit))
  | inr miss ↦ seek-some off (s ∷ before) l {c = c} (ground (arith, h, miss))
]
  where
    some_inj :
        some (record { before = before; here = s; after = l }) ≡ some c
        → record { before = before; here = s; after = l } ≡ c
    some_inj e = cc

-- A slice that the list has is found.
pub seek_of_find :
    (off : ℕ) (before l : List Slice) {s : Slice}
    → find (λ x. x.off == off) l ≡ some s
    → (c : Cursor) × (seek off before l ≡ some c) × (c.here ≡ s)
unfolding seek find
seek_of_find off before [] {s} h = absurd (ground (arith, h))
seek_of_find off before (x ∷ l) {s} h = elim (Bool-cases (x.off == off)) [
  | inl hit ↦ (
    record { before = before; here = x; after = l },
    ground (arith, hit),
    some_inj (ground (arith, h, hit)),
  )
  | inr miss ↦
      let (c, found, same) = seek_of_find off (x ∷ before) l {s = s} (ground (arith, h, miss)) in
      (c, ground (arith, miss, found), same)
]
  where
    some_inj : some x ≡ some s → x ≡ s
    some_inj e = cc

module _ {A : Type 0} where
  pub find-rejoin :
      (p : A → Bool) (before l m : List A)
      → find p l ≡ find p m
      → find p (rejoin before l) ≡ find p (rejoin before m)
  unfolding rejoin find
  find-rejoin p [] l m e = e
  find-rejoin p (b ∷ before) l m e =
      find-rejoin p before (b ∷ l) (b ∷ m) (ap (λ r. if p b then some b else r) e)

  pub remove_first-rejoin :
      (p : A → Bool) (before l : List A)
      → All (λ b. p b ≡ false) before
      → remove_first p (rejoin before l) ≡ rejoin before (remove_first p l)
  unfolding rejoin remove_first
  remove_first-rejoin p [] l h = refl
  remove_first-rejoin p (b ∷ before) l h =
      remove_first-rejoin p before (b ∷ l) h.1 ∙ ap (rejoin before) (ground (arith, h.0))

  pub insert_by-rejoin :
      (cmp : A → Ordering) (x : A) (before l : List A)
      → All (λ b. cmp b ≡ gt) before
      → insert_by cmp x (rejoin before l) ≡ rejoin before (insert_by cmp x l)
  unfolding rejoin insert_by
  insert_by-rejoin cmp x [] l h = refl
  insert_by-rejoin cmp x (b ∷ before) l h =
      insert_by-rejoin cmp x before (b ∷ l) h.1 ∙ ap (rejoin before) (ground (arith, h.0))

  pub All-rejoin :
      (P : A → Type 0) (before l : List A) → All P before → All P l → All P (rejoin before l)
  unfolding rejoin
  All-rejoin P [] l hb hl = hl
  All-rejoin P (b ∷ before) l hb hl = All-rejoin P before (b ∷ l) hb.1 (hb.0, hl)

  pub All-before :
      (P : A → Type 0) (before l : List A) → All P (rejoin before l) → All P before × All P l
  unfolding rejoin
  All-before P [] l h = (tt, h)
  All-before P (b ∷ before) l h = let (hb, hl) = All-before P before (b ∷ l) h in ((hl.0, hb), hl.1)

  pub IsCut-rejoin :
      (cmp : A → Ordering) (before l : List A)
      → All (λ b. cmp b ≡ gt) before
      → IsCut cmp l
      → IsCut cmp (rejoin before l)
  unfolding rejoin
  IsCut-rejoin cmp [] l hb hl = hl
  IsCut-rejoin cmp (b ∷ before) l hb hl = IsCut-rejoin cmp before (b ∷ l) hb.1 (inl hb.0, hl)

  pub Has-rejoin : (x : A) (before l : List A) → Has x l → Has x (rejoin before l)
  unfolding rejoin
  Has-rejoin x [] l h = h
  Has-rejoin x (b ∷ before) l h = Has-rejoin x before (b ∷ l) (inr h)

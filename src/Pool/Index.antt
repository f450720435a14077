-- ===== src/Pool/Index.antt =====
-- pool.c: lists of offsets, as the trees keep them, and how often an offset occurs in one.
use Prim.Native.Nat.Ordering.{lt, eq, gt}
use Prim.Native.Nat.{Ordering}
use kdbus.Base.{
  ℕ, ◌+◌, ◌-◌, ◌≤◌, ◌<◌, ◌≡◌, ◌≢◌, refl, sym, Bool, not, List, [], ◌∷◌, arith, remove_first, All,
  ltb, ◌==◌, if◌then◌else◌, Bool-cases, inl, inr, ◌⊎◌, subst,
}
use kdbus.Rbtree.{insert_by, IsCut, IsSorted, Ordering-cases, All-imp}
use kdbus.Pool.Slices.{Slice, rejoin}

-- The offsets of the slices that pass a test.
unfoldable pub offs : (Slice → Bool) → List Slice → List ℕ
offs p [] = []
offs p (s ∷ l) = if p s then s.off ∷ offs p l else offs p l

unfoldable pub count : ℕ → List ℕ → ℕ
count o [] = 0
count o (x ∷ l) = (if x == o then 1 else 0) + count o l

abbrev pub is_free : Slice → Bool
is_free s = s.free

abbrev pub is_busy : Slice → Bool
is_busy s = not s.free

-- No slice of the list begins at `o`.
abbrev pub IsApart : ℕ → List Slice → Type 0
IsApart o = All (λ s. s.off ≢ o)

pub offs-rejoin :
    (p : Slice → Bool) (before l : List Slice)
    → offs p (rejoin before l) ≡ rejoin (offs p before) (offs p l)
unfolding offs rejoin
offs-rejoin p [] l = refl
offs-rejoin p (b ∷ before) l = elim (Bool-cases (p b)) [
  | inl e ↦ ground (arith, e, offs-rejoin p before (b ∷ l))
  | inr e ↦ ground (arith, e, offs-rejoin p before (b ∷ l))
]

pub All-offs :
    (P : ℕ → Type 0) (p : Slice → Bool) (l : List Slice) → All (λ s. P s.off) l → All P (offs p l)
unfolding offs
All-offs P p [] h = tt
All-offs P p (s ∷ l) h = elim (Bool-cases (p s)) [
  | inl e ↦ rw e (h.0, All-offs P p l h.1)
  | inr e ↦ rw e (All-offs P p l h.1)
]

pub count-rejoin :
    (o : ℕ) (before l : List ℕ) → count o (rejoin before l) ≡ count o before + count o l
unfolding count rejoin
count-rejoin o [] l = omega arith
count-rejoin o (b ∷ before) l = omega (arith, count-rejoin o before (b ∷ l))

pub count-offs_apart :
    (p : Slice → Bool) (o : ℕ) (l : List Slice) → IsApart o l → count o (offs p l) ≡ 0
unfolding count offs
count-offs_apart p o [] h = refl
count-offs_apart p o (s ∷ l) h = ground (arith, h.0, count-offs_apart p o l h.1)

pub count-remove_first :
    (o x : ℕ) (l : List ℕ)
    → count o (remove_first (λ y. y == x) l) ≡ count o l - (if x == o then 1 else 0)
unfolding count remove_first
count-remove_first o x [] = ground arith
count-remove_first o x (y ∷ l) = ground (arith, count-remove_first o x l)

insert_by-gt :
    (cmp : ℕ → Ordering) (x y : ℕ) (l : List ℕ)
    → cmp y ≡ gt
    → insert_by cmp x (y ∷ l) ≡ y ∷ insert_by cmp x l
unfolding insert_by
insert_by-gt cmp x y l e = ground (arith, e)

insert_by_stop :
    (cmp : ℕ → Ordering) (x y : ℕ) (l : List ℕ) → cmp y ≢ gt → insert_by cmp x (y ∷ l) ≡ x ∷ y ∷ l
unfolding insert_by
insert_by_stop cmp x y l n = elim (Ordering-cases (cmp y)) [
  | inl e ↦ ground (arith, e)
  | inr (inl e) ↦ ground (arith, e)
  | inr (inr e) ↦ absurd (n e)
]

gt_cases : (o : Ordering) → (o ≡ gt) ⊎ (o ≢ gt)
gt_cases lt = inr (λ e. absurd (ground (arith, e)))
gt_cases eq = inr (λ e. absurd (ground (arith, e)))
gt_cases gt = inl refl

pub count-insert_by :
    (cmp : ℕ → Ordering) (o x : ℕ) (l : List ℕ)
    → count o (insert_by cmp x l) ≡ (if x == o then 1 else 0) + count o l
unfolding count insert_by
count-insert_by cmp o x [] = refl
count-insert_by cmp o x (y ∷ l) = elim (gt_cases (cmp y)) [
  | inl e ↦ ground (arith, insert_by-gt cmp x y l e, count-insert_by cmp o x l)
  | inr n ↦ ground (arith, insert_by_stop cmp x y l n)
]

-- What holds of every number that occurs holds of all elements.
pub All-count : (P : ℕ → Type 0) (l : List ℕ) → ((o : ℕ) → 0 < count o l → P o) → All P l
unfolding count
All-count P [] h = tt
All-count P (x ∷ l) h = (h x (ground arith), All-count P l (λ o c. h o (ground (arith, c))))

pub All-counted : (P : ℕ → Type 0) (l : List ℕ) → All P l → (o : ℕ) → 0 < count o l → P o
unfolding count
All-counted P [] a o c = absurd (omega (arith, c))
All-counted P (y ∷ l) a o c = elim (Bool-cases (y == o)) [
  | inl e ↦ subst P (ground (arith, e)) a.0
  | inr e ↦ All-counted P l a.1 o (ground (arith, e, c))
]

-- The order depends on the keys of the elements only.
pub IsSorted-key :
    (f g : ℕ → ℕ) (l : List ℕ) → ((o : ℕ) → 0 < count o l → f o ≡ g o) → IsSorted f l → IsSorted g l
unfolding count
IsSorted-key f g [] h s = tt
IsSorted-key f g (x ∷ l) h s = (
  All-count (λ z. g x ≤ g z) l (λ o c. head_le o c),
  IsSorted-key f g l (λ o c. h o (ground (arith, c))) s.1,
)
  where
    head_le : (o : ℕ) → 0 < count o l → g x ≤ g o
    head_le o c =
        subst (λ n. n ≤ g o) (h x (ground arith))
          (subst (λ n. f x ≤ n) (h o (ground (arith, c))) (All-counted (λ z. f x ≤ f z) l s.0 o c))

module _ (key : ℕ → ℕ) where
  All-remove_first :
      (P : ℕ → Type 0) (p : ℕ → Bool) (l : List ℕ) → All P l → All P (remove_first p l)
  unfolding remove_first
  All-remove_first P p [] h = tt
  All-remove_first P p (x ∷ l) h = elim (Bool-cases (p x)) [
    | inl e ↦ rw e h.1
    | inr e ↦ rw e (h.0, All-remove_first P p l h.1)
  ]

  pub IsSorted-remove_first :
      (p : ℕ → Bool) (l : List ℕ) → IsSorted key l → IsSorted key (remove_first p l)
  unfolding remove_first
  IsSorted-remove_first p [] s = tt
  IsSorted-remove_first p (x ∷ l) s = elim (Bool-cases (p x)) [
    | inl e ↦ rw e s.1
    | inr e ↦ rw e (All-remove_first (λ z. key x ≤ key z) p l s.0, IsSorted-remove_first p l s.1)
  ]

  -- The direction that a new object of key `k` takes.
  abbrev pub by_key : ℕ → ℕ → Ordering
  by_key k o = if ltb k (key o) then lt else gt

  pub IsCut-by_key : (k : ℕ) (l : List ℕ) → IsSorted key l → IsCut (by_key k) l
  IsCut-by_key k [] s = tt
  IsCut-by_key k (x ∷ l) s = elim (Bool-cases (ltb k (key x))) [
    | inl e ↦ (
      inr (All-imp (λ z. key x ≤ key z) (λ z. by_key k z ≡ lt) (λ z g. ground (arith, e, g)) l s.0),
      IsCut-by_key k l s.1,
    )
    | inr e ↦ (inl (ground (arith, e)), IsCut-by_key k l s.1)
  ]

  pub by_key_distinct : (k : ℕ) (l : List ℕ) → All (λ z. by_key k z ≢ eq) l
  by_key_distinct k [] = tt
  by_key_distinct k (x ∷ l) = (λ h. absurd (ground (arith, h)), by_key_distinct k l)

  All-insert_by :
      (P : ℕ → Type 0) (cmp : ℕ → Ordering) (x : ℕ) (l : List ℕ)
      → P x
      → All P l
      → All P (insert_by cmp x l)
  unfolding insert_by
  All-insert_by P cmp x [] h a = (h, tt)
  All-insert_by P cmp x (y ∷ l) h a = elim (gt_cases (cmp y)) [
    | inl e ↦ subst (All P) (sym (insert_by-gt cmp x y l e)) (a.0, All-insert_by P cmp x l h a.1)
    | inr n ↦ subst (All P) (sym (insert_by_stop cmp x y l n)) (h, a)
  ]

  pub IsSorted-insert_by :
      (x : ℕ) (l : List ℕ) → IsSorted key l → IsSorted key (insert_by (by_key (key x)) x l)
  unfolding insert_by
  IsSorted-insert_by x [] s = (tt, tt)
  IsSorted-insert_by x (y ∷ l) s = elim (gt_cases (by_key (key x) y)) [
    | inl e ↦ subst (IsSorted key) (sym (insert_by-gt (by_key (key x)) x y l e)) (
      All-insert_by (λ z. key y ≤ key z) (by_key (key x)) x l (ground (arith, e)) s.0,
      IsSorted-insert_by x l s.1,
    )
    | inr n ↦
        let less : key x ≤ key y = ground (arith, n) in
        subst (IsSorted key) (sym (insert_by_stop (by_key (key x)) x y l n)) (
          (
            less,
            All-imp (λ z. key y ≤ key z) (λ z. key x ≤ key z) (λ z g. omega (arith, less, g)) l s.0,
          ),
          s,
        )
  ]

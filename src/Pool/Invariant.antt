-- ===== src/Pool/Invariant.antt =====
-- pool.c: the state of a pool between two operations, seen from one of its slices.
use kdbus.Base.{
  ℕ, ◌+◌, ◌≤◌, ◌<◌, ◌≡◌, ◌≢◌, sym, ap, Bool, true, false, ◌&&◌, List, [], ◌∷◌, some, arith, All,
  ◌==◌, if◌then◌else◌, Bool-cases, inl, inr, subst,
}
use kdbus.Rbtree.{inorder, All-imp}
use kdbus.Pool.Slices.{Slice, Pool, Cursor, seek, rejoin}
use kdbus.Pool.Cursor.{whole, seek-some}
use kdbus.Pool.Layout.{IsRefd, Onward, Backward, front_free, Onward-cursor}
use kdbus.Pool.Index.{offs, count, is_busy, IsApart, offs-rejoin, count-rejoin, count-offs_apart}
use kdbus.Pool.Trees.{IsFreeTree}

-- The sizes of the slices that the kernel holds for queued messages.
unfoldable pub charge : Slice → ℕ
charge s = if s.accounted && s.ref_kernel then s.size else 0

unfoldable pub accounted_total : List Slice → ℕ
unfolding charge
accounted_total [] = 0
accounted_total (s ∷ l) = charge s + accounted_total l

-- The slices tile the pool, no two free ones are neighbours, each is in the tree for its state, and
-- the accounted size is that of the slices the kernel holds for queued messages.
pub record IsPool (p : Pool) : Type 0 where
  pub tiles : Onward 0 false p.slices p.size
  pub busy : inorder p.slices_busy ≡ offs is_busy p.slices
  pub free : IsFreeTree p.slices p.slices_free
  pub accounted : p.accounted_size ≡ accounted_total p.slices

pub accounted-rejoin :
    (before l : List Slice)
    → accounted_total (rejoin before l) ≡ accounted_total before + accounted_total l
unfolding accounted_total rejoin
accounted-rejoin [] l = omega arith
accounted-rejoin (b ∷ before) l = omega (arith, accounted-rejoin before (b ∷ l))

-- The list around a slice at a position, without what the slice itself must be.
pub record IsAround (c : Cursor) (end : ℕ) : Type 0 where
  pub front : Backward c.before c.here.off
  pub pos : 0 < c.here.size
  pub gap : (front_free c.before && c.here.free) ≡ false
  pub rest : Onward (c.here.off + c.here.size) c.here.free c.after end

pub IsAround-whole :
    (c : Cursor) (end : ℕ) → Onward 0 false (whole c) end → IsAround c end × IsRefd c.here
IsAround-whole c end o =
    let (m, b, (here, pos, gap, refd, rest)) = Onward-cursor c.before (c.here ∷ c.after) end o in
    (record { front = rw here b; pos = pos; gap = gap; rest = rw here rest }, refd)

pub Backward-low : (before : List Slice) (m : ℕ) → Backward before m → All (λ s. s.off < m) before
Backward-low [] m b = tt
Backward-low (s ∷ before) m (e, pos, gap, refd, b) = (
  omega (arith, e, pos),
  All-imp (λ x. x.off < s.off) (λ x. x.off < m) (λ x h. omega (arith, e, h)) before
      (Backward-low before s.off b),
)

pub Onward-high :
    (l : List Slice) (m : ℕ) (f : Bool) (end : ℕ) → Onward m f l end → All (λ s. m ≤ s.off) l
Onward-high [] m f end o = tt
Onward-high (s ∷ l) m f end (e, pos, gap, refd, o) = (
  omega (arith, e),
  All-imp (λ x. m + s.size ≤ x.off) (λ x. m ≤ x.off) (λ x h. omega (arith, h)) l
      (Onward-high l (m + s.size) s.free end o),
)

pub IsApart-of_low : (m : ℕ) (l : List Slice) → All (λ s. s.off < m) l → IsApart m l
IsApart-of_low m l h =
    All-imp (λ s. s.off < m) (λ s. s.off ≢ m) (λ s g e. absurd (omega (arith, g, e))) l h

pub IsApart-of_high : (m : ℕ) (l : List Slice) → All (λ s. m < s.off) l → IsApart m l
IsApart-of_high m l h =
    All-imp (λ s. m < s.off) (λ s. s.off ≢ m) (λ s g e. absurd (omega (arith, g, e))) l h

-- The other slices begin in front of the slice at the position, or behind it.
module _ (c : Cursor) (end : ℕ) (around : IsAround c end) where
  pub slices_low : All (λ s. s.off < c.here.off) c.before
  slices_low = Backward-low c.before c.here.off around.front

  pub slices_high : All (λ s. c.here.off < s.off) c.after
  slices_high =
      All-imp (λ s. c.here.off + c.here.size ≤ s.off) (λ s. c.here.off < s.off)
        (λ s h. omega (arith, h, around.pos)) c.after
        (Onward-high c.after (c.here.off + c.here.size) c.here.free end around.rest)

  pub IsApart-before : IsApart c.here.off c.before
  IsApart-before = IsApart-of_low c.here.off c.before slices_low

  pub IsApart-after : IsApart c.here.off c.after
  IsApart-after = IsApart-of_high c.here.off c.after slices_high

  -- An offset that passes a test passes it at the position.
  pub test_here : (p : Slice → Bool) → 0 < count c.here.off (offs p (whole c)) → p c.here ≡ true
  unfolding offs
  test_here p h = elim (Bool-cases (p c.here)) [
    | inl e ↦ e
    | inr e ↦ absurd (
        omega (
          arith,
          h,
          ap (count c.here.off) (offs-rejoin p c.before (c.here ∷ c.after)),
          count-rejoin c.here.off (offs p c.before) (offs p (c.here ∷ c.after)),
          count-offs_apart p c.here.off c.before IsApart-before,
          count-offs_apart p c.here.off c.after IsApart-after,
          skipped p e,
        ))
  ]
    where
      skipped :
          (p : Slice → Bool)
          → p c.here ≡ false
          → count c.here.off (offs p (c.here ∷ c.after)) ≡ count c.here.off (offs p c.after)
      skipped p e = ground (arith, e)

pub seek-count :
    (p : Slice → Bool) (off : ℕ) (before l : List Slice)
    → 0 < count off (offs p l)
    → (c : Cursor) × (seek off before l ≡ some c)
unfolding seek offs count
seek-count p off before [] h = absurd (omega (arith, h))
seek-count p off before (s ∷ l) h = elim (Bool-cases (s.off == off)) [
  | inl e ↦ (record { before = before; here = s; after = l }, ground (arith, e))
  | inr e ↦
      let (c, found) = seek-count p off (s ∷ before) l (ground (arith, h, e)) in
      (c, ground (arith, e, found))
]

-- Looking up the slice of an offset that a tree holds.
pub seek_counted :
    (p : Slice → Bool) (off : ℕ) (l : List Slice) (end : ℕ)
    → Onward 0 false l end
    → 0 < count off (offs p l)
    → (c : Cursor) × (seek off [] l ≡ some c)
      × (whole c ≡ l)
      × (c.here.off ≡ off)
      × (p c.here ≡ true)
unfolding rejoin
seek_counted p off l end o h =
    let (c, found) = seek-count p off [] l h in
    let (same, at) = seek-some off [] l {c = c} found in
    (
      c,
      found,
      same,
      at,
      test_here c end (IsAround-whole c end (subst (λ x. Onward 0 false x end) (sym same) o)).0 p (
          subst (λ x. 0 < count x (offs p (whole c))) (sym at)
            (subst (λ x. 0 < count off (offs p x)) (sym same) h)),
    )

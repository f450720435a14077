-- ===== src/Pool/Offsets.antt =====
-- pool.c: the search for an offset among those of the busy slices.
use Prim.Native.Nat.Ordering.{lt, gt}
use Prim.Native.Nat.{compare}
use kdbus.Base.{
  ℕ, ◌+◌, ◌≤◌, ◌<◌, ◌≡◌, ◌≢◌, Bool, List, [], ◌∷◌, none, some, arith, All, ◌==◌, Bool-cases, inl,
  inr, ◌⊎◌, subst, find,
}
use kdbus.Rbtree.{All-imp, IsCut, is_eq}
use kdbus.Pool.Slices.{Slice}
use kdbus.Pool.Layout.{Onward}
use kdbus.Pool.Index.{offs, count, is_busy, All-offs}
use kdbus.Pool.Invariant.{Onward-high}
use kdbus.Pool.Others.{IsForeign}

-- The busy offsets ascend.
pub busy-IsCut :
    (off : ℕ) (l : List Slice) (m : ℕ) (f : Bool) (end : ℕ)
    → Onward m f l end
    → IsCut (λ o. compare off o) (offs is_busy l)
unfolding offs
busy-IsCut off [] m f end o = tt
busy-IsCut off (s ∷ l) m f end (at, pos, gap, refd, o) = elim (Bool-cases s.free) [
  | inl free ↦
      subst (IsCut (λ o. compare off o)) (ground (arith, free))
        (busy-IsCut off l (m + s.size) s.free end o)
  | inr busy ↦
      subst (IsCut (λ o. compare off o)) {x = s.off ∷ offs is_busy l} (ground (arith, busy)) (
        elim (compare_cases off s.off) [ inl g ↦ inl g | inr le ↦ inr (later le) ],
        busy-IsCut off l (m + s.size) s.free end o,
      )
]
  where
    compare_cases : (a b : ℕ) → (compare a b ≡ gt) ⊎ (a ≤ b)
    compare_cases a b = elim (Bool-cases (is_eq (compare a b))) [
      | inl e ↦ inr (ground (arith, e))
      | inr e ↦ ground (arith, e)
    ]

    later : off ≤ s.off → All (λ o. compare off o ≡ lt) (offs is_busy l)
    later le =
        All-offs (λ o. compare off o ≡ lt) is_busy l
          (All-imp (λ x. m + s.size ≤ x.off) (λ x. compare off x.off ≡ lt)
            (λ x h. ground (arith, h, le, at, pos)) l (Onward-high l (m + s.size) s.free end o))

pub find_offset :
    (off : ℕ) (l : List ℕ) {o : ℕ}
    → find (λ z. is_eq (compare off z)) l ≡ some o
    → (o ≡ off) × (0 < count off l)
unfolding find count
find_offset off [] {o} h = absurd (ground (arith, h))
find_offset off (x ∷ l) {o} h = elim (Bool-cases (off == x)) [
  | inl e ↦ (ground (arith, h, e), ground (arith, e))
  | inr e ↦
      let (same, pos) = find_offset off l {o = o} (ground (arith, h, e)) in
      (same, ground (arith, e, pos))
]

pub find_no_offset :
    (off : ℕ) (l : List ℕ) → find (λ z. is_eq (compare off z)) l ≡ none → All (λ o. o ≢ off) l
unfolding find
find_no_offset off [] h = tt
find_no_offset off (x ∷ l) h =
    ((λ e. absurd (ground (arith, h, e))), find_no_offset off l (ground (arith, h)))

pub offs-IsForeign :
    (off : ℕ) (l : List Slice) (m : ℕ) (f : Bool) (end : ℕ)
    → Onward m f l end
    → All (λ o. o ≢ off) (offs is_busy l)
    → All (IsForeign off) l
unfolding offs
offs-IsForeign off [] m f end o h = tt
offs-IsForeign off (s ∷ l) m f end (at, pos, gap, refd, o) h = elim (Bool-cases s.free) [
  | inl free ↦ (
    inr (ground (arith, refd, free)),
    offs-IsForeign off l (m + s.size) s.free end o
        (subst (All (λ o. o ≢ off)) (ground (arith, free)) h),
  )
  | inr busy ↦
      let (apart, rest) =
        subst (All (λ o. o ≢ off)) {y = s.off ∷ offs is_busy l} (ground (arith, busy)) h in
      (inl apart, offs-IsForeign off l (m + s.size) s.free end o rest)
]

-- ===== src/Pool/Runs.antt =====
-- pool.c: the life of a pool, from `kdbus_pool_new` on, as a sequence of calls.
use kdbus.Base.{
  ℕ, ◌+◌, ◌^◌, ◌<◌, ◌≡◌, refl, sym, ◌∙◌, Bool, true, Option, none, some, arith, Has, ◌==◌, inl, inr,
  subst, Bool-cases,
}
use kdbus.Rbtree.{RbTree, inorder}
use kdbus.Pool.Slices.{Slice, Pool, alloc, slice_release, release_offset, publish, pool_new}
use kdbus.Pool.Index.{offs, count}
use kdbus.Pool.Invariant.{IsPool, accounted_total, charge}
use kdbus.Pool.Alloc.{alloc_best_fit}
use kdbus.Pool.Release.{Kept}
use kdbus.Pool.Refs.{slice_release-IsPool, publish-IsPool}
use kdbus.Pool.User.{release_offset-IsPool}

-- The calls that change a pool, each under its lock.
pub data Call : Type 0 where
  slice_alloc : (mem : Bool) (size : ℕ) (accounted : Bool) → Call
  release_slice : Slice → Call
  publish_slice : Slice → Call
  free_offset : ℕ → Call

-- What the callers in the kernel keep to: they release and publish slices that they hold. A user may
-- give any offset.
abbrev pub IsAllowed : Call → Pool → Type 0
IsAllowed (slice_alloc mem size accounted) p = size + 7 < 2 ^ 64
IsAllowed (release_slice s) p = Has s p.slices × (s.ref_kernel ≡ true)
IsAllowed (publish_slice s) p = Has s p.slices × (s.ref_kernel ≡ true)
IsAllowed (free_offset off) p = Unit

pub pool_new-IsPool : (size : ℕ) → 0 < size → IsPool (pool_new size)
unfolding pool_new inorder offs count accounted_total charge
pool_new-IsPool size pos = record {
  tiles = (refl, pos, refl, refl, omega arith);
  busy = refl;
  free = ((tt, tt), λ o. refl);
  accounted = refl;
}

module _ (rb : RbTree ℕ) where
  -- The pool after a call; `none` where the kernel would stop.
  unfoldable pub call : Call → Pool → Option Pool
  call (slice_alloc mem size accounted) p = elim (alloc rb mem size accounted p) [
    | none ↦ none
    | some (q, r) ↦ some q
  ]
  call (release_slice s) p = slice_release rb s.off p
  call (publish_slice s) p = elim (publish s.off p) [ none ↦ none | some (q, off, size) ↦ some q ]
  call (free_offset off) p = elim (release_offset rb off p) [ none ↦ none | some (q, r) ↦ some q ]

  -- The pools that calls make of a new one.
  pub data Reaches (size : ℕ) : Pool → Type 0 where
    created : Reaches size (pool_new size)
    called :
        (c : Call) (p q : Pool)
        → Reaches size p
        → IsAllowed c p
        → call c p ≡ some q
        → Reaches size q

  alloc-Kept :
      (mem : Bool) (size : ℕ) (accounted : Bool) (p : Pool)
      → IsPool p
      → size + 7 < 2 ^ 64
      → Kept p.size (call (slice_alloc mem size accounted) p)
  unfolding call alloc
  alloc-Kept mem size accounted p good fits = elim (Bool-cases (size == 0)) [
    | inl zero ↦ (p, ground (arith, zero), good, refl)
    | inr pos ↦ elim (alloc_best_fit rb mem size accounted p good (ground (arith, pos)) fits) [
      | inl (e, full) ↦ (p, ground (arith, e), good, refl)
      | inr (c, same, best, inl (e, m)) ↦ (p, ground (arith, e), good, refl)
      | inr (c, same, best, inr (q, e, good_q, size_q, slices_q)) ↦
          (q, ground (arith, e), good_q, size_q)
    ]
  ]

  call-Kept : (c : Call) (p : Pool) → IsPool p → IsAllowed c p → Kept p.size (call c p)
  unfolding call
  call-Kept (slice_alloc mem size accounted) p good fits = alloc-Kept mem size accounted p good fits
  call-Kept (release_slice s) p good (m, k) = slice_release-IsPool rb p good s m k
  call-Kept (publish_slice s) p good (m, k) =
      let (q, e, good_q, size_q) = publish-IsPool rb p good s m k in
      (q, ground (arith, e), good_q, size_q)
  call-Kept (free_offset off) p good u = elim (release_offset-IsPool rb off p good) [
    | inl (dummy, e) ↦ (p, ground (arith, e), good, refl)
    | inr (inl (s, m, at, user, (q, e, good_q, size_q, gone, stays, rest))) ↦
        (q, ground (arith, e), good_q, size_q)
    | inr (inr (foreign, e)) ↦ (p, ground (arith, e), good, refl)
  ]

  pub reached-IsPool :
      (size : ℕ) (p : Pool) → 0 < size → Reaches size p → IsPool p × (p.size ≡ size)
  unfolding pool_new
  reached-IsPool size _ pos created = (pool_new-IsPool size pos, refl)
  reached-IsPool size _ pos (called c p q r allowed e) =
      let (good, same) = reached-IsPool size p pos r in
      let (q2, e2, good2, size2) = call-Kept c p good allowed in
      (subst (λ x. IsPool x × (x.size ≡ size)) (some_inj (sym e2 ∙ e)) (good2, size2 ∙ same))
    where
      some_inj : {a b : Pool} → some a ≡ some b → a ≡ b
      some_inj h = cc

  -- In a pool that calls have made of a new one of at least one byte, by allocations whose sizes do
  -- not wrap when they are rounded up, whatever the user frees and in whatever order the
  -- kernel allocates, publishes and releases slices that it holds, the next call has a result, and
  -- the pool is well formed after it and as large as it was created.
  pub call-IsPool :
      (size : ℕ) (c : Call) (p : Pool)
      → 0 < size
      → Reaches size p
      → IsAllowed c p
      → (q : Pool) × (call c p ≡ some q) × IsPool q × (q.size ≡ size)
  call-IsPool size c p pos r allowed =
      let (good, same) = reached-IsPool size p pos r in
      let (q, e, good_q, size_q) = call-Kept c p good allowed in (q, e, good_q, size_q ∙ same)

-- ===== src/Pool/Alloc.antt =====
-- pool.c: `kdbus_pool_slice_alloc`, from the search to the result.
use kdbus.Base.{
  ℕ, ◌+◌, ◌-◌, ◌^◌, ◌≤◌, ◌<◌, ◌≡◌, sym, ◌∙◌, Bool, true, false, List, [], ◌∷◌, Option, none, some,
  arith, ◌==◌, if◌then◌else◌, Bool-cases, inl, inr, ◌⊎◌, subst, Result, err, exfull, enomem,
}
use kdbus.Item.Walk.{align8}
use kdbus.Rbtree.{RbTree}
use kdbus.Pool.Slices.{Slice, Pool, Cursor, seek, slice_new, take, split, alloc}
use kdbus.Pool.Cursor.{whole}
use kdbus.Pool.Layout.{Onward, Onward-behind_busy}
use kdbus.Pool.Invariant.{IsPool}
use kdbus.Pool.Take.{IsReady, Granted, take-Granted, split-Granted}
use kdbus.Pool.Search.{IsFull, IsBest, chosen_cases, IsReady-at, IsAround-at, chosen}

-- Without wrap-around, the rounded size is large enough, and less than 8 bytes larger.
pub align8_bounds : (size : ℕ) → size + 7 < 2 ^ 64 → (size ≤ align8 size) × (align8 size < size + 8)
unfolding align8
align8_bounds size h = (ground (arith, h), ground (arith, h))

-- What stands behind the slice that is handed out: what is left of it is a free slice of its own.
abbrev pub remainder : Cursor → ℕ → List Slice
remainder c k =
    if c.here.size == k then c.after else slice_new (c.here.off + k) (c.here.size - k) ∷ c.after

module _ (rb : RbTree ℕ) (mem : Bool) (size : ℕ) (accounted : Bool) (p : Pool) where
  alloc-none :
      0 < size
      → chosen p (align8 size) ≡ none
      → alloc rb mem size accounted p ≡ some (p, err exfull)
  unfolding alloc
  alloc-none pos e = ground (arith, pos, e)

  alloc_at :
      (c : Cursor)
      → 0 < size
      → chosen p (align8 size) ≡ some c.here.off
      → seek c.here.off [] p.slices ≡ some c
      → alloc rb mem size accounted p ≡ (
          if c.here.size == align8 size
          then take rb c (align8 size) accounted p
          else (if mem then split rb c (align8 size) accounted p else some (p, err enomem)))
  unfolding alloc
  alloc_at c pos e f = ground (arith, pos, e, f)

  abbrev pub AllocResult : Option (Pool × Result ℕ) → Type 0
  AllocResult r =
      ((r ≡ some (p, err exfull)) × IsFull (align8 size) p.slices)
      ⊎ ((c : Cursor) × (whole c ≡ p.slices)
          × IsBest (align8 size) c.here p.slices
          × (((r ≡ some (p, err enomem)) × (mem ≡ false))
              ⊎ Granted c (align8 size) accounted (remainder c (align8 size)) p r))

  -- An allocation of at least one byte, whose size does not wrap when it is rounded up, has a result
  -- in a pool that is well formed. It is that the pool is full, if every
  -- free slice is smaller than the size rounded up to 8 bytes. Otherwise the slice is cut from the
  -- smallest free slice that is large enough, with what is left of it as a free slice, and the pool
  -- is well formed again; only a lack of memory for the second slice makes it fail.
  pub alloc_best_fit :
      IsPool p → 0 < size → size + 7 < 2 ^ 64 → AllocResult (alloc rb mem size accounted p)
  alloc_best_fit good pos fits = elim (chosen_cases p good (align8 size)) [
    | inl (e, full) ↦ inl (alloc-none pos e, full)
    | inr (c, e, f, same, best) ↦ inr (c, same, best, cut c e f same best.0 best.1)
  ]
    where
      rounded_pos : 0 < align8 size
      rounded_pos = omega (arith, pos, (align8_bounds size fits).0)

      tiled_after :
          (c : Cursor)
          → whole c ≡ p.slices
          → c.here.free ≡ true
          → Onward (c.here.off + c.here.size) true c.after p.size
      tiled_after c same free =
          subst (λ b. Onward (c.here.off + c.here.size) b c.after p.size) free
            (IsAround-at p good c same).0.rest

      exact :
          (c : Cursor)
          → IsReady c p
          → Onward (c.here.off + c.here.size) true c.after p.size
          → c.here.size ≡ align8 size
          → Granted c (align8 size) accounted c.after p (take rb c (align8 size) accounted p)
      exact c ready after_c h = take-Granted rb c (align8 size) accounted p ready rounded_pos (
          Onward-behind_busy (c.here.off + align8 size) c.after true p.size
            (subst (λ n. Onward (c.here.off + n) true c.after p.size) h after_c))

      cut :
          (c : Cursor)
          → chosen p (align8 size) ≡ some c.here.off
          → seek c.here.off [] p.slices ≡ some c
          → whole c ≡ p.slices
          → c.here.free ≡ true
          → align8 size ≤ c.here.size
          → ((alloc rb mem size accounted p ≡ some (p, err enomem)) × (mem ≡ false))
            ⊎ Granted c
                (align8 size)
                accounted
                (remainder c (align8 size))
                p
                (alloc rb mem size accounted p)
      cut c e f same free enough = elim (Bool-cases (c.here.size == align8 size)) [
        | inl h ↦ inr (
            subst (Granted c (align8 size) accounted (remainder c (align8 size)) p)
              (sym (alloc_at c pos e f ∙ ground (arith, h)))
              (subst
                (λ l. Granted c (align8 size) accounted l p (take rb c (align8 size) accounted p))
                (ground (arith, h))
                (exact c (IsReady-at p good c same free) (tiled_after c same free)
                  (ground (arith, h)))))
        | inr h ↦ elim (Bool-cases mem) [
          | inr m ↦ inl (alloc_at c pos e f ∙ ground (arith, h, m), m)
          | inl m ↦ inr (
              subst (Granted c (align8 size) accounted (remainder c (align8 size)) p)
                (sym (alloc_at c pos e f ∙ ground (arith, h, m)))
                (subst
                  (λ l.
                    Granted c (align8 size) accounted l p (split rb c (align8 size) accounted p))
                  (ground (arith, h))
                  (split-Granted rb c (align8 size) accounted p (IsReady-at p good c same free)
                    rounded_pos (ground (arith, h, enough)) (tiled_after c same free))))
        ]
      ]

-- ===== src/Pool/Refs.antt =====
-- pool.c: the kernel's reference and the user's reference to a slice.
use kdbus.Base.{
  ℕ, ◌+◌, ◌-◌, ◌≡◌, refl, sym, ◌∙◌, ap, true, false, not, ◌&&◌, List, [], ◌∷◌, some, arith, Has,
  ltb, if◌then◌else◌, Bool-cases, inl, inr, subst,
}
use kdbus.Rbtree.{RbTree}
use kdbus.Pool.Slices.{Slice, Pool, Cursor, seek, rejoin, put_slice, slice_release, publish}
use kdbus.Pool.Cursor.{whole}
use kdbus.Pool.Layout.{IsRefd, Onward, Onward-rejoin}
use kdbus.Pool.Index.{offs, is_busy, IsApart}
use kdbus.Pool.Trees.{IsFreeTree, taken, IsFreeTree-put, IsFreeTree-drop}
use kdbus.Pool.Invariant.{
  IsPool, charge, accounted_total, accounted-rejoin, slices_high, IsApart-before, Backward-low,
  IsApart-of_low, IsApart-of_high,
}
use kdbus.Pool.Take.{offs_here}
use kdbus.Pool.Search.{IsAround-at}
use kdbus.Pool.Release.{Kept, IsHeld, put_slice-IsPool}

seek-rejoin :
    (o : ℕ) (before l : List Slice)
    → IsApart o before
    → seek o [] (rejoin before l) ≡ seek o before l
unfolding seek rejoin
seek-rejoin o [] l h = refl
seek-rejoin o (b ∷ before) l h = seek-rejoin o before (b ∷ l) h.1 ∙ ground (arith, h.0)

seek-here : (c : Cursor) → seek c.here.off c.before (c.here ∷ c.after) ≡ some c
unfolding seek
seek-here c = ground arith

-- The position of a slice of the list.
position :
    (s : Slice) (before l : List Slice)
    → Has s l
    → (c : Cursor) × (whole c ≡ rejoin before l) × (c.here ≡ s)
unfolding rejoin
position s before [] m = absurd m
position s before (x ∷ l) (inl e) = (record { before = before; here = x; after = l }, refl, sym e)
position s before (x ∷ l) (inr m) = position s (x ∷ before) l m

pub charge_refd : (s : Slice) → IsRefd s → s.ref_kernel ≡ true → s.free ≡ false
charge_refd s r k = ground (arith, r, k)

module _ (p : Pool) (good : IsPool p) where
  seek_at : (c : Cursor) → whole c ≡ p.slices → seek c.here.off [] p.slices ≡ some c
  seek_at c same =
      ap (seek c.here.off []) (sym same)
      ∙ seek-rejoin c.here.off c.before (c.here ∷ c.after)
          (IsApart-before c p.size (IsAround-at p good c same).0)
      ∙ seek-here c

  pub found_at :
      (s : Slice)
      → Has s p.slices
      → (c : Cursor) × (seek s.off [] p.slices ≡ some c) × (whole c ≡ p.slices) × (c.here ≡ s)
  unfolding rejoin
  found_at s m =
      let (c, same, at) = position s [] p.slices m in
      (c, ap (λ x. seek x.off [] p.slices) (sym at) ∙ seek_at c same, same, at)

  pub IsHeld-at : (c : Cursor) → whole c ≡ p.slices → c.here.free ≡ false → IsHeld c p
  unfolding accounted_total
  IsHeld-at c same f =
      let (around, refd) = IsAround-at p good c same in
      record {
        front = around.front;
        pos = around.pos;
        not_free = f;
        rest = subst (λ b. Onward (c.here.off + c.here.size) b c.after p.size) f around.rest;
        high = slices_high c p.size around;
        busy =
            good.busy
            ∙ ap (offs is_busy) (sym same)
            ∙ offs_here is_busy c.before c.here c.after (ground (arith, f));
        free_tree =
            subst
              (λ b.
                IsFreeTree (rejoin c.before (record c.here { free = b } ∷ c.after)) p.slices_free)
              f (subst (λ l. IsFreeTree l p.slices_free) (sym same) good.free);
        accounted =
            good.accounted
            ∙ ap accounted_total (sym same)
            ∙ accounted-rejoin c.before (c.here ∷ c.after);
      }

module _ (rb : RbTree ℕ) (p : Pool) (good : IsPool p) where
  -- The slice at a held position without the kernel's reference, and what the pool accounts for.
  unkept :
      (c : Cursor) (n : ℕ)
      → IsHeld c p
      → n ≡ accounted_total c.before + accounted_total c.after
      → IsHeld
          (record c { here = record c.here { ref_kernel = false } })
          (record p { accounted_size = n })
  unfolding charge
  unkept c n held e = record {
    front = held.front;
    pos = held.pos;
    not_free = held.not_free;
    rest = held.rest;
    high = held.high;
    busy = held.busy;
    free_tree =
        IsFreeTree-put c.before (taken (record c.here { ref_kernel = false })) c.after p.slices_free
          refl low high
          (IsFreeTree-drop c.before (taken c.here) c.after p.slices_free refl low high
            held.free_tree);
    accounted = e ∙ ground arith;
  }
    where
      low : IsApart c.here.off c.before
      low = IsApart-of_low c.here.off c.before (Backward-low c.before c.here.off held.front)

      high : IsApart c.here.off c.after
      high = IsApart-of_high c.here.off c.after held.high

  abbrev dropped : Cursor → Pool
  dropped c =
      if c.here.accounted && not (ltb p.accounted_size c.here.size)
      then record p { accounted_size = p.accounted_size - c.here.size }
      else p

  abbrev unheld : Cursor → Cursor
  unheld c = record c { here = record c.here { ref_kernel = false } }

  -- The kernel gives up a slice that it holds: the pool stays well formed and is defined, whether
  -- the user still has a reference or the slice merges with free neighbours.
  pub slice_release-IsPool :
      (s : Slice) → Has s p.slices → s.ref_kernel ≡ true → Kept p.size (slice_release rb s.off p)
  unfolding slice_release charge
  slice_release-IsPool s m k =
      let (c, found, same, at) = found_at p good s m in
      let kernel : c.here.ref_kernel ≡ true = ap (λ x. x.ref_kernel) at ∙ k in
      let held =
        IsHeld-at p good c same (charge_refd c.here (IsAround-at p good c same).1 kernel) in
      subst (Kept p.size) (ground (arith, found)) (let_go c held kernel)
    where
      let_go :
          (c : Cursor)
          → IsHeld c p
          → c.here.ref_kernel ≡ true
          → Kept p.size (put_slice rb (unheld c) (dropped c))
      let_go c held kernel = elim (Bool-cases c.here.accounted) [
        | inl a ↦
            subst (λ q. Kept p.size (put_slice rb (unheld c) q))
              {x = record p { accounted_size = p.accounted_size - c.here.size }} {y = dropped c}
              (ground (arith, a, held.accounted, kernel))
              (put_slice-IsPool rb (unheld c)
                (record p { accounted_size = p.accounted_size - c.here.size })
                (unkept c (p.accounted_size - c.here.size) held
                  (ground (arith, a, held.accounted, kernel))))
        | inr a ↦
            subst (λ q. Kept p.size (put_slice rb (unheld c) q)) {x = p} {y = dropped c}
              (ground (arith, a))
              (put_slice-IsPool rb (unheld c) p
                (unkept c p.accounted_size held (ground (arith, a, held.accounted))))
      ]

  -- The kernel shows a slice that it holds to the user.
  pub publish-IsPool :
      (s : Slice)
      → Has s p.slices
      → s.ref_kernel ≡ true
      → (q : Pool) × (publish s.off p ≡ some (q, s.off, s.size)) × IsPool q × (q.size ≡ p.size)
  unfolding publish accounted_total charge
  publish-IsPool s m k =
      let (c, found, same, at) = found_at p good s m in
      let kernel : c.here.ref_kernel ≡ true = ap (λ x. x.ref_kernel) at ∙ k in
      let f : c.here.free ≡ false = charge_refd c.here (IsAround-at p good c same).1 kernel in
      let held = IsHeld-at p good c same f in
      let shown = record c.here { ref_user = true } in
      let low = IsApart-of_low c.here.off c.before (Backward-low c.before c.here.off held.front) in
      let high = IsApart-of_high c.here.off c.after held.high in
      (
        record p { slices = rejoin c.before (shown ∷ c.after) },
        ground (arith, found, at),
        record {
          tiles = Onward-rejoin c.before (shown ∷ c.after) c.here.off p.size held.front (
            refl,
            held.pos,
            ground (arith, f),
            ground (arith, f),
            subst (λ b. Onward (c.here.off + c.here.size) b c.after p.size) (sym f) held.rest,
          );
          busy = held.busy ∙ sym (offs_here is_busy c.before shown c.after (ground (arith, f)));
          free = IsFreeTree-put c.before shown c.after p.slices_free f low high (
              IsFreeTree-drop c.before (taken c.here) c.after p.slices_free refl low high
                held.free_tree);
          accounted = held.accounted ∙ sym (accounted-rejoin c.before (shown ∷ c.after));
        },
        refl,
      )

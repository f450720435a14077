-- ===== src/Pool/Release.antt =====
-- pool.c: the release of a slice, by the kernel and by the user, and its publication.
use kdbus.Base.{
  ℕ, ◌+◌, ◌<◌, ◌≡◌, refl, sym, ◌∙◌, true, false, ◌||◌, ◌∷◌, Option, some, arith, All, Bool-cases,
  inl, inr, subst,
}
use kdbus.Rbtree.{Tree, inorder, RbTree}
use kdbus.Pool.Slices.{Pool, Cursor, rejoin, merge_next, merge_prev, give_back, erase, put_slice}
use kdbus.Pool.Cursor.{whole}
use kdbus.Pool.Layout.{Onward, Backward, front_free, Onward-rejoin}
use kdbus.Pool.Index.{offs, is_busy, All-offs}
use kdbus.Pool.Trees.{IsFreeTree, taken, IsFreeTree-add}
use kdbus.Pool.Busy.{erase-inorder}
use kdbus.Pool.Invariant.{
  IsPool, charge, accounted_total, accounted-rejoin, Backward-low, IsApart-of_low,
}
use kdbus.Pool.Take.{offs_here, offs_skip}
use kdbus.Pool.Merge.{IsLoose, merge_next-IsLoose, merge_prev-IsLoose}

-- The pool is well formed again, and as large as before.
abbrev pub Kept : ℕ → Option Pool → Type 0
Kept size r = (q : Pool) × (r ≡ some q) × IsPool q × (q.size ≡ size)

-- A position at a slice that is not free, in a pool whose `slices` field is yet to be written.
pub record IsHeld (c : Cursor) (p : Pool) : Type 0 where
  pub front : Backward c.before c.here.off
  pub pos : 0 < c.here.size
  pub not_free : c.here.free ≡ false
  pub rest : Onward (c.here.off + c.here.size) false c.after p.size
  pub high : All (λ s. c.here.off < s.off) c.after
  pub busy :
      inorder p.slices_busy ≡ rejoin (offs is_busy c.before) (c.here.off ∷ offs is_busy c.after)
  pub free_tree : IsFreeTree (rejoin c.before (taken c.here ∷ c.after)) p.slices_free
  pub accounted :
      p.accounted_size ≡ accounted_total c.before + (charge c.here + accounted_total c.after)

module _ (rb : RbTree ℕ) where
  give_back-IsPool :
      (c : Cursor) (t : Tree ℕ) (p : Pool)
      → IsLoose true c t p.size (inorder p.slices_busy) p.accounted_size
      → front_free c.before ≡ false
      → Kept p.size (give_back rb (c, t) p)
  unfolding give_back offs accounted_total charge
  give_back-IsPool c t p loose quiet =
      let here = record c.here { free = true } in
      let (u, added, is_tree) =
        IsFreeTree-add c.before here c.after rb t refl
          (IsApart-of_low c.here.off c.before (Backward-low c.before c.here.off loose.front))
          loose.free_tree in
      (
        record p { slices = rejoin c.before (here ∷ c.after); slices_free = u },
        ground (arith, added),
        record {
          tiles = Onward-rejoin c.before (here ∷ c.after) c.here.off p.size loose.front (
            refl,
            loose.pos,
            ground (arith, quiet),
            ground (arith, loose.no_kernel, loose.no_user),
            loose.rest,
          );
          busy = loose.is_busy ∙ sym (offs_skip is_busy c.before here c.after refl);
          free = is_tree;
          accounted =
              loose.is_sum
              ∙ ground (arith, loose.no_kernel)
              ∙ sym (accounted-rejoin c.before (here ∷ c.after));
        },
        refl,
      )

  -- The slice stays if somebody refers to it, and is free otherwise.
  pub put_slice-IsPool : (c : Cursor) (p : Pool) → IsHeld c p → Kept p.size (put_slice rb c p)
  unfolding put_slice accounted_total charge
  put_slice-IsPool c p held = elim (Bool-cases (c.here.ref_kernel || c.here.ref_user)) [
    | inl refd ↦ (
      record p { slices = whole c },
      ground (arith, refd),
      record {
        tiles = Onward-rejoin c.before (c.here ∷ c.after) c.here.off p.size held.front (
          refl,
          held.pos,
          ground (arith, held.not_free),
          ground (arith, held.not_free, refd),
          subst (λ b. Onward (c.here.off + c.here.size) b c.after p.size) (sym held.not_free)
              held.rest,
        );
        busy =
            held.busy
            ∙ sym (offs_here is_busy c.before c.here c.after (ground (arith, held.not_free)));
        free =
            subst
              (λ b.
                IsFreeTree (rejoin c.before (record c.here { free = b } ∷ c.after)) p.slices_free)
              (sym held.not_free) held.free_tree;
        accounted = held.accounted ∙ sym (accounted-rejoin c.before (c.here ∷ c.after));
      },
      refl,
    )
    | inr free ↦
        let busy = erase rb c.here.off p.slices_busy in
        let start : IsLoose false c p.slices_free p.size (inorder busy) p.accounted_size = record {
          front = held.front;
          pos = held.pos;
          rest = held.rest;
          free_tree = held.free_tree;
          no_kernel = ground (arith, free);
          no_user = ground (arith, free);
          is_busy =
              erase-inorder rb (offs is_busy c.before) (offs is_busy c.after) c.here p.slices_busy
                (All-offs (λ o. o < c.here.off) is_busy c.before
                  (Backward-low c.before c.here.off held.front))
                held.busy;
          is_sum = ground (arith, held.accounted, free);
        } in
        let next = merge_next rb c p.slices_free in
        let (loose, quiet) =
          merge_prev-IsLoose rb p.size (inorder busy) p.accounted_size next.0.before next.0.here
            next.0.after next.1
            (merge_next-IsLoose rb p.size (inorder busy) p.accounted_size c.before c.here c.after
              p.slices_free start) in
        let merged = merge_prev rb next.0 next.1 in
        subst (Kept p.size) (ground (arith, free, held.not_free))
          (give_back-IsPool merged.0 merged.1 (record p { slices_busy = busy }) loose quiet)
  ]

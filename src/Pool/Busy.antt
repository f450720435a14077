-- ===== src/Pool/Busy.antt =====
-- pool.c: the busy tree, in the order of the offsets.
use Prim.Native.Nat.Ordering.{lt, eq, gt}
use Prim.Native.Nat.{Ordering, compare}
use kdbus.Base.{
  ℕ, ◌<◌, ◌≡◌, ◌≢◌, sym, ◌∙◌, ap, false, List, [], ◌∷◌, some, arith, remove_first, All, ◌==◌, inr,
  subst,
}
use kdbus.Rbtree.{Tree, inorder, RbTree, link-inorder, insert_by, IsCut, All-imp}
use kdbus.Pool.Slices.{Slice, rejoin, add_busy, erase}
use kdbus.Pool.Cursor.{remove_first-rejoin, insert_by-rejoin, All-rejoin, IsCut-rejoin}

module _ (rb : RbTree ℕ) (before after : List ℕ) (s : Slice) (t : Tree ℕ) where
  abbrev by_off : ℕ → Ordering
  by_off o = compare s.off o

  -- Between the smaller and the larger offsets there is a place for a slice.
  pub add_busy-inorder :
      All (λ o. o < s.off) before
      → All (λ o. s.off < o) after
      → inorder t ≡ rejoin before after
      → (u : Tree ℕ) × (add_busy rb s t ≡ some u) × (inorder u ≡ rejoin before (s.off ∷ after))
  unfolding add_busy insert_by
  add_busy-inorder low high e =
      let (u, linked, placed) =
        link-inorder by_off s.off t
          (subst (IsCut by_off) (sym e)
            (IsCut-rejoin by_off before after gts (cut_high after high)))
          (subst (All (λ o. by_off o ≢ eq)) (sym e) (
            All-rejoin (λ o. by_off o ≢ eq) before after
              (All-imp (λ o. o < s.off) (λ o. by_off o ≢ eq)
                (λ o h c. absurd (ground (arith, h, c))) before low)
              (All-imp (λ o. s.off < o) (λ o. by_off o ≢ eq)
                (λ o h c. absurd (ground (arith, h, c))) after high))) in
      (
        rb.insert_color u,
        ground (arith, linked),
        rb.inorder-insert_color u
            ∙ placed
            ∙ ap (insert_by by_off s.off) e
            ∙ insert_by-rejoin by_off s.off before after gts
            ∙ ap (rejoin before) (placed_first after high),
      )
    where
      gts : All (λ o. by_off o ≡ gt) before
      gts = All-imp (λ o. o < s.off) (λ o. by_off o ≡ gt) (λ o h. ground (arith, h)) before low

      cut_high : (l : List ℕ) → All (λ o. s.off < o) l → IsCut by_off l
      cut_high [] h = tt
      cut_high (x ∷ l) h = (
        inr (All-imp (λ o. s.off < o) (λ o. by_off o ≡ lt) (λ o g. ground (arith, g)) l h.1),
        cut_high l h.1,
      )

      placed_first : (l : List ℕ) → All (λ o. s.off < o) l → insert_by by_off s.off l ≡ s.off ∷ l
      placed_first [] h = ground arith
      placed_first (x ∷ l) h = ground (arith, h.0)

  pub erase-inorder :
      All (λ o. o < s.off) before
      → inorder t ≡ rejoin before (s.off ∷ after)
      → inorder (erase rb s.off t) ≡ rejoin before after
  unfolding remove_first
  erase-inorder low e =
      rb.inorder-erase (λ o. o == s.off) t
      ∙ ap (remove_first (λ o. o == s.off)) e
      ∙ remove_first-rejoin (λ o. o == s.off) before (s.off ∷ after)
          (All-imp (λ o. o < s.off) (λ o. (o == s.off) ≡ false) (λ o h. ground (arith, h)) before
            low)
      ∙ ap (rejoin before) (ground arith)

-- ===== src/Pool/Trees.antt =====
-- pool.c: what the busy tree and the free tree hold while a slice is taken, resized, removed or added.
use kdbus.Base.{
  ℕ, ◌+◌, ◌<◌, ◌≡◌, ◌≢◌, refl, sym, ◌∙◌, ap, true, false, List, [], ◌∷◌, some, arith, ◌==◌,
  if◌then◌else◌, Bool-cases, inl, inr, find, subst,
}
use kdbus.Rbtree.{Tree, inorder, RbTree, link-inorder, insert_by, IsSorted}
use kdbus.Pool.Slices.{Slice, rejoin, size_at, free_order, add_free, erase}
use kdbus.Pool.Index.{
  offs, count, is_free, IsApart, offs-rejoin, count-rejoin, count-offs_apart, count-remove_first,
  count-insert_by, IsSorted-key, IsSorted-remove_first, IsCut-by_key, by_key_distinct,
  IsSorted-insert_by,
}

-- The free tree holds the offset of each free slice, and is in the order of their sizes.
abbrev pub IsFreeTree : List Slice → Tree ℕ → Type 0
IsFreeTree l t =
    IsSorted (size_at l) (inorder t) × ((o : ℕ) → count o (inorder t) ≡ count o (offs is_free l))

abbrev pub taken : Slice → Slice
taken s = record s { free = false }

size_at-cons :
    (b : Slice) (l m : List Slice) (o : ℕ)
    → size_at l o ≡ size_at m o
    → size_at (b ∷ l) o ≡ size_at (b ∷ m) o
unfolding size_at find
size_at-cons b l m o e = elim (Bool-cases (b.off == o)) [
  | inl h ↦ ground (arith, h)
  | inr h ↦ ground (arith, h, e)
]

size_at-rejoin :
    (before l m : List Slice) (o : ℕ)
    → size_at l o ≡ size_at m o
    → size_at (rejoin before l) o ≡ size_at (rejoin before m) o
unfolding rejoin
size_at-rejoin [] l m o e = e
size_at-rejoin (b ∷ before) l m o e =
    size_at-rejoin before (b ∷ l) (b ∷ m) o (size_at-cons b l m o e)

size_at-other : (s : Slice) (l : List Slice) (o : ℕ) → s.off ≢ o → size_at (s ∷ l) o ≡ size_at l o
unfolding size_at find
size_at-other s l o n = ground (arith, n)

size_at-taken : (s : Slice) (l : List Slice) (o : ℕ) → size_at (s ∷ l) o ≡ size_at (taken s ∷ l) o
unfolding size_at find
size_at-taken s l o = elim (Bool-cases (s.off == o)) [
  | inl h ↦ ground (arith, h)
  | inr h ↦ ground (arith, h)
]

size_at-here : (s : Slice) (l : List Slice) → size_at (s ∷ l) s.off ≡ s.size
unfolding size_at find
size_at-here s l = ground arith

size_at-apart :
    (o : ℕ) (before l : List Slice) → IsApart o before → size_at (rejoin before l) o ≡ size_at l o
unfolding rejoin
size_at-apart o [] l h = refl
size_at-apart o (x ∷ before) l h = size_at-apart o before (x ∷ l) h.1 ∙ size_at-other x l o h.0

pub size_at-at :
    (before : List Slice) (s : Slice) (after : List Slice)
    → IsApart s.off before
    → size_at (rejoin before (s ∷ after)) s.off ≡ s.size
size_at-at before s after b = size_at-apart s.off before (s ∷ after) b ∙ size_at-here s after

-- The free offsets around a position.
count-free :
    (o : ℕ) (before l : List Slice)
    → count o (offs is_free (rejoin before l))
      ≡ count o (offs is_free before) + count o (offs is_free l)
count-free o before l =
    ap (count o) (offs-rejoin is_free before l)
    ∙ count-rejoin o (offs is_free before) (offs is_free l)

count-free_taken :
    (o : ℕ) (s : Slice) (l : List Slice)
    → s.free ≡ false
    → count o (offs is_free (s ∷ l)) ≡ count o (offs is_free l)
unfolding offs
count-free_taken o s l f = ground (arith, f)

pub count-free_here :
    (o : ℕ) (s : Slice) (l : List Slice)
    → s.free ≡ true
    → count o (offs is_free (s ∷ l)) ≡ (if s.off == o then 1 else 0) + count o (offs is_free l)
unfolding offs count
count-free_here o s l f = ground (arith, f)

module _ (before : List Slice) (s : Slice) (after : List Slice) where
  counted_other :
      (o : ℕ)
      → s.free ≡ false
      → IsApart s.off before
      → IsApart s.off after
      → 0 < count o (offs is_free (rejoin before after))
      → s.off ≢ o
  counted_other o f b a c e =
      absurd (omega (arith, c, none_before, none_after, count-free o before after))
    where
      none_before : count o (offs is_free before) ≡ 0
      none_before =
          ap (λ q. count q (offs is_free before)) (sym e) ∙ count-offs_apart is_free s.off before b

      none_after : count o (offs is_free after) ≡ 0
      none_after =
          ap (λ q. count q (offs is_free after)) (sym e) ∙ count-offs_apart is_free s.off after a

  count-free_same :
      (o : ℕ)
      → s.free ≡ false
      → count o (offs is_free (rejoin before (s ∷ after)))
        ≡ count o (offs is_free (rejoin before after))
  count-free_same o f = omega (
    arith,
    count-free o before (s ∷ after),
    count-free o before after,
    count-free_taken o s after f,
  )

  -- A slice that is not free can be put between the others and taken away.
  pub IsFreeTree-put :
      (t : Tree ℕ)
      → s.free ≡ false
      → IsApart s.off before
      → IsApart s.off after
      → IsFreeTree (rejoin before after) t
      → IsFreeTree (rejoin before (s ∷ after)) t
  IsFreeTree-put t f b a (sorted, counts) = (
    IsSorted-key (size_at (rejoin before after)) (size_at (rejoin before (s ∷ after))) (inorder t)
        (λ o c.
          size_at-rejoin before after (s ∷ after) o (
            sym
              (size_at-other s after o (counted_other o f b a (subst (λ n. 0 < n) (counts o) c)))))
        sorted,
    λ o. counts o ∙ sym (count-free_same o f),
  )

  pub IsFreeTree-drop :
      (t : Tree ℕ)
      → s.free ≡ false
      → IsApart s.off before
      → IsApart s.off after
      → IsFreeTree (rejoin before (s ∷ after)) t
      → IsFreeTree (rejoin before after) t
  IsFreeTree-drop t f b a (sorted, counts) = (
    IsSorted-key (size_at (rejoin before (s ∷ after))) (size_at (rejoin before after)) (inorder t)
        (λ o c. size_at-rejoin before (s ∷ after) after o (
          size_at-other s after o
            (counted_other o f b a (subst (λ n. 0 < n) (counts o ∙ count-free_same o f) c))))
        sorted,
    λ o. counts o ∙ count-free_same o f,
  )

  module _ (rb : RbTree ℕ) where
    -- A free slice leaves the tree.
    pub IsFreeTree-erase :
        (t : Tree ℕ)
        → s.free ≡ true
        → IsFreeTree (rejoin before (s ∷ after)) t
        → IsFreeTree (rejoin before (taken s ∷ after)) (erase rb s.off t)
    IsFreeTree-erase t f (sorted, counts) = (
      subst (IsSorted (size_at (rejoin before (taken s ∷ after))))
          (sym (rb.inorder-erase (λ o. o == s.off) t))
          (IsSorted-remove_first (size_at (rejoin before (taken s ∷ after))) (λ o. o == s.off)
            (inorder t)
            (IsSorted-key (size_at (rejoin before (s ∷ after)))
              (size_at (rejoin before (taken s ∷ after))) (inorder t)
              (λ o c.
                size_at-rejoin before (s ∷ after) (taken s ∷ after) o (size_at-taken s after o))
              sorted)),
      λ o.
          ap (count o) (rb.inorder-erase (λ q. q == s.off) t)
          ∙ omega (
            arith,
            count-remove_first o s.off (inorder t),
            counts o,
            count-free o before (s ∷ after),
            count-free o before (taken s ∷ after),
            count-free_here o s after f,
            count-free_taken o (taken s) after refl,
          ),
    )

    -- A free slice enters the tree.
    pub IsFreeTree-add :
        (t : Tree ℕ)
        → s.free ≡ true
        → IsApart s.off before
        → IsFreeTree (rejoin before (taken s ∷ after)) t
        → (u : Tree ℕ) × (add_free rb (rejoin before (s ∷ after)) s t ≡ some u)
          × IsFreeTree (rejoin before (s ∷ after)) u
    unfolding add_free
    IsFreeTree-add t f b (sorted, counts) =
        let key : ℕ → ℕ = size_at (rejoin before (s ∷ after)) in
        let k : key s.off ≡ s.size = size_at-at before s after b in
        let sorted_now : IsSorted key (inorder t) =
          IsSorted-key (size_at (rejoin before (taken s ∷ after))) key (inorder t)
            (λ o c.
              size_at-rejoin before (taken s ∷ after) (s ∷ after) o (sym (size_at-taken s after o)))
            sorted in
        let (u, linked, placed) =
          link-inorder (free_order (rejoin before (s ∷ after)) s.size) s.off t
            (IsCut-by_key key s.size (inorder t) sorted_now)
            (by_key_distinct key s.size (inorder t)) in
        (
          rb.insert_color u,
          ground (arith, linked),
          (
            subst (IsSorted key) (sym (rb.inorder-insert_color u ∙ placed)) (
                subst
                  (λ n.
                    IsSorted key
                      (insert_by (free_order (rejoin before (s ∷ after)) n) s.off (inorder t)))
                  k (IsSorted-insert_by key s.off (inorder t) sorted_now)),
            λ o.
                ap (count o) (rb.inorder-insert_color u ∙ placed)
                ∙ omega (
                  arith,
                  count-insert_by (free_order (rejoin before (s ∷ after)) s.size) o s.off
                      (inorder t),
                  counts o,
                  count-free o before (s ∷ after),
                  count-free o before (taken s ∷ after),
                  count-free_here o s after f,
                  count-free_taken o (taken s) after refl,
                ),
          ),
        )

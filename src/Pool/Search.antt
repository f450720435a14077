-- ===== src/Pool/Search.antt =====
-- pool.c: the search of `kdbus_pool_slice_alloc` in the free tree.
use Prim.Native.Nat.{compare}
use kdbus.Base.{
  ℕ, ◌≤◌, ◌<◌, ◌≡◌, refl, sym, ◌∙◌, ap, true, false, List, [], ◌∷◌, Option, none, some, arith, All,
  Has, Bool-cases, inl, inr, ◌⊎◌, subst,
}
use kdbus.Rbtree.{inorder, All-imp, search_ge, search_ge-inorder, IsWorse}
use kdbus.Pool.Slices.{Slice, Pool, Cursor, seek, rejoin, size_at}
use kdbus.Pool.Cursor.{whole}
use kdbus.Pool.Layout.{IsRefd, Onward}
use kdbus.Pool.Index.{offs, count, is_free, is_busy, All-counted, count-rejoin}
use kdbus.Pool.Trees.{IsFreeTree, size_at-at}
use kdbus.Pool.Invariant.{
  IsPool, IsAround, IsAround-whole, accounted_total, accounted-rejoin, seek_counted, IsApart-before,
  slices_high,
}
use kdbus.Pool.Take.{IsReady, offs_skip, offs_here, charge_free}

pub count_pos : (l : List ℕ) (o : ℕ) → Has o l → 0 < count o l
unfolding count
count_pos [] o m = absurd m
count_pos (x ∷ l) o (inl e) = ground (arith, e)
count_pos (x ∷ l) o (inr m) = omega (arith, count_pos l o m)

-- What holds at each position holds of the whole list.
pub All-positions :
    (P : Slice → Type 0) (before l : List Slice)
    → ((c : Cursor) → whole c ≡ rejoin before l → P c.here)
    → All P l
unfolding rejoin
All-positions P before [] h = tt
All-positions P before (s ∷ l) h =
    (h (record { before = before; here = s; after = l }) refl, All-positions P (s ∷ before) l h)

counted_here : (c : Cursor) → c.here.free ≡ true → 0 < count c.here.off (offs is_free (whole c))
unfolding count
counted_here c f = ground (
  arith,
  ap (count c.here.off) (offs_here is_free c.before c.here c.after f),
  count-rejoin c.here.off (offs is_free c.before) (c.here.off ∷ offs is_free c.after),
)

module _ (p : Pool) (good : IsPool p) where
  pub IsAround-at : (c : Cursor) → whole c ≡ p.slices → IsAround c p.size × IsRefd c.here
  IsAround-at c same =
      IsAround-whole c p.size (subst (λ l. Onward 0 false l p.size) (sym same) good.tiles)

  -- A free slice is in the free tree, with its size.
  free_at :
      (P : ℕ → Type 0) (c : Cursor)
      → All P (inorder p.slices_free)
      → whole c ≡ p.slices
      → c.here.free ≡ true
      → P c.here.off
  free_at P c a same f = All-counted P (inorder p.slices_free) a c.here.off (
      subst (λ n. 0 < n) (sym (good.free.1 c.here.off))
        (subst (λ l. 0 < count c.here.off (offs is_free l)) same (counted_here c f)))

  size_here : (c : Cursor) → whole c ≡ p.slices → size_at p.slices c.here.off ≡ c.here.size
  size_here c same =
      subst (λ l. size_at l c.here.off ≡ c.here.size) same
        (size_at-at c.before c.here c.after (IsApart-before c p.size (IsAround-at c same).0))

  pub IsReady-at : (c : Cursor) → whole c ≡ p.slices → c.here.free ≡ true → IsReady c p
  unfolding accounted_total
  IsReady-at c same f =
      let (around, refd) = IsAround-at c same in
      record {
        front = around.front;
        high = slices_high c p.size around;
        refd = refd;
        is_free = f;
        busy =
            good.busy
            ∙ ap (offs is_busy) (sym same)
            ∙ offs_skip is_busy c.before c.here c.after (ground (arith, f));
        free_tree = subst (λ l. IsFreeTree l p.slices_free) (sym same) good.free;
        accounted = omega (
          arith,
          good.accounted,
          ap accounted_total same,
          accounted-rejoin c.before (c.here ∷ c.after),
          charge_free c.here refd f,
        );
      }

-- Every free slice is too small.
abbrev pub IsFull : ℕ → List Slice → Type 0
IsFull size = All (λ s. (s.free ≡ false) ⊎ (s.size < size))

-- The slice is free and large enough, and no free one that is large enough is smaller.
abbrev pub IsBest : ℕ → Slice → List Slice → Type 0
IsBest size s l =
    (s.free ≡ true)
    × (size ≤ s.size)
    × All (λ x. (x.free ≡ false) ⊎ (x.size < size) ⊎ (s.size ≤ x.size)) l

-- The search for a slice of size `k`.
abbrev pub chosen : Pool → ℕ → Option ℕ
chosen p k = search_ge (λ o. compare k (size_at p.slices o)) p.slices_free none

module _ (p : Pool) (good : IsPool p) (k : ℕ) where
  -- What the descent knows of an offset, against a size that it could have had.
  abbrev IsAsGood : ℕ → ℕ → Type 0
  IsAsGood n q = (size_at p.slices q < k) ⊎ (n ≤ size_at p.slices q)

  -- The descent chooses the best slice, or there is none.
  pub chosen_cases :
      ((chosen p k ≡ none) × IsFull k p.slices)
      ⊎ ((c : Cursor) × (chosen p k ≡ some c.here.off)
          × (seek c.here.off [] p.slices ≡ some c)
          × (whole c ≡ p.slices)
          × IsBest k c.here p.slices)
  unfolding rejoin
  chosen_cases = elim (search_ge-inorder (size_at p.slices) k p.slices_free none good.free.0) [
    | inl (e, low) ↦ inl (
      e,
      All-positions (λ s. (s.free ≡ false) ⊎ (s.size < k)) [] p.slices
          (λ c same. too_small c low same),
    )
    | inr (o, e, m, fits, worse) ↦
        let (c, found, same, at, f) =
          seek_counted is_free o p.slices p.size good.tiles
            (subst (λ n. 0 < n) (good.free.1 o) (count_pos (inorder p.slices_free) o m)) in
        let size_o : size_at p.slices o ≡ c.here.size =
          ap (size_at p.slices) (sym at) ∙ size_here p good c same in
        inr (
          c,
          e ∙ ap some (sym at),
          ap (λ q. seek q [] p.slices) at ∙ found,
          same,
          (
            f,
            omega (arith, fits, size_o),
            All-positions (λ s. (s.free ≡ false) ⊎ (s.size < k) ⊎ (c.here.size ≤ s.size)) []
                p.slices
                (λ d same_d.
                  not_better d c.here.size
                    (All-imp (IsWorse (size_at p.slices) k o) (IsAsGood c.here.size)
                      (λ q w. as_good q o c.here.size size_o w) (inorder p.slices_free) worse)
                    same_d),
          ),
        )
  ]
    where
      too_small :
          (c : Cursor)
          → All (λ o. size_at p.slices o < k) (inorder p.slices_free)
          → whole c ≡ p.slices
          → (c.here.free ≡ false) ⊎ (c.here.size < k)
      too_small c low same = elim (Bool-cases c.here.free) [
        | inl f ↦ inr (
            subst (λ n. n < k) (size_here p good c same)
              (free_at p good (λ o. size_at p.slices o < k) c low same f))
        | inr f ↦ inl f
      ]

      as_good :
          (q o n : ℕ) → size_at p.slices o ≡ n → IsWorse (size_at p.slices) k o q → IsAsGood n q
      as_good q o n e (inl h) = inl h
      as_good q o n e (inr h) = inr (rw (← e) h)

      not_better :
          (d : Cursor) (n : ℕ)
          → All (IsAsGood n) (inorder p.slices_free)
          → whole d ≡ p.slices
          → (d.here.free ≡ false) ⊎ (d.here.size < k) ⊎ (n ≤ d.here.size)
      not_better d n a same = elim (Bool-cases d.here.free) [
        | inl f ↦ inr (
            subst (λ m. (m < k) ⊎ (n ≤ m)) (size_here p good d same)
              (free_at p good (IsAsGood n) d a same f))
        | inr f ↦ inl f
      ]

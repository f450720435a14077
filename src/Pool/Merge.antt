-- ===== src/Pool/Merge.antt =====
-- pool.c: a slice that nobody refers to merges with its free neighbours and becomes free.
use kdbus.Base.{
  ℕ, ◌+◌, ◌≤◌, ◌<◌, ◌≡◌, refl, ◌∙◌, ap, Bool, true, false, List, [], ◌∷◌, arith, All, Bool-cases,
  inl, inr, subst,
}
use kdbus.Rbtree.{Tree, RbTree, All-imp}
use kdbus.Pool.Slices.{Slice, Cursor, rejoin, merge_next, merge_prev, erase}
use kdbus.Pool.Layout.{IsRefd, Onward, Backward, front_free}
use kdbus.Pool.Index.{offs, is_busy, IsApart}
use kdbus.Pool.Trees.{IsFreeTree, taken, IsFreeTree-put, IsFreeTree-drop, IsFreeTree-erase}
use kdbus.Pool.Invariant.{
  accounted_total, Backward-low, Onward-high, IsApart-of_low, IsApart-of_high,
}
use kdbus.Pool.Take.{charge_free}

-- A slice that is in neither tree, at a position; behind it, a free slice may follow unless `f`.
pub record IsLoose (f : Bool) (c : Cursor) (t : Tree ℕ) (end : ℕ) (busy : List ℕ) (sum : ℕ)
    : Type 0 where
  pub front : Backward c.before c.here.off
  pub pos : 0 < c.here.size
  pub rest : Onward (c.here.off + c.here.size) f c.after end
  pub free_tree : IsFreeTree (rejoin c.before (taken c.here ∷ c.after)) t
  pub no_kernel : c.here.ref_kernel ≡ false
  pub no_user : c.here.ref_user ≡ false
  pub is_busy : busy ≡ rejoin (offs is_busy c.before) (offs is_busy c.after)
  pub is_sum : sum ≡ accounted_total c.before + accounted_total c.after

high_behind :
    (off size : ℕ) (f : Bool) (after : List Slice) (end : ℕ)
    → 0 < size
    → Onward (off + size) f after end
    → All (λ s. off < s.off) after
high_behind off size f after end pos o =
    All-imp (λ s. off + size ≤ s.off) (λ s. off < s.off) (λ s h. omega (arith, h, pos)) after
      (Onward-high after (off + size) f end o)

IsFreeTree-resize :
    (before : List Slice) (s : Slice) (size : ℕ) (after : List Slice) (t : Tree ℕ)
    → IsApart s.off before
    → IsApart s.off after
    → IsFreeTree (rejoin before (taken s ∷ after)) t
    → IsFreeTree (rejoin before (taken (record s { size = size }) ∷ after)) t
IsFreeTree-resize before s size after t low high h =
    IsFreeTree-put before (taken (record s { size = size })) after t refl low high
      (IsFreeTree-drop before (taken s) after t refl low high h)

skip_free :
    (s : Slice) (l : List Slice)
    → IsRefd s
    → s.free ≡ true
    → (offs is_busy (s ∷ l) ≡ offs is_busy l) × (accounted_total (s ∷ l) ≡ accounted_total l)
unfolding offs accounted_total
skip_free s l r f = (ground (arith, f), omega (arith, charge_free s r f))

module _ (rb : RbTree ℕ) (end : ℕ) (busy : List ℕ) (sum : ℕ) where
  absorb_next :
      (before : List Slice) (s n : Slice) (rest : List Slice) (t : Tree ℕ)
      → n.free ≡ true
      → IsLoose false (record { before = before; here = s; after = n ∷ rest }) t end busy sum
      → IsLoose true
          (record { before = before; here = record s { size = s.size + n.size }; after = rest })
          (erase rb n.off t)
          end
          busy
          sum
  unfolding rejoin
  absorb_next before s n rest t f loose =
      let (at, pos_n, gap, refd, o) = loose.rest in
      let low_s : All (λ x. x.off < s.off) before = Backward-low before s.off loose.front in
      let high_n : All (λ x. n.off < x.off) rest =
        high_behind n.off n.size n.free rest end pos_n
          (subst (λ m. Onward m n.free rest end) (omega (arith, at)) o) in
      let s_n : s.off < n.off = omega (arith, at, loose.pos) in
      let apart_n : IsApart n.off (taken s ∷ before) = (
        (λ e. absurd (omega (arith, e, s_n))),
        IsApart-of_low n.off before (
            All-imp (λ x. x.off < s.off) (λ x. x.off < n.off) (λ x h. omega (arith, h, s_n)) before
              low_s),
      ) in
      let high_s : All (λ x. s.off < x.off) rest =
        All-imp (λ x. n.off < x.off) (λ x. s.off < x.off) (λ x h. omega (arith, h, s_n)) rest
          high_n in
      let (skipped, uncharged) = skip_free n rest refd f in
      record {
        front = loose.front;
        pos = omega (arith, loose.pos);
        rest =
            subst (λ b. Onward (s.off + (s.size + n.size)) b rest end) f
              (subst (λ m. Onward m n.free rest end) (omega arith) o);
        free_tree =
            IsFreeTree-resize before s (s.size + n.size) rest (erase rb n.off t)
              (IsApart-of_low s.off before low_s) (IsApart-of_high s.off rest high_s)
              (IsFreeTree-drop (taken s ∷ before) (taken n) rest (erase rb n.off t) refl apart_n
                (IsApart-of_high n.off rest high_n)
                (IsFreeTree-erase (taken s ∷ before) n rest rb t f loose.free_tree));
        no_kernel = loose.no_kernel;
        no_user = loose.no_user;
        is_busy = loose.is_busy ∙ ap (rejoin (offs is_busy before)) skipped;
        is_sum = omega (arith, loose.is_sum, uncharged);
      }

  pub merge_next-IsLoose :
      (before : List Slice) (s : Slice) (after : List Slice) (t : Tree ℕ)
      → IsLoose false (record { before = before; here = s; after = after }) t end busy sum
      → let m = merge_next rb (record { before = before; here = s; after = after }) t in
        IsLoose true m.0 m.1 end busy sum
  unfolding merge_next
  merge_next-IsLoose before s [] t loose = record {
    front = loose.front;
    pos = loose.pos;
    rest = loose.rest;
    free_tree = loose.free_tree;
    no_kernel = loose.no_kernel;
    no_user = loose.no_user;
    is_busy = loose.is_busy;
    is_sum = loose.is_sum;
  }
  merge_next-IsLoose before s (n ∷ rest) t loose = elim (Bool-cases n.free) [
    | inl f ↦ subst Merged {x = merged} (ground (arith, f)) (absorb_next before s n rest t f loose)
    | inr f ↦
        let (at, pos_n, gap, refd, o) = loose.rest in
        subst Merged {x = (record { before = before; here = s; after = n ∷ rest }, t)}
          (ground (arith, f))
          (record {
            front = loose.front;
            pos = loose.pos;
            rest = (at, pos_n, f, refd, o);
            free_tree = loose.free_tree;
            no_kernel = loose.no_kernel;
            no_user = loose.no_user;
            is_busy = loose.is_busy;
            is_sum = loose.is_sum;
          })
  ]
    where
      Merged : Cursor × Tree ℕ → Type 0
      Merged m = IsLoose true m.0 m.1 end busy sum

      merged : Cursor × Tree ℕ
      merged = (
        record { before = before; here = record s { size = s.size + n.size }; after = rest },
        erase rb n.off t,
      )

  absorb_prev :
      (s : Slice) (before : List Slice) (here : Slice) (after : List Slice) (t : Tree ℕ)
      → s.free ≡ true
      → IsLoose true (record { before = s ∷ before; here = here; after = after }) t end busy sum
      → IsLoose true
          (record { before = before; here = record s { size = s.size + here.size }; after = after })
          (erase rb s.off t)
          end
          busy
          sum
  unfolding rejoin
  absorb_prev s before here after t f loose =
      let (at, pos_s, gap, refd, b) = loose.front in
      let low_s : All (λ x. x.off < s.off) before = Backward-low before s.off b in
      let high_h : All (λ x. here.off < x.off) after =
        high_behind here.off here.size true after end loose.pos loose.rest in
      let high_s : All (λ x. s.off < x.off) after =
        All-imp (λ x. here.off < x.off) (λ x. s.off < x.off) (λ x h. omega (arith, h, at, pos_s))
          after high_h in
      let (skipped, uncharged) = skip_free s before refd f in
      record {
        front = b;
        pos = omega (arith, pos_s);
        rest = subst (λ m. Onward m true after end) (omega (arith, at)) loose.rest;
        free_tree =
            IsFreeTree-resize before s (s.size + here.size) after (erase rb s.off t)
              (IsApart-of_low s.off before low_s) (IsApart-of_high s.off after high_s)
              (IsFreeTree-erase before s after rb t f (
                IsFreeTree-drop (s ∷ before) (taken here) after t refl
                  (IsApart-of_low here.off (s ∷ before)
                    (Backward-low (s ∷ before) here.off loose.front))
                  (IsApart-of_high here.off after high_h) loose.free_tree));
        no_kernel = ground (arith, refd, f);
        no_user = ground (arith, refd, f);
        is_busy = loose.is_busy ∙ ap (λ l. rejoin l (offs is_busy after)) skipped;
        is_sum = omega (arith, loose.is_sum, uncharged);
      }

  pub merge_prev-IsLoose :
      (before : List Slice) (s : Slice) (after : List Slice) (t : Tree ℕ)
      → IsLoose true (record { before = before; here = s; after = after }) t end busy sum
      → let m = merge_prev rb (record { before = before; here = s; after = after }) t in
        IsLoose true m.0 m.1 end busy sum × (front_free m.0.before ≡ false)
  unfolding merge_prev
  merge_prev-IsLoose [] s after t loose = (loose, refl)
  merge_prev-IsLoose (b ∷ before) s after t loose = elim (Bool-cases b.free) [
    | inl f ↦
        subst Merged {x = merged} (ground (arith, f))
          (absorb_prev b before s after t f loose, last_free loose.front f)
    | inr f ↦
        subst Merged {x = (record { before = b ∷ before; here = s; after = after }, t)}
          (ground (arith, f)) (loose, f)
  ]
    where
      Merged : Cursor × Tree ℕ → Type 0
      Merged m = IsLoose true m.0 m.1 end busy sum × (front_free m.0.before ≡ false)

      merged : Cursor × Tree ℕ
      merged = (
        record { before = before; here = record b { size = b.size + s.size }; after = after },
        erase rb b.off t,
      )

      last_free : Backward (b ∷ before) s.off → b.free ≡ true → front_free before ≡ false
      last_free (at, pos, gap, refd, rest) f = ground (arith, gap, f)

-- ===== src/Pool/Take.antt =====
-- pool.c: what `kdbus_pool_slice_alloc` does to the free slice that it has chosen.
use kdbus.Base.{
  ℕ, ◌+◌, ◌-◌, ◌≤◌, ◌<◌, ◌≡◌, ◌≢◌, refl, sym, ◌∙◌, ap, Bool, true, false, List, ◌∷◌, Option, some,
  arith, All, ◌==◌, if◌then◌else◌, Bool-cases, inl, inr, subst, Result, ok,
}
use kdbus.Rbtree.{inorder, All-imp, RbTree}
use kdbus.Pool.Slices.{Slice, Pool, Cursor, rejoin, slice_new, take, split}
use kdbus.Pool.Cursor.{whole}
use kdbus.Pool.Layout.{IsRefd, Onward, Backward, Onward-rejoin}
use kdbus.Pool.Index.{offs, is_busy, IsApart, offs-rejoin, All-offs}
use kdbus.Pool.Trees.{
  IsFreeTree, taken, IsFreeTree-put, IsFreeTree-drop, IsFreeTree-erase, IsFreeTree-add,
}
use kdbus.Pool.Busy.{add_busy-inorder}
use kdbus.Pool.Invariant.{
  IsPool, charge, accounted_total, accounted-rejoin, Onward-high, Backward-low, IsApart-of_low,
  IsApart-of_high,
}

-- The slice that is handed out.
abbrev pub granted : Slice → ℕ → Bool → Slice
granted s size accounted = record s {
  size = size;
  ref_kernel = true;
  free = false;
  accounted = accounted;
}

pub offs_skip :
    (p : Slice → Bool) (before : List Slice) (s : Slice) (after : List Slice)
    → p s ≡ false
    → offs p (rejoin before (s ∷ after)) ≡ rejoin (offs p before) (offs p after)
unfolding offs
offs_skip p before s after e =
    offs-rejoin p before (s ∷ after) ∙ ap (rejoin (offs p before)) (ground (arith, e))

pub offs_here :
    (p : Slice → Bool) (before : List Slice) (s : Slice) (after : List Slice)
    → p s ≡ true
    → offs p (rejoin before (s ∷ after)) ≡ rejoin (offs p before) (s.off ∷ offs p after)
unfolding offs
offs_here p before s after e =
    offs-rejoin p before (s ∷ after) ∙ ap (rejoin (offs p before)) (ground (arith, e))

-- A position whose slice is free, in a pool whose `slices` field is yet to be written.
pub record IsReady (c : Cursor) (p : Pool) : Type 0 where
  pub front : Backward c.before c.here.off
  pub high : All (λ s. c.here.off < s.off) c.after
  pub refd : IsRefd c.here
  pub is_free : c.here.free ≡ true
  pub busy : inorder p.slices_busy ≡ rejoin (offs is_busy c.before) (offs is_busy c.after)
  pub free_tree : IsFreeTree (whole c) p.slices_free
  pub accounted : p.accounted_size ≡ accounted_total c.before + accounted_total c.after

pub charge_free : (s : Slice) → IsRefd s → s.free ≡ true → charge s ≡ 0
unfolding charge
charge_free s r f = ground (arith, r, f)

abbrev pub Granted : Cursor → ℕ → Bool → List Slice → Pool → Option (Pool × Result ℕ) → Type 0
Granted c size accounted after p r =
    (q : Pool) × (r ≡ some (q, ok c.here.off))
    × IsPool q
    × (q.size ≡ p.size)
    × (q.slices ≡ rejoin c.before (granted c.here size accounted ∷ after))

module _ (rb : RbTree ℕ) where
  -- A slice whose size has been adjusted changes trees.
  pub take-Granted :
      (c : Cursor) (size : ℕ) (accounted : Bool) (p : Pool)
      → IsReady c p
      → 0 < size
      → Onward (c.here.off + size) false c.after p.size
      → Granted c size accounted c.after p (take rb c size accounted p)
  unfolding take accounted_total
  take-Granted c size accounted p ready pos rest =
      let s = c.here in
      let g = granted s size accounted in
      let low = Backward-low c.before s.off ready.front in
      let apart_low = IsApart-of_low s.off c.before low in
      let apart_high = IsApart-of_high s.off c.after ready.high in
      let (busy, added, placed) =
        add_busy-inorder rb (offs is_busy c.before) (offs is_busy c.after) s p.slices_busy
          (All-offs (λ o. o < s.off) is_busy c.before low)
          (All-offs (λ o. s.off < o) is_busy c.after ready.high) ready.busy in
      (
        record p {
          slices = rejoin c.before (g ∷ c.after);
          slices_free = rb.erase (λ o. o == s.off) p.slices_free;
          slices_busy = busy;
          accounted_size = if accounted then p.accounted_size + size else p.accounted_size;
        },
        ground (arith, added),
        record {
          tiles =
              Onward-rejoin c.before (g ∷ c.after) s.off p.size ready.front
                (refl, pos, ground arith, refl, rest);
          busy = placed ∙ sym (offs_here is_busy c.before g c.after refl);
          free =
              IsFreeTree-put c.before g c.after (rb.erase (λ o. o == s.off) p.slices_free) refl
                apart_low apart_high
                (IsFreeTree-drop c.before (taken s) c.after
                  (rb.erase (λ o. o == s.off) p.slices_free) refl apart_low apart_high
                  (IsFreeTree-erase c.before s c.after rb p.slices_free ready.is_free
                    ready.free_tree));
          accounted = charged ∙ sym (accounted-rejoin c.before (g ∷ c.after));
        },
        refl,
        refl,
      )
    where
      charged :
          (if accounted then p.accounted_size + size else p.accounted_size)
          ≡ accounted_total c.before + accounted_total (granted c.here size accounted ∷ c.after)
      charged = elim (Bool-cases accounted) [
        | inl e ↦ ground (arith, e, ready.accounted, charge)
        | inr e ↦ ground (arith, e, ready.accounted, charge)
      ]

  -- A larger slice is split first.
  pub split-Granted :
      (c : Cursor) (size : ℕ) (accounted : Bool) (p : Pool)
      → IsReady c p
      → 0 < size
      → size < c.here.size
      → Onward (c.here.off + c.here.size) true c.after p.size
      → Granted c size accounted
          (slice_new (c.here.off + size) (c.here.size - size) ∷ c.after)
          p
          (split rb c size accounted p)
  unfolding split rejoin offs accounted_total charge
  split-Granted c size accounted p ready pos less tiled_after =
      let rest = slice_new (c.here.off + size) (c.here.size - size) in
      let front = c.here ∷ c.before in
      let high : All (λ s. c.here.off + c.here.size ≤ s.off) c.after =
        Onward-high c.after (c.here.off + c.here.size) true p.size tiled_after in
      let apart_low : IsApart rest.off front = (
        (λ e. absurd (omega (arith, e, pos))),
        All-imp (λ s. s.off < c.here.off) (λ s. s.off ≢ rest.off)
            (λ s h e. absurd (omega (arith, h, e))) c.before
            (Backward-low c.before c.here.off ready.front),
      ) in
      let apart_high : IsApart rest.off c.after =
        All-imp (λ s. c.here.off + c.here.size ≤ s.off) (λ s. s.off ≢ rest.off)
          (λ s h e. absurd (omega (arith, h, e, less))) c.after high in
      let (free, added, is_tree) =
        IsFreeTree-add front rest c.after rb p.slices_free refl apart_low (
          IsFreeTree-put front (taken rest) c.after p.slices_free refl apart_low apart_high
            ready.free_tree) in
      let tail : Onward (c.here.off + size) false (rest ∷ c.after) p.size = (
        refl,
        omega (arith, less),
        refl,
        refl,
        subst (λ m. Onward m true c.after p.size) (omega (arith, less)) tiled_after,
      ) in
      let (q, done, good, same_size, same_slices) =
        take-Granted (record c { after = rest ∷ c.after }) size accounted
          (record p { slices_free = free })
          (record {
            front = ready.front;
            high = (omega (arith, pos), ready.high);
            refd = ready.refd;
            is_free = ready.is_free;
            busy = ready.busy;
            free_tree = is_tree;
            accounted = ground (arith, ready.accounted);
          })
          pos tail in
      (q, ground (arith, added, done), good, same_size, same_slices)

-- ===== src/Pool/User.antt =====
-- pool.c: what KDBUS_CMD_FREE does with an offset that the user gives.
use Prim.Native.Nat.{compare}
use kdbus.Base.{
  ℕ, ◌≡◌, ◌≢◌, refl, sym, ◌∙◌, ap, true, false, List, [], ◌∷◌, Option, some, arith, All, Has, ◌==◌,
  Bool-cases, Option-cases, inl, inr, ◌⊎◌, subst, Result, ok, err, enxio, find,
}
use kdbus.Rbtree.{RbTree, All-imp, IsCut, search_eq, search_eq-inorder, is_eq}
use kdbus.Pool.Slices.{Slice, Pool, Cursor, rejoin, put_slice, find_slice, release_offset}
use kdbus.Pool.Cursor.{whole, All-rejoin, Has-rejoin}
use kdbus.Pool.Index.{offs, is_busy, IsApart}
use kdbus.Pool.Trees.{taken, IsFreeTree-put, IsFreeTree-drop}
use kdbus.Pool.Invariant.{
  IsPool, charge, seek_counted, Backward-low, IsApart-of_low, IsApart-of_high,
}
use kdbus.Pool.Release.{IsHeld, put_slice-IsPool}
use kdbus.Pool.Refs.{IsHeld-at}
use kdbus.Pool.Others.{
  IsForeign, IsForeignAll, Around, Has-before, put_slice-IsForeignAll, put_slice-Has,
}
use kdbus.Pool.Offsets.{busy-IsCut, find_offset, find_no_offset, offs-IsForeign}

All-of_Has {ℓ} : {A : Type 0} (P : A → Type ℓ) (l : List A) → ((x : A) → Has x l → P x) → All P l
All-of_Has P [] h = tt
All-of_Has P (x ∷ l) h = (h x (inl refl), All-of_Has P l (λ y m. h y (inr m)))

module _ (rb : RbTree ℕ) (off : ℕ) (p : Pool) where
  abbrev unused : Cursor → Cursor
  unused c = record c { here = record c.here { ref_user = false } }

  -- The slice at a held position without the user's reference.
  unused-IsHeld : (c : Cursor) → IsHeld c p → IsHeld (unused c) p
  unfolding charge
  unused-IsHeld c held = record {
    front = held.front;
    pos = held.pos;
    not_free = held.not_free;
    rest = held.rest;
    high = held.high;
    busy = held.busy;
    free_tree =
        IsFreeTree-put c.before (taken (record c.here { ref_user = false })) c.after p.slices_free
          refl low high
          (IsFreeTree-drop c.before (taken c.here) c.after p.slices_free refl low high
            held.free_tree);
    accounted = held.accounted;
  }
    where
      low : IsApart c.here.off c.before
      low = IsApart-of_low c.here.off c.before (Backward-low c.before c.here.off held.front)

      high : IsApart c.here.off c.after
      high = IsApart-of_high c.here.off c.after held.high

  IsForeign-before : (c : Cursor) → IsHeld c p → All (IsForeign c.here.off) c.before
  IsForeign-before c held =
      All-imp (λ s. s.off ≢ c.here.off) (IsForeign c.here.off) (λ s h. inl h) c.before
        (IsApart-of_low c.here.off c.before (Backward-low c.before c.here.off held.front))

  IsForeign-after : (c : Cursor) → IsHeld c p → All (IsForeign c.here.off) c.after
  IsForeign-after c held =
      All-imp (λ s. s.off ≢ c.here.off) (IsForeign c.here.off) (λ s h. inl h) c.after
        (IsApart-of_high c.here.off c.after held.high)

  -- A slice that the user does not refer to is the only one at its offset.
  IsForeign-at :
      (c : Cursor) → IsHeld c p → c.here.ref_user ≡ false → All (IsForeign c.here.off) (whole c)
  IsForeign-at c held user =
      All-rejoin (IsForeign c.here.off) c.before (c.here ∷ c.after) (IsForeign-before c held)
        (inr user, IsForeign-after c held)

  -- What the call gives at the offset of the slice `s`, and the pool after it.
  abbrev pub Freed : Slice → Option (Pool × Result (Unit {0})) → Type 0
  Freed s r =
      (q : Pool) × (r ≡ some (q, ok tt))
      × IsPool q
      × (q.size ≡ p.size)
      × All (IsForeign off) q.slices
      × ((s.ref_kernel ≡ false) ⊎ Has (record s { ref_user = false }) q.slices)
      × All (λ x. (x.off ≡ off) ⊎ (x.free ≡ true) ⊎ Has x q.slices) p.slices

  freed :
      (c : Cursor) (q : Pool)
      → IsPool p
      → rejoin c.before (c.here ∷ c.after) ≡ p.slices
      → c.here.off ≡ off
      → c.here.free ≡ false
      → IsHeld (unused c) p
      → put_slice rb (unused c) p ≡ some q
      → All (IsForeign off) q.slices
        × ((c.here.ref_kernel ≡ false) ⊎ Has (record c.here { ref_user = false }) q.slices)
        × All (λ x. (x.off ≡ off) ⊎ (x.free ≡ true) ⊎ Has x q.slices) p.slices
  freed c q good same at busy held done = (
    put_slice-IsForeignAll rb off (unused c) p q busy
        (subst (λ o. IsForeignAll o (unused c)) at
          (IsForeign-before (unused c) held, inr refl, IsForeign-after (unused c) held))
        done,
    elim (Bool-cases c.here.ref_kernel) [
      | inr k ↦ inl k
      | inl k ↦
          inr (put_slice-Has rb off (unused c).here (unused c) p q busy busy (inr (refl, k)) done)
    ],
    All-of_Has (λ x. (x.off ≡ off) ⊎ (x.free ≡ true) ⊎ Has x q.slices) p.slices
        (λ x there.
          elim (Has-before x c.before (c.here ∷ c.after) (subst (Has x) (sym same) there)) [
            | inr (inl this) ↦ inl (ap (λ s. s.off) this ∙ at)
            | inl front ↦ kept x (inl front)
            | inr (inr behind) ↦ kept x (inr behind)
          ]),
  )
    where
      kept : (x : Slice) → Around x (unused c) → (x.off ≡ off) ⊎ (x.free ≡ true) ⊎ Has x q.slices
      kept x around = elim (Bool-cases x.free) [
        | inl free ↦ inr (inl free)
        | inr used ↦ inr (inr (put_slice-Has rb off x (unused c) p q busy used (inl around) done))
      ]

  -- In a well-formed pool, any offset is safe to give: the pool stays defined and well formed. At the
  -- offset of a slice that the user refers to, the call succeeds: afterwards the user refers to
  -- nothing there, the slice itself stays if the kernel refers to it, and all other slices that are
  -- in use stay as they are. At the pool's size, which stands for no slice, the call succeeds and
  -- changes nothing. It fails with ENXIO, and changes nothing, where the user refers to no slice of
  -- that offset.
  pub release_offset-IsPool :
      IsPool p
      → ((off ≡ p.size) × (release_offset rb off p ≡ some (p, ok tt)))
        ⊎ ((s : Slice) × Has s p.slices
            × (s.off ≡ off)
            × (s.ref_user ≡ true)
            × Freed s (release_offset rb off p))
        ⊎ (All (IsForeign off) p.slices × (release_offset rb off p ≡ some (p, err enxio)))
  unfolding release_offset find_slice
  release_offset-IsPool good = elim (Bool-cases (off == p.size)) [
    | inl dummy ↦ inl (ground (arith, dummy), ground (arith, dummy))
    | inr real ↦ elim (Option-cases (find_slice rb off p)) [
      | inl missing ↦ inr (
          inr (
            offs-IsForeign off p.slices 0 false p.size good.tiles
                (find_no_offset off (offs is_busy p.slices) (sym (searched good) ∙ missing)),
            ground (arith, real, missing),
          ))
      | inr (o, hit) ↦
          let (same_off, counted) =
            find_offset off (offs is_busy p.slices) {o = o} (sym (searched good) ∙ hit) in
          let (c, found, same, at, busy) =
            seek_counted is_busy off p.slices p.size good.tiles counted in
          elim (Bool-cases c.here.ref_user) [
            | inl user ↦
                let held = unused-IsHeld c (IsHeld-at p good c same (ground (arith, busy))) in
                let (q, done, good_q, size_q) = put_slice-IsPool rb (unused c) p held in
                let (gone, stays, rest) = freed c q good same at (ground (arith, busy)) held done in
                inr (
                  inl (
                    c.here,
                    subst (Has c.here) same
                        (Has-rejoin c.here c.before (c.here ∷ c.after) (inl refl)),
                    at,
                    user,
                    (
                      q,
                      ground (arith, real, hit, same_off, found, user, done),
                      good_q,
                      size_q,
                      gone,
                      stays,
                      rest,
                    ),
                  ))
            | inr user ↦ inr (
                inr (
                  subst (λ x. All (IsForeign x) p.slices) at
                      (subst (All (IsForeign c.here.off)) same
                        (IsForeign-at c (IsHeld-at p good c same (ground (arith, busy))) user)),
                  ground (arith, real, hit, same_off, found, user),
                ))
          ]
    ]
  ]
    where
      searched :
          IsPool p
          → search_eq (λ o. compare off o) p.slices_busy
            ≡ find (λ z. is_eq (compare off z)) (offs is_busy p.slices)
      searched good =
          search_eq-inorder (λ o. compare off o) p.slices_busy
            (subst (IsCut (λ o. compare off o)) (sym good.busy)
              (busy-IsCut off p.slices 0 false p.size good.tiles))
          ∙ ap (find (λ z. is_eq (compare off z))) good.busy

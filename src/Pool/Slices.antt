-- ===== src/Pool/Slices.antt =====
-- pool.c: slices, their list in address order, and the operations. `none` stands for BUG() and for a
-- pointer to no slice. Sums of offsets and sizes stay within the pool's size, which is a `size_t`.
use Prim.Native.Nat.Ordering.{lt, gt}
use Prim.Native.Nat.{Ordering, compare}
use kdbus.Base.{
  ℕ, ◌+◌, ◌-◌, Bool, true, false, not, ◌&&◌, ◌||◌, List, [], ◌∷◌, Option, none, some, find, ltb,
  ◌==◌, if◌then◌else◌, Result, ok, err, einval, exfull, enomem, enxio,
}
use kdbus.Item.Walk.{align8}
use kdbus.Rbtree.{Tree, leaf, node, link, search_eq, search_ge, RbTree}

-- `struct kdbus_pool_slice`. A slice keeps its offset, which identifies it in the trees.
pub record Slice : Type 0 where
  pub off : ℕ
  pub size : ℕ
  pub free : Bool
  pub accounted : Bool
  pub ref_kernel : Bool
  pub ref_user : Bool

-- `struct kdbus_pool`; `slices` is the list in address order.
pub record Pool : Type 0 where
  pub size : ℕ
  pub accounted_size : ℕ
  pub slices : List Slice
  pub slices_busy : Tree ℕ
  pub slices_free : Tree ℕ

-- A slice with its neighbours in the list: those before it, the nearest first, and those behind it.
pub record Cursor : Type 0 where
  pub before : List Slice
  pub here : Slice
  pub after : List Slice

unfoldable pub seek : ℕ → List Slice → List Slice → Option Cursor
seek off before [] = none
seek off before (s ∷ l) =
    let rest = seek off (s ∷ before) l in
    if s.off == off then some (record { before = before; here = s; after = l }) else rest

unfoldable pub rejoin : {A : Type 0} → List A → List A → List A
rejoin [] l = l
rejoin (b ∷ before) l = rejoin before (b ∷ l)

-- `slice->size` of the slice in a tree
unfoldable pub size_at : List Slice → ℕ → ℕ
size_at slices o = elim (find (λ s. s.off == o) slices) [ none ↦ 0 | some s ↦ s.size ]

-- `kdbus_pool_slice_new`
abbrev pub slice_new : ℕ → ℕ → Slice
slice_new off size = record {
  off = off;
  size = size;
  free = true;
  accounted = false;
  ref_kernel = false;
  ref_user = false;
}

-- The direction that `kdbus_pool_add_free_slice` takes at a slice.
abbrev pub free_order : List Slice → ℕ → ℕ → Ordering
free_order slices size o = if ltb size (size_at slices o) then lt else gt

module _ (rb : RbTree ℕ) where
  -- `kdbus_pool_add_free_slice`
  unfoldable pub add_free : List Slice → Slice → Tree ℕ → Option (Tree ℕ)
  add_free slices s t = elim (link (free_order slices s.size) s.off t) [
    | none ↦ none
    | some u ↦ some (rb.insert_color u)
  ]

  -- `kdbus_pool_add_busy_slice`
  unfoldable pub add_busy : Slice → Tree ℕ → Option (Tree ℕ)
  add_busy s t = elim (link (λ o. compare s.off o) s.off t) [
    | none ↦ none
    | some u ↦ some (rb.insert_color u)
  ]

  abbrev pub erase : ℕ → Tree ℕ → Tree ℕ
  erase off = rb.erase (λ o. o == off)

  -- The end of `kdbus_pool_slice_alloc`: the slice moves from the free to the busy tree.
  unfoldable pub take : Cursor → ℕ → Bool → Pool → Option (Pool × Result ℕ)
  take c size accounted p = elim (add_busy c.here p.slices_busy) [
    | none ↦ none
    | some busy ↦ some (
      record p {
        slices = rejoin c.before (
            (record c.here { size = size; ref_kernel = true; free = false; accounted = accounted })
            ∷ c.after);
        slices_free = erase c.here.off p.slices_free;
        slices_busy = busy;
        accounted_size = if accounted then p.accounted_size + size else p.accounted_size;
      },
      ok c.here.off,
    )
  ]

  -- A slice that is larger than needed: the rest of it becomes a free slice of its own.
  unfoldable pub split : Cursor → ℕ → Bool → Pool → Option (Pool × Result ℕ)
  unfolding take
  split c size accounted p =
      let rest = slice_new (c.here.off + size) (c.here.size - size) in
      elim (add_free (rejoin c.before (c.here ∷ rest ∷ c.after)) rest p.slices_free) [
        | none ↦ none
        | some free ↦
            take (record c { after = rest ∷ c.after }) size accounted
              (record p { slices_free = free })
      ]

  -- `kdbus_pool_slice_alloc`; `mem` tells whether `kzalloc` has memory for the rest of a slice.
  unfoldable pub alloc : Bool → ℕ → Bool → Pool → Option (Pool × Result ℕ)
  unfolding split
  alloc mem size accounted p =
      let slice_size = align8 size in
      if size == 0
      then some (p, err einval)
      else (elim (search_ge (λ o. compare slice_size (size_at p.slices o)) p.slices_free none) [
        | none ↦ some (p, err exfull)
        | some off ↦ elim (seek off [] p.slices) [
          | none ↦ none
          | some c ↦
              if c.here.size == slice_size
              then take c slice_size accounted p
              else (if mem then split c slice_size accounted p else some (p, err enomem))
        ]
      ])

  -- The neighbour behind, merged if it is free.
  unfoldable pub merge_next : Cursor → Tree ℕ → Cursor × Tree ℕ
  merge_next c t = elim c.after [
    | [] ↦ (c, t)
    | n ∷ rest ↦
        if n.free
        then (
          record c { here = record c.here { size = c.here.size + n.size }; after = rest },
          erase n.off t,
        )
        else (c, t)
  ]

  -- The neighbour in front, which takes the slice over if it is free.
  unfoldable pub merge_prev : Cursor → Tree ℕ → Cursor × Tree ℕ
  merge_prev c t = elim c.before [
    | [] ↦ (c, t)
    | s ∷ rest ↦
        if s.free
        then (
          record c { before = rest; here = record s { size = s.size + c.here.size } },
          erase s.off t,
        )
        else (c, t)
  ]

  -- The merged slice goes to the free tree.
  unfoldable pub give_back : Cursor × Tree ℕ → Pool → Option Pool
  give_back (c, t) p =
      let here = record c.here { free = true } in
      let slices = rejoin c.before (here ∷ c.after) in
      elim (add_free slices here t) [
        | none ↦ none
        | some free ↦ some (record p { slices = slices; slices_free = free })
      ]

  -- `__kdbus_pool_slice_release`, of the slice at the cursor
  unfoldable pub put_slice : Cursor → Pool → Option Pool
  unfolding merge_next merge_prev give_back
  put_slice c p =
      if c.here.ref_kernel || c.here.ref_user || c.here.free
      then some (record p { slices = rejoin c.before (c.here ∷ c.after) })
      else (let (next, t) = merge_next c p.slices_free in
          give_back (merge_prev next t) (record p { slices_busy = erase c.here.off p.slices_busy }))

  -- `kdbus_pool_slice_release`
  unfoldable pub slice_release : ℕ → Pool → Option Pool
  unfolding put_slice
  slice_release off p = elim (seek off [] p.slices) [
    | none ↦ none
    | some c ↦
        put_slice (record c { here = record c.here { ref_kernel = false } })
          (if c.here.accounted && not (ltb p.accounted_size c.here.size)
            then record p { accounted_size = p.accounted_size - c.here.size }
            else p)
  ]

  -- `kdbus_pool_find_slice`
  unfoldable pub find_slice : ℕ → Pool → Option ℕ
  find_slice off p = search_eq (λ o. compare off o) p.slices_busy

  -- `kdbus_pool_release_offset`
  unfoldable pub release_offset : ℕ → Pool → Option (Pool × Result (Unit {0}))
  unfolding find_slice put_slice
  release_offset off p = if off == p.size then some (p, ok tt) else (elim (find_slice off p) [
    | none ↦ some (p, err enxio)
    | some o ↦ elim (seek o [] p.slices) [
      | none ↦ none
      | some c ↦
          if c.here.ref_user
          then (elim (put_slice (record c { here = record c.here { ref_user = false } }) p) [
            | none ↦ none
            | some q ↦ some (q, ok tt)
          ])
          else some (p, err enxio)
    ]
  ])

-- `kdbus_pool_slice_publish`, with the offset and the size that it writes
unfoldable pub publish : ℕ → Pool → Option (Pool × ℕ × ℕ)
publish off p = elim (seek off [] p.slices) [
  | none ↦ none
  | some c ↦ some (
    record p { slices = rejoin c.before (record c.here { ref_user = true } ∷ c.after) },
    c.here.off,
    c.here.size,
  )
]

-- `kdbus_pool_new`, where its allocations succeed: one free slice spans the pool.
unfoldable pub pool_new : ℕ → Pool
pool_new size = record {
  size = size;
  accounted_size = 0;
  slices = slice_new 0 size ∷ [];
  slices_busy = leaf;
  slices_free = node leaf 0 leaf;
}

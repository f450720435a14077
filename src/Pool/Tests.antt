-- ===== src/Pool/Tests.antt =====
-- Pools of 64 bytes under a kernel that never rebalances.
use kdbus.Base.{
  ℕ, ◌≡◌, refl, true, false, [], ◌∷◌, some, arith, inl, ok, err, enxio, exfull, find, remove_first,
  Has, All, ◌⊎◌,
}
use kdbus.Item.Walk.{align8}
use kdbus.Rbtree.{leaf, node, plain, inorder, link, search_ge, search_eq, any, join, take_out}
use kdbus.Pool.Slices.{
  Slice, Pool, slice_new, pool_new, alloc, split, take, seek, rejoin, size_at, add_free, add_busy,
  publish, slice_release, put_slice, merge_next, merge_prev, give_back, release_offset, find_slice,
}
use kdbus.Pool.Invariant.{IsPool}
use kdbus.Pool.Alloc.{alloc_best_fit, AllocResult}
use kdbus.Pool.User.{release_offset-IsPool, Freed}
use kdbus.Pool.Others.{IsForeign}
use kdbus.Pool.Runs.{
  slice_alloc, release_slice, pool_new-IsPool, call, created, called, call-IsPool, reached-IsPool,
}

abbrev busy_slice : Slice
busy_slice = record {
  off = 0;
  size = 16;
  free = false;
  accounted = true;
  ref_kernel = true;
  ref_user = false;
}

abbrev after_alloc : Pool
after_alloc = record {
  size = 64;
  accounted_size = 16;
  slices = busy_slice ∷ slice_new 16 48 ∷ [];
  slices_busy = node leaf 0 leaf;
  slices_free = node leaf 16 leaf;
}

runs : ℕ
unfolding align8 inorder link search_ge search_eq any join take_out pool_new alloc split take seek
    rejoin size_at add_free add_busy publish slice_release put_slice merge_next merge_prev give_back
    release_offset find_slice call find remove_first
runs = 0

first_alloc : call plain (slice_alloc true 10 true) (pool_new 64) ≡ some after_alloc
unfolding runs
first_alloc = refl

too_large : alloc plain true 65 true (pool_new 64) ≡ some (pool_new 64, err exfull)
unfolding runs
too_large = refl

merged_again :
    call plain (release_slice busy_slice) after_alloc
    ≡ some (record (pool_new 64) { slices = record (slice_new 0 64) { accounted = true } ∷ [] })
unfolding runs
merged_again = refl

not_published : release_offset plain 0 after_alloc ≡ some (after_alloc, err enxio)
unfolding runs
not_published = refl

alloc_best_fit_example :
    AllocResult plain true 10 true (pool_new 64) (alloc plain true 10 true (pool_new 64))
alloc_best_fit_example =
    alloc_best_fit plain true 10 true (pool_new 64) (pool_new-IsPool 64 (omega arith)) (omega arith)
      (omega arith)

-- The next call frees the only slice.
call-IsPool_example :
    (q : Pool) × (call plain (release_slice busy_slice) after_alloc ≡ some q)
    × IsPool q
    × (q.size ≡ 64)
call-IsPool_example =
    call-IsPool plain 64 (release_slice busy_slice) after_alloc (omega arith)
      (called (slice_alloc true 10 true) (pool_new 64) after_alloc created (omega arith)
        first_alloc)
      (inl refl, refl)

release_offset-IsPool_example :
    ((16 ≡ after_alloc.size) × (release_offset plain 16 after_alloc ≡ some (after_alloc, ok tt)))
    ⊎ ((s : Slice) × Has s after_alloc.slices
        × (s.off ≡ 16)
        × (s.ref_user ≡ true)
        × Freed plain 16 after_alloc s (release_offset plain 16 after_alloc))
    ⊎ (All (IsForeign 16) after_alloc.slices
        × (release_offset plain 16 after_alloc ≡ some (after_alloc, err enxio)))
release_offset-IsPool_example =
    release_offset-IsPool plain 16 after_alloc
      (reached-IsPool plain 64 after_alloc (omega arith) (
        called (slice_alloc true 10 true) (pool_new 64) after_alloc created (omega arith)
          first_alloc)).0

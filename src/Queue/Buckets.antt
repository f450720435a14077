-- ===== src/Queue/Buckets.antt =====
-- queue.c: the priority tree as the list of its buckets in order.
use Prim.Native.Nat.Ordering.{lt, eq, gt}
use Prim.Native.Nat.{compare}
use kdbus.Base.{
  ℕ, ◌≤◌, ◌<◌, ◌≡◌, refl, Bool, false, List, [], ◌∷◌, ◌++◌, Option, none, some, arith, All,
  if◌then◌else◌, inl, inr,
}
use kdbus.Rbtree.{
  Tree, leaf, node, inorder, All-append_left, All-append_right, All-imp, Ordering-cases,
}
use kdbus.Queue.Entries.{Entry, Bucket, level, level_of, has_level, sort_in}

abbrev pub members : Bucket → List Entry
members b = b.node ∷ b.ring

-- The entries that the tree holds for a priority.
unfoldable pub members_at : ℕ → List Bucket → List Entry
members_at r [] = []
members_at r (b ∷ bs) = if has_level r b then members b else members_at r bs

-- The tree nodes stand in ascending order of their priorities.
abbrev pub IsAscending : List Bucket → Type 0
IsAscending [] = Unit
IsAscending (b ∷ bs) = All (λ c. level_of b < level_of c) bs × IsAscending bs

-- The entry that `msg_prio_highest` caches.
unfoldable pub top : List Bucket → Option Entry
top [] = none
top (b ∷ bs) = some b.node

module _ (e : Entry) where
  abbrev new_bucket : Bucket
  new_bucket = record { node = e; ring = [] }

  abbrev joined : Bucket → Bucket
  joined b = record b { ring = b.ring ++ e ∷ [] }

  -- The place of an entry among the buckets, and whether the descent has gone right before it.
  unfoldable pub put : List Bucket → List Bucket
  put [] = new_bucket ∷ []
  put (b ∷ bs) = elim (compare (level e) (level_of b)) [
    | lt ↦ new_bucket ∷ b ∷ bs
    | eq ↦ joined b ∷ bs
    | gt ↦ b ∷ put bs
  ]

  unfoldable pub place : List Bucket → Bool → Option Bool
  place [] highest = some highest
  place (b ∷ bs) highest =
      let behind = place bs false in
      elim (compare (level e) (level_of b)) [ lt ↦ some highest | eq ↦ none | gt ↦ behind ]

  put-append_left :
      (xs : List Bucket) (b : Bucket) (ys : List Bucket)
      → level e < level_of b
      → put (xs ++ b ∷ ys) ≡ put xs ++ b ∷ ys
  unfolding put
  put-append_left [] b ys h = ground (arith, h)
  put-append_left (x ∷ xs) b ys h = ground (arith, put-append_left xs b ys h)

  put-append_right :
      (xs ys : List Bucket) → All (λ c. level_of c < level e) xs → put (xs ++ ys) ≡ xs ++ put ys
  unfolding put
  put-append_right [] ys h = refl
  put-append_right (x ∷ xs) ys h = ground (arith, h.0, put-append_right xs ys h.1)

  place-append_left :
      (xs : List Bucket) (b : Bucket) (ys : List Bucket) (highest : Bool)
      → level e < level_of b
      → place (xs ++ b ∷ ys) highest ≡ place xs highest
  unfolding place
  place-append_left [] b ys highest h = ground (arith, h)
  place-append_left (x ∷ xs) b ys highest h = ground (arith, place-append_left xs b ys false h)

  place-append_right :
      (xs : List Bucket) (b : Bucket) (ys : List Bucket) (highest : Bool)
      → All (λ c. level_of c < level e) xs
      → level_of b < level e
      → place (xs ++ b ∷ ys) highest ≡ place ys false
  unfolding place
  place-append_right [] b ys highest h g = ground (arith, g)
  place-append_right (x ∷ xs) b ys highest h g =
      ground (arith, h.0, place-append_right xs b ys false h.1 g)

  place-equal :
      (xs : List Bucket) (b : Bucket) (ys : List Bucket) (highest : Bool)
      → All (λ c. level_of c < level e) xs
      → level_of b ≡ level e
      → place (xs ++ b ∷ ys) highest ≡ none
  unfolding place
  place-equal [] b ys highest h g = ground (arith, g)
  place-equal (x ∷ xs) b ys highest h g = ground (arith, h.0, place-equal xs b ys false h.1 g)

IsAscending-left : (xs ys : List Bucket) → IsAscending (xs ++ ys) → IsAscending xs
IsAscending-left [] ys h = tt
IsAscending-left (x ∷ xs) ys h =
    (All-append_left (λ c. level_of x < level_of c) xs ys h.0, IsAscending-left xs ys h.1)

IsAscending-right : (xs ys : List Bucket) → IsAscending (xs ++ ys) → IsAscending ys
IsAscending-right [] ys h = h
IsAscending-right (x ∷ xs) ys h = IsAscending-right xs ys h.1

IsAscending-before :
    (xs : List Bucket) (b : Bucket) (ys : List Bucket)
    → IsAscending (xs ++ b ∷ ys)
    → All (λ c. level_of c < level_of b) xs
IsAscending-before [] b ys h = tt
IsAscending-before (x ∷ xs) b ys h = (
  (All-append_right (λ c. level_of x < level_of c) xs (b ∷ ys) h.0).0,
  IsAscending-before xs b ys h.1,
)

-- The descent puts the entry into its place, and knows whether it is the first.
pub sort_in-inorder :
    (e : Entry) (t : Tree Bucket) (highest : Bool)
    → IsAscending (inorder t)
    → (inorder (sort_in e t highest).0 ≡ put e (inorder t))
      × ((sort_in e t highest).1 ≡ place e (inorder t) highest)
unfolding sort_in inorder put place
sort_in-inorder e leaf highest h = (refl, refl)
sort_in-inorder e (node l b r) highest h = elim (Ordering-cases (compare (level e) (level_of b))) [
  | inl less ↦
      let (put_l, place_l) =
        sort_in-inorder e l highest (IsAscending-left (inorder l) (b ∷ inorder r) h) in
      (
        ground (
          arith,
          less,
          put_l,
          put-append_left e (inorder l) b (inorder r) (ground (arith, less)),
        ),
        ground (
          arith,
          less,
          place_l,
          place-append_left e (inorder l) b (inorder r) highest (ground (arith, less)),
        ),
      )
  | inr (inl same) ↦
      let low : All (λ c. level_of c < level e) (inorder l) = lower (ground (arith, same)) in
      (
        ground (arith, same, put-append_right e (inorder l) (b ∷ inorder r) low),
        ground (
          arith,
          same,
          place-equal e (inorder l) b (inorder r) highest low (ground (arith, same)),
        ),
      )
  | inr (inr more) ↦
      let low : All (λ c. level_of c < level e) (inorder l) = lower (ground (arith, more)) in
      let (put_r, place_r) =
        sort_in-inorder e r false (IsAscending-right (inorder l) (b ∷ inorder r) h).1 in
      (
        ground (arith, more, put_r, put-append_right e (inorder l) (b ∷ inorder r) low),
        ground (
          arith,
          more,
          place_r,
          place-append_right e (inorder l) b (inorder r) highest low (ground (arith, more)),
        ),
      )
]
  where
    lower : level_of b ≤ level e → All (λ c. level_of c < level e) (inorder l)
    lower g =
        All-imp (λ c. level_of c < level_of b) (λ c. level_of c < level e)
          (λ c f. omega (arith, f, g)) (inorder l) (IsAscending-before (inorder l) b (inorder r) h)

-- ===== src/Queue/Place.antt =====
-- queue.c: the buckets after an entry has been put among them.
use Prim.Native.Nat.Ordering.{lt, eq, gt}
use Prim.Native.Nat.{compare}
use kdbus.Base.{
  ℕ, ◌<◌, ◌≡◌, refl, sym, ◌∙◌, ap, true, false, List, [], ◌∷◌, ◌++◌, none, some, arith, All, ◌==◌,
  if◌then◌else◌, Bool-cases, inl, inr, ◌⊎◌, append-nil, subst, keep,
}
use kdbus.Rbtree.{All-imp, Ordering-cases}
use kdbus.Queue.Entries.{Entry, Bucket, level, level_of, has_level}
use kdbus.Queue.Buckets.{members, members_at, IsAscending, top, put, place}

-- No bucket for a priority below all others.
pub members_at-below :
    (r : ℕ) (bs : List Bucket) → All (λ c. r < level_of c) bs → members_at r bs ≡ []
unfolding members_at
members_at-below r [] h = refl
members_at-below r (b ∷ bs) h = ground (arith, h.0, members_at-below r bs h.1)

module _ (e : Entry) where
  put-lt :
      (b : Bucket) (bs : List Bucket)
      → level e < level_of b
      → put e (b ∷ bs) ≡ record { node = e; ring = [] } ∷ b ∷ bs
  unfolding put
  put-lt b bs h = ground (arith, h)

  put-eq :
      (b : Bucket) (bs : List Bucket)
      → level e ≡ level_of b
      → put e (b ∷ bs) ≡ record b { ring = b.ring ++ e ∷ [] } ∷ bs
  unfolding put
  put-eq b bs h = ground (arith, h)

  put-gt : (b : Bucket) (bs : List Bucket) → level_of b < level e → put e (b ∷ bs) ≡ b ∷ put e bs
  unfolding put
  put-gt b bs h = ground (arith, h)

  below_others :
      (b : Bucket) (bs : List Bucket)
      → level e < level_of b
      → All (λ c. level_of b < level_of c) bs
      → All (λ c. level e < level_of c) bs
  below_others b bs h a =
      All-imp (λ c. level_of b < level_of c) (λ c. level e < level_of c)
        (λ c g. omega (arith, g, h)) bs a

  abbrev single : ℕ → List Entry
  single r = if level e == r then e ∷ [] else []

  -- The entry is the last of its priority.
  pub members_at-put :
      (r : ℕ) (bs : List Bucket)
      → IsAscending bs
      → members_at r (put e bs) ≡ members_at r bs ++ single r
  unfolding members_at put
  members_at-put r [] h = ground arith
  members_at-put r (b ∷ bs) h = elim (Ordering-cases (compare (level e) (level_of b))) [
    | inl less ↦ ap (members_at r) (put-lt b bs (ground (arith, less))) ∙ first less
    | inr (inl same) ↦ ap (members_at r) (put-eq b bs (ground (arith, same))) ∙ middle same
    | inr (inr more) ↦
        ap (members_at r) (put-gt b bs (ground (arith, more)))
        ∙ behind more (members_at-put r bs h.1)
  ]
    where
      first :
          compare (level e) (level_of b) ≡ lt
          → members_at r (record { node = e; ring = [] } ∷ b ∷ bs)
            ≡ members_at r (b ∷ bs) ++ single r
      first less = elim (Bool-cases (level e == r)) [
        | inl hit ↦ ground (
          arith,
          hit,
          less,
          members_at-below r bs (
              subst (λ n. All (λ c. n < level_of c) bs) (ground (arith, hit))
                (below_others b bs (ground (arith, less)) h.0)),
        )
        | inr miss ↦ ground (arith, miss, append-nil (members_at r (b ∷ bs)))
      ]

      middle :
          compare (level e) (level_of b) ≡ eq
          → members_at r (record b { ring = b.ring ++ e ∷ [] } ∷ bs)
            ≡ members_at r (b ∷ bs) ++ single r
      middle same = elim (Bool-cases (level e == r)) [
        | inl hit ↦ ground (arith, hit, same)
        | inr miss ↦ ground (arith, miss, same, append-nil (members_at r bs))
      ]

      behind :
          compare (level e) (level_of b) ≡ gt
          → members_at r (put e bs) ≡ members_at r bs ++ single r
          → members_at r (b ∷ put e bs) ≡ members_at r (b ∷ bs) ++ single r
      behind more rec = elim (Bool-cases (has_level r b)) [
        | inl hit ↦ ground (arith, hit, more, append-nil (members b))
        | inr miss ↦ ground (arith, miss, rec)
      ]

  All-put :
      (m : ℕ) (bs : List Bucket)
      → m < level e
      → All (λ c. m < level_of c) bs
      → All (λ c. m < level_of c) (put e bs)
  unfolding put
  All-put m [] g h = (g, tt)
  All-put m (b ∷ bs) g h = elim (Ordering-cases (compare (level e) (level_of b))) [
    | inl less ↦ subst (All (λ c. m < level_of c)) (sym (put-lt b bs (ground (arith, less)))) (g, h)
    | inr (inl same) ↦
        subst (All (λ c. m < level_of c)) (sym (put-eq b bs (ground (arith, same)))) h
    | inr (inr more) ↦
        subst (All (λ c. m < level_of c)) (sym (put-gt b bs (ground (arith, more))))
          (h.0, All-put m bs g h.1)
  ]

  pub IsAscending-put : (bs : List Bucket) → IsAscending bs → IsAscending (put e bs)
  unfolding put
  IsAscending-put [] h = (tt, tt)
  IsAscending-put (b ∷ bs) h = elim (Ordering-cases (compare (level e) (level_of b))) [
    | inl less ↦
        subst IsAscending (sym (put-lt b bs (ground (arith, less))))
          ((ground (arith, less), below_others b bs (ground (arith, less)) h.0), h)
    | inr (inl same) ↦ subst IsAscending (sym (put-eq b bs (ground (arith, same)))) h
    | inr (inr more) ↦
        subst IsAscending (sym (put-gt b bs (ground (arith, more))))
          (All-put (level_of b) bs (ground (arith, more)) h.0, IsAscending-put bs h.1)
  ]

  place-false : (bs : List Bucket) → (place e bs false ≡ none) ⊎ (place e bs false ≡ some false)
  unfolding place
  place-false [] = inr refl
  place-false (b ∷ bs) = elim (Ordering-cases (compare (level e) (level_of b))) [
    | inl less ↦ inr (ground (arith, less))
    | inr (inl same) ↦ inl (ground (arith, same))
    | inr (inr more) ↦ elim (place-false bs) [
      | inl f ↦ inl (ground (arith, more, f))
      | inr f ↦ inr (ground (arith, more, f))
    ]
  ]

  -- The cached entry, updated as the code does it, is the node of the first bucket.
  pub top-put :
      (bs : List Bucket)
      → top (put e bs) ≡ elim (place e bs true) [
        | none ↦ top bs
        | some highest ↦ if highest then some e else top bs
      ]
  unfolding put place top
  top-put [] = refl
  top-put (b ∷ bs) = elim (Ordering-cases (compare (level e) (level_of b))) [
    | inl less ↦ ground (arith, less)
    | inr (inl same) ↦ ground (arith, same)
    | inr (inr more) ↦ elim (place-false bs) [
      | inl f ↦ ground (arith, more, f)
      | inr f ↦ ground (arith, more, f)
    ]
  ]

  pub keep_last :
      (r : ℕ) (l : List Entry)
      → keep (λ x. level x == r) (l ++ e ∷ []) ≡ keep (λ x. level x == r) l ++ single r
  unfolding keep
  keep_last r [] = refl
  keep_last r (x ∷ l) = ground (arith, keep_last r l)

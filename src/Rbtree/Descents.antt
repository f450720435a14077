-- ===== src/Rbtree/Descents.antt =====
-- What the descents find and where they link, against the list of the tree's objects in order.
use Prim.Native.Nat.Ordering.{lt, eq, gt}
use Prim.Native.Nat.{Ordering, compare}
use kdbus.Base.{
  ℕ, ◌≤◌, ◌<◌, ◌≡◌, ◌≢◌, refl, sym, ◌∙◌, ap, false, List, [], ◌∷◌, ◌++◌, Option, none, some, All,
  Has, arith, find, inl, inr, ◌⊎◌, subst, dec_lt,
}
use kdbus.Rbtree.Defs.{Tree, leaf, node, inorder, link, search_eq, search_ge}
use kdbus.Rbtree.Laws.{
  All-Has, All-append, All-append_left, All-append_right, All-imp, Has-append_left,
  Has-append_right, insert_by, IsCut, IsCut-left, IsCut-right, IsCut-before, IsCut-behind,
  insert_by-append, insert_by-left, find-append_left, find-append_right, is_eq, Ordering-cases,
}

module _ {A : Type 0} where
  -- A link with no equal object puts the new one into its place in the order.
  pub link-inorder :
      (cmp : A → Ordering) (x : A) (t : Tree A)
      → IsCut cmp (inorder t)
      → All (λ z. cmp z ≢ eq) (inorder t)
      → (u : Tree A) × (link cmp x t ≡ some u) × (inorder u ≡ insert_by cmp x (inorder t))
  unfolding link inorder insert_by
  link-inorder cmp x leaf c n = (node leaf x leaf, refl, refl)
  link-inorder cmp x (node l a r) c n = elim (Ordering-cases (cmp a)) [
    | inl less ↦
        let (u, linked, placed) =
          link-inorder cmp x l (IsCut-left cmp (inorder l) (a ∷ inorder r) c)
            (All-append_left (λ z. cmp z ≢ eq) (inorder l) (a ∷ inorder r) n) in
        (
          node u a r,
          ground (arith, less, linked),
          ap (λ q. q ++ a ∷ inorder r) placed
              ∙ sym (insert_by-left cmp x (inorder l) a (inorder r) less),
        )
    | inr (inl same) ↦
        absurd ((All-append_right (λ z. cmp z ≢ eq) (inorder l) (a ∷ inorder r) n).0 same)
    | inr (inr more) ↦
        let (u, linked, placed) =
          link-inorder cmp x r (IsCut-right cmp (inorder l) (a ∷ inorder r) c).1
            (All-append_right (λ z. cmp z ≢ eq) (inorder l) (a ∷ inorder r) n).1 in
        (
          node l a u,
          ground (arith, more, linked),
          ap (λ q. inorder l ++ a ∷ q) placed
              ∙ ground (
                arith,
                more,
                insert_by-append cmp x (inorder l) (a ∷ inorder r) (
                    IsCut-before cmp (inorder l) a (inorder r) c
                      (λ e. absurd (ground (arith, more, e)))),
              ),
        )
  ]

  -- A link stops at the object that a search finds.
  pub link-search_eq :
      (cmp : A → Ordering) (x : A) (t : Tree A) {a : A}
      → search_eq cmp t ≡ some a
      → link cmp x t ≡ none
  unfolding link search_eq
  link-search_eq cmp x leaf {a} h = absurd (ground (arith, h))
  link-search_eq cmp x (node l b r) {a} h = elim (Ordering-cases (cmp b)) [
    | inl less ↦ ground (arith, less, link-search_eq cmp x l {a = a} (ground (arith, h, less)))
    | inr (inl same) ↦ ground (arith, same)
    | inr (inr more) ↦
        ground (arith, more, link-search_eq cmp x r {a = a} (ground (arith, h, more)))
  ]

  -- A search finds what a walk over the objects in order finds.
  pub search_eq-inorder :
      (cmp : A → Ordering) (t : Tree A)
      → IsCut cmp (inorder t)
      → search_eq cmp t ≡ find (λ z. is_eq (cmp z)) (inorder t)
  unfolding search_eq inorder find
  search_eq-inorder cmp leaf c = refl
  search_eq-inorder cmp (node l a r) c = elim (Ordering-cases (cmp a)) [
    | inl less ↦ ground (
      arith,
      less,
      search_eq-inorder cmp l (IsCut-left cmp (inorder l) (a ∷ inorder r) c),
      find-append_left (λ z. is_eq (cmp z)) (inorder l) (a ∷ inorder r)
          (
            ap is_eq less,
            All-imp (λ z. cmp z ≡ lt) (λ z. is_eq (cmp z) ≡ false) (λ z e. ap is_eq e) (inorder r)
                (IsCut-behind cmp (inorder l) a (inorder r) c
                  (λ e. absurd (ground (arith, less, e)))),
          ),
    )
    | inr (inl same) ↦ ground (
      arith,
      same,
      find-append_right (λ z. is_eq (cmp z)) (inorder l) (a ∷ inorder r)
          (All-imp (λ z. cmp z ≡ gt) (λ z. is_eq (cmp z) ≡ false) (λ z e. ap is_eq e) (inorder l)
            (IsCut-before cmp (inorder l) a (inorder r) c (λ e. absurd (ground (arith, same, e))))),
    )
    | inr (inr more) ↦ ground (
      arith,
      more,
      search_eq-inorder cmp r (IsCut-right cmp (inorder l) (a ∷ inorder r) c).1,
      find-append_right (λ z. is_eq (cmp z)) (inorder l) (a ∷ inorder r)
          (All-imp (λ z. cmp z ≡ gt) (λ z. is_eq (cmp z) ≡ false) (λ z e. ap is_eq e) (inorder l)
            (IsCut-before cmp (inorder l) a (inorder r) c (λ e. absurd (ground (arith, more, e))))),
    )
  ]

-- The objects in ascending order of a key.
abbrev pub IsSorted : {A : Type 0} → (A → ℕ) → List A → Type 0
IsSorted key [] = Unit
IsSorted key (y ∷ ys) = All (λ z. key y ≤ key z) ys × IsSorted key ys

module _ {A : Type 0} (key : A → ℕ) (k : ℕ) where
  IsSorted-left : (xs ys : List A) → IsSorted key (xs ++ ys) → IsSorted key xs
  IsSorted-left [] ys h = tt
  IsSorted-left (x ∷ xs) ys h =
      (All-append_left (λ z. key x ≤ key z) xs ys h.0, IsSorted-left xs ys h.1)

  IsSorted-right : (xs ys : List A) → IsSorted key (xs ++ ys) → IsSorted key ys
  IsSorted-right [] ys h = h
  IsSorted-right (x ∷ xs) ys h = IsSorted-right xs ys h.1

  IsSorted-before :
      (xs : List A) (a : A) (ys : List A)
      → IsSorted key (xs ++ a ∷ ys)
      → All (λ z. key z ≤ key a) xs
  IsSorted-before [] a ys h = tt
  IsSorted-before (x ∷ xs) a ys h =
      ((All-append_right (λ z. key x ≤ key z) xs (a ∷ ys) h.0).0, IsSorted-before xs a ys h.1)

  -- An object is worse than `a`: too small, or not smaller than `a`.
  abbrev pub IsWorse : A → A → Type 0
  IsWorse a b = (key b < k) ⊎ (key a ≤ key b)

  abbrev pub BestFit : Option A → List A → Option A → Type 0
  BestFit found l r =
      ((r ≡ found) × All (λ b. key b < k) l)
      ⊎ ((a : A) × (r ≡ some a) × Has a l × (k ≤ key a) × All (IsWorse a) l)

  abbrev cmp_key : A → Ordering
  cmp_key a = compare k (key a)

  -- One turn of the descent, on a list that falls into `xs`, `a` and `ys`.
  BestFit-go_left :
      (xs : List A) (a : A) (ys : List A) (found r : Option A)
      → IsSorted key (xs ++ a ∷ ys)
      → k ≤ key a
      → BestFit (some a) xs r
      → BestFit found (xs ++ a ∷ ys) r
  BestFit-go_left xs a ys found r s le (inl (e, low)) = inr (
    a,
    e,
    Has-append_right a xs (a ∷ ys) (inl refl),
    le,
    All-append (IsWorse a) xs (a ∷ ys) (All-imp (λ b. key b < k) (IsWorse a) (λ b h. inl h) xs low)
        (
          inr (omega arith),
          All-imp (λ z. key a ≤ key z) (IsWorse a) (λ b h. inr h) ys
              (IsSorted-right xs (a ∷ ys) s).0,
        ),
  )
  BestFit-go_left xs a ys found r s le (inr (c, e, m, fits, worse)) =
      let c_le : key c ≤ key a = All-Has (λ z. key z ≤ key a) xs (IsSorted-before xs a ys s) m in
      inr (
        c,
        e,
        Has-append_left c xs (a ∷ ys) m,
        fits,
        All-append (IsWorse c) xs (a ∷ ys) worse (
          inr c_le,
          All-imp (λ z. key a ≤ key z) (IsWorse c) (λ b h. inr (omega (arith, c_le, h))) ys
              (IsSorted-right xs (a ∷ ys) s).0,
        ),
      )

  BestFit-go_right :
      (xs : List A) (a : A) (ys : List A) (found r : Option A)
      → IsSorted key (xs ++ a ∷ ys)
      → key a < k
      → BestFit found ys r
      → BestFit found (xs ++ a ∷ ys) r
  BestFit-go_right xs a ys found r s lt_k (inl (e, low)) =
      inl (e, All-append (λ b. key b < k) xs (a ∷ ys) (all_low xs a ys s lt_k) (lt_k, low))
    where
      all_low :
          (xs : List A) (a : A) (ys : List A)
          → IsSorted key (xs ++ a ∷ ys)
          → key a < k
          → All (λ b. key b < k) xs
      all_low xs a ys s h =
          All-imp (λ z. key z ≤ key a) (λ b. key b < k) (λ b g. omega (arith, g, h)) xs
            (IsSorted-before xs a ys s)
  BestFit-go_right xs a ys found r s lt_k (inr (c, e, m, fits, worse)) = inr (
    c,
    e,
    Has-append_right c xs (a ∷ ys) (inr m),
    fits,
    All-append (IsWorse c) xs (a ∷ ys)
        (All-imp (λ z. key z ≤ key a) (IsWorse c) (λ b g. inl (omega (arith, g, lt_k))) xs
          (IsSorted-before xs a ys s))
        (inl lt_k, worse),
  )

  BestFit-here :
      (xs : List A) (a : A) (ys : List A) (found : Option A)
      → IsSorted key (xs ++ a ∷ ys)
      → k ≡ key a
      → BestFit found (xs ++ a ∷ ys) (some a)
  BestFit-here xs a ys found s e = inr (
    a,
    refl,
    Has-append_right a xs (a ∷ ys) (inl refl),
    omega (arith, e),
    All-append (IsWorse a) xs (a ∷ ys)
        (All-imp (λ z. key z ≤ key a) (IsWorse a) (λ b g. worse_of_le b g) xs
          (IsSorted-before xs a ys s))
        (
          inr (omega arith),
          All-imp (λ z. key a ≤ key z) (IsWorse a) (λ b h. inr h) ys
              (IsSorted-right xs (a ∷ ys) s).0,
        ),
  )
    where
      worse_of_le : (b : A) → key b ≤ key a → IsWorse a b
      worse_of_le b g = elim (dec_lt (key b) k) [ yes h ↦ inl h | no h ↦ inr (omega (arith, h, e)) ]

  -- The descent finds an object of the least key that is not below `k`, or keeps what it came with.
  pub search_ge-inorder :
      (t : Tree A) (found : Option A)
      → IsSorted key (inorder t)
      → BestFit found (inorder t) (search_ge cmp_key t found)
  unfolding search_ge inorder
  search_ge-inorder leaf found s = inl (refl, tt)
  search_ge-inorder (node l a r) found s = elim (Ordering-cases (compare k (key a))) [
    | inl less ↦ subst (BestFit found (inorder l ++ a ∷ inorder r)) (ground (arith, less)) (
        BestFit-go_left (inorder l) a (inorder r) found (search_ge cmp_key l (some a)) s
          (ground (arith, less))
          (search_ge-inorder l (some a) (IsSorted-left (inorder l) (a ∷ inorder r) s)))
    | inr (inl same) ↦
        subst (BestFit found (inorder l ++ a ∷ inorder r)) (ground (arith, same))
          (BestFit-here (inorder l) a (inorder r) found s (ground (arith, same)))
    | inr (inr more) ↦ subst (BestFit found (inorder l ++ a ∷ inorder r)) (ground (arith, more)) (
        BestFit-go_right (inorder l) a (inorder r) found (search_ge cmp_key r found) s
          (ground (arith, more))
          (search_ge-inorder r found (IsSorted-right (inorder l) (a ∷ inorder r) s).1))
  ]

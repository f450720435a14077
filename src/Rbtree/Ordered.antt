-- ===== src/Rbtree/Ordered.antt =====
-- Trees whose objects are in a strict order.
use Prim.Native.Nat.Ordering.{lt, eq, gt}
use Prim.Native.Nat.{Ordering}
use kdbus.Base.{◌≡◌, ◌≢◌, sym, List, [], ◌∷◌, arith, All, inl, inr, subst}
use kdbus.Rbtree.Laws.{insert_by, IsCut, Ordering-cases}

module _ {A : Type 0} (P : A → Type 0) (B : A → A → Type 0) where
  -- Each object has its property and comes before those behind it.
  abbrev pub IsOrdered : List A → Type 0
  IsOrdered [] = Unit
  IsOrdered (y ∷ ys) = P y × All (B y) ys × IsOrdered ys

  module _ (cmp : A → Ordering) where
    -- A search that respects the order cuts the list.
    pub IsOrdered-IsCut :
        (l : List A)
        → ((y z : A) → P y → B y z → cmp y ≢ gt → cmp z ≡ lt)
        → IsOrdered l
        → IsCut cmp l
    IsOrdered-IsCut [] f h = tt
    IsOrdered-IsCut (y ∷ ys) f (p, b, h) = (
      elim (Ordering-cases (cmp y)) [
        | inl e ↦ inr (all_lt ys b (λ g. absurd (ground (arith, e, g))))
        | inr (inl e) ↦ inr (all_lt ys b (λ g. absurd (ground (arith, e, g))))
        | inr (inr e) ↦ inl e
      ],
      IsOrdered-IsCut ys f h,
    )
      where
        all_lt : (l : List A) → All (B y) l → cmp y ≢ gt → All (λ z. cmp z ≡ lt) l
        all_lt [] a n = tt
        all_lt (z ∷ l) a n = (f y z p a.0 n, all_lt l a.1 n)

    insert_by-lt : (x y : A) (ys : List A) → cmp y ≡ lt → insert_by cmp x (y ∷ ys) ≡ x ∷ y ∷ ys
    unfolding insert_by
    insert_by-lt x y ys e = ground (arith, e)

    insert_by-gt :
        (x y : A) (ys : List A) → cmp y ≡ gt → insert_by cmp x (y ∷ ys) ≡ y ∷ insert_by cmp x ys
    unfolding insert_by
    insert_by-gt x y ys e = ground (arith, e)

    All-insert_by :
        (Q : A → Type 0) (x : A) (l : List A)
        → Q x
        → All Q l
        → All (λ z. cmp z ≢ eq) l
        → All Q (insert_by cmp x l)
    unfolding insert_by
    All-insert_by Q x [] q a n = (q, tt)
    All-insert_by Q x (y ∷ ys) q a n = elim (Ordering-cases (cmp y)) [
      | inl e ↦ subst (All Q) (sym (insert_by-lt x y ys e)) (q, a)
      | inr (inl e) ↦ absurd (n.0 e)
      | inr (inr e) ↦
          subst (All Q) (sym (insert_by-gt x y ys e)) (a.0, All-insert_by Q x ys q a.1 n.1)
    ]

    -- A new object keeps the order.
    pub IsOrdered-insert_by :
        (x : A) (l : List A)
        → P x
        → ((y : A) → P y → cmp y ≡ lt → B x y)
        → ((y : A) → P y → cmp y ≡ gt → B y x)
        → IsCut cmp l
        → All (λ z. cmp z ≢ eq) l
        → IsOrdered l
        → IsOrdered (insert_by cmp x l)
    unfolding insert_by
    IsOrdered-insert_by x [] px f g c n h = (px, tt, tt)
    IsOrdered-insert_by x (y ∷ ys) px f g c n (py, b, h) = elim (Ordering-cases (cmp y)) [
      | inl e ↦
          subst IsOrdered (sym (insert_by-lt x y ys e))
            (px, (f y py e, behind ys (cut c e) h), (py, b, h))
      | inr (inl e) ↦ absurd (n.0 e)
      | inr (inr e) ↦
          subst IsOrdered (sym (insert_by-gt x y ys e)) (
            py,
            All-insert_by (B y) x ys (g y py e) b n.1,
            IsOrdered-insert_by x ys px f g c.1 n.1 h,
          )
    ]
      where
        cut : IsCut cmp (y ∷ ys) → cmp y ≡ lt → All (λ z. cmp z ≡ lt) ys
        cut (inl w, k) e = absurd (ground (arith, e, w))
        cut (inr a, k) e = a

        behind : (l : List A) → All (λ z. cmp z ≡ lt) l → IsOrdered l → All (B x) l
        behind [] a k = tt
        behind (z ∷ l) a (pz, bz, k) = (f z pz a.0, behind l a.1 k)

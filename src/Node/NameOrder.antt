-- ===== src/Node/NameOrder.antt =====
-- node.c: `kdbus_node_name_compare` is a strict order of hashes and names.
use Prim.Native.Nat.Ordering.{lt, eq, gt}
use Prim.Native.Nat.{compare}
use kdbus.Base.{ℕ, ◌-◌, ◌^◌, ◌≤◌, ◌<◌, ◌≡◌, refl, List, [], ◌∷◌, arith, inl, inr}
use kdbus.Rbtree.{Ordering-cases}
use kdbus.Strhash.{NameHash}
use kdbus.Node.Children.{Child, str_compare, name_compare, name_hash}

pub str_compare_refl : (s : List ℕ) → str_compare s s ≡ eq
unfolding str_compare
str_compare_refl [] = refl
str_compare_refl (x ∷ s) = ground (arith, str_compare_refl s)

pub eq_of_str_compare : (s t : List ℕ) → str_compare s t ≡ eq → s ≡ t
unfolding str_compare
eq_of_str_compare [] [] h = refl
eq_of_str_compare [] (y ∷ t) h = absurd (ground (arith, h))
eq_of_str_compare (x ∷ s) [] h = absurd (ground (arith, h))
eq_of_str_compare (x ∷ s) (y ∷ t) h = elim (Ordering-cases (compare x y)) [
  | inl e ↦ absurd (ground (arith, h, e))
  | inr (inl e) ↦ ground (arith, e, eq_of_str_compare s t (ground (arith, h, e)))
  | inr (inr e) ↦ absurd (ground (arith, h, e))
]

pub str_compare_flip : (s t : List ℕ) → str_compare s t ≡ gt → str_compare t s ≡ lt
unfolding str_compare
str_compare_flip [] [] h = absurd (ground (arith, h))
str_compare_flip [] (y ∷ t) h = absurd (ground (arith, h))
str_compare_flip (x ∷ s) [] h = refl
str_compare_flip (x ∷ s) (y ∷ t) h = elim (Ordering-cases (compare x y)) [
  | inl e ↦ absurd (ground (arith, h, e))
  | inr (inl e) ↦ ground (arith, e, str_compare_flip s t (ground (arith, h, e)))
  | inr (inr e) ↦ ground (arith, e)
]

pub str_compare_trans :
    (s t u : List ℕ) → str_compare s t ≡ lt → str_compare t u ≡ lt → str_compare s u ≡ lt
unfolding str_compare
str_compare_trans [] [] u h g = absurd (ground (arith, h))
str_compare_trans [] (y ∷ t) [] h g = absurd (ground (arith, g))
str_compare_trans [] (y ∷ t) (z ∷ u) h g = refl
str_compare_trans (x ∷ s) [] u h g = absurd (ground (arith, h))
str_compare_trans (x ∷ s) (y ∷ t) [] h g = absurd (ground (arith, g))
str_compare_trans (x ∷ s) (y ∷ t) (z ∷ u) h g = elim (Ordering-cases (compare x y)) [
  | inl e ↦ elim (Ordering-cases (compare y z)) [
    | inl f ↦ ground (arith, e, f)
    | inr (inl f) ↦ ground (arith, e, f)
    | inr (inr f) ↦ absurd (ground (arith, g, f))
  ]
  | inr (inl e) ↦ elim (Ordering-cases (compare y z)) [
    | inl f ↦ ground (arith, e, f)
    | inr (inl f) ↦
        ground (arith, e, f, str_compare_trans s t u (ground (arith, h, e)) (ground (arith, g, f)))
    | inr (inr f) ↦ absurd (ground (arith, g, f))
  ]
  | inr (inr e) ↦ absurd (ground (arith, h, e))
]

-- The hash of a name stays in the range that the comparison needs: no difference of two wraps.
pub name_hash_bounds :
    (h : NameHash) (name : List ℕ) → (2 ≤ name_hash h name) × (name_hash h name < 2 ^ 31 - 1)
unfolding name_hash
name_hash_bounds h name = (ground arith, ground arith)

-- What the comparison of differences comes to.
pub name_compare_lem :
    (hash : ℕ) (name : List ℕ) (c : Child)
    → hash < 2 ^ 31
    → c.hash < 2 ^ 31
    → name_compare hash name c
      ≡ elim (compare hash c.hash) [ lt ↦ lt | eq ↦ str_compare name c.name | gt ↦ gt ]
unfolding name_compare
name_compare_lem hash name c small small_c = elim (Ordering-cases (compare hash c.hash)) [
  | inl e ↦ ground (arith, e, small, small_c)
  | inr (inl e) ↦ ground (arith, e)
  | inr (inr e) ↦ ground (arith, e, small, small_c)
]

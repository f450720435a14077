-- ===== src/Node/Siblings.antt =====
-- node.c: `kdbus_node_link` against `kdbus_node_find_child`.
use Prim.Native.Nat.Ordering.{lt, eq, gt}
use Prim.Native.Nat.{Ordering, compare}
use kdbus.Base.{
  ℕ, ◌≡◌, ◌≢◌, sym, ◌∙◌, ap, true, false, List, arith, str_eq, str_eq_refl, eq_of_str_eq,
  Bool-cases, inl, inr, subst,
}
use kdbus.Rbtree.{Tree, inorder, is_eq, IsCut, IsOrdered, IsOrdered-IsCut, Ordering-cases}
use kdbus.Strhash.{NameHash}
use kdbus.Node.Children.{Child, str_compare, name_compare, name_hash}
use kdbus.Node.NameOrder.{
  str_compare_refl, eq_of_str_compare, str_compare_flip, str_compare_trans, name_hash_bounds,
  name_compare_lem,
}

module _ (h : NameHash) where
  -- The order of two names.
  unfoldable pub key_compare : List ℕ → List ℕ → Ordering
  key_compare s t = elim (compare (name_hash h s) (name_hash h t)) [
    | lt ↦ lt
    | eq ↦ str_compare s t
    | gt ↦ gt
  ]

  key_compare_refl : (s : List ℕ) → key_compare s s ≡ eq
  unfolding key_compare
  key_compare_refl s = ground (arith, str_compare_refl s)

  pub eq_of_key_compare : (s t : List ℕ) → key_compare s t ≡ eq → s ≡ t
  unfolding key_compare
  eq_of_key_compare s t e = eq_of_str_compare s t (ground (arith, e))

  pub key_compare_flip : (s t : List ℕ) → key_compare s t ≡ gt → key_compare t s ≡ lt
  unfolding key_compare
  key_compare_flip s t e = elim (Ordering-cases (compare (name_hash h s) (name_hash h t))) [
    | inl f ↦ absurd (ground (arith, e, f))
    | inr (inl f) ↦ ground (arith, f, str_compare_flip s t (ground (arith, e, f)))
    | inr (inr f) ↦ ground (arith, f)
  ]

  key_compare_trans :
      (s t u : List ℕ) → key_compare s t ≡ lt → key_compare t u ≡ lt → key_compare s u ≡ lt
  unfolding key_compare
  key_compare_trans s t u e f = elim (Ordering-cases (compare (name_hash h s) (name_hash h t))) [
    | inl a ↦ elim (Ordering-cases (compare (name_hash h t) (name_hash h u))) [
      | inl b ↦ ground (arith, a, b)
      | inr (inl b) ↦ ground (arith, a, b)
      | inr (inr b) ↦ absurd (ground (arith, f, b))
    ]
    | inr (inl a) ↦ elim (Ordering-cases (compare (name_hash h t) (name_hash h u))) [
      | inl b ↦ ground (arith, a, b)
      | inr (inl b) ↦
          ground
            (arith, a, b, str_compare_trans s t u (ground (arith, e, a)) (ground (arith, f, b)))
      | inr (inr b) ↦ absurd (ground (arith, f, b))
    ]
    | inr (inr a) ↦ absurd (ground (arith, e, a))
  ]

  abbrev pub IsHashed : Child → Type 0
  IsHashed c = c.hash ≡ name_hash h c.name

  abbrev pub IsBefore : Child → Child → Type 0
  IsBefore c d = IsHashed d × (key_compare c.name d.name ≡ lt)

  -- The children carry the hashes of their names, and stand in their order.
  abbrev pub IsSiblings : Tree Child → Type 0
  IsSiblings t = IsOrdered IsHashed IsBefore (inorder t)

  abbrev pub looked_up : List ℕ → Child → Ordering
  looked_up name c = name_compare (name_hash h name) name c

  pub looked_up_lem :
      (name : List ℕ) (c : Child) → IsHashed c → looked_up name c ≡ key_compare name c.name
  unfolding key_compare
  looked_up_lem name c e =
      name_compare_lem (name_hash h name) name c (omega (arith, (name_hash_bounds h name).1))
        (omega (arith, e, (name_hash_bounds h c.name).1))
      ∙ ap
          (λ n. elim (compare (name_hash h name) n) [
            | lt ↦ lt
            | eq ↦ str_compare name c.name
            | gt ↦ gt
          ])
          e

  pub looked_up-IsCut :
      (name : List ℕ) (l : List Child) → IsOrdered IsHashed IsBefore l → IsCut (looked_up name) l
  looked_up-IsCut name l o =
      IsOrdered-IsCut IsHashed IsBefore (looked_up name) l (λ y z p b n. after y z p b n) o
    where
      after :
          (y z : Child) → IsHashed y → IsBefore y z → looked_up name y ≢ gt → looked_up name z ≡ lt
      after y z p (q, less) n = looked_up_lem name z q ∙ elim (Ordering-cases (looked_up name y)) [
        | inl e ↦ key_compare_trans name y.name z.name (sym (looked_up_lem name y p) ∙ e) less
        | inr (inl e) ↦
            subst (λ s. key_compare s z.name ≡ lt)
              (sym (eq_of_key_compare name y.name (sym (looked_up_lem name y p) ∙ e))) less
        | inr (inr e) ↦ absurd (n e)
      ]

  pub is_eq-looked_up :
      (name : List ℕ) (c : Child) → IsHashed c → is_eq (looked_up name c) ≡ str_eq name c.name
  is_eq-looked_up name c p = elim (Bool-cases (str_eq name c.name)) [
    | inl same ↦
        ap is_eq (
          looked_up_lem name c p
          ∙ subst (λ s. key_compare name s ≡ eq) (eq_of_str_eq name c.name same)
              (key_compare_refl name))
        ∙ sym same
    | inr other ↦ elim (Ordering-cases (looked_up name c)) [
      | inl e ↦ ap is_eq e ∙ sym other
      | inr (inl e) ↦
          absurd (clash other (eq_of_key_compare name c.name (sym (looked_up_lem name c p) ∙ e)))
      | inr (inr e) ↦ ap is_eq e ∙ sym other
    ]
  ]
    where
      clash : str_eq name c.name ≡ false → name ≡ c.name → ⊥
      clash other same =
          absurd (ground (arith, other, subst (λ s. str_eq name s ≡ true) same (str_eq_refl name)))

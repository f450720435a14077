-- ===== src/Node/Linking.antt =====
-- node.c: `kdbus_node_link` against `kdbus_node_find_child`.
use Prim.Native.Nat.Ordering.{eq}
use Prim.Native.Nat.{Ordering}
use kdbus.Base.{
  ℕ, ◌≡◌, ◌≢◌, refl, sym, ◌∙◌, ap, Bool, true, false, List, [], ◌∷◌, none, some, arith, All, find,
  str_eq, eq_of_str_eq, if◌then◌else◌, Bool-cases, Option-cases, Result-cases, inl, inr, ◌⊎◌, subst,
  Result, ok, err, Errno, enomem, eexist, eshutdown,
}
use kdbus.Rbtree.{
  Tree, inorder, RbTree, link-inorder, link-search_eq, search_eq-inorder, is_eq, insert_by,
  IsOrdered, IsOrdered-insert_by, Ordering-cases,
}
use kdbus.Strhash.{NameHash}
use kdbus.Node.Counter.{new, acquire}
use kdbus.Node.Children.{Child, name_hash, link_child, node_link, search_child}
use kdbus.Node.Siblings.{
  key_compare_flip, IsHashed, IsBefore, IsSiblings, looked_up, looked_up_lem, looked_up-IsCut,
  is_eq-looked_up,
}

find-cong :
    (p q : Child → Bool) (h : NameHash) (l : List Child)
    → IsOrdered (IsHashed h) (IsBefore h) l
    → ((c : Child) → IsHashed h c → p c ≡ q c)
    → find p l ≡ find q l
unfolding find
find-cong p q h [] o e = refl
find-cong p q h (c ∷ l) o e = ground (arith, e c o.0, find-cong p q h l o.2 e)

find-none : (p : Child → Bool) (l : List Child) → find p l ≡ none → All (λ c. p c ≡ false) l
unfolding find
find-none p [] e = tt
find-none p (c ∷ l) e = elim (Bool-cases (p c)) [
  | inl hit ↦ absurd (ground (arith, hit, e))
  | inr miss ↦ (miss, find-none p l (ground (arith, miss, e)))
]

find-insert_by :
    (p : Child → Bool) (cmp : Child → Ordering) (x : Child) (l : List Child)
    → All (λ c. (p x ≡ false) ⊎ (p c ≡ false)) l
    → find p (insert_by cmp x l) ≡ (if p x then some x else find p l)
unfolding find insert_by
find-insert_by p cmp x [] a = refl
find-insert_by p cmp x (c ∷ l) (inl out, a) = elim (Ordering-cases (cmp c)) [
  | inl e ↦ ground (arith, e, out)
  | inr (inl e) ↦ ground (arith, e, out)
  | inr (inr e) ↦ ground (arith, e, out, find-insert_by p cmp x l a)
]
find-insert_by p cmp x (c ∷ l) (inr out, a) = elim (Ordering-cases (cmp c)) [
  | inl e ↦ ground (arith, e, out)
  | inr (inl e) ↦ ground (arith, e, out)
  | inr (inr e) ↦ ground (arith, e, out, find-insert_by p cmp x l a)
]

module _ (h : NameHash) where
  -- The search through the tree finds the child of the name.
  pub search_child-find :
      (name : List ℕ) (t : Tree Child)
      → IsSiblings h t
      → search_child h name t ≡ find (λ c. str_eq name c.name) (inorder t)
  unfolding search_child
  search_child-find name t o =
      search_eq-inorder (looked_up h name) t (looked_up-IsCut h name (inorder t) o)
      ∙ find-cong (λ c. is_eq (looked_up h name c)) (λ c. str_eq name c.name) h (inorder t) o
          (is_eq-looked_up h name)

  module _ (rb : RbTree Child) (name : List ℕ) (n : ℕ) (t : Tree Child) where
    abbrev pub fresh_child : Child
    fresh_child = record { name = name; hash = name_hash h name; id = n; active = new }

    abbrev IsAbsent : Type 0
    IsAbsent = All (λ c. str_eq name c.name ≡ false) (inorder t)

    distinct :
        (l : List Child)
        → IsOrdered (IsHashed h) (IsBefore h) l
        → All (λ c. str_eq name c.name ≡ false) l
        → All (λ c. looked_up h name c ≢ eq) l
    distinct [] o a = tt
    distinct (c ∷ l) (p, b, o) a =
        ((λ e. absurd (ground (arith, e, is_eq-looked_up h name c p, a.0))), distinct l o a.1)

    linked :
        IsSiblings h t
        → IsAbsent
        → (u : Tree Child) × (link_child h rb fresh_child t ≡ ok u)
          × (inorder u ≡ insert_by (looked_up h name) fresh_child (inorder t))
          × IsSiblings h u
    unfolding link_child
    linked o a =
        let cut = looked_up-IsCut h name (inorder t) o in
        let apart = distinct (inorder t) o a in
        let (u, done, placed) = link-inorder (looked_up h name) fresh_child t cut apart in
        let same = rb.inorder-insert_color u ∙ placed in
        (
          rb.insert_color u,
          ground (arith, done),
          same,
          subst (IsOrdered (IsHashed h) (IsBefore h)) (sym same) (
              IsOrdered-insert_by (IsHashed h) (IsBefore h) (looked_up h name) fresh_child
                (inorder t) refl (λ y p e. (p, sym (looked_up_lem h name y p) ∙ e))
                (λ y p e.
                  (refl, key_compare_flip h name y.name (sym (looked_up_lem h name y p) ∙ e)))
                cut apart o),
        )

    found_after :
        (u : Tree Child) (other : List ℕ)
        → IsAbsent
        → IsSiblings h t
        → IsSiblings h u
        → inorder u ≡ insert_by (looked_up h name) fresh_child (inorder t)
        → search_child h other u
          ≡ (if str_eq other name then some fresh_child else search_child h other t)
    found_after u other a o o_u placed =
        search_child-find other u o_u
        ∙ ap (find (λ c. str_eq other c.name)) placed
        ∙ find-insert_by (λ c. str_eq other c.name) (looked_up h name) fresh_child (inorder t)
            (one_of (inorder t) a)
        ∙ ap (λ r. if str_eq other name then some fresh_child else r)
            (sym (search_child-find other t o))
      where
        one_of :
            (l : List Child)
            → All (λ c. str_eq name c.name ≡ false) l
            → All (λ c. (str_eq other name ≡ false) ⊎ (str_eq other c.name ≡ false)) l
        one_of [] b = tt
        one_of (c ∷ l) b = (
          elim (Bool-cases (str_eq other name)) [
            | inl same ↦
                inr (subst (λ s. str_eq s c.name ≡ false) (sym (eq_of_str_eq other name same)) b.0)
            | inr differ ↦ inl differ
          ],
          one_of l b.1,
        )

  module _ (rb : RbTree Child) (mem : Bool) (id : Result ℕ) (parent_active : ℕ)
      (name other : List ℕ) (t : Tree Child) where
    abbrev attempt : Result (Tree Child)
    attempt = node_link h rb mem id parent_active name t

    abbrev pub Refused : Errno → Result (Tree Child) → Type 0
    Refused e r =
        (r ≡ err e)
        × (((mem ≡ false) × (e ≡ enomem))
            ⊎ (id ≡ err e)
            ⊎ (((acquire parent_active).1 ≡ false) × (e ≡ eshutdown))
            ⊎ ((c : Child) × (search_child h name t ≡ some c) × (e ≡ eexist)))

    abbrev pub Linked : Result (Tree Child) → Type 0
    Linked r =
        (n : ℕ) × (u : Tree Child) × (r ≡ ok u)
        × (mem ≡ true)
        × (id ≡ ok n)
        × ((acquire parent_active).1 ≡ true)
        × (search_child h name t ≡ none)
        × IsSiblings h u
        × (search_child h other u ≡ (
            if str_eq other name then some (fresh_child rb name n t) else search_child h other t))

    -- Linking fails with ENOMEM without memory, with the error of the allocation of an id, with
    -- ESHUTDOWN under a parent that cannot be acquired, or with EEXIST if a sibling has the name. It
    -- succeeds only with memory, an id and an active parent, and if no sibling has the name: then the
    -- siblings stay in order, a search for the name finds the new node, and a search for any other
    -- name finds what it found before.
    pub node_link_lem : IsSiblings h t → ((e : Errno) × Refused e attempt) ⊎ Linked attempt
    unfolding node_link link_child search_child
    node_link_lem o = elim (Bool-cases mem) [
      | inr no_mem ↦ inl (enomem, (ground (arith, no_mem), inl (no_mem, refl)))
      | inl has_mem ↦ elim (Result-cases id) [
        | inr (e, no_id) ↦ inl (e, (ground (arith, has_mem, no_id), inr (inl no_id)))
        | inl (n, has_id) ↦ elim (Bool-cases (acquire parent_active).1) [
          | inr gone ↦
              inl (eshutdown, (ground (arith, has_mem, has_id, gone), inr (inr (inl (gone, refl)))))
          | inl active ↦ elim (Option-cases (search_child h name t)) [
            | inr (c, found) ↦ inl (
              eexist,
              (
                ground (
                  arith,
                  has_mem,
                  has_id,
                  active,
                  link-search_eq (looked_up h name) (fresh_child rb name n t) t {a = c} found,
                ),
                inr (inr (inr (c, found, refl))),
              ),
            )
            | inl missing ↦
                let none_here : All (λ c. str_eq name c.name ≡ false) (inorder t) =
                  find-none (λ c. str_eq name c.name) (inorder t)
                    (sym (search_child-find name t o) ∙ missing) in
                let (u, done, placed, o_u) = linked rb name n t o none_here in
                inr (
                  n,
                  u,
                  ground (arith, has_mem, has_id, active, done),
                  has_mem,
                  has_id,
                  active,
                  missing,
                  o_u,
                  found_after rb name n t u other none_here o o_u placed,
                )
          ]
        ]
      ]
    ]

-- ===== src/Rbtree/Defs.antt =====
-- `struct rb_root` as a binary tree of the objects whose nodes are linked, and the descents.
use Prim.Native.Nat.Ordering.{lt, eq, gt}
use Prim.Native.Nat.{Ordering}
use kdbus.Base.{
  ◌≡◌, Bool, List, [], ◌∷◌, ◌++◌, Option, none, some, remove_first, modify_first, if◌then◌else◌,
}

pub data Tree (A : Type 0) : Type 0 where
  leaf : Tree A
  node : Tree A → A → Tree A → Tree A

module _ {A : Type 0} where
  -- The objects in the order of `rb_first` and `rb_next`.
  unfoldable pub inorder : Tree A → List A
  inorder leaf = []
  inorder (node l a r) = inorder l ++ a ∷ inorder r

  -- What comes behind the first object that passes a test.
  abbrev pub head? : List A → Option A
  head? [] = none
  head? (x ∷ xs) = some x

  unfoldable pub next_after : (A → Bool) → List A → Option A
  next_after p [] = none
  next_after p (x ∷ xs) = if p x then head? xs else next_after p xs

  -- A descent that ends at a free link, where `rb_link_node` puts the new object, or at an equal one.
  unfoldable pub link : (A → Ordering) → A → Tree A → Option (Tree A)
  link cmp x leaf = some (node leaf x leaf)
  link cmp x (node l a r) = elim (cmp a) [
    | lt ↦ elim (link cmp x l) [ none ↦ none | some t ↦ some (node t a r) ]
    | gt ↦ elim (link cmp x r) [ none ↦ none | some t ↦ some (node l a t) ]
    | eq ↦ none
  ]

  -- A descent that looks for an equal object.
  unfoldable pub search_eq : (A → Ordering) → Tree A → Option A
  search_eq cmp leaf = none
  search_eq cmp (node l a r) = elim (cmp a) [
    | lt ↦ search_eq cmp l
    | gt ↦ search_eq cmp r
    | eq ↦ some a
  ]

  -- A descent that remembers the last object at which it went left.
  unfoldable pub search_ge : (A → Ordering) → Tree A → Option A → Option A
  search_ge cmp leaf found = found
  search_ge cmp (node l a r) found = elim (cmp a) [
    | lt ↦ search_ge cmp l (some a)
    | gt ↦ search_ge cmp r found
    | eq ↦ some a
  ]

-- What the kernel does: `rb_insert_color` rebalances after a link, `rb_erase` takes the object out
-- that the test picks, `rb_replace_node` puts another one into its place, and all keep the order of
-- the others; `rb_next` steps through that order.
pub record RbTree (A : Type 0) : Type 0 where
  pub insert_color : Tree A → Tree A
  pub erase : (A → Bool) → Tree A → Tree A
  pub replace : (A → Bool) → A → Tree A → Tree A
  pub next : (A → Bool) → Tree A → Option A
  pub inorder-insert_color : (t : Tree A) → inorder (insert_color t) ≡ inorder t
  pub inorder-erase : (p : A → Bool) (t : Tree A) → inorder (erase p t) ≡ remove_first p (inorder t)
  pub inorder-replace :
      (p : A → Bool) (x : A) (t : Tree A)
      → inorder (replace p x t) ≡ modify_first p (λ a. x) (inorder t)
  pub next-inorder : (p : A → Bool) (t : Tree A) → next p t ≡ next_after p (inorder t)

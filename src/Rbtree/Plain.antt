-- ===== src/Rbtree/Plain.antt =====
-- A kernel that never rebalances: the laws of `RbTree` can hold.
use kdbus.Base.{
  ◌≡◌, refl, sym, ◌∙◌, ap, Bool, true, false, List, [], ◌∷◌, ◌++◌, append_assoc, arith,
  remove_first, modify_first, if◌then◌else◌,
}
use kdbus.Rbtree.Defs.{next_after, Tree, leaf, node, inorder, RbTree}

module _ {A : Type 0} where
  unfoldable pub any : (A → Bool) → List A → Bool
  any p [] = false
  any p (x ∷ xs) = if p x then true else any p xs

  remove_first-append :
      (p : A → Bool) (xs ys : List A)
      → remove_first p (xs ++ ys)
        ≡ (if any p xs then remove_first p xs ++ ys else xs ++ remove_first p ys)
  unfolding any remove_first
  remove_first-append p [] ys = refl
  remove_first-append p (x ∷ xs) ys = ground (arith, remove_first-append p xs ys)

  unfoldable pub join : Tree A → Tree A → Tree A
  join leaf r = r
  join (node ll b lr) r = node ll b (join lr r)

  inorder-join : (l r : Tree A) → inorder (join l r) ≡ inorder l ++ inorder r
  unfolding join inorder
  inorder-join leaf r = refl
  inorder-join (node ll b lr) r =
      ap (λ q. inorder ll ++ b ∷ q) (inorder-join lr r)
      ∙ sym (append_assoc (inorder ll) (b ∷ inorder lr) (inorder r))

  unfoldable pub take_out : (A → Bool) → Tree A → Tree A
  unfolding any join
  take_out p leaf = leaf
  take_out p (node l a r) =
      let left = take_out p l in
      let right = take_out p r in
      if any p (inorder l) then node left a r else (if p a then join l r else node l a right)

  pub inorder-take_out :
      (p : A → Bool) (t : Tree A) → inorder (take_out p t) ≡ remove_first p (inorder t)
  unfolding take_out inorder remove_first
  inorder-take_out p leaf = refl
  inorder-take_out p (node l a r) = ground (
    arith,
    remove_first-append p (inorder l) (a ∷ inorder r),
    inorder-take_out p l,
    inorder-take_out p r,
    inorder-join l r,
  )

module _ {A : Type 0} (p : A → Bool) (x : A) where
  modify_first-append :
      (xs ys : List A)
      → modify_first p (λ a. x) (xs ++ ys)
        ≡ (if any p xs then modify_first p (λ a. x) xs ++ ys else xs ++ modify_first p (λ a. x) ys)
  unfolding any modify_first
  modify_first-append [] ys = refl
  modify_first-append (y ∷ xs) ys = ground (arith, modify_first-append xs ys)

  unfoldable pub swap : Tree A → Tree A
  unfolding any
  swap leaf = leaf
  swap (node l a r) =
      let left = swap l in
      let right = swap r in
      if any p (inorder l) then node left a r else (if p a then node l x r else node l a right)

  pub inorder-swap : (t : Tree A) → inorder (swap t) ≡ modify_first p (λ a. x) (inorder t)
  unfolding swap inorder modify_first
  inorder-swap leaf = refl
  inorder-swap (node l a r) =
      ground
        (arith, modify_first-append (inorder l) (a ∷ inorder r), inorder-swap l, inorder-swap r)

abbrev pub plain : {A : Type 0} → RbTree A
plain = record {
  insert_color = λ t. t;
  erase = take_out;
  replace = swap;
  next = λ p t. next_after p (inorder t);
  inorder-insert_color = λ t. refl;
  inorder-erase = inorder-take_out;
  inorder-replace = inorder-swap;
  next-inorder = λ p t. refl;
}

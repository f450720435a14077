-- ===== src/Queue/State.antt =====
-- queue.c: the agreement of the priority tree with the list of all entries.
use kdbus.Base.{
  ℕ, ◌<◌, ◌≡◌, ◌≢◌, sym, Bool, true, false, List, [], ◌∷◌, ◌++◌, arith, remove_first, All, Has,
  ◌==◌, Bool-cases, inl, inr, subst, keep, All-keep,
}
use kdbus.Rbtree.{inorder, any, All-imp}
use kdbus.Queue.Entries.{Entry, Bucket, Queue, level, level_of, has_level, is_entry}
use kdbus.Queue.Buckets.{members, members_at, IsAscending, top}
use kdbus.Queue.Place.{members_at-below}
use kdbus.Queue.Removal.{IsItself, IsNodeOf}

abbrev pub at_level : ℕ → Entry → Bool
at_level r x = level x == r

-- No address twice.
abbrev pub IsUnique : List Entry → Type 0
IsUnique [] = Unit
IsUnique (x ∷ l) = All (λ y. y.id ≢ x.id) l × IsUnique l

-- For each priority, the tree holds its entries in the order of their arrival; the tree is in order,
-- and the cached entry is its first node.
pub record IsQueue (q : Queue) : Type 0 where
  pub ascending : IsAscending (inorder q.msg_prio_queue)
  pub rings : (r : ℕ) → members_at r (inorder q.msg_prio_queue) ≡ keep (at_level r) q.msg_list
  pub highest : q.msg_prio_highest ≡ top (inorder q.msg_prio_queue)
  pub unique : IsUnique q.msg_list

pub any-Has : (e : Entry) (l : List Entry) → Has e l → any (is_entry e) l ≡ true
unfolding any
any-Has e [] m = absurd m
any-Has e (x ∷ l) (inl h) = ground (arith, h)
any-Has e (x ∷ l) (inr m) = ground (arith, any-Has e l m)

pub All-not_any :
    (e : Entry) (l : List Entry) → any (is_entry e) l ≡ false → All (λ y. e.id ≢ y.id) l
unfolding any
All-not_any e [] h = tt
All-not_any e (x ∷ l) h =
    ((λ g. absurd (ground (arith, g, h))), All-not_any e l (ground (arith, h)))

pub keep-Has :
    (p : Entry → Bool) (l : List Entry) {e : Entry} {t : List Entry} → keep p l ≡ e ∷ t → Has e l
unfolding keep
keep-Has p [] {e} {t} h = absurd (ground (arith, h))
keep-Has p (x ∷ l) {e} {t} h = elim (Bool-cases (p x)) [
  | inl pass ↦ inl (first (ground (arith, h, pass)))
  | inr fail ↦ inr (keep-Has p l {e = e} {t = t} (ground (arith, h, fail)))
]
  where
    first : x ∷ keep p l ≡ e ∷ t → e ≡ x
    first g = cc

pub All-kept : (p : Entry → Bool) (l : List Entry) → All (λ y. p y ≡ true) (keep p l)
unfolding keep
All-kept p [] = tt
All-kept p (x ∷ l) = elim (Bool-cases (p x)) [
  | inl pass ↦
      subst (All (λ y. p y ≡ true)) {x = x ∷ keep p l} (ground (arith, pass)) (pass, All-kept p l)
  | inr fail ↦ subst (All (λ y. p y ≡ true)) {x = keep p l} (ground (arith, fail)) (All-kept p l)
]

pub IsUnique-IsItself : (e : Entry) (l : List Entry) → IsUnique l → Has e l → All (IsItself e) l
IsUnique-IsItself e [] u m = tt
IsUnique-IsItself e (x ∷ l) u (inl h) =
    (inr (sym h), All-imp (λ y. y.id ≢ x.id) (IsItself e) (λ y n. inl (ground (arith, n, h))) l u.0)
IsUnique-IsItself e (x ∷ l) u (inr m) = (inl (other l u.0 m), IsUnique-IsItself e l u.1 m)
  where
    other : (l : List Entry) → All (λ y. y.id ≢ x.id) l → Has e l → is_entry e x ≡ false
    other [] a m = absurd m
    other (y ∷ l) a (inl h) = ground (arith, h, a.0)
    other (y ∷ l) a (inr m) = other l a.1 m

pub IsUnique-last :
    (e : Entry) (l : List Entry) → IsUnique l → All (λ y. e.id ≢ y.id) l → IsUnique (l ++ e ∷ [])
IsUnique-last e [] u a = (tt, tt)
IsUnique-last e (x ∷ l) u a = (add_last l u.0, IsUnique-last e l u.1 a.1)
  where
    add_last : (l : List Entry) → All (λ y. y.id ≢ x.id) l → All (λ y. y.id ≢ x.id) (l ++ e ∷ [])
    add_last [] h = (a.0, tt)
    add_last (y ∷ l) h = (h.0, add_last l h.1)

pub IsUnique-remove : (p : Entry → Bool) (l : List Entry) → IsUnique l → IsUnique (remove_first p l)
unfolding remove_first
IsUnique-remove p [] u = tt
IsUnique-remove p (x ∷ l) u = elim (Bool-cases (p x)) [
  | inl hit ↦ subst IsUnique {x = l} (ground (arith, hit)) u.1
  | inr miss ↦
      subst IsUnique {x = x ∷ remove_first p l} (ground (arith, miss))
        (fewer l u.0, IsUnique-remove p l u.1)
]
  where
    fewer : (l : List Entry) → All (λ y. y.id ≢ x.id) l → All (λ y. y.id ≢ x.id) (remove_first p l)
    fewer [] h = tt
    fewer (y ∷ l) h = elim (Bool-cases (p y)) [
      | inl hit ↦ subst (All (λ z. z.id ≢ x.id)) {x = l} (ground (arith, hit)) h.1
      | inr miss ↦
          subst (All (λ z. z.id ≢ x.id)) {x = y ∷ remove_first p l} (ground (arith, miss))
            (h.0, fewer l h.1)
    ]

-- What holds of all entries in the buckets holds of their nodes.
pub All-nodes :
    (P : Entry → Type 0) (bs : List Bucket)
    → IsAscending bs
    → ((r : ℕ) → All P (members_at r bs))
    → All (λ c. P c.node) bs
unfolding members_at
All-nodes P [] s h = tt
All-nodes P (b ∷ bs) s h = (
  (subst (All P) {y = members b} (ground arith) (h (level_of b))).0,
  All-nodes P bs s.1 (λ r. behind r (h r)),
)
  where
    behind : (r : ℕ) → All P (members_at r (b ∷ bs)) → All P (members_at r bs)
    behind r a = elim (Bool-cases (has_level r b)) [
      | inl hit ↦
          subst (All P)
            (sym (
              members_at-below r bs
                (subst (λ n. All (λ c. n < level_of c) bs) (ground (arith, hit)) s.0)))
            tt
      | inr miss ↦ subst (All P) (ground (arith, miss)) a
    ]

pub All-IsNodeOf :
    (q : Queue) (e : Entry)
    → IsQueue q
    → Has e q.msg_list
    → All (IsNodeOf e) (inorder q.msg_prio_queue)
All-IsNodeOf q e good m =
    All-imp (λ c. IsItself e c.node) (IsNodeOf e) (λ c h. at_node c h) (inorder q.msg_prio_queue)
      (All-nodes (IsItself e) (inorder q.msg_prio_queue) good.ascending (λ r.
        subst (All (IsItself e)) (sym (good.rings r)) (
          All-keep (IsItself e) (at_level r) q.msg_list
            (IsUnique-IsItself e q.msg_list good.unique m))))
  where
    at_node : (c : Bucket) → IsItself e c.node → IsNodeOf e c
    at_node c (inl h) = inl h
    at_node c (inr h) = inr (ground (arith, h))

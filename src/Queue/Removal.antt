-- ===== src/Queue/Removal.antt =====
-- queue.c: the buckets after the node of one has left, with its bucket or with another node in its place.
use kdbus.Base.{
  ℕ, ◌<◌, ◌≡◌, refl, ◌∙◌, ap, Bool, true, false, List, [], ◌∷◌, Option, none, some, arith, find,
  remove_first, modify_first, All, ◌==◌, if◌then◌else◌, Bool-cases, inl, inr, ◌⊎◌, subst, keep,
}
use kdbus.Rbtree.{next_after}
use kdbus.Queue.Entries.{Entry, Bucket, level, level_of, has_level, is_entry, move_highest}
use kdbus.Queue.Buckets.{members, members_at, IsAscending, top}
use kdbus.Queue.Place.{members_at-below}

module _ (k : ℕ) where
  pub members_at-find :
      (bs : List Bucket) {b : Bucket} → find (has_level k) bs ≡ some b → members_at k bs ≡ members b
  unfolding members_at find
  members_at-find [] {b} h = absurd (ground (arith, h))
  members_at-find (c ∷ bs) {b} h = elim (Bool-cases (has_level k c)) [
    | inl hit ↦ ground (arith, hit) ∙ ap members (some_inj (ground (arith, h, hit)))
    | inr miss ↦ ground (arith, miss) ∙ members_at-find bs {b = b} (ground (arith, h, miss))
  ]
    where
      some_inj : some c ≡ some b → c ≡ b
      some_inj e = cc

  pub members_at-none : (bs : List Bucket) → find (has_level k) bs ≡ none → members_at k bs ≡ []
  unfolding members_at find
  members_at-none [] h = refl
  members_at-none (c ∷ bs) h = elim (Bool-cases (has_level k c)) [
    | inl hit ↦ absurd (ground (arith, h, hit))
    | inr miss ↦ ground (arith, miss, members_at-none bs (ground (arith, h, miss)))
  ]

  pub members_at-remove :
      (r : ℕ) (bs : List Bucket)
      → IsAscending bs
      → members_at r (remove_first (has_level k) bs) ≡ (if k == r then [] else members_at r bs)
  unfolding members_at remove_first
  members_at-remove r [] h = ground arith
  members_at-remove r (b ∷ bs) h = elim (Bool-cases (has_level k b)) [
    | inl hit ↦ elim (Bool-cases (k == r)) [
      | inl same ↦ ground (
        arith,
        hit,
        same,
        members_at-below r bs
            (subst (λ n. All (λ c. n < level_of c) bs) (ground (arith, hit, same)) h.0),
      )
      | inr other ↦ ground (arith, hit, other)
    ]
    | inr miss ↦ ground (arith, miss, members_at-remove r bs h.1)
  ]

  All-remove :
      (m : ℕ) (bs : List Bucket)
      → All (λ c. m < level_of c) bs
      → All (λ c. m < level_of c) (remove_first (has_level k) bs)
  unfolding remove_first
  All-remove m [] h = tt
  All-remove m (b ∷ bs) h = elim (Bool-cases (has_level k b)) [
    | inl hit ↦ subst (All (λ c. m < level_of c)) {x = bs} (ground (arith, hit)) h.1
    | inr miss ↦
        subst (All (λ c. m < level_of c)) {x = b ∷ remove_first (has_level k) bs}
          (ground (arith, miss)) (h.0, All-remove m bs h.1)
  ]

  pub IsAscending-remove :
      (bs : List Bucket) → IsAscending bs → IsAscending (remove_first (has_level k) bs)
  unfolding remove_first
  IsAscending-remove [] h = tt
  IsAscending-remove (b ∷ bs) h = elim (Bool-cases (has_level k b)) [
    | inl hit ↦ subst IsAscending {x = bs} (ground (arith, hit)) h.1
    | inr miss ↦
        subst IsAscending {x = b ∷ remove_first (has_level k) bs} (ground (arith, miss))
          (All-remove (level_of b) bs h.0, IsAscending-remove bs h.1)
  ]

  module _ (c : Bucket) (same_level : level_of c ≡ k) where
    abbrev exchanged : List Bucket → List Bucket
    exchanged bs = modify_first (has_level k) (λ b. c) bs

    pub members_at-exchange :
        (r : ℕ) (bs : List Bucket) {b : Bucket}
        → find (has_level k) bs ≡ some b
        → members_at r (exchanged bs) ≡ (if k == r then members c else members_at r bs)
    unfolding members_at modify_first find
    members_at-exchange r [] {b} h = absurd (ground (arith, h))
    members_at-exchange r (a ∷ bs) {b} h = elim (Bool-cases (has_level k a)) [
      | inl hit ↦ ground (arith, hit, same_level)
      | inr miss ↦ ground (arith, miss, members_at-exchange r bs {b = b} (ground (arith, h, miss)))
    ]

    All-exchange :
        (m : ℕ) (bs : List Bucket)
        → All (λ b. m < level_of b) bs
        → All (λ b. m < level_of b) (exchanged bs)
    unfolding modify_first
    All-exchange m [] h = tt
    All-exchange m (a ∷ bs) h = elim (Bool-cases (has_level k a)) [
      | inl hit ↦
          subst (All (λ b. m < level_of b)) {x = c ∷ bs} (ground (arith, hit))
            (ground (arith, h.0, hit, same_level), h.1)
      | inr miss ↦
          subst (All (λ b. m < level_of b)) {x = a ∷ exchanged bs} (ground (arith, miss))
            (h.0, All-exchange m bs h.1)
    ]

    pub IsAscending-exchange : (bs : List Bucket) → IsAscending bs → IsAscending (exchanged bs)
    unfolding modify_first
    IsAscending-exchange [] h = tt
    IsAscending-exchange (a ∷ bs) h = elim (Bool-cases (has_level k a)) [
      | inl hit ↦
          subst IsAscending {x = c ∷ bs} (ground (arith, hit))
            (subst (λ n. All (λ b. n < level_of b) bs) (ground (arith, hit, same_level)) h.0, h.1)
      | inr miss ↦
          subst IsAscending {x = a ∷ exchanged bs} (ground (arith, miss))
            (All-exchange (level_of a) bs h.0, IsAscending-exchange bs h.1)
    ]

-- If the node of a bucket is `e`, it is the bucket of its priority.
abbrev pub IsNodeOf : Entry → Bucket → Type 0
IsNodeOf e c = (is_entry e c.node ≡ false) ⊎ (has_level (level e) c ≡ true)

abbrev node_of : Option Bucket → Option Entry
node_of none = none
node_of (some c) = some c.node

pub move_highest-remove :
    (e : Entry) (bs : List Bucket) {b : Bucket}
    → find (has_level (level e)) bs ≡ some b
    → is_entry e b.node ≡ true
    → All (IsNodeOf e) bs
    → move_highest e
        (elim (next_after (has_level (level e)) bs) [ none ↦ none | some c ↦ some c.node ])
        (top bs)
      ≡ top (remove_first (has_level (level e)) bs)
unfolding move_highest top remove_first next_after find
move_highest-remove e [] h n a = refl
move_highest-remove e (c ∷ []) {b} h n a = elim (Bool-cases (has_level (level e) c)) [
  | inl hit ↦ ground (arith, hit, h, n)
  | inr miss ↦ ground (arith, miss, a.0)
]
move_highest-remove e (c ∷ d ∷ bs) {b} h n a = elim (Bool-cases (has_level (level e) c)) [
  | inl hit ↦ ground (arith, hit, h, n)
  | inr miss ↦ ground (arith, miss, a.0)
]

pub move_highest-exchange :
    (e : Entry) (d : Bucket) (bs : List Bucket) {b : Bucket}
    → find (has_level (level e)) bs ≡ some b
    → is_entry e b.node ≡ true
    → All (IsNodeOf e) bs
    → move_highest e (some d.node) (top bs) ≡ top (modify_first (has_level (level e)) (λ c. d) bs)
unfolding move_highest top modify_first find
move_highest-exchange e d [] h n a = refl
move_highest-exchange e d (c ∷ bs) {b} h n a = elim (Bool-cases (has_level (level e) c)) [
  | inl hit ↦ ground (arith, hit, h, n)
  | inr miss ↦ ground (arith, miss, a.0)
]

-- The entries of the bucket's priority, and those of the others, without the bucket's node.
module _ (e : Entry) where
  -- Only `e` itself has its address.
  abbrev pub IsItself : Entry → Type 0
  IsItself x = (is_entry e x ≡ false) ⊎ (x ≡ e)

  at_itself : (p : Entry → Bool) (x : Entry) → is_entry e x ≡ true → IsItself x → p x ≡ p e
  at_itself p x hit (inl miss) = absurd (ground (arith, hit, miss))
  at_itself p x hit (inr same) = ap p same

  pub keep-remove_head :
      (p : Entry → Bool) (l t : List Entry)
      → p e ≡ true
      → All IsItself l
      → keep p l ≡ e ∷ t
      → keep p (remove_first (is_entry e) l) ≡ t
  unfolding keep remove_first
  keep-remove_head p [] t pe u h = absurd (ground (arith, h))
  keep-remove_head p (x ∷ l) t pe u h = elim (Bool-cases (is_entry e x)) [
    | inl hit ↦ tail_eq hit (ground (arith, hit, at_itself p x hit u.0, pe, h))
    | inr miss ↦ elim (Bool-cases (p x)) [
      | inl pass ↦ absurd (ground (arith, miss, ap is_own (head_eq (ground (arith, pass, h)))))
      | inr fail ↦
          ground (arith, miss, fail, keep-remove_head p l t pe u.1 (ground (arith, fail, h)))
    ]
  ]
    where
      is_own : Entry → Bool
      is_own y = is_entry e y

      head_eq : x ∷ keep p l ≡ e ∷ t → x ≡ e
      head_eq g = cc

      tail_eq :
          is_entry e x ≡ true
          → x ∷ keep p l ≡ e ∷ t
          → keep p (remove_first (is_entry e) (x ∷ l)) ≡ t
      tail_eq hit g = ground (arith, hit, g)

  pub keep-remove_other :
      (p : Entry → Bool) (l : List Entry)
      → p e ≡ false
      → All IsItself l
      → keep p (remove_first (is_entry e) l) ≡ keep p l
  unfolding keep remove_first
  keep-remove_other p [] pe u = refl
  keep-remove_other p (x ∷ l) pe u = elim (Bool-cases (is_entry e x)) [
    | inl hit ↦ ground (arith, hit, at_itself p x hit u.0, pe)
    | inr miss ↦ ground (arith, miss, keep-remove_other p l pe u.1)
  ]

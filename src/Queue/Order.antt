-- ===== src/Queue/Order.antt =====
-- queue.c: what `kdbus_queue_peek` finds, in terms of the list of all entries.
use kdbus.Base.{
  ℕ, ◌≤◌, ◌<◌, ◌≡◌, refl, sym, ◌∙◌, ap, Bool, true, false, List, [], ◌∷◌, Option, none, some, arith,
  All, ltb, ◌==◌, if◌then◌else◌, Bool-cases, List-cases, inl, inr, subst, keep,
}
use kdbus.Rbtree.{inorder, head?, All-Has, All-imp}
use kdbus.Queue.Entries.{Entry, Bucket, Queue, level, level_of, signed, peek}
use kdbus.Queue.Buckets.{members_at, IsAscending, top}
use kdbus.Queue.Place.{members_at-below}
use kdbus.Queue.Unlink.{heads}
use kdbus.Queue.State.{at_level, IsQueue, keep-Has}

-- The first entry of the least priority value, which is the most urgent.
unfoldable pub most_urgent : List Entry → Option Entry
most_urgent [] = none
most_urgent (x ∷ l) = elim (most_urgent l) [
  | none ↦ some x
  | some y ↦ if ltb (level y) (level x) then some y else some x
]

-- What a receiver is promised.
unfoldable pub next_entry : ℕ → Bool → List Entry → Option Entry
next_entry priority use_priority l =
    if use_priority
    then (elim (most_urgent l) [
      | none ↦ none
      | some e ↦ if ltb (signed priority) (level e) then none else some e
    ])
    else head? l

some_inj : {x y : Entry} → some x ≡ some y → x ≡ y
some_inj g = cc

-- An entry is the most urgent if no other is more urgent, and none of its priority came earlier.
abbrev IsMostUrgent : Entry → List Entry → Type 0
IsMostUrgent e l =
    All (λ x. level e ≤ level x) l × (t : List Entry) × (keep (at_level (level e)) l ≡ e ∷ t)

most_urgent-IsMostUrgent :
    (x : Entry) (l : List Entry)
    → (e : Entry) × (most_urgent (x ∷ l) ≡ some e) × IsMostUrgent e (x ∷ l)
unfolding most_urgent keep
most_urgent-IsMostUrgent x [] = (x, refl, ((omega arith, tt), [], ground arith))
most_urgent-IsMostUrgent x (y ∷ l) =
    let (e, found, (least, t, oldest)) = most_urgent-IsMostUrgent y l in
    elim (Bool-cases (ltb (level e) (level x))) [
      | inl better ↦ (
        e,
        ground (arith, found, better),
        ((ground (arith, better), least), t, ground (arith, better, oldest)),
      )
      | inr worse ↦ (
        x,
        ground (arith, found, worse),
        (
          (
            omega arith,
            All-imp (λ z. level e ≤ level z) (λ z. level x ≤ level z)
                (λ z h. ground (arith, worse, h)) (y ∷ l) least,
          ),
          keep (at_level (level x)) (y ∷ l),
          ground arith,
        ),
      )
    ]

keep-head :
    (x : Entry) (l : List Entry)
    → keep (at_level (level x)) (x ∷ l) ≡ x ∷ keep (at_level (level x)) l
unfolding keep
keep-head x l = ground arith

-- The entry that a receiver is promised is the oldest of its priority.
pub next_entry_oldest :
    (priority : ℕ) (use_priority : Bool) (l : List Entry) {e : Entry}
    → next_entry priority use_priority l ≡ some e
    → (t : List Entry) × (keep (at_level (level e)) l ≡ e ∷ t)
unfolding next_entry most_urgent
next_entry_oldest priority true [] {e} h = absurd (ground (arith, h))
next_entry_oldest priority false [] {e} h = absurd (ground (arith, h))
next_entry_oldest priority false (x ∷ l) {e} h =
    subst (λ y. (t : List Entry) × (keep (at_level (level y)) (x ∷ l) ≡ y ∷ t)) (some_inj h)
      (keep (at_level (level x)) l, keep-head x l)
next_entry_oldest priority true (x ∷ l) {e} h =
    let (y, found, (least, t, oldest)) = most_urgent-IsMostUrgent x l in
    subst (λ z. (t : List Entry) × (keep (at_level (level z)) (x ∷ l) ≡ z ∷ t)) (same y found)
      (t, oldest)
  where
    same : (y : Entry) → most_urgent (x ∷ l) ≡ some y → y ≡ e
    same y found = elim (Bool-cases (ltb (signed priority) (level y))) [
      | inl late ↦ absurd (ground (arith, h, found, late))
      | inr urgent ↦ some_inj (ground (arith, h, found, urgent))
    ]

module _ (q : Queue) (good : IsQueue q) where
  -- The cached entry is the most urgent one.
  highest-IsMostUrgent : (e : Entry) → IsMostUrgent e q.msg_list → q.msg_prio_highest ≡ some e
  unfolding top members_at
  highest-IsMostUrgent e (least, t, oldest) =
      good.highest ∙ top_of (inorder q.msg_prio_queue) good.ascending good.rings
    where
      below :
          (b : Bucket) (bs : List Bucket)
          → IsAscending (b ∷ bs)
          → level e < level b.node
          → All (λ c. level e < level_of c) (b ∷ bs)
      below b bs s less = (
        less,
        All-imp (λ c. level_of b < level_of c) (λ c. level e < level_of c)
            (λ c h. omega (arith, h, less)) bs s.0,
      )

      node_eq :
          (b : Bucket) (bs : List Bucket)
          → IsAscending (b ∷ bs)
          → ((r : ℕ) → members_at r (b ∷ bs) ≡ keep (at_level r) q.msg_list)
          → b.node ≡ e
      node_eq b bs s rings =
          let here : keep (at_level (level b.node)) q.msg_list ≡ b.node ∷ b.ring =
            sym (rings (level_of b)) ∙ ground arith in
          let not_less : level e ≤ level b.node =
            All-Has (λ x. level e ≤ level x) q.msg_list least
              (keep-Has (at_level (level b.node)) q.msg_list {e = b.node} {t = b.ring} here) in
          elim (Bool-cases (level e == level b.node)) [
            | inl same ↦ heads (
                sym (
                  subst (λ r. keep (at_level r) q.msg_list ≡ b.node ∷ b.ring) (ground (arith, same))
                    here)
                ∙ oldest)
            | inr other ↦ absurd (
                ground (
                  arith,
                  oldest,
                  rings (level e),
                  members_at-below (level e) (b ∷ bs)
                      (below b bs s (ground (arith, not_less, other))),
                ))
          ]

      top_of :
          (bs : List Bucket)
          → IsAscending bs
          → ((r : ℕ) → members_at r bs ≡ keep (at_level r) q.msg_list)
          → top bs ≡ some e
      top_of [] s rings = absurd (ground (arith, rings (level e), oldest))
      top_of (b ∷ bs) s rings = ap some (node_eq b bs s rings)

  -- The queue shows what a receiver is promised.
  pub peek_lem :
      (priority : ℕ) (use_priority : Bool)
      → peek priority use_priority q ≡ some (next_entry priority use_priority q.msg_list)
  unfolding peek next_entry most_urgent
  peek_lem priority use_priority = elim (List-cases q.msg_list) [
    | inl empty ↦ elim (Bool-cases use_priority) [
      | inl use_it ↦ ground (arith, empty, use_it)
      | inr ignore ↦ ground (arith, empty, ignore)
    ]
    | inr (x, l, shape) ↦
        let (e, found, urgent) = most_urgent-IsMostUrgent x l in
        let highest = highest-IsMostUrgent e (subst (IsMostUrgent e) (sym shape) urgent) in
        elim (Bool-cases use_priority) [
          | inl use_it ↦ elim (Bool-cases (ltb (signed priority) (level e))) [
            | inl late ↦ ground (arith, shape, use_it, found, highest, late)
            | inr timely ↦ ground (arith, shape, use_it, found, highest, timely)
          ]
          | inr ignore ↦ ground (arith, shape, ignore)
        ]
  ]

-- ===== src/Queue/Unlink.antt =====
-- queue.c: `kdbus_queue_entry_unlink` of an entry that is the oldest of its priority.
use kdbus.Base.{
  ℕ, ◌≡◌, refl, sym, ◌∙◌, ap, Bool, true, List, [], ◌∷◌, Option, none, some, arith, Has, All, ◌==◌,
  if◌then◌else◌, Bool-cases, Option-cases, List-cases, inl, inr, subst, keep, find, remove_first,
}
use kdbus.Rbtree.{inorder, RbTree, next_after}
use kdbus.Queue.Entries.{
  Entry, Bucket, Queue, level, has_level, is_entry, move_highest, leave_bucket, entry_unlink,
}
use kdbus.Queue.Buckets.{members_at, IsAscending, top}
use kdbus.Queue.Removal.{
  members_at-none, members_at-find, members_at-remove, IsAscending-remove, members_at-exchange,
  IsAscending-exchange, move_highest-remove, move_highest-exchange, keep-remove_head,
  keep-remove_other,
}
use kdbus.Queue.State.{
  at_level, IsQueue, any-Has, keep-Has, All-kept, IsUnique-IsItself, IsUnique-remove, All-IsNodeOf,
}

pub heads : {x y : Entry} {l m : List Entry} → x ∷ l ≡ y ∷ m → x ≡ y
heads h = cc

tails : {x y : Entry} {l m : List Entry} → x ∷ l ≡ y ∷ m → l ≡ m
tails h = cc

module _ (rb : RbTree Bucket) (e : Entry) (q : Queue) (good : IsQueue q) (t : List Entry) where
  abbrev buckets : List Bucket
  buckets = inorder q.msg_prio_queue

  abbrev own : Bucket → Bool
  own = has_level (level e)

  -- The list loses the entry, and the tree agrees with it.
  abbrev pub Unlinked : Option Queue → Type 0
  Unlinked r =
      (p : Queue) × (r ≡ some p) × IsQueue p × (p.msg_list ≡ remove_first (is_entry e) q.msg_list)

  abbrev leave : Option Queue
  leave =
      leave_bucket rb e (record { node = e; ring = t })
        (record q { msg_list = remove_first (is_entry e) q.msg_list })

  -- The entry is the node of the bucket of its priority.
  own_bucket :
      keep (at_level (level e)) q.msg_list ≡ e ∷ t
      → find own buckets ≡ some (record { node = e; ring = t })
  unfolding members_at
  own_bucket oldest = elim (Option-cases (find own buckets)) [
    | inl missing ↦ absurd (
        ground
          (arith, sym (members_at-none (level e) buckets missing) ∙ good.rings (level e) ∙ oldest))
    | inr (b, found) ↦
        found
        ∙ ap some (
            same_bucket b (
              sym (members_at-find (level e) buckets {b = b} found)
              ∙ good.rings (level e)
              ∙ oldest))
  ]
    where
      same_bucket : (b : Bucket) → b.node ∷ b.ring ≡ e ∷ t → b ≡ record { node = e; ring = t }
      same_bucket b h =
          ap (λ n. record { node = n; ring = b.ring }) (heads h)
          ∙ ap (λ r. record { node = e; ring = r }) (tails h)

  -- The bucket loses its only entry.
  unlink_last :
      t ≡ [] → keep (at_level (level e)) q.msg_list ≡ e ∷ t → Has e q.msg_list → Unlinked leave
  unfolding leave_bucket
  unlink_last empty oldest m = (
    record q {
      msg_list = remove_first (is_entry e) q.msg_list;
      msg_prio_highest = moved;
      msg_prio_queue = rb.erase own q.msg_prio_queue;
    },
    ground (arith, empty),
    record {
      ascending =
          subst IsAscending (sym (rb.inorder-erase own q.msg_prio_queue))
            (IsAscending-remove (level e) buckets good.ascending);
      rings = λ r.
          ap (members_at r) (rb.inorder-erase own q.msg_prio_queue)
          ∙ members_at-remove (level e) r buckets good.ascending
          ∙ sym (kept r);
      highest =
          ap
            (λ n. move_highest e (elim n [ none ↦ none | some c ↦ some c.node ]) q.msg_prio_highest)
            (rb.next-inorder own q.msg_prio_queue)
          ∙ ap
              (move_highest e
                (elim (next_after own buckets) [ none ↦ none | some c ↦ some c.node ]))
              good.highest
          ∙ move_highest-remove e buckets {b = record { node = e; ring = t }} (own_bucket oldest)
              (ground arith) (All-IsNodeOf q e good m)
          ∙ ap top (sym (rb.inorder-erase own q.msg_prio_queue));
      unique = IsUnique-remove (is_entry e) q.msg_list good.unique;
    },
    refl,
  )
    where
      moved : Option Entry
      moved =
          move_highest e
            (elim (rb.next own q.msg_prio_queue) [ none ↦ none | some c ↦ some c.node ])
            q.msg_prio_highest

      kept :
          (r : ℕ)
          → keep (at_level r) (remove_first (is_entry e) q.msg_list)
            ≡ (if level e == r then [] else members_at r buckets)
      kept r = elim (Bool-cases (level e == r)) [
        | inl hit ↦ ground (
          arith,
          hit,
          empty,
          keep-remove_head e (at_level r) q.msg_list t hit
              (IsUnique-IsItself e q.msg_list good.unique m)
              (subst (λ k. keep (at_level k) q.msg_list ≡ e ∷ t) (ground (arith, hit)) oldest),
        )
        | inr miss ↦ ground (
          arith,
          miss,
          good.rings r,
          keep-remove_other e (at_level r) q.msg_list miss
              (IsUnique-IsItself e q.msg_list good.unique m),
        )
      ]

  -- The next entry of the priority becomes the node.
  unlink_first :
      (x : Entry) (ring : List Entry)
      → t ≡ x ∷ ring
      → keep (at_level (level e)) q.msg_list ≡ e ∷ t
      → Has e q.msg_list
      → Unlinked leave
  unfolding leave_bucket
  unlink_first x ring next oldest m = (
    record q {
      msg_list = remove_first (is_entry e) q.msg_list;
      msg_prio_highest = move_highest e (some x) q.msg_prio_highest;
      msg_prio_queue = rb.replace own heir q.msg_prio_queue;
    },
    ground (arith, next),
    record {
      ascending =
          subst IsAscending (sym (rb.inorder-replace own heir q.msg_prio_queue))
            (IsAscending-exchange (level e) heir same_level buckets good.ascending);
      rings = λ r.
          ap (members_at r) (rb.inorder-replace own heir q.msg_prio_queue)
          ∙ members_at-exchange (level e) heir same_level r buckets
              {b = record { node = e; ring = t }} (own_bucket oldest)
          ∙ sym (kept r);
      highest =
          ap (move_highest e (some x)) good.highest
          ∙ move_highest-exchange e heir buckets {b = record { node = e; ring = t }}
              (own_bucket oldest) (ground arith) (All-IsNodeOf q e good m)
          ∙ ap top (sym (rb.inorder-replace own heir q.msg_prio_queue));
      unique = IsUnique-remove (is_entry e) q.msg_list good.unique;
    },
    refl,
  )
    where
      heir : Bucket
      heir = record { node = x; ring = ring }

      same_level : level x ≡ level e
      same_level = ground (
        arith,
        (subst (All (λ y. at_level (level e) y ≡ true)) (oldest ∙ ap (λ l. e ∷ l) next)
            (All-kept (at_level (level e)) q.msg_list)).1.0,
      )

      kept :
          (r : ℕ)
          → keep (at_level r) (remove_first (is_entry e) q.msg_list)
            ≡ (if level e == r then x ∷ ring else members_at r buckets)
      kept r = elim (Bool-cases (level e == r)) [
        | inl hit ↦ ground (
          arith,
          hit,
          next,
          keep-remove_head e (at_level r) q.msg_list t hit
              (IsUnique-IsItself e q.msg_list good.unique m)
              (subst (λ k. keep (at_level k) q.msg_list ≡ e ∷ t) (ground (arith, hit)) oldest),
        )
        | inr miss ↦ ground (
          arith,
          miss,
          good.rings r,
          keep-remove_other e (at_level r) q.msg_list miss
              (IsUnique-IsItself e q.msg_list good.unique m),
        )
      ]

  -- An entry that is the oldest of its priority can be unlinked.
  pub entry_unlink-IsQueue :
      keep (at_level (level e)) q.msg_list ≡ e ∷ t → Unlinked (entry_unlink rb e q)
  unfolding entry_unlink
  entry_unlink-IsQueue oldest =
      let m = keep-Has (at_level (level e)) q.msg_list {e = e} {t = t} oldest in
      let left : Unlinked leave = elim (List-cases t) [
        | inl empty ↦ unlink_last empty oldest m
        | inr (x, ring, next) ↦ unlink_first x ring next oldest m
      ] in
      (left.0, ground (arith, any-Has e q.msg_list m, own_bucket oldest, left.1), left.2, left.3)

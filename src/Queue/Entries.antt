-- ===== src/Queue/Entries.antt =====
-- queue.c: linking, unlinking and peeking. A priority is the bit pattern of an `s64`.
use Prim.Native.Nat.Ordering.{lt, eq, gt}
use Prim.Native.Nat.{compare}
use kdbus.Base.{
  ℕ, ◌+◌, ◌%◌, ◌^◌, Bool, true, false, List, [], ◌∷◌, ◌++◌, Option, none, some, find, remove_first,
  ltb, ◌==◌, if◌then◌else◌,
}
use kdbus.Rbtree.{Tree, leaf, node, inorder, RbTree, any}

-- `struct kdbus_queue_entry`, as far as the queue reads it; `id` stands for its address.
pub record Entry : Type 0 where
  pub id : ℕ
  pub priority : ℕ
  pub dst_name_id : ℕ

-- The entries of one priority: the one whose `prio_node` is in the tree, and those that follow it on
-- the ring of their `prio_entry` links.
pub record Bucket : Type 0 where
  pub node : Entry
  pub ring : List Entry

-- `struct kdbus_queue`
pub record Queue : Type 0 where
  pub msg_list : List Entry
  pub msg_prio_queue : Tree Bucket
  pub msg_prio_highest : Option Entry

-- `kdbus_queue_init`
unfoldable pub queue_init : Queue
queue_init = record { msg_list = []; msg_prio_queue = leaf; msg_prio_highest = none }

-- The signed value of a pattern, as its distance from the least one.
unfoldable pub signed : ℕ → ℕ
signed p = (p + 2 ^ 63) % 2 ^ 64

abbrev pub level : Entry → ℕ
level e = signed e.priority

abbrev pub level_of : Bucket → ℕ
level_of b = level b.node

abbrev pub is_entry : Entry → Entry → Bool
is_entry e x = x.id == e.id

abbrev pub has_level : ℕ → Bucket → Bool
has_level r b = level_of b == r

-- The descent of `kdbus_queue_entry_link`, with its variable `highest`: none if the entry has joined
-- others of its priority.
unfoldable pub sort_in : Entry → Tree Bucket → Bool → Tree Bucket × Option Bool
sort_in e leaf highest = (node leaf (record { node = e; ring = [] }) leaf, some highest)
sort_in e (node l b r) highest =
    let (less, first) = sort_in e l highest in
    let (more, behind) = sort_in e r false in
    elim (compare (level e) (level_of b)) [
      | eq ↦ (node l (record b { ring = b.ring ++ e ∷ [] }) r, none)
      | lt ↦ (node less b r, first)
      | gt ↦ (node l b more, behind)
    ]

-- The cached entry of the highest priority, where the tree node of `e` goes or passes to another.
unfoldable pub move_highest : Entry → Option Entry → Option Entry → Option Entry
move_highest e next highest = elim highest [
  | none ↦ none
  | some h ↦ if is_entry e h then next else some h
]

module _ (rb : RbTree Bucket) where
  -- `kdbus_queue_entry_link`
  unfoldable pub entry_link : Entry → Queue → Queue
  unfolding sort_in
  entry_link e q =
      let (tree, place) = sort_in e q.msg_prio_queue true in
      if any (is_entry e) q.msg_list then q else (record {
        msg_list = q.msg_list ++ e ∷ [];
        msg_prio_queue = elim place [ none ↦ tree | some highest ↦ rb.insert_color tree ];
        msg_prio_highest = elim place [
          | none ↦ q.msg_prio_highest
          | some highest ↦ if highest then some e else q.msg_prio_highest
        ];
      })

  -- `kdbus_queue_entry_unlink` without its first lines: `none` where it would hand an entry to
  -- `rb_replace_node` that is not in the tree.
  unfoldable pub leave_bucket : Entry → Bucket → Queue → Option Queue
  unfolding move_highest
  leave_bucket e b q =
      if is_entry e b.node
      then elim b.ring [
        | [] ↦ some (record q {
          msg_prio_highest =
              move_highest e
                (elim (rb.next (has_level (level e)) q.msg_prio_queue) [
                  | none ↦ none
                  | some c ↦ some c.node
                ])
                q.msg_prio_highest;
          msg_prio_queue = rb.erase (has_level (level e)) q.msg_prio_queue;
        })
        | x ∷ ring ↦ some (record q {
          msg_prio_highest = move_highest e (some x) q.msg_prio_highest;
          msg_prio_queue =
              rb.replace (has_level (level e)) (record { node = x; ring = ring }) q.msg_prio_queue;
        })
      ]
      else none

  -- `kdbus_queue_entry_unlink`; the ring of an entry is that of its priority.
  unfoldable pub entry_unlink : Entry → Queue → Option Queue
  unfolding leave_bucket
  entry_unlink e q =
      if any (is_entry e) q.msg_list
      then (elim (find (has_level (level e)) (inorder q.msg_prio_queue)) [
        | none ↦ none
        | some b ↦ leave_bucket e b (record q { msg_list = remove_first (is_entry e) q.msg_list })
      ])
      else some q

-- `kdbus_queue_peek`: `none` where it would read through an empty `msg_prio_highest`.
unfoldable pub peek : ℕ → Bool → Queue → Option (Option Entry)
peek priority use_priority q = elim q.msg_list [
  | [] ↦ some none
  | e ∷ rest ↦
      if use_priority
      then (elim q.msg_prio_highest [
        | none ↦ none
        | some h ↦ if ltb (signed priority) (level h) then some none else some (some h)
      ])
      else some (some e)
]

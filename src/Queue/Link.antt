-- ===== src/Queue/Link.antt =====
-- queue.c: `kdbus_queue_entry_link` keeps the tree in agreement with the list.
use kdbus.Base.{
  ◌≡◌, refl, sym, ◌∙◌, ap, Bool, true, false, List, [], ◌∷◌, ◌++◌, Option, none, some, arith, ◌==◌,
  if◌then◌else◌, Bool-cases, inl, inr, subst, keep,
}
use kdbus.Rbtree.{Tree, inorder, any, RbTree}
use kdbus.Queue.Entries.{Entry, Bucket, Queue, level, is_entry, sort_in, entry_link, queue_init}
use kdbus.Queue.Buckets.{members_at, IsAscending, top, put, place, sort_in-inorder}
use kdbus.Queue.Place.{members_at-put, IsAscending-put, top-put, keep_last}
use kdbus.Queue.State.{IsQueue, All-not_any, IsUnique-last}

pub queue_init-IsQueue : IsQueue queue_init
unfolding queue_init inorder members_at keep top
queue_init-IsQueue = record { ascending = tt; rings = λ r. refl; highest = refl; unique = tt }

-- The list after an entry has been linked; an entry that is linked already stays where it is.
abbrev pub linked_list : Entry → List Entry → List Entry
linked_list e l = if any (is_entry e) l then l else l ++ e ∷ []

module _ (rb : RbTree Bucket) (e : Entry) (q : Queue) (good : IsQueue q) where
  abbrev sorted_in : Tree Bucket × Option Bool
  sorted_in = sort_in e q.msg_prio_queue true

  tree-inorder :
      (p : Option Bool)
      → inorder (elim p [ none ↦ sorted_in.0 | some highest ↦ rb.insert_color sorted_in.0 ])
        ≡ put e (inorder q.msg_prio_queue)
  tree-inorder none = (sort_in-inorder e q.msg_prio_queue true good.ascending).0
  tree-inorder (some highest) =
      rb.inorder-insert_color sorted_in.0
      ∙ (sort_in-inorder e q.msg_prio_queue true good.ascending).0

  new_highest :
      (p : Option Bool)
      → p ≡ place e (inorder q.msg_prio_queue) true
      → elim p [
        | none ↦ q.msg_prio_highest
        | some highest ↦ if highest then some e else q.msg_prio_highest
      ]
        ≡ top (put e (inorder q.msg_prio_queue))
  new_highest p h =
      ap (λ t. elim p [ none ↦ t | some highest ↦ if highest then some e else t ]) good.highest
      ∙ ap
          (λ r. elim r [
            | none ↦ top (inorder q.msg_prio_queue)
            | some highest ↦ if highest then some e else top (inorder q.msg_prio_queue)
          ])
          h
      ∙ sym (top-put e (inorder q.msg_prio_queue))

  pub entry_link-IsQueue :
      IsQueue (entry_link rb e q) × ((entry_link rb e q).msg_list ≡ linked_list e q.msg_list)
  unfolding entry_link
  entry_link-IsQueue = elim (Bool-cases (any (is_entry e) q.msg_list)) [
    | inl there ↦ (subst IsQueue {x = q} (ground (arith, there)) good, ground (arith, there))
    | inr fresh ↦ (
      subst IsQueue {x = linked} (ground (arith, fresh)) (linked-IsQueue fresh),
      ground (arith, fresh),
    )
  ]
    where
      linked : Queue
      linked = record {
        msg_list = q.msg_list ++ e ∷ [];
        msg_prio_queue = elim sorted_in.1 [
          | none ↦ sorted_in.0
          | some highest ↦ rb.insert_color sorted_in.0
        ];
        msg_prio_highest = elim sorted_in.1 [
          | none ↦ q.msg_prio_highest
          | some highest ↦ if highest then some e else q.msg_prio_highest
        ];
      }

      linked-IsQueue : any (is_entry e) q.msg_list ≡ false → IsQueue linked
      linked-IsQueue fresh = record {
        ascending =
            subst IsAscending (sym (tree-inorder sorted_in.1))
              (IsAscending-put e (inorder q.msg_prio_queue) good.ascending);
        rings = λ r.
            ap (members_at r) (tree-inorder sorted_in.1)
            ∙ members_at-put e r (inorder q.msg_prio_queue) good.ascending
            ∙ ap (λ l. l ++ (if level e == r then e ∷ [] else [])) (good.rings r)
            ∙ sym (keep_last e r q.msg_list);
        highest =
            new_highest sorted_in.1 (sort_in-inorder e q.msg_prio_queue true good.ascending).1
            ∙ ap top (sym (tree-inorder sorted_in.1));
        unique = IsUnique-last e q.msg_list good.unique (All-not_any e q.msg_list fresh);
      }

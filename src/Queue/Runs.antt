-- ===== src/Queue/Runs.antt =====
-- queue.c: runs of a receive queue, and the entries that the code cannot take out.
use kdbus.Base.{
  ◌≡◌, ◌≢◌, refl, sym, ◌∙◌, List, [], ◌∷◌, Option, none, some, arith, Option-cases, inl, inr, subst,
  Result, Has, keep, find,
}
use kdbus.Rbtree.{RbTree, inorder}
use kdbus.Queue.Entries.{
  Entry, Bucket, Queue, level, has_level, entry_link, entry_unlink, leave_bucket, queue_init,
}
use kdbus.Queue.Removal.{members_at-find}
use kdbus.Queue.State.{at_level, IsQueue, any-Has}
use kdbus.Queue.Link.{queue_init-IsQueue, linked_list, entry_link-IsQueue}
use kdbus.Queue.Unlink.{heads}
use kdbus.Queue.Receive.{Recv, cmd_recv, promised, cmd_recv-IsRefined}

pub data Event : Type 0 where
  arrives : Entry → Event
  receives : Recv → Event

module _ (install : Entry → Result (Unit {0})) where
  -- The results of the receptions, and the entries that are left.
  unfoldable pub promised_run : List Event → List Entry → List (Result Entry) × List Entry
  promised_run [] l = ([], l)
  promised_run (arrives e ∷ events) l = promised_run events (linked_list e l)
  promised_run (receives cmd ∷ events) l =
      let (rest, r) = promised install cmd l in
      let (results, left) = promised_run events rest in (r ∷ results, left)

module _ (rb : RbTree Bucket) (install : Entry → Result (Unit {0})) where
  -- The same by the code; `none` where it would go wrong.
  unfoldable pub run : List Event → Queue → Option (List (Result Entry) × Queue)
  run [] q = some ([], q)
  run (arrives e ∷ events) q = run events (entry_link rb e q)
  run (receives cmd ∷ events) q = elim (cmd_recv rb install cmd q) [
    | none ↦ none
    | some (p, r) ↦ elim (run events p) [
      | none ↦ none
      | some (results, left) ↦ some (r ∷ results, left)
    ]
  ]

  abbrev IsRun : Option (List (Result Entry) × Queue) → List (Result Entry) × List Entry → Type 0
  IsRun r s = (p : Queue) × (r ≡ some (s.0, p)) × IsQueue p × (p.msg_list ≡ s.1)

  run-IsRun :
      (events : List Event) (q : Queue)
      → IsQueue q
      → IsRun (run events q) (promised_run install events q.msg_list)
  unfolding run promised_run
  run-IsRun [] q good = (q, refl, good, refl)
  run-IsRun (arrives e ∷ events) q good =
      let (good_p, list) = entry_link-IsQueue rb e q good in
      subst (λ l. IsRun (run events (entry_link rb e q)) (promised_run install events l)) list
        (run-IsRun events (entry_link rb e q) good_p)
  run-IsRun (receives cmd ∷ events) q good =
      let (p, done, good_p, list) = cmd_recv-IsRefined rb install q good cmd in
      let (left, ran, good_left, same) =
        subst (λ l. IsRun (run events p) (promised_run install events l)) list
          (run-IsRun events p good_p) in
      (left, ground (arith, done, ran), good_left, same)

  -- Whatever messages arrive and whatever receptions are asked for, by arrival or by priority, with
  -- or without removal, the tree with its cached entry gives the results that the plain list of the
  -- entries gives, and never runs into an entry that it cannot take out.
  pub run_refines :
      (events : List Event)
      → (p : Queue) × (run events queue_init ≡ some ((promised_run install events []).0, p))
        × IsQueue p
        × (p.msg_list ≡ (promised_run install events []).1)
  unfolding queue_init
  run_refines events = run-IsRun events queue_init queue_init-IsQueue

module _ (rb : RbTree Bucket) where
  -- An entry that is queued, but is not the oldest of its priority, cannot be unlinked: it would be
  -- handed to `rb_replace_node` without being in the tree.
  pub entry_unlink_younger :
      (q : Queue) (e x : Entry) (t : List Entry)
      → IsQueue q
      → Has e q.msg_list
      → keep (at_level (level e)) q.msg_list ≡ x ∷ t
      → x.id ≢ e.id
      → entry_unlink rb e q ≡ none
  unfolding entry_unlink leave_bucket
  entry_unlink_younger q e x t good m older apart =
      elim (Option-cases (find (has_level (level e)) (inorder q.msg_prio_queue))) [
        | inl missing ↦ ground (arith, any-Has e q.msg_list m, missing)
        | inr (b, found) ↦
            let node_x : b.node ≡ x = heads (
              sym (members_at-find (level e) (inorder q.msg_prio_queue) {b = b} found)
              ∙ good.rings (level e)
              ∙ older) in
            ground (arith, any-Has e q.msg_list m, found, node_x, apart)
      ]

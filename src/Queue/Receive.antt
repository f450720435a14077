-- ===== src/Queue/Receive.antt =====
-- queue.c and KDBUS_CMD_RECV of connection.c: a queue under any sequence of messages and receptions.
use kdbus.Base.{
  ℕ, ◌≡◌, ◌∙◌, ap, Bool, ◌&&◌, List, Option, none, some, arith, if◌then◌else◌, Bool-cases,
  Option-cases, Result-cases, inl, inr, remove_first, Result, ok, err, einval, eagain,
}
use kdbus.Rbtree.{RbTree}
use kdbus.Queue.Entries.{Entry, Bucket, Queue, is_entry, entry_unlink, peek}
use kdbus.Queue.State.{IsQueue}
use kdbus.Queue.Unlink.{entry_unlink-IsQueue}
use kdbus.Queue.Order.{next_entry, next_entry_oldest, peek_lem}

-- The flags and the priority of a KDBUS_CMD_RECV.
pub record Recv : Type 0 where
  pub drop : Bool
  pub use_priority : Bool
  pub only_peek : Bool
  pub priority : ℕ

module _ (rb : RbTree Bucket) (install : Entry → Result (Unit {0})) where
  -- The part of `kdbus_queue_entry_free` that the queue sees.
  unfoldable pub entry_free : Entry → Queue → Option (Queue × Result Entry)
  entry_free e q = elim (entry_unlink rb e q) [ none ↦ none | some p ↦ some (p, ok e) ]

  -- `kdbus_cmd_recv` without KDBUS_RECV_DROP; `install` stands for `kdbus_queue_entry_install`.
  unfoldable pub deliver : Recv → Entry → Queue → Option (Queue × Result Entry)
  unfolding entry_free
  deliver cmd e q = elim (install e) [
    | err x ↦ some (q, err x)
    | ok u ↦ if cmd.only_peek then some (q, ok e) else entry_free e q
  ]

  -- The middle of `kdbus_cmd_recv`, as far as the queue sees it.
  unfoldable pub cmd_recv : Recv → Queue → Option (Queue × Result Entry)
  unfolding deliver
  cmd_recv cmd q =
      if cmd.drop && cmd.use_priority
      then some (q, err einval)
      else (elim (peek cmd.priority cmd.use_priority q) [
        | none ↦ none
        | some none ↦ some (q, err eagain)
        | some (some e) ↦ if cmd.drop then entry_free e q else deliver cmd e q
      ])

-- The same on the plain list of entries, which is what a receiver relies on.
module _ (install : Entry → Result (Unit {0})) where
  unfoldable pub promised : Recv → List Entry → List Entry × Result Entry
  promised cmd l =
      if cmd.drop && cmd.use_priority
      then (l, err einval)
      else (elim (next_entry cmd.priority cmd.use_priority l) [
        | none ↦ (l, err eagain)
        | some e ↦ if cmd.drop then (remove_first (is_entry e) l, ok e) else (elim (install e) [
          | err x ↦ (l, err x)
          | ok u ↦ if cmd.only_peek then (l, ok e) else (remove_first (is_entry e) l, ok e)
        ])
      ])

module _ (rb : RbTree Bucket) (install : Entry → Result (Unit {0})) (q : Queue)
    (good : IsQueue q) where
  abbrev IsRefined : Option (Queue × Result Entry) → List Entry × Result Entry → Type 0
  IsRefined r s = (p : Queue) × (r ≡ some (p, s.1)) × IsQueue p × (p.msg_list ≡ s.0)

  freed :
      (cmd : Recv) (e : Entry)
      → next_entry cmd.priority cmd.use_priority q.msg_list ≡ some e
      → IsRefined (entry_free rb install e q) (remove_first (is_entry e) q.msg_list, ok e)
  unfolding entry_free
  freed cmd e h =
      let (t, oldest) = next_entry_oldest cmd.priority cmd.use_priority q.msg_list {e = e} h in
      let (p, done, good_p, list) = entry_unlink-IsQueue rb e q good t oldest in
      (p, ground (arith, done), good_p, list)

  pub cmd_recv-IsRefined :
      (cmd : Recv) → IsRefined (cmd_recv rb install cmd q) (promised install cmd q.msg_list)
  unfolding cmd_recv deliver promised
  cmd_recv-IsRefined cmd = elim (Bool-cases (cmd.drop && cmd.use_priority)) [
    | inl both ↦ (q, ground (arith, both), good, ground (arith, both))
    | inr allowed ↦ elim (Option-cases (next_entry cmd.priority cmd.use_priority q.msg_list)) [
      | inl nothing ↦ (
        q,
        ground (arith, allowed, nothing, peek_lem q good cmd.priority cmd.use_priority),
        good,
        ground (arith, allowed, nothing),
      )
      | inr (e, next) ↦
          let peeked = peek_lem q good cmd.priority cmd.use_priority ∙ ap some next in
          let (p, done, good_p, list) = freed cmd e next in
          elim (Bool-cases cmd.drop) [
            | inl dropped ↦ (
              p,
              ground (arith, allowed, peeked, next, dropped, done),
              good_p,
              ground (arith, allowed, next, dropped, list),
            )
            | inr kept ↦ elim (Result-cases (install e)) [
              | inr (x, failed) ↦ (
                q,
                ground (arith, allowed, peeked, next, kept, failed),
                good,
                ground (arith, allowed, next, kept, failed),
              )
              | inl (u, installed) ↦ elim (Bool-cases cmd.only_peek) [
                | inl stays ↦ (
                  q,
                  ground (arith, allowed, peeked, next, kept, installed, stays),
                  good,
                  ground (arith, allowed, next, kept, installed, stays),
                )
                | inr leaves ↦ (
                  p,
                  ground (arith, allowed, peeked, next, kept, installed, leaves, done),
                  good_p,
                  ground (arith, allowed, next, kept, installed, leaves, list),
                )
              ]
            ]
          ]
    ]
  ]

-- ===== src/Reply/Tracker.antt =====
-- reply.c: the life of a tracker, and the worker that times it out.
use kdbus.Base.{
  ℕ, ◌+◌, ◌-◌, ◌^◌, Bool, true, false, not, ◌&&◌, List, [], ◌∷◌, ◌++◌, Option, none, some, find,
  remove_first, remove_all, modify_first, ltb, ◌==◌, if◌then◌else◌, Result, ok, err, emlink, enomem,
}

-- `struct kdbus_reply`. `addr` is its address; connections stand by their ids. `linked` is that
-- `entry` is in `reply_dst`'s list.
pub record Reply : Type 0 where
  pub addr : ℕ
  pub kref : ℕ
  pub linked : Bool
  pub reply_src : ℕ
  pub reply_dst : ℕ
  pub deadline_ns : ℕ
  pub cookie : ℕ
  pub name_id : ℕ
  pub sync : Bool
  pub waiting : Bool
  pub interrupted : Bool
  pub code : ℕ

-- What one connection has as `reply_dst`: the trackers allocated and not freed, in the order in
-- which they were linked, its counter of them, and the timeouts it was notified of.
pub record Conn : Type 0 where
  pub id : ℕ
  pub request_count : ℕ
  pub replies : List Reply
  pub reply_list : List ℕ
  pub timeouts : List ℕ

-- KDBUS_CONN_MAX_REQUESTS_PENDING
abbrev pub conn_max_requests_pending : ℕ
conn_max_requests_pending = 128

-- A message's `cookie` and `timeout_ns`.
pub record Msg : Type 0 where
  pub cookie : ℕ
  pub timeout_ns : ℕ

abbrev pub is_at : ℕ → Reply → Bool
is_at r x = x.addr == r

abbrev pub or_zero : Option ℕ → ℕ
or_zero none = 0
or_zero (some n) = n

-- `kdbus_reply_new`; `mem` is the address that `kzalloc` gives.
unfoldable pub reply_new : Option ℕ → ℕ → Msg → Option ℕ → Bool → Conn → Conn × Result ℕ
reply_new mem reply_src msg name_entry sync c =
    let counted = record c { request_count = c.request_count + 1 } in
    if ltb conn_max_requests_pending counted.request_count
    then (record counted { request_count = counted.request_count - 1 }, err emlink)
    else (elim mem [
      | none ↦ (record counted { request_count = counted.request_count - 1 }, err enomem)
      | some a ↦ (
        record counted {
          replies =
              record {
                addr = a;
                kref = 1;
                linked = false;
                reply_src = reply_src;
                reply_dst = c.id;
                deadline_ns = msg.timeout_ns;
                cookie = msg.cookie;
                name_id = or_zero name_entry;
                sync = sync;
                waiting = sync;
                interrupted = false;
                code = 0;
              }
              ∷ c.replies;
        },
        ok a,
      )
    ])

-- `__kdbus_reply_free`
unfoldable pub reply_free : ℕ → Conn → Conn
reply_free r c = record c {
  request_count = c.request_count - 1;
  replies = remove_first (is_at r) c.replies;
}

-- `kdbus_reply_ref`
unfoldable pub reply_ref : ℕ → Conn → Conn
reply_ref r c = record c {
  replies = modify_first (is_at r) (λ x. record x { kref = x.kref + 1 }) c.replies;
}

-- `kdbus_reply_unref`: `kref_put` frees with the last reference.
unfoldable pub reply_unref : ℕ → Conn → Conn
reply_unref r c = elim (find (is_at r) c.replies) [
  | none ↦ c
  | some x ↦ if x.kref == 1 then reply_free r c else record c {
    replies = modify_first (is_at r) (λ x. record x { kref = x.kref - 1 }) c.replies;
  }
]

abbrev pub set_linked : Bool → ℕ → List Reply → List Reply
set_linked b r l = modify_first (is_at r) (λ x. record x { linked = b }) l

-- `kdbus_reply_link`: the list takes a reference.
unfoldable pub reply_link : ℕ → Conn → Conn
reply_link r c = elim (find (is_at r) c.replies) [
  | none ↦ c
  | some x ↦
      if x.linked
      then c
      else reply_ref r
          (record c { reply_list = r ∷ c.reply_list; replies = set_linked true r c.replies })
]

-- `kdbus_reply_unlink`
unfoldable pub reply_unlink : ℕ → Conn → Conn
reply_unlink r c = elim (find (is_at r) c.replies) [
  | none ↦ c
  | some x ↦
      if x.linked
      then reply_unref r (record c {
        reply_list = remove_all (λ a. a == r) c.reply_list;
        replies = set_linked false r c.replies;
      })
      else c
]

-- `kdbus_sync_reply_wakeup`, the wake-up itself left out.
unfoldable pub sync_reply_wakeup : ℕ → ℕ → Conn → Conn
sync_reply_wakeup r e c = record c {
  replies =
      modify_first (is_at r) (λ x. if x.sync then record x { waiting = false; code = e } else x)
        c.replies;
}

abbrev pub is_reply_of : Option ℕ → ℕ → Reply → Bool
is_reply_of none cookie r = r.cookie == cookie
is_reply_of (some src) cookie r = r.cookie == cookie && r.reply_src == src

-- `kdbus_reply_find`
unfoldable pub reply_find : Option ℕ → ℕ → List ℕ → List Reply → Option Reply
reply_find src cookie [] replies = none
reply_find src cookie (a ∷ l) replies =
    let rest = reply_find src cookie l replies in
    elim (find (is_at a) replies) [
      | none ↦ rest
      | some r ↦ if is_reply_of src cookie r then some r else rest
    ]

-- One turn of the loop of `kdbus_reply_list_scan_work`, with `deadline`.
unfoldable pub scan_one : ℕ → Reply → ℕ × Conn → ℕ × Conn
scan_one now r (deadline, c) =
    if r.sync && not r.interrupted
    then (deadline, c)
    else (if ltb now r.deadline_ns
        then (if ltb r.deadline_ns deadline then r.deadline_ns else deadline, c)
        else (
          deadline,
          reply_unlink r.addr (
              if not (r.deadline_ns == 0) && not r.interrupted
              then record c { timeouts = c.timeouts ++ r.cookie ∷ [] }
              else c),
        ))

unfoldable pub scan : ℕ → List ℕ → ℕ × Conn → ℕ × Conn
scan now [] s = s
scan now (a ∷ l) s = elim (find (is_at a) s.1.replies) [
  | none ↦ scan now l s
  | some r ↦ scan now l (scan_one now r s)
]

-- `kdbus_reply_list_scan_work` on an active connection: its state, and the delay that the work is
-- armed with again.
unfoldable pub scan_work : ℕ → Conn → Conn × Option ℕ
scan_work now c =
    let (deadline, c') = scan now c.reply_list (2 ^ 64 - 1, c) in
    (c', if deadline == 2 ^ 64 - 1 then none else some (deadline - now))

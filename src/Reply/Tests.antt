-- ===== src/Reply/Tests.antt =====
-- Runs of the trackers' operations, and their invariant at a concrete connection.
use kdbus.Base.{
  Option, ℕ, ◌≡◌, refl, false, List, [], ◌∷◌, none, some, arith, find, remove_first, remove_all,
  modify_first,
}
use kdbus.Reply.Tracker.{
  Reply, reply_find, Conn, Msg, reply_new, reply_free, reply_ref, reply_unref, reply_link,
  reply_unlink, sync_reply_wakeup, scan_one, scan, scan_work,
}
use kdbus.Reply.Lookup.{FindResult, reply_find_lem}
use kdbus.Reply.Balance.{IsBalanced}
use kdbus.Reply.Runs.{Op, perform, perform_all, perform_all-IsBalanced}

-- A connection without trackers.
abbrev idle : Conn
idle = record { id = 7; request_count = 0; replies = []; reply_list = []; timeouts = [] }

abbrev call : ℕ → Msg
call t = record { cookie = 5; timeout_ns = t }

-- A call is tracked and linked, its creator drops its own reference, and it times out at 100.
abbrev timed_out : List Op
timed_out =
    Op.new (some 0x10) 3 (call 100) none false
    ∷ Op.link 0x10
    ∷ Op.unref 0x10
    ∷ Op.scan_at 50
    ∷ Op.scan_at 100
    ∷ []

runs : ℕ
unfolding perform_all perform reply_new reply_free reply_ref reply_unref reply_link reply_unlink
    sync_reply_wakeup scan_one scan scan_work find remove_first remove_all modify_first
runs = 0

timed_out_run :
    perform_all timed_out idle
    ≡ record { id = 7; request_count = 0; replies = []; reply_list = []; timeouts = 5 ∷ [] }
unfolding runs
timed_out_run = refl

-- Before the deadline the work is armed for the rest of the time.
rearmed_run :
    (scan_work 50 (reply_link 0x10 (reply_new (some 0x10) 3 (call 100) none false idle).0)).1
    ≡ some 50
unfolding runs
rearmed_run = refl

perform_all-IsBalanced_example : IsBalanced (perform_all timed_out idle)
perform_all-IsBalanced_example =
    perform_all-IsBalanced timed_out idle
      (record { counted = refl; bounded = omega arith; held = tt })

abbrev map_cookie : Option Reply → Option ℕ
map_cookie none = none
map_cookie (some r) = some r.cookie

-- One linked tracker of a call to connection 3 with the cookie 5.
abbrev waiting : Conn
waiting = reply_link 0x10 (reply_new (some 0x10) 3 (call 100) none false idle).0

-- The reply counts only from connection 3.
find_run :
    (map_cookie (reply_find (some 3) 5 waiting.reply_list waiting.replies) ≡ some 5)
    × (reply_find (some 4) 5 waiting.reply_list waiting.replies ≡ none)
unfolding runs reply_find
find_run = (refl, refl)

reply_find_lem_example :
    FindResult
      (some 3)
      5
      waiting.reply_list
      waiting.replies
      (reply_find (some 3) 5 waiting.reply_list waiting.replies)
reply_find_lem_example = reply_find_lem (some 3) 5 waiting.reply_list waiting.replies

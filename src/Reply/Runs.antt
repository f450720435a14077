-- ===== src/Reply/Runs.antt =====
-- reply.c: sequences of the operations on a connection's trackers.
use kdbus.Base.{ℕ, Bool, List, [], ◌∷◌, Option}
use kdbus.Reply.Tracker.{
  Conn, Msg, reply_new, reply_ref, reply_unref, reply_link, reply_unlink, sync_reply_wakeup,
  scan_work,
}
use kdbus.Reply.Balance.{
  IsBalanced, reply_new-IsBalanced, reply_ref-IsBalanced, reply_unref-IsBalanced,
  reply_link-IsBalanced, reply_unlink-IsBalanced, sync_reply_wakeup-IsBalanced, scan-IsBalanced,
}

-- The operations on the trackers of one connection, in any order.
pub data Op : Type 0 where
  new : Option ℕ → ℕ → Msg → Option ℕ → Bool → Op
  ref unref link unlink : ℕ → Op
  wakeup : ℕ → ℕ → Op
  scan_at : ℕ → Op

unfoldable pub perform : Op → Conn → Conn
perform (new mem src msg name sync) c = (reply_new mem src msg name sync c).0
perform (ref r) c = reply_ref r c
perform (unref r) c = reply_unref r c
perform (link r) c = reply_link r c
perform (unlink r) c = reply_unlink r c
perform (wakeup r e) c = sync_reply_wakeup r e c
perform (scan_at now) c = (scan_work now c).0

unfoldable pub perform_all : List Op → Conn → Conn
perform_all [] c = c
perform_all (o ∷ ops) c = perform_all ops (perform o c)

perform-IsBalanced : (o : Op) (c : Conn) → IsBalanced c → IsBalanced (perform o c)
unfolding perform scan_work
perform-IsBalanced (new mem src msg name sync) c wf =
    reply_new-IsBalanced mem src msg name sync c wf
perform-IsBalanced (ref r) c wf = reply_ref-IsBalanced r c wf
perform-IsBalanced (unref r) c wf = reply_unref-IsBalanced r c wf
perform-IsBalanced (link r) c wf = reply_link-IsBalanced r c wf
perform-IsBalanced (unlink r) c wf = reply_unlink-IsBalanced r c wf
perform-IsBalanced (wakeup r e) c wf = sync_reply_wakeup-IsBalanced r e c wf
perform-IsBalanced (scan_at now) c wf = scan-IsBalanced now c.reply_list _ c wf

-- Through any sequence of the operations on its trackers, from a state where this holds, a
-- connection's `request_count` is the number of its live trackers and at most
-- KDBUS_CONN_MAX_REQUESTS_PENDING, and each live tracker has a reference.
pub perform_all-IsBalanced :
    (ops : List Op) (c : Conn) → IsBalanced c → IsBalanced (perform_all ops c)
unfolding perform_all
perform_all-IsBalanced [] c wf = wf
perform_all-IsBalanced (o ∷ ops) c wf =
    perform_all-IsBalanced ops (perform o c) (perform-IsBalanced o c wf)

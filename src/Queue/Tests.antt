-- ===== src/Queue/Tests.antt =====
-- Queues of three messages, two of which have the same priority.
use kdbus.Base.{
  ℕ, ◌^◌, ◌-◌, keep, find, remove_first, ◌≡◌, refl, true, false, List, [], ◌∷◌, none, some, arith,
  inl, inr, Result, ok, err, eagain, Has,
}
use kdbus.Rbtree.{plain, any, inorder, next_after, take_out, swap, join}
use kdbus.Queue.Order.{next_entry, most_urgent}
use kdbus.Queue.Entries.{Entry, Queue, entry_link, entry_unlink, queue_init, signed, sort_in, peek}
use kdbus.Queue.State.{IsQueue}
use kdbus.Queue.Link.{queue_init-IsQueue, entry_link-IsQueue}
use kdbus.Queue.Receive.{Recv, promised, cmd_recv, deliver}
use kdbus.Queue.Runs.{
  Event, arrives, receives, run, promised_run, run_refines, entry_unlink_younger,
}

abbrev slow : Entry
slow = record { id = 1; priority = 5; dst_name_id = 0 }

-- The priority is -1.
abbrev fast : Entry
fast = record { id = 2; priority = 2 ^ 64 - 1; dst_name_id = 0 }

abbrev slow_too : Entry
slow_too = record { id = 3; priority = 5; dst_name_id = 7 }

abbrev accepted : Entry → Result (Unit {0})
accepted e = ok tt

abbrev by_priority : Recv
by_priority = record { drop = false; use_priority = true; only_peek = false; priority = 5 }

abbrev by_arrival : Recv
by_arrival = record { drop = false; use_priority = false; only_peek = false; priority = 0 }

abbrev events : List Event
events =
    arrives slow
    ∷ arrives fast
    ∷ arrives slow_too
    ∷ receives by_priority
    ∷ receives by_arrival
    ∷ receives by_priority
    ∷ receives by_arrival
    ∷ []

runs : ℕ
unfolding signed sort_in entry_link entry_unlink peek cmd_recv deliver promised run promised_run
    queue_init keep find remove_first any inorder next_after take_out swap join next_entry
    most_urgent
runs = 0

fast_first : (promised_run accepted events []).0 ≡ ok fast ∷ ok slow ∷ ok slow_too ∷ err eagain ∷ []
unfolding runs
fast_first = refl

run_refines_example :
    (p : Queue) × (run plain accepted events queue_init
      ≡ some ((promised_run accepted events []).0, p))
    × IsQueue p
    × (p.msg_list ≡ (promised_run accepted events []).1)
run_refines_example = run_refines plain accepted events

abbrev two : Queue
two = entry_link plain slow_too (entry_link plain slow queue_init)

two-IsQueue : IsQueue two
two-IsQueue =
    (entry_link-IsQueue plain slow_too (entry_link plain slow queue_init)
      (entry_link-IsQueue plain slow queue_init queue_init-IsQueue).0).0

two_list : Has slow_too two.msg_list
unfolding runs
two_list = inr (inl refl)

entry_unlink_younger_example : entry_unlink plain slow_too two ≡ none
unfolding runs
entry_unlink_younger_example =
    entry_unlink_younger plain two slow_too slow (slow_too ∷ []) two-IsQueue two_list refl
      (λ e. absurd (omega (arith, e)))

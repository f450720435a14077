-- ===== src/Node/Threads.antt =====
-- node.c: one node without children, and the threads that use it, counted by where they stand.
use kdbus.Base.{ℕ, ◌+◌, ◌-◌, ◌^◌, ◌<◌, ◌≡◌, true, false, ◌==◌, if◌then◌else◌}
use kdbus.Node.Counter.{bias, drained, new, activate, acquire, release, mark, no_refs, claim}

pub record System : Type 0 where
  pub active : ℕ
  -- references: those of `kdbus_node_acquire`, and the one that `kdbus_node_activate` takes
  pub holders : ℕ
  pub node_refs : ℕ
  -- threads in `kdbus_node_release` before their `wake_up`
  pub wakers : ℕ
  -- threads in `kdbus_node_deactivate`: about to test the condition of the first wait, asleep in it,
  -- and behind it
  pub marked : ℕ
  pub asleep : ℕ
  pub passed : ℕ
  -- the thread that releases the node, which was active or never used: before `release_cb`, before it
  -- stores DRAINED, before its `wake_up_all`, and before `kdbus_node_unref`
  pub call_active : ℕ
  pub call_unused : ℕ
  pub store_active : ℕ
  pub store_unused : ℕ
  pub wake_active : ℕ
  pub wake_unused : ℕ
  pub unref : ℕ
  -- the others: about to test the condition of the second wait, asleep in it; and all that are done
  pub awaiting : ℕ
  pub asleep_drained : ℕ
  pub returned : ℕ
  -- how often `release_cb` has been called
  pub released : ℕ

unfoldable pub node_init : System
node_init = record {
  active = new;
  holders = 0;
  node_refs = 0;
  wakers = 0;
  marked = 0;
  asleep = 0;
  passed = 0;
  call_active = 0;
  call_unused = 0;
  store_active = 0;
  store_unused = 0;
  wake_active = 0;
  wake_unused = 0;
  unref = 0;
  awaiting = 0;
  asleep_drained = 0;
  returned = 0;
  released = 0;
}

unfoldable pub activates : System → System
activates s =
    let (v, res) = activate s.active in
    record s { active = v; node_refs = if res then s.node_refs + 1 else s.node_refs }

unfoldable pub acquires : System → System
acquires s =
    let (v, res) = acquire s.active in
    record s { active = v; holders = if res then s.holders + 1 else s.holders }

-- The decrement, behind which the thread wakes the others if it has dropped the last reference.
unfoldable pub releases : System → System
releases s =
    let (v, last) = release s.active in
    record s {
      active = v;
      holders = s.holders - 1;
      wakers = if last then s.wakers + 1 else s.wakers;
    }

-- The kernel's wake-up: all that sleep on `waitq` test their conditions again.
abbrev pub woken : System → System
woken s = record s {
  marked = s.marked + s.asleep;
  asleep = 0;
  awaiting = s.awaiting + s.asleep_drained;
  asleep_drained = 0;
}

unfoldable pub wakes : System → System
wakes s = woken (record s { wakers = s.wakers - 1 })

unfoldable pub marks : System → System
marks s = record s { active = mark s.active; marked = s.marked + 1 }

-- The first wait: its condition holds, or the thread sleeps.
unfoldable pub passes : System → System
passes s = record s { marked = s.marked - 1; passed = s.passed + 1 }

unfoldable pub sleeps : System → System
sleeps s = record s { marked = s.marked - 1; asleep = s.asleep + 1 }

unfoldable pub claims : System → System
claims s =
    let (v, mine) = claim s.active in
    if mine
    then (if s.active == bias
        then record s { active = v; passed = s.passed - 1; call_active = s.call_active + 1 }
        else record s { active = v; passed = s.passed - 1; call_unused = s.call_unused + 1 })
    else record s { active = v; passed = s.passed - 1; awaiting = s.awaiting + 1 }

-- The call of `release_cb`
unfoldable pub calls_active : System → System
calls_active s = record s {
  call_active = s.call_active - 1;
  store_active = s.store_active + 1;
  released = s.released + 1;
}

unfoldable pub calls_unused : System → System
calls_unused s = record s {
  call_unused = s.call_unused - 1;
  store_unused = s.store_unused + 1;
  released = s.released + 1;
}

-- DRAINED is stored.
unfoldable pub stores_active : System → System
stores_active s = record s {
  active = drained;
  store_active = s.store_active - 1;
  wake_active = s.wake_active + 1;
}

unfoldable pub stores_unused : System → System
stores_unused s = record s {
  active = drained;
  store_unused = s.store_unused - 1;
  wake_unused = s.wake_unused + 1;
}

-- `wake_up_all`
unfoldable pub wakes_active : System → System
wakes_active s = woken (record s { wake_active = s.wake_active - 1; unref = s.unref + 1 })

unfoldable pub wakes_unused : System → System
wakes_unused s = woken (record s { wake_unused = s.wake_unused - 1; returned = s.returned + 1 })

-- `kdbus_node_unref`, of the reference of the activation
unfoldable pub unrefs : System → System
unrefs s = record s { unref = s.unref - 1; node_refs = s.node_refs - 1; returned = s.returned + 1 }

-- The second wait: the node is drained, or the thread sleeps.
unfoldable pub finishes : System → System
finishes s = record s { awaiting = s.awaiting - 1; returned = s.returned + 1 }

unfoldable pub sleeps_drained : System → System
sleeps_drained s = record s { awaiting = s.awaiting - 1; asleep_drained = s.asleep_drained + 1 }

-- What a thread that is under way does next.
pub data Internal : System → System → Type 0 where
  releasing_ref : (s : System) → 0 < s.holders → Internal s (releases s)
  waking : (s : System) → 0 < s.wakers → Internal s (wakes s)
  passing : (s : System) → 0 < s.marked → no_refs s.active ≡ true → Internal s (passes s)
  sleeping : (s : System) → 0 < s.marked → no_refs s.active ≡ false → Internal s (sleeps s)
  claiming : (s : System) → 0 < s.passed → Internal s (claims s)
  calling_active : (s : System) → 0 < s.call_active → Internal s (calls_active s)
  calling_unused : (s : System) → 0 < s.call_unused → Internal s (calls_unused s)
  storing_active : (s : System) → 0 < s.store_active → Internal s (stores_active s)
  storing_unused : (s : System) → 0 < s.store_unused → Internal s (stores_unused s)
  waking_active : (s : System) → 0 < s.wake_active → Internal s (wakes_active s)
  waking_unused : (s : System) → 0 < s.wake_unused → Internal s (wakes_unused s)
  unreferencing : (s : System) → 0 < s.unref → Internal s (unrefs s)
  finishing : (s : System) → 0 < s.awaiting → s.active == drained ≡ true → Internal s (finishes s)
  sleeping_drained :
      (s : System) → 0 < s.awaiting → s.active == drained ≡ false → Internal s (sleeps_drained s)

-- A step: a thread that is under way goes on, or a new call begins. There are never 2^31 - 8 threads
-- or more that hold references at once.
pub data Step : System → System → Type 0 where
  internal : {s t : System} → Internal s t → Step s t
  activating : (s : System) → Step s (activates s)
  acquiring : (s : System) → s.holders + 8 < 2 ^ 31 → Step s (acquires s)
  marking : (s : System) → Step s (marks s)

pub data Reaches : System → Type 0 where
  initialized : Reaches node_init
  stepped : {s t : System} → Reaches s → Step s t → Reaches t

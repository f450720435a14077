-- ===== src/Node/Counter.antt =====
-- node.c: the values of `active`, an atomic `int`, as bit patterns of 32 bits.
use kdbus.Base.{ℕ, ◌+◌, ◌-◌, ◌%◌, ◌^◌, Bool, true, false, ◌||◌, ◌&&◌, not, leb, ◌==◌, if◌then◌else◌}

-- KDBUS_NODE_BIAS is INT_MIN + 5, and the others follow below it.
abbrev pub bias : ℕ
bias = 2 ^ 31 + 5

abbrev pub release_direct : ℕ
release_direct = 2 ^ 31 + 4

abbrev pub releasing : ℕ
releasing = 2 ^ 31 + 3

abbrev pub drained : ℕ
drained = 2 ^ 31 + 2

abbrev pub new : ℕ
new = 2 ^ 31 + 1

abbrev pub is_negative : ℕ → Bool
is_negative v = leb (2 ^ 31) v

-- `kdbus_node_is_active`
unfoldable pub is_active : ℕ → Bool
is_active v = not (is_negative v)

-- `kdbus_node_is_deactivated`
unfoldable pub is_deactivated : ℕ → Bool
is_deactivated v = not (v == new) && is_negative v

-- `kdbus_node_activate`, with its result
unfoldable pub activate : ℕ → ℕ × Bool
activate v = if v == new then ((v + (2 ^ 32 - new)) % 2 ^ 32, true) else (v, false)

-- `kdbus_node_acquire`, with its result
unfoldable pub acquire : ℕ → ℕ × Bool
acquire v = if is_negative v then (v, false) else ((v + 1) % 2 ^ 32, true)

-- `kdbus_node_release`, with whether it wakes those who wait
unfoldable pub release : ℕ → ℕ × Bool
release v = let w = (v + (2 ^ 32 - 1)) % 2 ^ 32 in (w, w == bias)

-- `kdbus_node_deactivate`: the first section under the lock
unfoldable pub mark : ℕ → ℕ
mark v = if is_negative v then (if v == new then release_direct else v) else (v + bias) % 2 ^ 32

-- the condition of the first wait
unfoldable pub no_refs : ℕ → Bool
no_refs v = is_negative v && leb v bias

-- and the second section, with whether the caller is the one to release the node
unfoldable pub claim : ℕ → ℕ × Bool
claim v = if v == bias || v == release_direct then (releasing, true) else (v, false)

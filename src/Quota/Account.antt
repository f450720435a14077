-- ===== src/Quota/Account.antt =====
-- connection.c: `kdbus_conn_quota_inc` and `kdbus_conn_quota_dec`.
use kdbus.Base.{
  ℕ, ◌+◌, ◌-◌, ◌*◌, ◌/◌, ◌%◌, ◌^◌, Bool, ◌||◌, Option, none, some, ltb, leb, ◌==◌, if◌then◌else◌,
  Result, ok, err, Errno, enomem, enobufs, emfile,
}

-- `struct kdbus_quota`
pub record Quota : Type 0 where
  pub memory : ℕ
  pub msgs : ℕ
  pub fds : ℕ

abbrev pub no_quota : Quota
no_quota = record { memory = 0; msgs = 0; fds = 0 }

-- The fields `quota` and `n_quota` of `struct kdbus_conn`; the array is read below `n_quota` only.
pub record Quotas : Type 0 where
  pub quota : ℕ → Quota
  pub n_quota : ℕ

-- KDBUS_USER_KERNEL_ID, KDBUS_CONN_MAX_MSGS, KDBUS_CONN_MAX_FDS_PER_USER, U32_MAX
abbrev pub user_kernel_id : ℕ
user_kernel_id = 0

abbrev pub conn_max_msgs : ℕ
conn_max_msgs = 256

abbrev pub conn_max_fds_per_user : ℕ
conn_max_fds_per_user = 16

abbrev pub u32_max : ℕ
u32_max = 2 ^ 32 - 1

abbrev pub id_of : Option ℕ → ℕ
id_of none = user_kernel_id
id_of (some id) = id

-- `max(KDBUS_ALIGN8(id) + 8, id)` on `unsigned int`
unfoldable pub users_for : ℕ → ℕ
users_for id = let n = ((id + 7) % 2 ^ 32 / 8 * 8 + 8) % 2 ^ 32 in if ltb n id then id else n

-- `krealloc` with `__GFP_ZERO`, when it has memory.
unfoldable pub grow : ℕ → Quotas → Quotas
grow users c = record {
  quota = λ i. if ltb i c.n_quota then c.quota i else no_quota;
  n_quota = users;
}

abbrev pub set_quota : ℕ → Quota → Quotas → Quotas
set_quota id q c = record c { quota = λ i. if i == id then q else c.quota i }

-- What is left for the user: a third of the unused incoming half, with the user's own share.
unfoldable pub allowance : ℕ → ℕ → ℕ → ℕ
allowance half accounted memory = (half - accounted + memory) % 2 ^ 64 / 3

-- The tests, in the code's order; `none` is success. The sums are of type `size_t`.
unfoldable pub refusal : Quota → ℕ → ℕ → ℕ → ℕ → Option Errno
refusal q available accounted memory fds =
    let half = available / 2 in
    let left = allowance half accounted q.memory in
    if ltb half accounted
    then some enobufs
    else (if ltb left q.memory
          || ltb (left - q.memory) memory
          || ltb u32_max ((q.memory + memory) % 2 ^ 64)
        then some enobufs
        else (if leb conn_max_msgs q.msgs
            then some enobufs
            else (if ltb ((q.fds + fds) % 2 ^ 64) q.fds
                  || ltb conn_max_fds_per_user ((q.fds + fds) % 2 ^ 64)
                then some emfile
                else none)))

-- The three additions, at the width of the fields.
unfoldable pub charge : Quota → ℕ → ℕ → Quota
charge q memory fds = record {
  memory = (q.memory + memory) % 2 ^ 32;
  msgs = (q.msgs + 1) % 2 ^ 16;
  fds = (q.fds + fds) % 2 ^ 8;
}

-- `kdbus_conn_quota_inc` behind the growth of the array.
unfoldable pub charge_user : ℕ → ℕ → ℕ → ℕ → ℕ → Quotas → Quotas × Result (Unit {0})
charge_user id available accounted memory fds c =
    elim (refusal (c.quota id) available accounted memory fds) [
      | some e ↦ (c, err e)
      | none ↦ (set_quota id (charge (c.quota id) memory fds) c, ok tt)
    ]

-- `kdbus_conn_quota_inc`; `available` and `accounted` are what `kdbus_pool_accounted` gives, and
-- `mem` tells whether `krealloc` has memory.
unfoldable pub quota_inc : Bool → ℕ → ℕ → Option ℕ → ℕ → ℕ → Quotas → Quotas × Result (Unit {0})
quota_inc mem available accounted u memory fds c =
    let id = id_of u in
    if leb c.n_quota id
    then (if mem
        then charge_user id available accounted memory fds (grow (users_for id) c)
        else (c, err enomem))
    else charge_user id available accounted memory fds c

-- The three subtractions, each one skipped where it would wrap.
unfoldable pub discharge : Quota → ℕ → ℕ → Quota
discharge q memory fds = record {
  memory = if ltb q.memory memory then q.memory else q.memory - memory;
  msgs = if q.msgs == 0 then q.msgs else q.msgs - 1;
  fds = if ltb q.fds fds then q.fds else q.fds - fds;
}

-- `kdbus_conn_quota_dec`
unfoldable pub quota_dec : Option ℕ → ℕ → ℕ → Quotas → Quotas
quota_dec u memory fds c =
    let id = id_of u in
    if leb c.n_quota id then c else set_quota id (discharge (c.quota id) memory fds) c

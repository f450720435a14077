-- ===== src/Quota/Tests.antt =====
-- Runs of the accounting and its laws at a concrete connection.
use kdbus.Base.{
  ℕ, ◌+◌, ◌*◌, ◌/◌, ◌≤◌, ◌≡◌, ◌≢◌, ◌⊎◌, refl, true, some, arith, ok, err, Errno, enobufs,
}
use kdbus.Quota.Account.{
  Quotas, no_quota, quota_inc, quota_dec, charge_user, charge, discharge, refusal, allowance,
  users_for, grow,
}
use kdbus.Quota.Limits.{quota_of, IsBounded, quota_inc_bounds, quota_dec-quota_inc}

-- No array yet.
abbrev fresh : Quotas
fresh = record { quota = λ i. no_quota; n_quota = 0 }

runs : ℕ
unfolding quota_inc quota_dec charge_user charge discharge refusal allowance users_for grow quota_of
runs = 0

-- A pool of 6000 bytes: half of it is for messages, a third of that for the first user.
third_run :
    ((quota_inc true 6000 0 (some 9) 1000 2 fresh).1 ≡ ok tt)
    × ((quota_inc true 6000 0 (some 9) 1001 2 fresh).1 ≡ err enobufs)
    × (quota_of (quota_inc true 6000 0 (some 9) 1000 2 fresh).0 9
        ≡ record { memory = 1000; msgs = 1; fds = 2 })
unfolding runs
third_run = (refl, refl, refl)

fresh-IsBounded : IsBounded (quota_of fresh 9)
unfolding quota_of
fresh-IsBounded = record { memory_ok = omega arith; msgs_ok = omega arith; fds_ok = omega arith }

quota_inc_bounds_example :
    ((j : ℕ)
      → j ≢ 9
      → quota_of (quota_inc true 6000 0 (some 9) 1000 2 fresh).0 j ≡ quota_of fresh j)
    × (((e : Errno) × ((quota_inc true 6000 0 (some 9) 1000 2 fresh).1 ≡ err e)
          × (quota_of (quota_inc true 6000 0 (some 9) 1000 2 fresh).0 9 ≡ quota_of fresh 9))
        ⊎ (((quota_inc true 6000 0 (some 9) 1000 2 fresh).1 ≡ ok tt)
            × ((quota_of (quota_inc true 6000 0 (some 9) 1000 2 fresh).0 9).memory
                ≡ (quota_of fresh 9).memory + 1000)
            × ((quota_of (quota_inc true 6000 0 (some 9) 1000 2 fresh).0 9).msgs
                ≡ (quota_of fresh 9).msgs + 1)
            × ((quota_of (quota_inc true 6000 0 (some 9) 1000 2 fresh).0 9).fds
                ≡ (quota_of fresh 9).fds + 2)
            × IsBounded (quota_of (quota_inc true 6000 0 (some 9) 1000 2 fresh).0 9)
            × (0 + 3 * (quota_of (quota_inc true 6000 0 (some 9) 1000 2 fresh).0 9).memory
                ≤ 6000 / 2 + (quota_of fresh 9).memory)))
quota_inc_bounds_example =
    quota_inc_bounds true 6000 0 (some 9) 1000 2 fresh (omega arith) fresh-IsBounded (omega arith)
      (omega arith) (omega arith)

quota_dec-quota_inc_example :
    quota_of (quota_dec (some 9) 1000 2 (quota_inc true 6000 0 (some 9) 1000 2 fresh).0) 9
    ≡ quota_of fresh 9
quota_dec-quota_inc_example =
    quota_dec-quota_inc true 6000 0 (some 9) 1000 2 fresh (omega arith) fresh-IsBounded
      (omega arith) (omega arith) (omega arith) third_run.0 9

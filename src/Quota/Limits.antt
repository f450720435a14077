-- ===== src/Quota/Limits.antt =====
-- connection.c: the bounds that the accounting keeps, and that it is undone exactly.
use kdbus.Base.{
  ℕ, ◌+◌, ◌*◌, ◌/◌, ◌^◌, ◌≤◌, ◌<◌, ◌≡◌, refl, Bool, Option, none, some, arith, ltb, leb,
  if◌then◌else◌, Result, ok, err, Errno, Option-cases, ℕ_discrete, inl, inr, ◌⊎◌, ◌≢◌, sym, ◌∙◌, ap,
  subst,
}
use kdbus.Quota.Account.{
  Quota, Quotas, no_quota, conn_max_msgs, conn_max_fds_per_user, u32_max, id_of, users_for, grow,
  set_quota, allowance, refusal, charge, charge_user, quota_inc, discharge, quota_dec,
}

-- What is accounted to a user: nothing behind the end of the array.
unfoldable pub quota_of : Quotas → ℕ → Quota
quota_of c id = if ltb id c.n_quota then c.quota id else no_quota

pub record IsBounded (q : Quota) : Type 0 where
  pub memory_ok : q.memory ≤ u32_max
  pub msgs_ok : q.msgs ≤ conn_max_msgs
  pub fds_ok : q.fds ≤ conn_max_fds_per_user

-- A request that passes the tests is charged without a wrap, inside all bounds.
charge_lem :
    (q : Quota) (available accounted memory fds : ℕ)
    → IsBounded q
    → available < 2 ^ 64
    → memory < 2 ^ 64
    → fds < 2 ^ 64
    → refusal q available accounted memory fds ≡ none
    → ((charge q memory fds).memory ≡ q.memory + memory)
      × ((charge q memory fds).msgs ≡ q.msgs + 1)
      × ((charge q memory fds).fds ≡ q.fds + fds)
      × IsBounded (charge q memory fds)
      × (accounted + 3 * (q.memory + memory) ≤ available / 2 + q.memory)
unfolding refusal charge allowance
charge_lem q available accounted memory fds wf a m f h =
    let memory_fits : q.memory + memory ≤ u32_max = ground (arith, h, wf.memory_ok, a, m) in
    let msgs_fit : q.msgs + 1 ≤ conn_max_msgs = ground (arith, h) in
    let fds_fit : q.fds + fds ≤ conn_max_fds_per_user = ground (arith, h, wf.fds_ok, f) in
    let share : accounted + 3 * (q.memory + memory) ≤ available / 2 + q.memory =
      ground (arith, h, wf.memory_ok, a) in
    (
      omega (arith, memory_fits),
      omega (arith, msgs_fit),
      omega (arith, fds_fit),
      record {
        memory_ok = omega (arith, memory_fits);
        msgs_ok = omega (arith, msgs_fit);
        fds_ok = omega (arith, fds_fit);
      },
      share,
    )

-- The array as `kdbus_conn_quota_inc` charges it.
ready : Quotas → ℕ → Quotas
ready c id = if leb c.n_quota id then grow (users_for id) c else c

ready_lem :
    (c : Quotas) (id : ℕ)
    → id < 2 ^ 31
    → (id < (ready c id).n_quota) × ((j : ℕ) → quota_of (ready c id) j ≡ quota_of c j)
unfolding ready users_for grow quota_of
ready_lem c id small = (ground (arith, small), λ j. ground (arith, small))

set_quota_lem :
    (c : Quotas) (id : ℕ) (q : Quota)
    → id < c.n_quota
    → (quota_of (set_quota id q c) id ≡ q)
      × ((j : ℕ) → j ≢ id → quota_of (set_quota id q c) j ≡ quota_of c j)
unfolding quota_of
set_quota_lem c id q inside = (ground (arith, inside), λ j other. ground (arith, other))

quota_dec_lem :
    (u : Option ℕ) (memory fds : ℕ) (c : Quotas)
    → id_of u < c.n_quota
    → (quota_of (quota_dec u memory fds c) (id_of u) ≡ discharge (quota_of c (id_of u)) memory fds)
      × ((j : ℕ) → j ≢ id_of u → quota_of (quota_dec u memory fds c) j ≡ quota_of c j)
unfolding quota_dec quota_of
quota_dec_lem u memory fds c inside =
    (ground (arith, inside), λ j other. ground (arith, inside, other))

discharge-charge :
    (q : Quota) (memory fds : ℕ)
    → (charge q memory fds).memory ≡ q.memory + memory
    → (charge q memory fds).msgs ≡ q.msgs + 1
    → (charge q memory fds).fds ≡ q.fds + fds
    → discharge (charge q memory fds) memory fds ≡ q
unfolding discharge
discharge-charge q memory fds dm dn df = ground (arith, dm, dn, df)

module _ (mem : Bool) (available accounted : ℕ) (u : Option ℕ) (memory fds : ℕ) (c : Quotas)
    (small : id_of u < 2 ^ 31) where
  -- The call refuses and leaves every account as it is, or it charges the user's account.
  abbrev pub IncResult : Quotas × Result (Unit {0}) → Type 0
  IncResult r =
      ((e : Errno) × (r.1 ≡ err e) × ((j : ℕ) → quota_of r.0 j ≡ quota_of c j))
      ⊎ ((r.1 ≡ ok tt)
          × (refusal (quota_of c (id_of u)) available accounted memory fds ≡ none)
          × (id_of u < r.0.n_quota)
          × (quota_of r.0 (id_of u) ≡ charge (quota_of c (id_of u)) memory fds)
          × ((j : ℕ) → j ≢ id_of u → quota_of r.0 j ≡ quota_of c j))

  grown : Quotas
  grown = ready c (id_of u)

  grown_id : grown.quota (id_of u) ≡ quota_of c (id_of u)
  unfolding grown quota_of
  grown_id =
      ground (arith, (ready_lem c (id_of u) small).0, (ready_lem c (id_of u) small).1 (id_of u))

  charged :
      refusal (grown.quota (id_of u)) available accounted memory fds ≡ none
      → charge_user (id_of u) available accounted memory fds grown
        ≡ (set_quota (id_of u) (charge (grown.quota (id_of u)) memory fds) grown, ok tt)
  unfolding charge_user
  charged e = ground (arith, e)

  refused :
      (x : Errno)
      → refusal (grown.quota (id_of u)) available accounted memory fds ≡ some x
      → charge_user (id_of u) available accounted memory fds grown ≡ (grown, err x)
  unfolding charge_user
  refused x e = ground (arith, e)

  charge_user_lem : IncResult (charge_user (id_of u) available accounted memory fds grown)
  unfolding grown
  charge_user_lem =
      let (inside, same) = ready_lem c (id_of u) small in
      elim (Option-cases (refusal (grown.quota (id_of u)) available accounted memory fds)) [
        | inr (x, e) ↦ subst IncResult (sym (refused x e)) (inl (x, refl, same))
        | inl e ↦
            let (here, others) =
              set_quota_lem grown (id_of u) (charge (grown.quota (id_of u)) memory fds) inside in
            subst IncResult (sym (charged e)) (
              inr (
                refl,
                subst (λ q. refusal q available accounted memory fds ≡ none) grown_id e,
                inside,
                here ∙ ap (λ q. charge q memory fds) grown_id,
                λ j other. others j other ∙ same j,
              ))
      ]

  quota_inc_lem : IncResult (quota_inc mem available accounted u memory fds c)
  unfolding quota_inc grown ready
  quota_inc_lem = ground (arith, charge_user_lem)

  -- `kdbus_conn_quota_inc` either fails and leaves every user's account as it was, or adds the
  -- memory, the descriptors and one message to the account of the given user without a wrap and
  -- leaves the others alone. Then the account is within the limits on memory, messages and
  -- descriptors, and the user's memory is at most a third of the part of the incoming half of the
  -- pool that others do not use. This holds for a user whose account was within the limits.
  pub quota_inc_bounds :
      IsBounded (quota_of c (id_of u))
      → available < 2 ^ 64
      → memory < 2 ^ 64
      → fds < 2 ^ 64
      → let (c', r) = quota_inc mem available accounted u memory fds c in
        let q = quota_of c (id_of u) in
        let q' = quota_of c' (id_of u) in
        ((j : ℕ) → j ≢ id_of u → quota_of c' j ≡ quota_of c j)
        × (((e : Errno) × (r ≡ err e) × (q' ≡ q))
            ⊎ ((r ≡ ok tt)
                × (q'.memory ≡ q.memory + memory)
                × (q'.msgs ≡ q.msgs + 1)
                × (q'.fds ≡ q.fds + fds)
                × IsBounded q'
                × (accounted + 3 * q'.memory ≤ available / 2 + q.memory)))
  quota_inc_bounds wf a m f = elim quota_inc_lem [
    | inl (e, r, same) ↦ (λ j other. same j, inl (e, r, same (id_of u)))
    | inr (r, passed, inside, here, others) ↦
        let (dm, dn, df, wf', share) =
          charge_lem (quota_of c (id_of u)) available accounted memory fds wf a m f passed in
        (
          others,
          inr (
            r,
            ap (λ q. q.memory) here ∙ dm,
            ap (λ q. q.msgs) here ∙ dn,
            ap (λ q. q.fds) here ∙ df,
            subst IsBounded (sym here) wf',
            omega (arith, share, dm, ap (λ q. q.memory) here),
          ),
        )
  ]

  -- After a successful `kdbus_conn_quota_inc`, `kdbus_conn_quota_dec` with the same arguments gives
  -- every user's account back as it was.
  pub quota_dec-quota_inc :
      IsBounded (quota_of c (id_of u))
      → available < 2 ^ 64
      → memory < 2 ^ 64
      → fds < 2 ^ 64
      → (quota_inc mem available accounted u memory fds c).1 ≡ ok tt
      → (j : ℕ)
      → quota_of (quota_dec u memory fds (quota_inc mem available accounted u memory fds c).0) j
        ≡ quota_of c j
  quota_dec-quota_inc wf a m f good j = elim quota_inc_lem [
    | inl (e, r, same) ↦ absurd (ground (arith, good, r))
    | inr (r, passed, inside, here, others) ↦
        let (dm, dn, df, wf', share) =
          charge_lem (quota_of c (id_of u)) available accounted memory fds wf a m f passed in
        let (mine, rest) = quota_dec_lem u memory fds _ inside in
        elim (ℕ_discrete j (id_of u)) [
          | yes e ↦ rw e (
              mine
              ∙ ap (λ q. discharge q memory fds) here
              ∙ discharge-charge (quota_of c (id_of u)) memory fds dm dn df)
          | no other ↦ rest j other ∙ others j other
        ]
  ]

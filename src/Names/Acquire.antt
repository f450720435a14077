-- ===== src/Names/Acquire.antt =====
-- `kdbus_name_acquire`: what it keeps, and what each of its results means.
use kdbus.Base.{
  ℕ, suc, ◌≡◌, refl, sym, Bool, true, false, [], ◌∷◌, ◌++◌, Option, none, some, arith, find,
  str_eq_refl, Option-cases, inl, inr, subst, Result, err, eperm,
}
use kdbus.Strhash.{NameHash}
use kdbus.Names.Syntax.{Name}
use kdbus.Names.State.{
  State, Entry, entry_of, emit, update_conn, update_entry, set_owner, replace_owner, name_add,
  notified, entry_new, pending_new, moved, flushed,
}
use kdbus.Names.Registry.{
  claim_new, claim_activator, claim_replace, claim_existing, take_messages, acquire,
}
use kdbus.Names.Lookup.{find-modify_first, name_of_find, name_find-eq-entry_of}
use kdbus.Names.Links.{IsLinked, set_owner-IsLinked, entry_new-IsLinked, pending_new-IsLinked}
use kdbus.Names.Replace.{emit-IsLinked, set_activator-IsLinked, replace_owner-IsLinked}

-- The states that `kdbus_name_acquire` can leave, for a property of states.
module _ {ℓ} (P : State → Type ℓ) (c : ℕ) (flags : ℕ) (mem : Bool) (st : State) (same : P st) where
  pub claim_new_cases :
      (n : Name)
      → let fresh = entry_new n st in
        let active =
          update_entry n
            (λ e. record e { activator = some c })
            (update_conn c (λ d. record d { activator_of = some n }) fresh) in
        P (emit (notified name_add 0 c 0 flags n) (set_owner n c flags fresh))
        → P (emit (notified name_add 0 c 0 flags n) (set_owner n c flags active))
        → P (claim_new c n flags mem st).0
  unfolding claim_new
  claim_new_cases n plain active = ground arith

  pub claim_activator_cases :
      (e : Entry)
      → P (
          update_conn c
            (λ d. record d { activator_of = some e.name })
            (update_entry e.name (λ x. record x { activator = some c }) st))
      → P (claim_activator c e st).0
  unfolding claim_activator
  claim_activator_cases e active = ground arith

  pub claim_replace_cases :
      (e : Entry)
      → ((o : ℕ) → e.conn ≡ some o → P (replace_owner e c flags (pending_new e.name o e.flags st)))
      → P (replace_owner e c flags st)
      → P (claim_replace c e flags mem st).0
  unfolding claim_replace
  claim_replace_cases e queued plain = elim (Option-cases e.conn) [
    | inl ownerless ↦ rw (ownerless, claim_replace) same
    | inr (o, owner) ↦ ground (arith, queued o, plain, owner)
  ]

  pub claim_existing_cases :
      (e : Entry)
      → P (claim_activator c e st).0
      → P (replace_owner e c flags (take_messages c e.activator 0 st))
      → P (claim_replace c e flags mem st).0
      → P (pending_new e.name c flags st)
      → P (claim_existing c e flags mem st).0
  unfolding claim_existing
  claim_existing_cases e active taken replaced queued = ground arith

pub entry_new-entry_of :
    (n : Name) (st : State)
    → entry_of n (entry_new n st)
      ≡ some (record {
        name_id = suc st.name_seq_last;
        flags = 0;
        conn = none;
        activator = none;
        queue = [];
        name = n;
      })
unfolding entry_new find
entry_new-entry_of n st = ground (arith, str_eq_refl n)

pub set_activator-entry_of :
    (n : Name) (a : Option ℕ) (c : ℕ) (of : Option Name) (st : State) (e : Entry)
    → entry_of n st ≡ some e
    → entry_of n (
        update_entry n
          (λ x. record x { activator = a })
          (update_conn c (λ d. record d { activator_of = of }) st))
      ≡ some (record e { activator = a })
set_activator-entry_of n a c of st e h = ground (
  arith,
  find-modify_first n (λ (x : Entry). record x { activator = a }) (λ _. refl) n st.entries,
  str_eq_refl n,
)

pub pending_new-entry_of :
    (n : Name) (c flags : ℕ) (st : State) (e : Entry)
    → entry_of n st ≡ some e
    → entry_of n (pending_new n c flags st)
      ≡ some (record e { queue = e.queue ++ record { conn = c; flags = flags } ∷ [] })
unfolding pending_new
pending_new-entry_of n c flags st e h = ground (
  arith,
  find-modify_first n
      (λ (x : Entry). record x { queue = x.queue ++ record { conn = c; flags = flags } ∷ [] })
      (λ _. refl) n st.entries,
  str_eq_refl n,
)

module _ (c : ℕ) (flags : ℕ) (mem : Bool) (st : State) (l : IsLinked st) where
  claim_new-IsLinked : (n : Name) → entry_of n st ≡ none → IsLinked (claim_new c n flags mem st).0
  claim_new-IsLinked n h =
      claim_new_cases IsLinked c flags mem st l n
        (emit-IsLinked _ _ (set_owner-IsLinked n c flags fresh linked {e = blank} found refl))
        (emit-IsLinked _ _ (
          set_owner-IsLinked n c flags active
            (set_activator-IsLinked n (some c) c (some n) fresh linked)
            {e = record blank { activator = some c }}
            (set_activator-entry_of n (some c) c (some n) fresh blank found) refl))
    where
      fresh : State
      fresh = entry_new n st

      active : State
      active =
          update_entry n (λ e. record e { activator = some c })
            (update_conn c (λ d. record d { activator_of = some n }) fresh)

      blank : Entry
      blank = record {
        name_id = suc st.name_seq_last;
        flags = 0;
        conn = none;
        activator = none;
        queue = [];
        name = n;
      }

      linked : IsLinked fresh
      linked = entry_new-IsLinked n 0 0 st l h

      found : entry_of n fresh ≡ some blank
      found = entry_new-entry_of n st

  module _ (e : Entry) (h : entry_of e.name st ≡ some e) where
    claim_replace-IsLinked : IsLinked (claim_replace c e flags mem st).0
    claim_replace-IsLinked =
        claim_replace_cases IsLinked c flags mem st l e
          (λ o _.
            let asked : State = pending_new e.name o e.flags st in
            replace_owner-IsLinked e c flags asked
              (record e { queue = e.queue ++ record { conn = o; flags = e.flags } ∷ [] })
              (pending_new-entry_of e.name o e.flags st e h) refl
              (pending_new-IsLinked e.name o e.flags st l {e = e} h))
          (replace_owner-IsLinked e c flags st e h refl l)

    take_messages-IsLinked :
        (a : Option ℕ) → IsLinked (replace_owner e c flags (take_messages c a 0 st))
    take_messages-IsLinked none = replace_owner-IsLinked e c flags st e h refl l
    take_messages-IsLinked (some a) =
        replace_owner-IsLinked e c flags _ e h refl (emit-IsLinked (moved c a 0) st l)

    claim_existing-IsLinked : IsLinked (claim_existing c e flags mem st).0
    claim_existing-IsLinked =
        claim_existing_cases IsLinked c flags mem st l e
          (claim_activator_cases IsLinked c flags mem st l e
            (set_activator-IsLinked e.name (some c) c (some e.name) st l))
          (take_messages-IsLinked e.activator) claim_replace-IsLinked
          (pending_new-IsLinked e.name c flags st l {e = e} h)

-- The branches of `kdbus_name_acquire`, for a property of its new state and result.
pub acquire_cases {ℓ} :
    (P : State × Result ℕ → Type ℓ) (h : NameHash) (c : ℕ) (n : Name) (flags : ℕ) (own mem : Bool)
    (st : State)
    → P (emit flushed st, err eperm)
    → (let r = claim_new c n flags mem st in entry_of n st ≡ none → P (emit flushed r.0, r.1))
    → ((e : Entry)
        → entry_of e.name st ≡ some e
        → e.name ≡ n
        → P (emit flushed (claim_existing c e flags mem st).0, (claim_existing c e flags mem st).1))
    → P (acquire h c n flags own mem st)
unfolding acquire
acquire_cases P h c n flags false mem st refused new existing = refused
acquire_cases P h c n flags true mem st refused new existing = elim (Option-cases (entry_of n st)) [
  | inl free ↦ rw (name_find-eq-entry_of h n st, free) (new free)
  | inr (e, held) ↦
      let named = name_of_find n st.entries {e = e} held in
      rw (name_find-eq-entry_of h n st, held)
        (existing e (subst (λ m. entry_of m st ≡ some e) (sym named) held) named)
]

-- `kdbus_name_acquire`, whatever it returns, keeps the links between entries and connections: each
-- connection lists a name once if it owns it and not otherwise, lists it as requested as often as it
-- stands in its queue, and counts the names that it owns.
pub acquire-IsLinked :
    (h : NameHash) (c : ℕ) (n : Name) (flags : ℕ) (own mem : Bool) (st : State)
    → IsLinked st
    → IsLinked (acquire h c n flags own mem st).0
acquire-IsLinked h c n flags own mem st l =
    acquire_cases (λ r. IsLinked r.0) h c n flags own mem st (emit-IsLinked flushed st l)
      (λ free. emit-IsLinked flushed _ (claim_new-IsLinked c flags mem st l n free))
      (λ e held _. emit-IsLinked flushed _ (claim_existing-IsLinked c flags mem st l e held))

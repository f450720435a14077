-- ===== src/Names/Registry.antt =====
-- names.c: `kdbus_name_acquire`, `kdbus_name_release` and `kdbus_name_release_all`.
use kdbus.Base.{
  ℕ, Bool, ◌&&◌, ◌||◌, not, [], ◌∷◌, Option, none, some, find, has_flag, ◌==◌, if◌then◌else◌,
  Result, ok, err, ealready, einval, eexist, enomem, eperm, esrch, eaddrinuse,
}
use kdbus.Strhash.{NameHash, strhash}
use kdbus.Names.Syntax.{Name}
use kdbus.Names.State.{
  State, Entry, name_add, name_remove, notified, moved, flushed, replace_existing,
  allow_replacement, queue_flag, in_queue, activator_flag, is_activator, is_conn, same_name, emit,
  update_conn, update_entry, pending_new, pending_free, entry_new, entry_free, set_owner,
  remove_owner, replace_owner, name_find,
}

-- The first branch of `kdbus_name_acquire`: nobody holds the name.
unfoldable pub claim_new : ℕ → Name → ℕ → Bool → State → State × Result ℕ
claim_new c n flags mem st = elim (st.conns c).activator_of [
  | some m ↦ (st, err einval)
  | none ↦ if not mem then (st, err enomem) else (
    emit (notified name_add 0 c 0 flags n) (
        set_owner n c flags (
          if is_activator (st.conns c)
          then update_entry n (λ e. record e { activator = some c })
              (update_conn c (λ d. record d { activator_of = some n }) (entry_new n st))
          else entry_new n st)),
    ok 0,
  )
]

-- An activator claims the existing entry `e`.
unfoldable pub claim_activator : ℕ → Entry → State → State × Result ℕ
claim_activator c e st = elim (st.conns c).activator_of [
  | some m ↦ (st, err einval)
  | none ↦ elim e.activator [
    | some a ↦ (st, err eexist)
    | none ↦ (
      update_conn c (λ d. record d { activator_of = some e.name })
          (update_entry e.name (λ x. record x { activator = some c }) st),
      ok 0,
    )
  ]
]

-- The name of a previous owner is claimed; the owner may ask to wait for it.
unfoldable pub claim_replace : ℕ → Entry → ℕ → Bool → State → State × Result ℕ
claim_replace c e flags mem st = elim e.conn [
  | none ↦ (st, ok 0)
  | some o ↦
      if has_flag e.flags queue_flag
      then (if not mem
          then (st, err enomem)
          else (replace_owner e c flags (pending_new e.name o e.flags st), ok 0))
      else (replace_owner e c flags st, ok 0)
]

-- The messages of an activator go to the connection that claims its name.
abbrev pub take_messages : ℕ → Option ℕ → ℕ → State → State
take_messages c none id st = st
take_messages c (some a) id st = emit (moved c a id) st

-- The branches of `kdbus_name_acquire` on an existing entry.
unfoldable pub claim_existing : ℕ → Entry → ℕ → Bool → State → State × Result ℕ
claim_existing c e flags mem st =
    if is_conn c e.conn || same_name e.name (st.conns c).activator_of
    then (st, err ealready)
    else (if is_activator (st.conns c)
        then claim_activator c e st
        else (if has_flag e.flags activator_flag
            then (replace_owner e c flags (take_messages c e.activator 0 st), ok 0)
            else (if has_flag flags replace_existing && has_flag e.flags allow_replacement
                then claim_replace c e flags mem st
                else (if has_flag flags queue_flag
                    then (if not mem
                        then (st, err enomem)
                        else (pending_new e.name c flags st, ok in_queue))
                    else (st, err eexist)))))

-- `kdbus_name_release_unlocked`
unfoldable pub release_unlocked : Entry → State → State
release_unlocked e st = elim e.queue [
  | p ∷ rest ↦ pending_free e.name p.conn (replace_owner e p.conn p.flags st)
  | [] ↦ elim e.conn [
    | none ↦ st
    | some o ↦
        let last =
          entry_free e.name
            (remove_owner e.name o (emit (notified name_remove o 0 e.flags 0 e.name) st)) in
        elim e.activator [
          | none ↦ last
          | some a ↦
              if a == o
              then last
              else replace_owner e a activator_flag (emit (moved a o e.name_id) st)
        ]
  ]
]

-- The branches of `kdbus_name_release` on an existing entry.
unfoldable pub release_existing : ℕ → Entry → State → State × Result (Unit {0})
release_existing c e st =
    if is_conn c e.conn
    then (release_unlocked e st, ok tt)
    else elim (find (λ p. p.conn == c) e.queue) [
      | none ↦ (st, err eaddrinuse)
      | some p ↦ (pending_free e.name c st, ok tt)
    ]

-- `kdbus_notify_flush` at the end of each call.
abbrev pub and_flush : {A : Type 0} → State × Result A → State × Result A
and_flush r = (emit flushed r.0, r.1)

module _ (h : NameHash) where
  -- `kdbus_name_acquire`. The result is what `*return_flags` receives. `own` is the answer of
  -- `kdbus_conn_policy_own_name`, and `mem` whether `kmalloc` succeeds.
  unfoldable pub acquire : ℕ → Name → ℕ → Bool → Bool → State → State × Result ℕ
  acquire c n flags own mem st = and_flush (
      if not own then (st, err eperm) else elim (name_find h (strhash h n) n st) [
        | none ↦ claim_new c n flags mem st
        | some e ↦ claim_existing c e flags mem st
      ])

  -- `kdbus_name_release`
  unfoldable pub release : ℕ → Name → State → State × Result (Unit {0})
  release c n st = and_flush (elim (name_find h (strhash h n) n st) [
    | none ↦ (st, err esrch)
    | some e ↦ release_existing c e st
  ])

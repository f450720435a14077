-- ===== src/Names/State.antt =====
-- names.c and names.h: the registry's data, and the functions that link names, owners and waiters.
-- A connection is known by its id and an entry by its name, in place of their addresses.
use kdbus.Base.{
  ℕ, suc, ◌+◌, ◌-◌, Bool, false, ◌&&◌, List, [], ◌∷◌, ◌++◌, Option, none, some, find, remove_first,
  remove_all, modify_first, str_eq, has_flag, ◌==◌, if◌then◌else◌,
}
use kdbus.Strhash.{NameHash, strhash, possible}
use kdbus.Names.Syntax.{Name}

-- KDBUS_NAME_*
abbrev pub replace_existing : ℕ
replace_existing = 1

abbrev pub allow_replacement : ℕ
allow_replacement = 2

abbrev pub queue_flag : ℕ
queue_flag = 4

abbrev pub in_queue : ℕ
in_queue = 8

abbrev pub activator_flag : ℕ
activator_flag = 16

-- KDBUS_HELLO_ACTIVATOR
abbrev pub hello_activator : ℕ
hello_activator = 2

-- `struct kdbus_name_pending`, as an entry's queue links it.
pub record Pending : Type 0 where
  pub conn : ℕ
  pub flags : ℕ

-- `struct kdbus_name_entry`
pub record Entry : Type 0 where
  pub name_id : ℕ
  pub flags : ℕ
  pub conn : Option ℕ
  pub activator : Option ℕ
  pub queue : List Pending
  pub name : Name

-- What names.c uses of `struct kdbus_conn`.
pub record Conn : Type 0 where
  pub flags : ℕ
  pub activator_of : Option Name
  pub names_list : List Name
  pub names_queue_list : List Name
  pub name_count : ℕ

pub data Change : Type 0 where
  name_add name_remove name_change : Change

-- Calls into other components, in order: `kdbus_notify_name_change` with its old and new owner
-- and flags, `kdbus_conn_move_messages` with its destination, source and name id, and
-- `kdbus_notify_flush`.
pub data Event : Type 0 where
  notified : Change → ℕ → ℕ → ℕ → ℕ → Name → Event
  moved : ℕ → ℕ → ℕ → Event
  flushed : Event

-- `struct kdbus_name_registry`, the connections of the bus, and what was called so far.
pub record State : Type 0 where
  pub entries : List Entry
  pub name_seq_last : ℕ
  pub conns : ℕ → Conn
  pub events : List Event

abbrev pub is_activator : Conn → Bool
is_activator c = has_flag c.flags hello_activator

abbrev pub is_conn : ℕ → Option ℕ → Bool
is_conn c none = false
is_conn c (some d) = c == d

abbrev pub same_name : Name → Option Name → Bool
same_name n none = false
same_name n (some m) = str_eq m n

abbrev pub emit : Event → State → State
emit e st = record st { events = st.events ++ e ∷ [] }

abbrev pub update_conn : ℕ → (Conn → Conn) → State → State
update_conn c f st = record st { conns = λ d. if c == d then f (st.conns d) else st.conns d }

abbrev pub update_entry : Name → (Entry → Entry) → State → State
update_entry n f st = record st { entries = modify_first (λ e. str_eq e.name n) f st.entries }

-- `kdbus_name_pending_new`, where `kmalloc` succeeds.
unfoldable pub pending_new : Name → ℕ → ℕ → State → State
pending_new n c flags st =
    update_entry n (λ e. record e { queue = e.queue ++ record { conn = c; flags = flags } ∷ [] })
      (update_conn c (λ d. record d { names_queue_list = d.names_queue_list ++ n ∷ [] }) st)

-- `kdbus_name_pending_free`, of the first request of `c` in the queue of `n`: both lists grow at
-- their ends, so it is the first for `n` in the list of `c`, too.
unfoldable pub pending_free : Name → ℕ → State → State
pending_free n c st =
    update_conn c
      (λ d. record d { names_queue_list = remove_first (λ m. str_eq m n) d.names_queue_list })
      (update_entry n (λ e. record e { queue = remove_first (λ p. p.conn == c) e.queue }) st)

-- `kdbus_name_entry_new`, where `kmalloc` succeeds.
unfoldable pub entry_new : Name → State → State
entry_new n st = record st {
  name_seq_last = suc st.name_seq_last;
  entries =
      record {
        name_id = suc st.name_seq_last;
        flags = 0;
        conn = none;
        activator = none;
        queue = [];
        name = n;
      }
      ∷ st.entries;
}

-- `kdbus_name_entry_free`
unfoldable pub entry_free : Name → State → State
entry_free n st = record st { entries = remove_all (λ e. str_eq e.name n) st.entries }

-- `kdbus_name_entry_set_owner`
unfoldable pub set_owner : Name → ℕ → ℕ → State → State
set_owner n c flags st =
    update_conn c
      (λ d. record d { name_count = d.name_count + 1; names_list = d.names_list ++ n ∷ [] })
      (update_entry n (λ e. record e { conn = some c; flags = flags }) st)

-- `kdbus_name_entry_remove_owner`, where `o` is the owner.
unfoldable pub remove_owner : Name → ℕ → State → State
remove_owner n o st =
    update_entry n (λ e. record e { flags = 0; conn = none })
      (update_conn o
        (λ d. record d {
          names_list = remove_first (λ m. str_eq m n) d.names_list;
          name_count = d.name_count - 1;
        })
        st)

-- `kdbus_name_entry_replace_owner`, for the entry `e`.
unfoldable pub replace_owner : Entry → ℕ → ℕ → State → State
unfolding remove_owner set_owner
replace_owner e c flags st = elim e.conn [
  | none ↦ st
  | some o ↦
      if c == o
      then st
      else set_owner e.name c flags
          (remove_owner e.name o (emit (notified name_change o c e.flags flags e.name) st))
]

-- The entry of a name, whatever its hash.
abbrev pub entry_of : Name → State → Option Entry
entry_of n st = find (λ e. str_eq e.name n) st.entries

module _ (h : NameHash) where
  -- `kdbus_name_find` and, under the name's own hash, `kdbus_name_lookup_unlocked`
  unfoldable pub name_find : ℕ → Name → State → Option Entry
  name_find hash n st = find (λ e. possible h hash e.name && str_eq e.name n) st.entries

  unfoldable pub lookup_unlocked : Name → State → Option Entry
  unfolding name_find
  lookup_unlocked n st = name_find (strhash h n) n st

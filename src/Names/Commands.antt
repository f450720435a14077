-- ===== src/Names/Commands.antt =====
-- names.c: the handlers of KDBUS_CMD_NAME_ACQUIRE and KDBUS_CMD_NAME_RELEASE.
-- What `kdbus_args_parse` returns is an argument, and so is whether `kdbus_args_clear` can write to
-- the caller's memory.
use kdbus.Base.{
  ℕ, ◌+◌, ◌-◌, ◌≤◌, Bool, false, not, Option, none, some, arith, has_flag, ltb, if◌then◌else◌,
  Result, ok, err, Errno, eopnotsupp, einval, e2big, efault,
}
use kdbus.Strhash.{NameHash}
use kdbus.Names.Syntax.{Name, Ctype, name_is_valid}
use kdbus.Names.State.{
  State, Entry, Conn, emit, moved, set_owner, remove_owner, replace_owner, pending_new, update_conn,
  entry_new,
}
use kdbus.Names.Registry.{acquire, release, claim_new, claim_existing, take_messages}
use kdbus.Names.Acquire.{
  acquire_cases, claim_existing_cases, claim_activator_cases, claim_replace_cases,
}

-- What `kdbus_args_parse` hands to a handler: an error, 1 where only negotiation was asked for, or
-- the text of the mandatory name item with the command's flags.
pub data Parsed : Type 0 where
  failed : Errno → Parsed
  negotiated : Parsed
  payload : Name → ℕ → Parsed

-- KDBUS_HELLO_SPECIAL_CONN: activators, policy holders and monitors.
abbrev pub hello_special : ℕ
hello_special = 2 + 4 + 8

-- `kdbus_conn_is_ordinary`
abbrev pub is_ordinary : Conn → Bool
is_ordinary c = not (has_flag c.flags hello_special)

-- KDBUS_CONN_MAX_NAMES
abbrev pub conn_max_names : ℕ
conn_max_names = 256

-- `kdbus_args_clear`: `writable` is false where `put_user` fails.
abbrev pub args_clear : Bool → Result ℕ → Result ℕ
args_clear writable r = if writable then r else err efault

-- The return value of an internal function that answers 0 or an error.
abbrev pub as_return {ℓ} : {A : Type ℓ} → Result A → Result ℕ
as_return (ok a) = ok 0
as_return (err e) = err e

abbrev pub count_up : ℕ → State → State
count_up c = update_conn c (λ d. record d { name_count = d.name_count + 1 })

abbrev pub count_down : ℕ → State → State
count_down c = update_conn c (λ d. record d { name_count = d.name_count - 1 })

module _ (h : NameHash) (ct : Ctype) (writable : Bool) where
  -- The reservation of a slot, the claim, and the end of the reservation.
  pub acquire_slot : ℕ → Name → ℕ → Bool → Bool → State → State × Result ℕ
  acquire_slot c n flags own mem st =
      let reserved = count_up c st in
      if ltb conn_max_names (reserved.conns c).name_count
      then (count_down c reserved, err e2big)
      else (let r = acquire h c n flags own mem reserved in (count_down c r.0, as_return r.1))

  -- `kdbus_cmd_name_acquire`
  unfoldable pub cmd_name_acquire : ℕ → Parsed → Bool → Bool → State → State × Result ℕ
  unfolding acquire_slot
  cmd_name_acquire c parsed own mem st =
      if not (is_ordinary (st.conns c)) then (st, err eopnotsupp) else elim parsed [
        | failed e ↦ (st, err e)
        | negotiated ↦ (st, ok 1)
        | payload n flags ↦
            if not (name_is_valid ct false n)
            then (st, args_clear writable (err einval))
            else (let r = acquire_slot c n flags own mem st in (r.0, args_clear writable r.1))
      ]

  -- `kdbus_cmd_name_release`
  unfoldable pub cmd_name_release : ℕ → Parsed → State → State × Result ℕ
  cmd_name_release c parsed st =
      if not (is_ordinary (st.conns c)) then (st, err eopnotsupp) else elim parsed [
        | failed e ↦ (st, err e)
        | negotiated ↦ (st, ok 1)
        | payload n flags ↦ let r = release h c n st in (r.0, args_clear writable (as_return r.1))
      ]

-- How many names the connection `c` is counted to own.
abbrev CountsAtMost : ℕ → ℕ → State → Type 0
CountsAtMost c k st = (st.conns c).name_count ≤ k

replace_owner-count :
    (e : Entry) (c flags : ℕ) (st : State)
    → CountsAtMost c ((st.conns c).name_count + 1) (replace_owner e c flags st)
unfolding replace_owner remove_owner set_owner
replace_owner-count e c flags st = ground arith

module _ (c : ℕ) (flags : ℕ) (mem : Bool) (st : State) where
  abbrev OneMore : State → Type 0
  OneMore = CountsAtMost c ((st.conns c).name_count + 1)

  claim_new-count : (n : Name) → OneMore (claim_new c n flags mem st).0
  unfolding claim_new set_owner entry_new
  claim_new-count n = ground arith

  claim_existing-count : (e : Entry) → OneMore (claim_existing c e flags mem st).0
  unfolding pending_new
  claim_existing-count e =
      claim_existing_cases OneMore c flags mem st (omega arith) e
        (claim_activator_cases OneMore c flags mem st (omega arith) e (ground arith))
        (taken e.activator)
        (claim_replace_cases OneMore c flags mem st (omega arith) e
          (λ o _. ground (arith, replace_owner-count e c flags (pending_new e.name o e.flags st)))
          (replace_owner-count e c flags st))
        (ground arith)
    where
      taken : (a : Option ℕ) → OneMore (replace_owner e c flags (take_messages c a 0 st))
      taken none = replace_owner-count e c flags st
      taken (some a) = replace_owner-count e c flags (emit (moved c a 0) st)

  acquire-count :
      (h : NameHash) (n : Name) (own : Bool) → OneMore (acquire h c n flags own mem st).0
  acquire-count h n own =
      acquire_cases (λ r. OneMore r.0) h c n flags own mem st (omega arith) (λ _. claim_new-count n)
        (λ e _ _. claim_existing-count e)

-- KDBUS_CMD_NAME_ACQUIRE never takes a connection past its 256 names.
pub cmd_name_acquire-le-max :
    (h : NameHash) (ct : Ctype) (writable : Bool) (c : ℕ) (parsed : Parsed) (own mem : Bool)
    (st : State)
    → (st.conns c).name_count ≤ conn_max_names
    → ((cmd_name_acquire h ct writable c parsed own mem st).0.conns c).name_count ≤ conn_max_names
unfolding cmd_name_acquire
cmd_name_acquire-le-max h ct writable c (failed e) own mem st le = ground arith
cmd_name_acquire-le-max h ct writable c negotiated own mem st le = ground arith
cmd_name_acquire-le-max h ct writable c (payload n flags) own mem st le =
    ground (arith, acquire-count c flags mem (count_up c st) h n own)

-- ===== src/Item/Parse.antt =====
-- handle.c: `kdbus_args_negotiate` and `__kdbus_args_parse`.
use kdbus.Base.{
  ℕ, ◌+◌, ◌-◌, ◌%◌, ◌^◌, ◌≤◌, ◌<◌, ◌≡◌, refl, Bool, false, not, ◌||◌, List, [], ◌∷◌, map, Option,
  none, some, arith, All, ◌==◌, has_flag, if◌then◌else◌, Bool-cases, Result-cases, inl, inr, ◌⊎◌,
  Result, ok, err, Errno, einval, efault, guard, ◌>>◌, ◌>>=◌,
}
use kdbus.Names.Syntax.{Ctype}
use kdbus.Item.Validate.{Item}
use kdbus.Item.Args.{Arg, has_kind, args_verify}
use kdbus.Item.Accept.{IsStored, IsComplete, IsUnset, args_verify_lem}

-- KDBUS_FLAG_NEGOTIATE and KDBUS_ITEM_NEGOTIATE
abbrev pub flag_negotiate : ℕ
flag_negotiate = 2 ^ 63

abbrev pub item_negotiate : ℕ
item_negotiate = 1

-- The inner loop and its result: a type that no argument has is cleared.
abbrev pub supported : List Arg → ℕ → ℕ
supported argv w = if has_kind argv w then w else 0

module _ (put : ℕ → Bool) (argv : List Arg) where
  -- The outer loop from index `i` on; `put` tells whether `put_user` can write an index.
  unfoldable pub clear_loop : ℕ → List ℕ → Result (List ℕ)
  clear_loop i [] = ok []
  clear_loop i (w ∷ ws) =
      let rest = clear_loop (i + 1) ws in
      guard (has_kind argv w || put i) efault >> rest >>= λ cleared. ok (supported argv w ∷ cleared)

  -- The payload that the negotiation looks at, if there is one; `data64` reads an item's.
  unfoldable pub offered : (Item → List ℕ) → List Arg → List ℕ
  offered data64 [] = []
  offered data64 (a ∷ rest) = elim a.item [
    | none ↦ []
    | some item ↦ if a.kind == item_negotiate then data64 item else []
  ]

  -- `kdbus_args_negotiate`, with the payload that it leaves; `put_flags` is the first `put_user`.
  unfoldable pub negotiate : (Item → List ℕ) → Bool → ℕ → Result (List ℕ)
  unfolding clear_loop offered
  negotiate data64 put_flags flags =
      guard (not (has_flag flags flag_negotiate) || put_flags) efault
      >> clear_loop 0 (offered data64 argv)

  clear_loop_lem :
      (i : ℕ) (ws : List ℕ)
      → (clear_loop i ws ≡ err efault) ⊎ (clear_loop i ws ≡ ok (map (supported argv) ws))
  unfolding clear_loop
  clear_loop_lem i [] = inr refl
  clear_loop_lem i (w ∷ ws) = elim (Bool-cases (has_kind argv w || put i)) [
    | inr stuck ↦ inl (ground (arith, stuck))
    | inl fine ↦ elim (clear_loop_lem (i + 1) ws) [
      | inl failed ↦ inl (ground (arith, fine, failed))
      | inr cleared ↦ inr (ground (arith, fine, cleared))
    ]
  ]

  negotiate_lem :
      (data64 : Item → List ℕ) (put_flags : Bool) (flags : ℕ)
      → (negotiate data64 put_flags flags ≡ err efault)
        ⊎ (negotiate data64 put_flags flags ≡ ok (map (supported argv) (offered data64 argv)))
  unfolding negotiate
  negotiate_lem data64 put_flags flags =
      elim (Bool-cases (not (has_flag flags flag_negotiate) || put_flags)) [
        | inr stuck ↦ inl (ground (arith, stuck))
        | inl fine ↦ elim (clear_loop_lem 0 (offered data64 argv)) [
          | inl failed ↦ inl (ground (arith, fine, failed))
          | inr cleared ↦ inr (ground (arith, fine, cleared))
        ]
      ]

-- The head of a command, and what the kernel's copies from and to user space give.
pub record Cmd : Type 0 where
  pub size : ℕ
  pub flags : ℕ
  pub copied : Result (Unit {0})
  pub put_flags : Bool
  pub put_index : ℕ → Bool
  pub put_return : Bool

-- `kdbus_args_clear`, of a failed command
unfoldable pub args_clear : Cmd → Errno → Errno
args_clear cmd e = if cmd.put_return then e else efault

module _ (ct : Ctype) (read : ℕ → Item) (data64 : Item → List ℕ) where
  -- `__kdbus_args_parse`: the arguments, the payload of a negotiation, and the return value 1.
  unfoldable pub args_parse :
      Cmd → ℕ → ℕ → ℕ → List Arg → Option (Result (List Arg × List ℕ × Bool))
  unfolding negotiate args_clear
  args_parse cmd items items_offset allowed argv = elim cmd.copied [
    | err e ↦ some (err e)
    | ok u ↦
        if has_flag cmd.flags (2 ^ 64 - 1 - allowed)
        then some (err (args_clear cmd einval))
        else (elim (args_verify ct read items (cmd.size - items_offset) argv) [
          | none ↦ none
          | some (err e) ↦ some (err (args_clear cmd e))
          | some (ok filled) ↦
              elim (negotiate cmd.put_index filled data64 cmd.put_flags cmd.flags) [
                | err e ↦ some (err (args_clear cmd e))
                | ok cleared ↦ some (ok (filled, cleared, has_flag cmd.flags flag_negotiate))
              ]
        ])
  ]

  module _ (cmd : Cmd) (items items_offset allowed : ℕ) (small : (a : ℕ) → (read a).size < 2 ^ 64)
      (base : items % 8 ≡ 0) (room : items + (cmd.size - items_offset) + 8 ≤ 2 ^ 64)
      (argv : List Arg) (unset : All IsUnset argv) where
    -- The parser ends with an error or with success. When it succeeds, the command has no flag but
    -- those that the handler allows, each argument holds a valid item of its type, or none if it is
    -- not mandatory, the result tells whether a negotiation was asked for, and in the payload of a
    -- negotiation the types that the handler knows are kept and all others are zero.
    pub args_parse_lem :
        ((e : Errno) × (args_parse cmd items items_offset allowed argv ≡ some (err e)))
        ⊎ ((filled : List Arg) × (args_parse cmd items items_offset allowed argv
              ≡ some (
                  ok (
                    filled,
                    map (supported filled) (offered cmd.put_index filled data64 filled),
                    has_flag cmd.flags flag_negotiate,
                  )))
            × (has_flag cmd.flags (2 ^ 64 - 1 - allowed) ≡ false)
            × IsStored ct argv filled
            × All IsComplete filled)
    unfolding args_parse
    args_parse_lem = elim (Result-cases cmd.copied) [
      | inr (e, bad) ↦ inl (e, ground (arith, bad))
      | inl (u, copied) ↦ elim (Bool-cases (has_flag cmd.flags (2 ^ 64 - 1 - allowed))) [
        | inl unknown ↦ inl (args_clear cmd einval, ground (arith, copied, unknown))
        | inr known ↦
            elim (args_verify_lem ct read items (cmd.size - items_offset) small base room argv
              unset) [
                | inl (e, bad) ↦ inl (args_clear cmd e, ground (arith, copied, known, bad))
                | inr (filled, good, tiled, stored, complete) ↦
                    elim (negotiate_lem cmd.put_index filled data64 cmd.put_flags cmd.flags) [
                      | inl failed ↦
                          inl (args_clear cmd efault, ground (arith, copied, known, good, failed))
                      | inr cleared ↦ inr (
                        filled,
                        ground (arith, copied, known, good, cleared),
                        known,
                        stored,
                        complete,
                      )
                    ]
              ]
      ]
    ]

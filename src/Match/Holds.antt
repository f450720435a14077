-- ===== src/Match/Holds.antt =====
-- match.c: the code's test of a rule against what the rule says.
use kdbus.Base.{
  ℕ, ◌≡◌, refl, sym, ◌∙◌, ap, true, false, ◌||◌, Option, none, some, arith, ◌==◌, Bool-cases, inl,
  inr, ◌⊎◌, Has, str_eq_refl, eq_of_str_eq,
}
use kdbus.Names.Syntax.{Name}
use kdbus.Match.Rules.{
  Rule, Kmsg, Source, bloom_mask_item, id_item, name_add_item, name_remove_item, name_change_item,
  id_add_item, id_remove_item, rule_holds, user_rule, kernel_rule, owns, is_any_or, same_or_unset,
}
use kdbus.Match.Meaning.{
  IsAnyOr, IsUserMatch, IsKernelMatch, IsSatisfied, match_bloom-IsCovered, IsCovered-match_bloom,
  has_name-Has, Has-has_name,
}

is_any_or-IsAnyOr : (want id : ℕ) → is_any_or want id ≡ true → IsAnyOr want id
is_any_or-IsAnyOr want id h = ground (arith, h)

IsAnyOr-is_any_or : (want id : ℕ) → IsAnyOr want id → is_any_or want id ≡ true
IsAnyOr-is_any_or want id (inl e) = ground (arith, e)
IsAnyOr-is_any_or want id (inr e) = ground (arith, e)

owns-Has :
    (src : Source) (o : Option Name)
    → owns src o ≡ true
    → (n : Name) × (o ≡ some n) × Has n src.names_list
owns-Has src none h = absurd (ground (arith, h))
owns-Has src (some n) h = (n, refl, has_name-Has src.names_list n h)

Has-owns :
    (src : Source) (o : Option Name) (n : Name)
    → o ≡ some n
    → Has n src.names_list
    → owns src o ≡ true
Has-owns src o n e m = ap (owns src) e ∙ Has-has_name src.names_list n m

abbrev IsSameOrUnset : Option Name → Option Name → Type 0
IsSameOrUnset a b = (a ≡ none) ⊎ (b ≡ none) ⊎ (a ≡ b)

same_or_unset-IsSameOrUnset : (a b : Option Name) → same_or_unset a b ≡ true → IsSameOrUnset a b
same_or_unset-IsSameOrUnset none b h = inl refl
same_or_unset-IsSameOrUnset (some a) none h = inr (inl refl)
same_or_unset-IsSameOrUnset (some a) (some b) h = inr (inr (ap some (eq_of_str_eq a b h)))

IsSameOrUnset-same_or_unset : (a b : Option Name) → IsSameOrUnset a b → same_or_unset a b ≡ true
IsSameOrUnset-same_or_unset none b h = refl
IsSameOrUnset-same_or_unset (some a) none h = refl
IsSameOrUnset-same_or_unset (some a) (some b) (inl e) = absurd (ground (arith, e))
IsSameOrUnset-same_or_unset (some a) (some b) (inr (inl e)) = absurd (ground (arith, e))
IsSameOrUnset-same_or_unset (some a) (some b) (inr (inr e)) =
    ap (same_or_unset (some a)) (sym e) ∙ str_eq_refl a

user_rule-IsUserMatch :
    (src : Source) (kmsg : Kmsg) (r : Rule) → user_rule src kmsg r ≡ true → IsUserMatch src kmsg r
unfolding user_rule
user_rule-IsUserMatch src kmsg r h = elim (Bool-cases (r.kind == bloom_mask_item)) [
  | inl bloom ↦ inl (
    ground (arith, bloom),
    match_bloom-IsCovered kmsg.filter r.mask src.bloom_size (ground (arith, h, bloom)),
  )
  | inr b ↦ elim (Bool-cases (r.kind == id_item)) [
    | inl id ↦
        inr (inl (ground (arith, id), is_any_or-IsAnyOr r.src_id src.id (ground (arith, h, b, id))))
    | inr i ↦ inr (inr (ground (arith, h, b, i), owns-Has src r.name (ground (arith, h, b, i))))
  ]
]

IsUserMatch-user_rule :
    (src : Source) (kmsg : Kmsg) (r : Rule) → IsUserMatch src kmsg r → user_rule src kmsg r ≡ true
unfolding user_rule
IsUserMatch-user_rule src kmsg r (inl (kind, m)) =
    ground (arith, kind, IsCovered-match_bloom kmsg.filter r.mask src.bloom_size m)
IsUserMatch-user_rule src kmsg r (inr (inl (kind, m))) =
    ground (arith, kind, IsAnyOr-is_any_or r.src_id src.id m)
IsUserMatch-user_rule src kmsg r (inr (inr (kind, (n, e, m)))) =
    ground (arith, kind, Has-owns src r.name n e m)

kernel_rule-IsKernelMatch :
    (kmsg : Kmsg) (r : Rule) → kernel_rule kmsg r ≡ true → IsKernelMatch kmsg r
unfolding kernel_rule
kernel_rule-IsKernelMatch kmsg r h = (
  ground (arith, h),
  elim (Bool-cases (r.kind == id_add_item)) [
    | inl add ↦ inl (
      ground (arith, add),
      is_any_or-IsAnyOr r.new_id kmsg.notify_new_id (ground (arith, h, add)),
    )
    | inr a ↦ elim (Bool-cases (r.kind == id_remove_item)) [
      | inl gone ↦ inr (
          inl (
            ground (arith, gone),
            is_any_or-IsAnyOr r.old_id kmsg.notify_old_id (ground (arith, h, a, gone)),
          ))
      | inr g ↦ inr (
          inr (
            ground (arith, h, a, g),
            is_any_or-IsAnyOr r.old_id kmsg.notify_old_id (ground (arith, h, a, g)),
            is_any_or-IsAnyOr r.new_id kmsg.notify_new_id (ground (arith, h, a, g)),
            same_or_unset-IsSameOrUnset r.name kmsg.notify_name (ground (arith, h, a, g)),
          ))
    ]
  ],
)

IsKernelMatch-kernel_rule :
    (kmsg : Kmsg) (r : Rule) → IsKernelMatch kmsg r → kernel_rule kmsg r ≡ true
unfolding kernel_rule
IsKernelMatch-kernel_rule kmsg r (same, inl (kind, m)) =
    ground (arith, same, kind, IsAnyOr-is_any_or r.new_id kmsg.notify_new_id m)
IsKernelMatch-kernel_rule kmsg r (same, inr (inl (kind, m))) =
    ground (arith, same, kind, IsAnyOr-is_any_or r.old_id kmsg.notify_old_id m)
IsKernelMatch-kernel_rule kmsg r (same, inr (inr (kind, old, new_id, name))) = ground (
  arith,
  same,
  name_kind kind,
  IsAnyOr-is_any_or r.old_id kmsg.notify_old_id old,
  IsAnyOr-is_any_or r.new_id kmsg.notify_new_id new_id,
  IsSameOrUnset-same_or_unset r.name kmsg.notify_name name,
)
  where
    name_kind :
        (r.kind ≡ name_add_item) ⊎ (r.kind ≡ name_change_item) ⊎ (r.kind ≡ name_remove_item)
        → ((r.kind == name_add_item || r.kind == name_change_item || r.kind == name_remove_item)
            ≡ true)
          × ((r.kind == id_add_item) ≡ false)
          × ((r.kind == id_remove_item) ≡ false)
    name_kind (inl e) = ground (arith, e)
    name_kind (inr (inl e)) = ground (arith, e)
    name_kind (inr (inr e)) = ground (arith, e)

pub rule_holds-IsSatisfied :
    (src : Option Source) (kmsg : Kmsg) (r : Rule)
    → rule_holds src kmsg r ≡ true
    → IsSatisfied src kmsg r
unfolding rule_holds
rule_holds-IsSatisfied none kmsg r h = kernel_rule-IsKernelMatch kmsg r h
rule_holds-IsSatisfied (some src) kmsg r h = user_rule-IsUserMatch src kmsg r h

pub IsSatisfied-rule_holds :
    (src : Option Source) (kmsg : Kmsg) (r : Rule)
    → IsSatisfied src kmsg r
    → rule_holds src kmsg r ≡ true
unfolding rule_holds
IsSatisfied-rule_holds none kmsg r m = IsKernelMatch-kernel_rule kmsg r m
IsSatisfied-rule_holds (some src) kmsg r m = IsUserMatch-user_rule src kmsg r m

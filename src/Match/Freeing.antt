-- ===== src/Match/Freeing.antt =====
-- match.c: which rules, entries and commands run into the BUG() of `kdbus_match_rule_free`.
use kdbus.Base.{
  ℕ, ◌≡◌, ◌≢◌, refl, ap, true, false, ◌&&◌, ◌==◌, subst, List, [], ◌∷◌, ◌++◌, Option, none, some,
  arith, All, Has, Bool-cases, Result-cases, inl, inr, ◌⊎◌, Result, ok, err,
}
use kdbus.Names.Syntax.{Ctype}
use kdbus.Match.Rules.{
  Rule, Entry, bloom_mask_item, id_item, name_item, name_add_item, name_remove_item,
  name_change_item, id_add_item, id_remove_item,
}
use kdbus.Match.Db.{MatchItem, make_rule, make_rules, rule_free, rules_free, cookie_free}

-- The item types that kdbus_cmd_match_add documents as rules.
abbrev pub IsRuleType : ℕ → Type 0
IsRuleType k =
    (k ≡ bloom_mask_item)
    ⊎ (k ≡ name_item)
    ⊎ (k ≡ id_item)
    ⊎ (k ≡ name_add_item)
    ⊎ (k ≡ name_remove_item)
    ⊎ (k ≡ name_change_item)
    ⊎ (k ≡ id_add_item)
    ⊎ (k ≡ id_remove_item)

-- An entry with a rule of another type, one with such rules only, and a command with such an item.
abbrev pub IsForeign : Entry → Type 0
IsForeign e = (r : Rule) × Has r e.rules × (¬ IsRuleType r.kind)

abbrev pub IsDocumented : Entry → Type 0
IsDocumented e = All (λ r. IsRuleType r.kind) e.rules

abbrev pub HasForeign : List MatchItem → Type 0
HasForeign items = (i : MatchItem) × Has i items × (¬ IsRuleType i.kind)

rule_free-IsRuleType : (r : Rule) → rule_free r ≡ true → IsRuleType r.kind
unfolding rule_free
rule_free-IsRuleType r h = ground (arith, h)

rule_free_never : (r : Rule) → rule_free r ≡ false → ¬ IsRuleType r.kind
unfolding rule_free
rule_free_never r h (inl e) = ground (arith, h, e)
rule_free_never r h (inr (inl e)) = ground (arith, h, e)
rule_free_never r h (inr (inr (inl e))) = ground (arith, h, e)
rule_free_never r h (inr (inr (inr (inl e)))) = ground (arith, h, e)
rule_free_never r h (inr (inr (inr (inr (inl e))))) = ground (arith, h, e)
rule_free_never r h (inr (inr (inr (inr (inr (inl e)))))) = ground (arith, h, e)
rule_free_never r h (inr (inr (inr (inr (inr (inr (inl e))))))) = ground (arith, h, e)
rule_free_never r h (inr (inr (inr (inr (inr (inr (inr e))))))) = ground (arith, h, e)

pub rules_free-IsDocumented : (l : List Rule) → rules_free l ≡ true → All (λ r. IsRuleType r.kind) l
unfolding rules_free
rules_free-IsDocumented [] h = tt
rules_free-IsDocumented (r ∷ l) h =
    (rule_free-IsRuleType r (ground (arith, h)), rules_free-IsDocumented l (ground (arith, h)))

pub rules_free_never :
    (l : List Rule) → rules_free l ≡ false → (r : Rule) × Has r l × (¬ IsRuleType r.kind)
unfolding rules_free
rules_free_never [] h = absurd (ground (arith, h))
rules_free_never (r ∷ l) h = elim (Bool-cases (rule_free r)) [
  | inr never ↦ (r, inl refl, rule_free_never r never)
  | inl fine ↦ let (x, m, never) = rules_free_never l (ground (arith, h, fine)) in (x, inr m, never)
]

pub cookie_free-IsDocumented :
    (c : ℕ) (l : List Entry) → cookie_free c l ≡ true → All (λ e. (e.cookie ≢ c) ⊎ IsDocumented e) l
unfolding cookie_free
cookie_free-IsDocumented c [] h = tt
cookie_free-IsDocumented c (e ∷ l) h = (
  elim (Bool-cases (e.cookie == c)) [
    | inr other ↦ inl (λ same. absurd (ground (arith, other, same)))
    | inl hit ↦ inr (rules_free-IsDocumented e.rules (ground (arith, h, hit)))
  ],
  cookie_free-IsDocumented c l (ground (arith, h)),
)

pub cookie_free_never :
    (c : ℕ) (l : List Entry)
    → cookie_free c l ≡ false
    → (e : Entry) × Has e l × (e.cookie ≡ c) × IsForeign e
unfolding cookie_free
cookie_free_never c [] h = absurd (ground (arith, h))
cookie_free_never c (e ∷ l) h = elim (Bool-cases (cookie_free c l)) [
  | inl fine ↦
      (e, inl refl, ground (arith, h, fine), rules_free_never e.rules (ground (arith, h, fine)))
  | inr never ↦ let (x, m, same, foreign) = cookie_free_never c l never in (x, inr m, same, foreign)
]

make_rule-kind :
    (ct : Ctype) (bloom_size : ℕ) (i : MatchItem) {r : Rule}
    → make_rule ct bloom_size i ≡ ok r
    → r.kind ≡ i.kind
unfolding make_rule
make_rule-kind ct bloom_size i {r} made =
    ground (arith, ap (λ x. elim x as (λ y. ℕ) [ err e ↦ r.kind | ok q ↦ q.kind ]) made)

rules_free-append : (l m : List Rule) → rules_free (l ++ m) ≡ (rules_free l && rules_free m)
unfolding rules_free
rules_free-append [] m = ground arith
rules_free-append (r ∷ l) m = ground (arith, rules_free-append l m)

-- The items run into BUG(), or make rules that would.
abbrev pub IsStuck : Option (Result (List Rule)) → Type 0
IsStuck r = (r ≡ none) ⊎ ((rules : List Rule) × (r ≡ some (ok rules)) × (rules_free rules ≡ false))

module _ (ct : Ctype) (bloom_size : ℕ) where
  stuck_rules :
      (rules : List Rule) (items : List MatchItem)
      → IsStuck (make_rules ct bloom_size rules items)
      → (rules_free rules ≡ false) ⊎ HasForeign items
  unfolding make_rules rules_free
  stuck_rules rules [] (inl stuck) = absurd (ground (arith, stuck))
  stuck_rules rules [] (inr (made, e, never)) = inl (ground (arith, same_rules e, never))
    where
      same_rules : {a b : List Rule} → some (ok a) ≡ some (ok b) → a ≡ b
      same_rules h = cc
  stuck_rules rules (i ∷ items) stuck = elim (Result-cases (make_rule ct bloom_size i)) [
    | inr (x, e) ↦ elim stuck [
      | inl nothing ↦ inl (ground (arith, e, nothing))
      | inr (made, all, never) ↦ absurd (ground (arith, e, all))
    ]
    | inl (r, e) ↦
        elim (stuck_rules (rules ++ r ∷ []) items (elim stuck [
          | inl nothing ↦ inl (ground (arith, e, nothing))
          | inr (made, all, never) ↦ inr (made, ground (arith, e, all), never)
        ])) [
          | inr (j, m, foreign) ↦ inr (j, inr m, foreign)
          | inl never ↦ elim (Bool-cases (rules_free rules)) [
            | inr early ↦ inl early
            | inl fine ↦ inr (
              i,
              inl refl,
              subst (λ k. ¬ IsRuleType k) (make_rule-kind ct bloom_size i e)
                  (rule_free_never r
                    (ground (arith, rules_free-append rules (r ∷ []), never, fine))),
            )
          ]
        ]
  ]

  -- Only a command with an item of another type runs into BUG() by itself.
  pub make_rules_stuck :
      (items : List MatchItem) → IsStuck (make_rules ct bloom_size [] items) → HasForeign items
  unfolding rules_free
  make_rules_stuck items stuck = elim (stuck_rules [] items stuck) [
    | inl never ↦ absurd (ground (arith, never))
    | inr foreign ↦ foreign
  ]

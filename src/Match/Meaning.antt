-- ===== src/Match/Meaning.antt =====
-- match.c: what a rule says of a message.
use kdbus.Base.{
  ℕ, zero, suc, ◌+◌, ◌-◌, ◌*◌, ◌/◌, ◌%◌, ◌^◌, ◌≤◌, ◌<◌, ◌≡◌, refl, sym, ◌∙◌, ap, subst, true, List,
  [], ◌∷◌, Option, none, some, arith, leb, Bool-cases, inl, inr, ◌⊎◌, All, Has, get_or, drop,
  bit_and, str_eq, str_eq_refl, eq_of_str_eq,
}
use kdbus.Names.Syntax.{Name}
use kdbus.Match.Rules.{
  Rule, Kmsg, Source, BloomFilter, BloomMask, bloom_mask_item, id_item, name_item, name_add_item,
  name_remove_item, name_change_item, id_add_item, id_remove_item, match_id_any, match_bloom,
  covers, mask_start, has_name,
}

abbrev pub IsAnyOr : ℕ → ℕ → Type 0
IsAnyOr want id = (want ≡ match_id_any) ⊎ (want ≡ id)

abbrev numbers_from : ℕ → ℕ → List ℕ
numbers_from i zero = []
numbers_from i (suc k) = i ∷ numbers_from (i + 1) k

-- The last generation of the mask, in 64 bits
abbrev last_row : BloomMask → ℕ
last_row mask = (mask.generations + 2 ^ 64 - 1) % 2 ^ 64

-- The generation of the mask that is closest to that of the filter
abbrev IsClosest : BloomFilter → BloomMask → ℕ → Type 0
IsClosest filter mask row =
    ((filter.generation ≤ last_row mask) × (row ≡ filter.generation))
    ⊎ ((last_row mask < filter.generation) × (row ≡ last_row mask))

-- All bits of the `n` words of that generation are set in the filter.
abbrev pub IsCovered : BloomFilter → BloomMask → ℕ → Type 0
IsCovered filter mask n =
    (row : ℕ) × IsClosest filter mask row
    × All
        (λ i.
          let want = get_or mask.bits (row * n + i) 0 in
          bit_and (get_or filter.bits i 0) want ≡ want)
        (numbers_from 0 n)

-- A message from user space satisfies the rule.
abbrev pub IsUserMatch : Source → Kmsg → Rule → Type 0
IsUserMatch src kmsg r =
    ((r.kind ≡ bloom_mask_item) × IsCovered kmsg.filter r.mask (src.bloom_size / 8))
    ⊎ ((r.kind ≡ id_item) × IsAnyOr r.src_id src.id)
    ⊎ ((r.kind ≡ name_item) × ((n : Name) × (r.name ≡ some n) × Has n src.names_list))

-- A notification of the kernel satisfies the rule.
abbrev pub IsKernelMatch : Kmsg → Rule → Type 0
IsKernelMatch kmsg r =
    (kmsg.notify_type ≡ r.kind)
    × (((r.kind ≡ id_add_item) × IsAnyOr r.new_id kmsg.notify_new_id)
        ⊎ ((r.kind ≡ id_remove_item) × IsAnyOr r.old_id kmsg.notify_old_id)
        ⊎ (((r.kind ≡ name_add_item) ⊎ (r.kind ≡ name_change_item) ⊎ (r.kind ≡ name_remove_item))
            × IsAnyOr r.old_id kmsg.notify_old_id
            × IsAnyOr r.new_id kmsg.notify_new_id
            × ((r.name ≡ none) ⊎ (kmsg.notify_name ≡ none) ⊎ (r.name ≡ kmsg.notify_name))))

abbrev pub IsSatisfied : Option Source → Kmsg → Rule → Type 0
IsSatisfied none kmsg r = IsKernelMatch kmsg r
IsSatisfied (some src) kmsg r = IsUserMatch src kmsg r

get_or-drop : (s i : ℕ) (l : List ℕ) → get_or (drop s l) i 0 ≡ get_or l (s + i) 0
get_or-drop zero i l = ap (λ j. get_or l j 0) (omega arith)
get_or-drop (suc s) i [] = refl
get_or-drop (suc s) i (x ∷ l) =
    get_or-drop s i l ∙ ap (λ j. get_or (x ∷ l) j 0) {x = suc (s + i)} (omega arith)

covers-All :
    (filter bits : List ℕ) (s i k : ℕ)
    → covers filter (drop s bits) i k ≡ true
    → All
        (λ j. let want = get_or bits (s + j) 0 in bit_and (get_or filter j 0) want ≡ want)
        (numbers_from i k)
unfolding covers
covers-All filter bits s i zero h = tt
covers-All filter bits s i (suc k) h = (
  ground (arith, h, get_or-drop s i bits),
  covers-All filter bits s (i + 1) k (ground (arith, h)),
)

All-covers :
    (filter bits : List ℕ) (s i k : ℕ)
    → All
        (λ j. let want = get_or bits (s + j) 0 in bit_and (get_or filter j 0) want ≡ want)
        (numbers_from i k)
    → covers filter (drop s bits) i k ≡ true
unfolding covers
All-covers filter bits s i zero h = refl
All-covers filter bits s i (suc k) (h, rest) =
    ground (arith, h, get_or-drop s i bits, All-covers filter bits s (i + 1) k rest)

pub match_bloom-IsCovered :
    (filter : BloomFilter) (mask : BloomMask) (size : ℕ)
    → match_bloom filter mask size ≡ true
    → IsCovered filter mask (size / 8)
unfolding match_bloom mask_start
match_bloom-IsCovered filter mask size h =
    elim (Bool-cases (leb filter.generation (last_row mask))) [
      | inl low ↦ (
        filter.generation,
        inl (ground (arith, low), refl),
        covers-All filter.bits mask.bits (filter.generation * (size / 8)) 0 (size / 8)
            (ground (arith, h, low)),
      )
      | inr high ↦ (
        last_row mask,
        inr (ground (arith, high), refl),
        covers-All filter.bits mask.bits (last_row mask * (size / 8)) 0 (size / 8)
            (ground (arith, h, high)),
      )
    ]

IsClosest-start :
    (filter : BloomFilter) (mask : BloomMask) (n row : ℕ)
    → IsClosest filter mask row
    → mask_start filter mask n ≡ row * n
unfolding mask_start
IsClosest-start filter mask n row (inl (low, e)) = ap (λ g. g * n) (ground (arith, low, e))
IsClosest-start filter mask n row (inr (high, e)) = ap (λ g. g * n) (ground (arith, high, e))

pub IsCovered-match_bloom :
    (filter : BloomFilter) (mask : BloomMask) (size : ℕ)
    → IsCovered filter mask (size / 8)
    → match_bloom filter mask size ≡ true
unfolding match_bloom
IsCovered-match_bloom filter mask size (row, closest, all) =
    ap (λ s. covers filter.bits (drop s mask.bits) 0 (size / 8))
      (IsClosest-start filter mask (size / 8) row closest)
    ∙ All-covers filter.bits mask.bits (row * (size / 8)) 0 (size / 8) all

pub has_name-Has : (l : List Name) (n : Name) → has_name l n ≡ true → Has n l
unfolding has_name
has_name-Has [] n h = absurd (ground (arith, h))
has_name-Has (x ∷ l) n h = elim (Bool-cases (str_eq x n)) [
  | inl e ↦ inl (sym (eq_of_str_eq x n e))
  | inr e ↦ inr (has_name-Has l n (ground (arith, h, e)))
]

pub Has-has_name : (l : List Name) (n : Name) → Has n l → has_name l n ≡ true
unfolding has_name
Has-has_name [] n h = absurd h
Has-has_name (x ∷ l) n (inl e) = ground (arith, subst (λ y. str_eq y n ≡ true) e (str_eq_refl n))
Has-has_name (x ∷ l) n (inr m) = ground (arith, Has-has_name l n m)

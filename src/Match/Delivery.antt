-- ===== src/Match/Delivery.antt =====
-- match.c: which messages a database lets through, and the reads of the bloom filter.
use native.Mathlib.Nat.{mul-le-mul_right, div-mul-le_self, div-le_self, le-div_iff_mul-le}
use kdbus.Base.{
  ℕ, ◌+◌, ◌*◌, ◌/◌, ◌^◌, ◌≤◌, ◌<◌, ◌≡◌, refl, ap, ◌||◌, List, [], ◌∷◌, ◌++◌, Option, arith, length,
  ok, err,
}
use kdbus.Names.Syntax.{Ctype}
use kdbus.Match.Rules.{
  Rule, Entry, Kmsg, Source, BloomFilter, BloomMask, bloom_mask_item, match_kmsg, mask_start,
}
use kdbus.Match.Db.{MatchItem, make_rule}

-- A later entry only widens what is let through.
pub match_kmsg-append :
    (l m : List Entry) (src : Option Source) (kmsg : Kmsg)
    → match_kmsg (l ++ m) src kmsg ≡ (match_kmsg l src kmsg || match_kmsg m src kmsg)
unfolding match_kmsg
match_kmsg-append [] m src kmsg = refl
match_kmsg-append (x ∷ l) m src kmsg = ground (arith, match_kmsg-append l m src kmsg)

next_row : (i g n : ℕ) → i < g → i * n + n ≤ g * n
next_row i g n h = omega (arith, mul-le-mul_right {m = i + 1} {n = g} n (omega (arith, h)))

-- A mask that consists of whole generations of `n` words each.
start_room :
    (filter : BloomFilter) (mask : BloomMask) (n : ℕ)
    → 0 < mask.generations
    → mask.generations < 2 ^ 64
    → mask_start filter mask n + n ≤ mask.generations * n
unfolding mask_start
start_room filter mask n some_gen small =
    next_row _ mask.generations n (ground (arith, some_gen, small))

made_mask :
    (ct : Ctype) (bloom_size : ℕ) (i : MatchItem) {r : Rule}
    → i.kind ≡ bloom_mask_item
    → make_rule ct bloom_size i ≡ ok r
    → (r.mask ≡ record { generations = i.size / bloom_size; bits = i.words })
      × (bloom_size ≤ i.size)
unfolding make_rule
made_mask ct bloom_size i {r} is_mask made =
    ground
      (arith, is_mask, ap (λ x. elim x as (λ y. BloomMask) [ err e ↦ r.mask | ok q ↦ q.mask ]) made)

whole_words : (g k w : ℕ) → g * (8 * k) ≤ 8 * w → g * k ≤ w
whole_words g k w h = omega (arith, h)

-- A bloom-mask rule that `kdbus_cmd_match_add` accepts on a bus whose bloom size is a positive number
-- `k` of 64-bit words has room for every word that `kdbus_match_bloom` reads of it, whatever
-- generation the message's filter names, if the item's size is the number of bytes copied.
pub mask_reads_in_bounds :
    (ct : Ctype) (k : ℕ) (i : MatchItem) (r : Rule) (filter : BloomFilter)
    → 0 < k
    → i.kind ≡ bloom_mask_item
    → i.size ≡ 8 * length i.words
    → i.size < 2 ^ 64
    → make_rule ct (8 * k) i ≡ ok r
    → mask_start filter r.mask (8 * k / 8) + 8 * k / 8 ≤ length r.mask.bits
mask_reads_in_bounds ct k i r filter pos is_mask bytes fits made =
    rw (byte_words, mask_eq.0)
      (omega (
        arith,
        start_room filter mask k some_gen (omega (arith, fits, div-le_self i.size (8 * k))),
        whole_words gens k (length i.words) (omega (arith, bytes, div-mul-le_self i.size (8 * k))),
      ))
  where
    gens : ℕ
    gens = i.size / (8 * k)

    mask : BloomMask
    mask = record { generations = gens; bits = i.words }

    mask_eq : (r.mask ≡ mask) × (8 * k ≤ i.size)
    mask_eq = made_mask ct (8 * k) i is_mask made

    byte_words : 8 * k / 8 ≡ k
    byte_words = omega arith

    some_gen : 0 < gens
    some_gen =
        (le-div_iff_mul-le {k = 8 * k} {x = 1} {y = i.size} (omega (arith, pos))).1
          (omega (arith, mask_eq.1))

-- ===== src/Strhash.antt =====
-- util.h and policy.c: the hashes under which names are filed in the kernel's hash tables.
-- `init_name_hash`, `partial_name_hash`, `end_name_hash` and the reduction of a key to a bucket
-- are kernel code, hence parameters.
use kdbus.Base.{
  ℕ, zero, suc, ◌≡◌, refl, ap, Bool, List, [], ◌∷◌, arith, take, ◌==◌, str_eq, ◌&&◌, true,
  eq_of_str_eq, Bool-cases, inl, inr,
}

pub record NameHash : Type 0 where
  pub init_name_hash : ℕ
  pub partial_name_hash : ℕ → ℕ → ℕ
  pub end_name_hash : ℕ → ℕ
  pub bucket : ℕ → ℕ

module _ (h : NameHash) where
  hash_loop : ℕ → List ℕ → ℕ
  hash_loop acc [] = acc
  hash_loop acc (c ∷ cs) = hash_loop (h.partial_name_hash c acc) cs

  -- `kdbus_strhash`
  unfoldable pub strhash : List ℕ → ℕ
  unfolding hash_loop
  strhash s = h.end_name_hash (hash_loop h.init_name_hash s)

  -- The second clause stands for a read past the text, which no caller makes.
  nhash_loop : ℕ → List ℕ → ℕ → ℕ
  nhash_loop acc s zero = acc
  nhash_loop acc [] (suc n) = acc
  nhash_loop acc (c ∷ cs) (suc n) = nhash_loop (h.partial_name_hash c acc) cs n

  -- `kdbus_strnhash`
  unfoldable pub strnhash : List ℕ → ℕ → ℕ
  unfolding nhash_loop
  strnhash s len = h.end_name_hash (nhash_loop h.init_name_hash s len)

  nhash_loop-take : (acc : ℕ) (s : List ℕ) (n : ℕ) → nhash_loop acc s n ≡ hash_loop acc (take n s)
  unfolding nhash_loop hash_loop
  nhash_loop-take acc s zero = refl
  nhash_loop-take acc [] (suc n) = refl
  nhash_loop-take acc (c ∷ cs) (suc n) = nhash_loop-take (h.partial_name_hash c acc) cs n

  pub strnhash-take : (s : List ℕ) (n : ℕ) → strnhash s n ≡ strhash (take n s)
  unfolding strnhash strhash
  strnhash-take s n = ap h.end_name_hash (nhash_loop-take h.init_name_hash s n)

  -- Whether `hash_for_each_possible` under `key` comes by what is filed under the name.
  unfoldable pub possible : ℕ → List ℕ → Bool
  possible key name = h.bucket (strhash name) == h.bucket key

  pub possible_self : (name : List ℕ) → possible (strhash name) name ≡ true
  unfolding possible
  possible_self name = ground arith

  -- The bucket does not matter where the name is compared too.
  pub possible-and_str_eq :
      (name other : List ℕ)
      → (possible (strhash name) other && str_eq other name) ≡ str_eq other name
  possible-and_str_eq name other = elim (Bool-cases (str_eq other name)) [
    | inl same ↦ rw (eq_of_str_eq other name same) (rw (possible_self name))
    | inr differ ↦ ground arith
  ]

-- ===== src/Node/Children.antt =====
-- node.c: the children of a node, by the hash of their name and the name.
use Prim.Native.Nat.Ordering.{lt, eq, gt}
use Prim.Native.Nat.{Ordering, compare}
use kdbus.Base.{
  ℕ, ◌+◌, ◌-◌, ◌%◌, ◌^◌, Bool, List, [], ◌∷◌, Option, none, some, ltb, leb, ◌==◌, if◌then◌else◌,
  Result, ok, err, guard, ◌>>◌, ◌>>=◌, enomem, eexist, eshutdown,
}
use kdbus.Rbtree.{Tree, RbTree, link, search_eq}
use kdbus.Strhash.{NameHash, strhash}
use kdbus.Node.Counter.{new, is_negative, acquire}

-- `struct kdbus_node`, as its parent reads it. Names are the bytes before the terminating zero.
pub record Child : Type 0 where
  pub name : List ℕ
  pub hash : ℕ
  pub id : ℕ
  pub active : ℕ

-- `strcmp`, by the sign of its result
unfoldable pub str_compare : List ℕ → List ℕ → Ordering
str_compare [] [] = eq
str_compare [] (y ∷ ys) = lt
str_compare (x ∷ xs) [] = gt
str_compare (x ∷ xs) (y ∷ ys) =
    let rest = str_compare xs ys in elim (compare x y) [ lt ↦ lt | eq ↦ rest | gt ↦ gt ]

-- `kdbus_node_name_compare`, by the sign of its result, an `int`
unfoldable pub name_compare : ℕ → List ℕ → Child → Ordering
unfolding str_compare
name_compare hash name child =
    if hash == child.hash
    then str_compare name child.name
    else (if is_negative ((hash + (2 ^ 32 - child.hash)) % 2 ^ 32) then lt else gt)

module _ (h : NameHash) where
  -- `kdbus_node_name_hash`; `& INT_MAX` keeps the low 31 bits.
  unfoldable pub name_hash : List ℕ → ℕ
  name_hash name =
      let low = strhash h name % 2 ^ 31 in
      let shifted = if ltb low 2 then low + 2 else low in
      if leb (2 ^ 31 - 1) shifted then 2 ^ 31 - 2 else shifted

  module _ (rb : RbTree Child) where
    -- The part of `kdbus_node_link` under the parent's lock.
    unfoldable pub link_child : Child → Tree Child → Result (Tree Child)
    unfolding name_compare
    link_child child t = elim (link (name_compare child.hash child.name) child t) [
      | none ↦ err eexist
      | some u ↦ ok (rb.insert_color u)
    ]

    -- `kdbus_node_link` with a parent and a name: `mem` tells whether the copy of the name can be
    -- allocated, `id` is what the kernel's `idr_alloc` gives.
    unfoldable pub node_link : Bool → Result ℕ → ℕ → List ℕ → Tree Child → Result (Tree Child)
    unfolding name_hash link_child
    node_link mem id parent_active name t = guard mem enomem >> id >>= λ n.
        guard (acquire parent_active).1 eshutdown
        >> link_child (record { name = name; hash = name_hash name; id = n; active = new }) t

  -- The search of `kdbus_node_find_child`
  unfoldable pub search_child : List ℕ → Tree Child → Option Child
  unfolding name_compare name_hash
  search_child name t = search_eq (name_compare (name_hash name) name) t

  -- `kdbus_node_find_child`, with the child as the acquisition leaves it
  unfoldable pub find_child : List ℕ → Tree Child → Option Child
  unfolding search_child
  find_child name t = elim (search_child name t) [
    | none ↦ none
    | some c ↦
        let (v, res) = acquire c.active in if res then some (record c { active = v }) else none
  ]

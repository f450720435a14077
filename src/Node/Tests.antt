-- ===== src/Node/Tests.antt =====
-- A node that is activated, acquired by one thread, and deactivated by two.
use kdbus.Base.{[], ◌∷◌, Errno, ok, err, eexist, ℕ, ◌+◌, ◌≤◌, ◌≡◌, ◌⊎◌, refl, true, false, arith}
use kdbus.Rbtree.{Tree, leaf, node, plain, inorder, link}
use kdbus.Strhash.{NameHash, strhash}
use kdbus.Node.Children.{
  Child, str_compare, name_compare, name_hash, link_child, node_link, search_child,
}
use kdbus.Node.Siblings.{IsSiblings}
use kdbus.Node.Linking.{node_link_lem, Refused, Linked}
use kdbus.Node.Counter.{
  activate, acquire, release, mark, no_refs, claim, is_active, is_deactivated, bias, drained, new,
}
use kdbus.Node.Threads.{
  System, Internal, internal, releasing_ref, sleeping, activating, acquiring, marking, Reaches,
  initialized, stepped, node_init, activates, acquires, releases, wakes, marks, passes, sleeps,
  claims, calls_active, stores_active, wakes_active, unrefs, finishes, sleeps_drained,
}
use kdbus.Node.Life.{deactivation_safe, release_calls}
use kdbus.Node.Finite.{IsFinite, under_way, pending}
use kdbus.Node.End.{deactivation_ends, rests, goes_on}

runs : ℕ
unfolding activate acquire release mark no_refs claim is_active is_deactivated node_init activates
    acquires releases wakes marks passes sleeps claims calls_active stores_active wakes_active
    unrefs finishes sleeps_drained str_compare name_compare name_hash link_child node_link
    search_child inorder link strhash
runs = 0

abbrev in_use : System
in_use = acquires (activates node_init)

-- Both deactivations sleep, since a reference is left.
abbrev closing : System
closing = sleeps (sleeps (marks (marks in_use)))

-- One thread releases the node while the other waits for it, and both return.
abbrev drains : System
drains = sleeps_drained (claims (claims (passes (passes (wakes (releases closing))))))

abbrev end : System
end = unrefs (finishes (wakes_active (stores_active (calls_active drains))))

counter_values :
    (node_init.active ≡ new)
    × (in_use.active ≡ 1)
    × (closing.active ≡ bias + 1)
    × ((acquire closing.active).1 ≡ false)
    × ((activate closing.active).1 ≡ false)
    × (is_deactivated closing.active ≡ true)
    × (end.active ≡ drained)
    × (end.released ≡ 1)
    × (end.returned ≡ 2)
    × (end.node_refs ≡ 0)
    × (under_way end ≡ 0)
unfolding runs
counter_values = (refl, refl, refl, refl, refl, refl, refl, refl, refl, refl, refl)

closing-Reaches : Reaches closing
unfolding runs
closing-Reaches =
    let marked : Reaches (marks (marks in_use)) =
      stepped
        (stepped
          (stepped (stepped initialized (activating node_init))
            (acquiring (activates node_init) (omega arith)))
          (marking in_use))
        (marking (marks in_use)) in
    stepped (stepped marked (internal (sleeping (marks (marks in_use)) (omega arith) refl)))
      (internal (sleeping (sleeps (marks (marks in_use))) (omega arith) refl))

deactivation_safe_example :
    (release_calls closing ≤ 1)
    × ((release_calls closing ≡ 0) ⊎ (closing.holders ≡ 0))
    × ((closing.returned ≡ 0)
        ⊎ ((closing.active ≡ drained)
            × (closing.released ≡ 1)
            × ((closing.node_refs ≡ 0)
                ⊎ ((closing.node_refs ≡ 1) × (closing.wake_active + closing.unref ≡ 1)))))
    × ((is_active closing.active ≡ false)
        ⊎ ((acquire closing.active).1 ≡ true)
          × (closing.released ≡ 0)
          × (closing.active ≡ closing.holders))
deactivation_safe_example = deactivation_safe closing closing-Reaches

abbrev let_go : System
let_go = releases closing

one_step : Internal closing let_go
unfolding runs
one_step = releasing_ref closing (omega arith)

deactivation_ends_example :
    IsFinite let_go
    × (((u : System) × Internal let_go u)
        ⊎ ((under_way let_go ≡ 0)
            × (let_go.returned ≡ closing.returned + pending closing)
            × ((let_go.active ≡ drained) ⊎ (closing.returned + pending closing ≡ 0))))
deactivation_ends_example =
    deactivation_ends closing let_go closing-Reaches (goes_on one_step (rests let_go))

-- A kernel whose hash is the sum of the bytes.
abbrev sum_hash : NameHash
sum_hash = record {
  init_name_hash = 0;
  partial_name_hash = λ c acc. acc + c;
  end_name_hash = λ acc. acc;
  bucket = λ n. n;
}

abbrev siblings : Tree Child
siblings = node leaf (record { name = 97 ∷ 98 ∷ []; hash = 195; id = 1; active = new }) leaf

siblings-IsSiblings : IsSiblings sum_hash siblings
unfolding runs
siblings-IsSiblings = (refl, tt, tt)

-- The new name has the same hash.
node_link_lem_example :
    ((e : Errno) × Refused sum_hash plain true
        (ok 2)
        1
        (98 ∷ 97 ∷ [])
        (97 ∷ 98 ∷ [])
        siblings
        e
        (node_link sum_hash plain true (ok 2) 1 (98 ∷ 97 ∷ []) siblings))
    ⊎ Linked sum_hash plain true
        (ok 2)
        1
        (98 ∷ 97 ∷ [])
        (97 ∷ 98 ∷ [])
        siblings
        (node_link sum_hash plain true (ok 2) 1 (98 ∷ 97 ∷ []) siblings)
node_link_lem_example =
    node_link_lem sum_hash plain true (ok 2) 1 (98 ∷ 97 ∷ []) (97 ∷ 98 ∷ []) siblings
      siblings-IsSiblings

name_taken : node_link sum_hash plain true (ok 2) 1 (97 ∷ 98 ∷ []) siblings ≡ err eexist
unfolding runs
name_taken = refl

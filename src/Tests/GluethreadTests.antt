-- ===== src/Tests/GluethreadTests.antt =====
-- A list of two nodes, at the addresses 20 and 30, on the base at 10.
use networking_protocol_deve.Base.{
  ℕ, ◌<◌, ◌≡◌, ◌↔◌, refl, true, some, List, [], ◌∷◌, ◌==◌, ltb, if◌then◌else◌, arith, ◌||◌,
}
use networking_protocol_deve.Gluethread.{
  Memory, ℤ, pos, negsuc, remove_glthread, glthread_priority_insert, precedes, is_minus_one,
}
use networking_protocol_deve.Gluethread.Linked.{IsList, has}
use networking_protocol_deve.Gluethread.Remove.{remove-IsList}
use networking_protocol_deve.Gluethread.Sorted.{
  insert_before, Ascending, priority_insert-insert_before, priority_insert-Ascending,
}

abbrev two : Memory
two = record {
  left = λ q. if q == 20 then 10 else if q == 30 then 20 else 0;
  right = λ q. if q == 10 then 20 else if q == 20 then 30 else 0;
}

abbrev nodes : List ℕ
nodes = 20 ∷ 30 ∷ []

two-IsList : IsList two 10 nodes
two-IsList = (refl, omega arith, (refl, refl, omega arith, (refl, refl, omega arith, refl)), refl)

-- The nodes in the order of their addresses.
abbrev by_address : ℕ → ℕ → ℤ
by_address a b = if ltb a b then negsuc 0 else if ltb b a then pos 1 else pos 0

abbrev address : ℕ → ℕ
address q = q

by_address-compares : (a b : ℕ) → (precedes by_address 0 a b ≡ true) ↔ (address a < address b)
unfolding precedes is_minus_one
by_address-compares a b = ground arith

remove-IsList_example :
    IsList (remove_glthread two 20) 10 (30 ∷ [])
    × ((remove_glthread two 20).left 20 ≡ 0)
    × ((remove_glthread two 20).right 20 ≡ 0)
remove-IsList_example = remove-IsList two 20 10 nodes two-IsList refl

inserted_25 : insert_before by_address 0 25 nodes ≡ 20 ∷ 25 ∷ 30 ∷ []
unfolding precedes is_minus_one
inserted_25 = refl

priority_insert-insert_before_example :
    (n : Memory) × (glthread_priority_insert by_address 0 2 two 10 25 ≡ some n)
    × IsList n 10 (insert_before by_address 0 25 nodes)
priority_insert-insert_before_example =
    priority_insert-insert_before by_address 0 2 two 10 25 nodes (omega arith) two-IsList
      (omega arith) refl

priority_insert-Ascending_example :
    (n : Memory) × (ys : List ℕ) × (glthread_priority_insert by_address 0 2 two 10 25 ≡ some n)
    × IsList n 10 ys
    × Ascending address ys
    × ((q : ℕ) → has q ys ≡ ((q == 25) || has q nodes))
priority_insert-Ascending_example =
    priority_insert-Ascending by_address 0 address by_address-compares 2 two 10 25 nodes
      (omega arith) two-IsList (omega arith) refl (omega arith, tt)

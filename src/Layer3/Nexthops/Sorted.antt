-- ===== src/Layer3/Nexthops/Sorted.antt =====
-- The array of nexthops as a sorted list.
use networking_protocol_deve.Base.{
  ◌+◌, ◌<◌, ◌≤◌, ◌≡◌, refl, true, none, some, List, [], ◌∷◌, arith, ltb, if◌then◌else◌, length,
}
use networking_protocol_deve.Layer3.Nexthops.{Nexthop, NexthopArray, l3_route_insert_nexthop}

-- the array that holds a list of at most four nexthops from its left end on
abbrev pub packed : List Nexthop → NexthopArray
packed [] = none ∷ none ∷ none ∷ none ∷ []
packed (a ∷ []) = some a ∷ none ∷ none ∷ none ∷ []
packed (a ∷ b ∷ []) = some a ∷ some b ∷ none ∷ none ∷ []
packed (a ∷ b ∷ c ∷ []) = some a ∷ some b ∷ some c ∷ none ∷ []
packed (a ∷ b ∷ c ∷ d ∷ _) = some a ∷ some b ∷ some c ∷ some d ∷ []

-- every nexthop of the list has at most the index of the ones behind it
abbrev pub Ordered : List Nexthop → Type 0
Ordered [] = Unit
Ordered (a ∷ []) = Unit
Ordered (a ∷ (b ∷ l)) = (a.ifindex ≤ b.ifindex) × Ordered (b ∷ l)

-- insertion behind the entries that have at most the new index
unfoldable pub insert_sorted : Nexthop → List Nexthop → List Nexthop
insert_sorted x [] = x ∷ []
insert_sorted x (a ∷ l) = if ltb x.ifindex a.ifindex then x ∷ a ∷ l else a ∷ insert_sorted x l

insert_sorted-Ordered : (x : Nexthop) (l : List Nexthop) → Ordered l → Ordered (insert_sorted x l)
unfolding insert_sorted
insert_sorted-Ordered x [] h = tt
insert_sorted-Ordered x (a ∷ []) h = ground arith
insert_sorted-Ordered x (a ∷ b ∷ l) h = ground (arith, insert_sorted-Ordered x (b ∷ l))

abbrev counted : Nexthop → Nexthop
counted x = record x { ref_count = x.ref_count + 1 }

-- Into a packed and sorted array with room, `l3_route_insert_nexthop` puts the nexthop, with one more
-- reference, behind those that have at most its index: the array stays packed and sorted.
pub insert_nexthop_lem :
    (x : Nexthop) (l : List Nexthop)
    → length l < 4
    → Ordered l
    → (l3_route_insert_nexthop (packed l) x ≡ (packed (insert_sorted (counted x) l), true))
      × Ordered (insert_sorted (counted x) l)
unfolding l3_route_insert_nexthop insert_sorted
insert_nexthop_lem x [] room h = (refl, tt)
insert_nexthop_lem x (a ∷ []) room h = (ground arith, insert_sorted-Ordered (counted x) (a ∷ []) h)
insert_nexthop_lem x (a ∷ b ∷ []) room h =
    (ground arith, insert_sorted-Ordered (counted x) (a ∷ b ∷ []) h)
insert_nexthop_lem x (a ∷ b ∷ c ∷ []) room h =
    (ground arith, insert_sorted-Ordered (counted x) (a ∷ b ∷ c ∷ []) h)
insert_nexthop_lem x (a ∷ b ∷ c ∷ d ∷ l) room h = absurd (omega arith)

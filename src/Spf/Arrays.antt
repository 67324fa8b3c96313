-- ===== src/Spf/Arrays.antt =====
-- Layer5/spf_algo/spf.c: arrays of pointers to shared nexthops with reference counts.
use networking_protocol_deve.Base.{
  ℕ, suc, ◌+◌, ◌-◌, Bool, true, false, Option, none, some, List, [], ◌∷◌, ◌==◌, ltb, if◌then◌else◌,
  set, ◌>>=◌,
}
use networking_protocol_deve.Base.CString.{prefix}
use networking_protocol_deve.Layer3.Nexthops.{Nexthop, max_nxt_hops}
use networking_protocol_deve.Spf.Topology.{Link}

-- `nexthop_t *nexthops[MAX_NXT_HOPS]`: addresses, with `none` for NULL
abbrev pub Hops : Type 0
Hops = List (Option ℕ)

abbrev pub no_hops : Hops
no_hops = none ∷ none ∷ none ∷ none ∷ []

-- What each address holds, with `none` for free memory, and the first address that was never
-- allocated.
pub record Heap : Type 0 where
  pub cell : ℕ → Option Nexthop
  pub next : ℕ

unfoldable pub store : Heap → ℕ → Option Nexthop → Heap
store h p v = record h { cell = λ q. if q == p then v else h.cell q }

-- the body of the loop of `spf_flush_nexthops`; `none` where the assertion fails or memory is free
unfoldable pub release : Heap → ℕ → Option Heap
unfolding store
release h p = do
  nh ← h.cell p
  let left = nh.ref_count - 1
  let kept = if left == 0 then none else some (record nh { ref_count = left })
  if nh.ref_count == 0 then none else some (store h p kept)

-- `spf_flush_nexthops`, which also leaves the array empty
unfoldable pub spf_flush_nexthops : Heap → Hops → Option Heap
unfolding release
spf_flush_nexthops h [] = some h
spf_flush_nexthops h (none ∷ a) = spf_flush_nexthops h a
spf_flush_nexthops h (some p ∷ a) = do g ← release h p; spf_flush_nexthops g a

-- `ref_count++` through a pointer
unfoldable pub retain : Heap → ℕ → Option Heap
unfolding store
retain h p = do nh ← h.cell p; some (store h p (some (record nh { ref_count = nh.ref_count + 1 })))

-- what `create_new_nexthop` writes
abbrev pub nexthop_through : Link → Nexthop
nexthop_through l = record {
  gw_ip = prefix 16 l.other_intf.ip_add;
  oif = l.oif;
  ref_count = 0;
  ifindex = 0;
  hit_count = 0;
}

-- the other end of a link is always there, so that NULL is not returned
unfoldable pub create_new_nexthop : Heap → Link → Heap × ℕ
unfolding store
create_new_nexthop h l =
    (record (store h h.next (some (nexthop_through l))) { next = h.next + 1 }, h.next)

-- `spf_insert_new_nexthop` without its result, which no caller uses
unfoldable pub spf_insert_new_nexthop : Heap → Hops → ℕ → Option (Heap × Hops)
unfolding retain
spf_insert_new_nexthop h [] p = some (h, [])
spf_insert_new_nexthop h (none ∷ a) p = do g ← retain h p; some (g, some p ∷ a)
spf_insert_new_nexthop h (some q ∷ a) p = do
  (g, b) ← spf_insert_new_nexthop h a p
  some (g, some q ∷ b)

unfoldable pub spf_is_nexthop_exist : Heap → Hops → ℕ → Option Bool
spf_is_nexthop_exist h [] p = some false
spf_is_nexthop_exist h (none ∷ a) p = spf_is_nexthop_exist h a p
spf_is_nexthop_exist h (some q ∷ a) p = do
  other ← h.cell q
  nxthop ← h.cell p
  if other.oif == nxthop.oif then some true else spf_is_nexthop_exist h a p

-- the `while` loop: the first empty slot, from index `j` on
unfoldable pub first_empty : Hops → ℕ → ℕ
first_empty [] j = j
first_empty (none ∷ a) j = j
first_empty (some q ∷ a) j = first_empty a (suc j)

-- the `for` loop, which moves `j` with `i`
unfoldable pub union_from : Heap → Hops → ℕ → Hops → Option (Heap × Hops)
unfolding retain spf_is_nexthop_exist
union_from h [] j dst = some (h, dst)
union_from h (none ∷ src) j dst = union_from h src (suc j) dst
union_from h (some p ∷ src) j dst =
    if ltb j max_nxt_hops
    then (do
      found ← spf_is_nexthop_exist h dst p
      let next = if found then some (h, dst) else (do g ← retain h p; some (g, set dst j (some p)))
      (g, d) ← next
      union_from g src (suc j) d)
    else some (h, dst)

-- `spf_union_nexthops_arrays` without the count, which no caller uses
unfoldable pub spf_union_nexthops_arrays : Heap → Hops → Hops → Option (Heap × Hops)
unfolding union_from first_empty
spf_union_nexthops_arrays h src dst = union_from h src (first_empty dst 0) dst

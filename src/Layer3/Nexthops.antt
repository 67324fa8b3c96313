-- ===== src/Layer3/Nexthops.antt =====
-- Layer3/layer3.c: the nexthops of a route, an array of MAX_NXT_HOPS pointers.
use networking_protocol_deve.Base.{
  ℕ, zero, suc, ◌+◌, Bool, true, false, ◌&&◌, ◌||◌, not, Option, none, some, List, [], ◌∷◌, ◌==◌,
  ltb, if◌then◌else◌, get_or, set, is_some,
}
use networking_protocol_deve.Base.CString.{Chars, strncmp_eq}
pub mod Sorted

-- `nexthop_t`; the interface `oif` is named by a number.
pub record Nexthop : Type 0 where
  pub gw_ip : Chars
  pub oif : ℕ
  pub ref_count : ℕ
  pub ifindex : ℕ
  pub hit_count : ℕ

abbrev pub max_nxt_hops : ℕ
max_nxt_hops = 4

-- `nexthop_t *nexthops[MAX_NXT_HOPS]`
abbrev pub NexthopArray : Type 0
NexthopArray = List (Option Nexthop)

-- the entry on the left is empty or has the greater index
unfoldable pub goes_before : Option Nexthop → Option Nexthop → Bool
goes_before none cur = true
goes_before (some left) none = true
goes_before (some left) (some cur) = ltb cur.ifindex left.ifindex

-- The `while` loop from index `i` down.
unfoldable pub sift_left : ℕ → NexthopArray → NexthopArray
unfolding goes_before
sift_left zero arr = arr
sift_left (suc i) arr =
    let left = get_or arr i none in
    let cur = get_or arr (suc i) none in
    let rest = sift_left i (set (set arr i cur) (suc i) left) in
    if goes_before left cur then rest else arr

-- `l3_route_insert_nexthop` on the array
unfoldable pub l3_route_insert_nexthop : NexthopArray → Nexthop → NexthopArray × Bool
unfolding sift_left
l3_route_insert_nexthop arr nexthop = if is_some (get_or arr 3 none) then (arr, false) else (
  sift_left 3 (set arr 3 (some (record nexthop { ref_count = nexthop.ref_count + 1 }))),
  true,
)

-- What the loop of `rt_table_add_route` over the array of an existing route finds.
pub data Scan : Type 0 where
  duplicate free_slot no_slot : Scan

unfoldable pub scan_nexthops : Chars → ℕ → NexthopArray → Scan
scan_nexthops gw oif [] = no_slot
scan_nexthops gw oif (none ∷ arr) = free_slot
scan_nexthops gw oif (some nh ∷ arr) =
    if strncmp_eq 16 nh.gw_ip gw && nh.oif == oif then duplicate else scan_nexthops gw oif arr

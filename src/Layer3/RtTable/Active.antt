-- ===== src/Layer3/RtTable/Active.antt =====
-- The nexthops of a route are used in turn, and what clearing the table leaves.
use networking_protocol_deve.Base.{
  ℕ, zero, suc, ◌+◌, ◌%◌, ◌<◌, ◌≤◌, ◌≡◌, refl, false, List, [], ◌∷◌, arith, length, get_elem?,
  if◌then◌else◌, inl, inr, ◌⊎◌,
}
use networking_protocol_deve.Layer3.Nexthops.{Nexthop}
use networking_protocol_deve.Layer3.Nexthops.Sorted.{packed}
use networking_protocol_deve.Layer3.RtTable.{
  Route, RtTable, Notice, notice, rt_del_f, l3_route_get_active_nexthop, clear_routes,
  clear_rt_table,
}

below_four : (i : ℕ) → i < 4 → (i ≡ 0) ⊎ ((i ≡ 1) ⊎ ((i ≡ 2) ⊎ (i ≡ 3)))
below_four zero h = inl refl
below_four (suc zero) h = inr (inl refl)
below_four (suc (suc zero)) h = inr (inr (inl refl))
below_four (suc (suc (suc zero))) h = inr (inr (inr refl))
below_four (suc (suc (suc (suc n)))) h = absurd (omega arith)

-- A route with a gateway uses its nexthops in turn: each call returns the one at the index, and moves
-- the index to the next one, from the last to the first.
pub active_nexthop_turns :
    (r : Route) (l : List Nexthop)
    → r.is_direct ≡ false
    → r.nexthops ≡ packed l
    → length l ≤ 4
    → r.nxthop_idx < length l
    → ((l3_route_get_active_nexthop r).0 ≡ get_elem? l r.nxthop_idx)
      × ((l3_route_get_active_nexthop r).1.nexthops ≡ packed l)
      × ((l3_route_get_active_nexthop r).1.nxthop_idx ≡ (r.nxthop_idx + 1) % length l)
unfolding l3_route_get_active_nexthop
active_nexthop_turns r [] d e s i = absurd (omega arith)
active_nexthop_turns r (a ∷ []) d e s i = ground arith
active_nexthop_turns r (a ∷ b ∷ []) d e s i = ground arith
active_nexthop_turns r (a ∷ b ∷ c ∷ []) d e s i = ground arith
active_nexthop_turns r (a ∷ b ∷ c ∷ x ∷ []) d e s i = elim (below_four r.nxthop_idx i) [
  | inl q ↦ ground arith
  | inr (inl q) ↦ ground arith
  | inr (inr (inl q)) ↦ ground arith
  | inr (inr (inr q)) ↦ ground arith
]
active_nexthop_turns r (a ∷ b ∷ c ∷ x ∷ y ∷ l) d e s i = absurd (omega arith)

-- the direct routes of a list
unfoldable pub direct_only : List Route → List Route
direct_only [] = []
direct_only (r ∷ rs) = if r.is_direct then r ∷ direct_only rs else direct_only rs

-- Clearing the table leaves its direct routes, in their order.
pub clear-direct_only : (t : RtTable) → (clear_rt_table t).routes ≡ direct_only t.routes
unfolding clear_rt_table direct_only
clear-direct_only t = go t.routes t.notices
  where
    go : (rs : List Route) (out : List Notice) → (clear_routes rs out).0 ≡ direct_only rs
    go [] out = refl
    go (r ∷ rs) out = ground (arith, go rs out, go rs (notice r rt_del_f ∷ out))
